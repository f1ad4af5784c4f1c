-- ===== src/Input/Fields.antt =====
-- What the readers make of the lines of an input file.
use tcp_implementation_over.Common.{
  ℕ, ◌+◌, ◌≤◌, ◌<◌, ◌≡◌, refl, ap, ◌∙◌, Bool, true, false, some, List, [], ◌∷◌, ◌++◌, arith, length,
  map, dec_lt,
}
use tcp_implementation_over.Input.{
  atoi, is_zero, Reading, ok, exits, out_of_bounds, ◌>>=◌, ClientInput, received_suffix,
  set_client_field, client_lines, read_client_input,
}
use tcp_implementation_over.Input.Buffers.{
  IsLine, AllLines, ended, text_of, buffers_lem, c_string-ended, chomp-ended, ended-not_empty,
}

pub bind-eq :
    {A B : Type 0} (m : Reading A) (f g : A → Reading B)
    → ((a : A) → f a ≡ g a)
    → (m >>= f) ≡ (m >>= g)
bind-eq (ok a) f g h = h a
bind-eq exits f g h = refl
bind-eq out_of_bounds f g h = refl

module _ {F : Type 0} (inet_pton : List ℕ → Bool) (atof : List ℕ → F) where
  abbrev Input : Type 0
  Input = ClientInput F

  -- The fields set from the lines in order, the blank ones too.
  abbrev pub client_fields : List (List ℕ) → ℕ → Input → Reading Input
  client_fields [] count c = ok c
  client_fields (l ∷ ls) count c =
      set_client_field inet_pton atof count l c >>= λ c'. client_fields ls (count + 1) c'

  abbrev pub with_received : Input → Reading Input
  with_received c = ok (record c { file_name_received = c.file_name ++ received_suffix })

  client_lines-ended :
      (ls : List (List ℕ)) (count : ℕ) (c : Input)
      → AllLines ls
      → client_lines inet_pton atof (map ended ls) count c ≡ client_fields ls count c
  unfolding client_lines
  client_lines-ended [] count c a = refl
  client_lines-ended (l ∷ ls) count c a =
      rw (c_string-ended l a.0.text, ended-not_empty l, chomp-ended l)
        (bind-eq (set_client_field inet_pton atof count l c) _ _
          (λ c'. client_lines-ended ls (count + 1) c' a.1))

  -- The client's reader sets its fields from the lines in order, blank lines included; what follows
  -- the last newline is ignored. The lines are free of zero bytes and fit into the buffer.
  pub read_client_input_lem :
      (ls : List (List ℕ)) (t : List ℕ) (c : Input)
      → AllLines ls
      → IsLine t
      → read_client_input inet_pton atof (some (text_of ls ++ t)) c
        ≡ (client_fields ls 0 c >>= with_received)
  unfolding read_client_input
  read_client_input_lem ls t c a x =
      ap (λ (bs : List (List ℕ)). client_lines inet_pton atof bs 0 c >>= with_received)
        (buffers_lem ls t a x)
      ∙ ap (λ (r : Reading Input). r >>= with_received) (client_lines-ended ls 0 c a)

  -- Seven lines, with a valid address and a port other than 0, give exactly the seven fields.
  pub read_client_input-seven :
      (ip port name window seed loss mean t : List ℕ) (c : Input)
      → AllLines (ip ∷ port ∷ name ∷ window ∷ seed ∷ loss ∷ mean ∷ [])
      → IsLine t
      → inet_pton ip ≡ true
      → is_zero (atoi port) ≡ false
      → read_client_input inet_pton atof
          (some (text_of (ip ∷ port ∷ name ∷ window ∷ seed ∷ loss ∷ mean ∷ []) ++ t))
          c
        ≡ ok (record {
          server_ip = ip;
          server_port = atoi port;
          file_name = name;
          receiving_window_size = atoi window;
          seed_value = atoi seed;
          p_data_loss = atof loss;
          mean = atoi mean;
          file_name_received = name ++ received_suffix;
        })
  unfolding set_client_field
  read_client_input-seven ip port name window seed loss mean t c a x valid used =
      read_client_input_lem (ip ∷ port ∷ name ∷ window ∷ seed ∷ loss ∷ mean ∷ []) t c a x
      ∙ rw (valid, used) refl

  never_out : {A : Type 0} → Reading A → Bool
  never_out out_of_bounds = false
  never_out _ = true

  bind-exits :
      {A B : Type 0} (m : Reading A) (f : A → Reading B)
      → never_out m ≡ true
      → ((a : A) → f a ≡ exits)
      → (m >>= f) ≡ exits
  unfolding never_out
  bind-exits (ok a) f n h = h a
  bind-exits exits f n h = refl
  bind-exits out_of_bounds f n h = cc

  set_client_field-never_out :
      (count : ℕ) (l : List ℕ) (c : Input)
      → never_out (set_client_field inet_pton atof count l c) ≡ true
  unfolding set_client_field never_out
  set_client_field-never_out count l c = ground arith

  set_client_field-eighth : (l : List ℕ) (c : Input) → set_client_field inet_pton atof 7 l c ≡ exits
  unfolding set_client_field
  set_client_field-eighth l c = refl

  pub client_fields-exits :
      (ls : List (List ℕ)) (count : ℕ) (c : Input)
      → count ≤ 7
      → 7 < count + length ls
      → client_fields ls count c ≡ exits
  client_fields-exits [] count c h n = absurd (omega arith)
  client_fields-exits (l ∷ ls) count c h n = elim (dec_lt count 7) [
    | yes more ↦
        bind-exits (set_client_field inet_pton atof count l c)
          (λ c'. client_fields ls (count + 1) c') (set_client_field-never_out count l c)
          (λ c'. client_fields-exits ls (count + 1) c' (omega arith) (omega arith))
    | no last ↦ let here : count ≡ 7 = omega arith in rw (here, set_client_field-eighth l c) refl
  ]

  -- With more than seven lines the client exits, whatever they say.
  pub read_client_input-exits :
      (ls : List (List ℕ)) (t : List ℕ) (c : Input)
      → AllLines ls
      → IsLine t
      → 7 < length ls
      → read_client_input inet_pton atof (some (text_of ls ++ t)) c ≡ exits
  read_client_input-exits ls t c a x n =
      read_client_input_lem ls t c a x
      ∙ ap (λ (r : Reading Input). r >>= with_received)
          (client_fields-exits ls 0 c (omega arith) (omega arith))
