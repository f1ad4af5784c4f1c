-- ===== src/Input/Fits.antt =====
-- The copies of the client's reader stay inside the fields of `ClientInput`.
use tcp_implementation_over.Common.{
  ℕ, zero, suc, ◌+◌, ◌≤◌, ◌<◌, ◌≡◌, refl, Bool, true, false, Option, none, some, List, [], ◌∷◌,
  ◌++◌, ◌||◌, arith, length, length-append, if◌then◌else◌, inl, inr, Bool-cases, subst,
}
use tcp_implementation_over.Input.{
  buffer_room, is_empty, fgets, buffers, c_string, chomp, Reading, ok, exits, out_of_bounds, ◌>>=◌,
  ClientInput, received_suffix, set_client_field, client_lines, read_client_input,
}
use tcp_implementation_over.Input.Buffers.{fgets-length}

abbrev AllShort : List (List ℕ) → Type 0
AllShort [] = Unit
AllShort (b ∷ bs) = (length b ≤ buffer_room) × AllShort bs

next-AllShort :
    (b : Bool) (line : List ℕ) (bs : List (List ℕ))
    → length line ≤ buffer_room
    → AllShort bs
    → AllShort (if b then [] else line ∷ bs)
next-AllShort true line bs h a = tt
next-AllShort false line bs h a = (h, a)

buffers-AllShort : (fuel : ℕ) (s : List ℕ) → AllShort (buffers fuel s)
unfolding buffers
buffers-AllShort zero s = tt
buffers-AllShort (suc fuel) s =
    let (line, eof, rest) = fgets buffer_room s in
    next-AllShort (is_empty line || eof) line (buffers fuel rest) (fgets-length buffer_room s).1
      (buffers-AllShort fuel rest)

length-c_string : (s : List ℕ) → length (c_string s) ≤ length s
unfolding c_string
length-c_string [] = omega arith
length-c_string (c ∷ s) = ground (arith, length-c_string s)

length-chomp : (s : List ℕ) → length (chomp s) ≤ length s
unfolding chomp
length-chomp [] = omega arith
length-chomp (c ∷ []) = ground arith
length-chomp (c ∷ d ∷ s) = omega (arith, length-chomp (d ∷ s))

bind-eq-ok :
    {A B : Type 0} (m : Reading A) (f : A → Reading B) (b : B)
    → (m >>= f) ≡ ok b
    → (a : A) × (m ≡ ok a) × (f a ≡ ok b)
bind-eq-ok (ok a) f b e = (a, refl, e)
bind-eq-ok exits f b e = cc
bind-eq-ok out_of_bounds f b e = cc

module _ {F : Type 0} (inet_pton : List ℕ → Bool) (atof : List ℕ → F)
    (address_short : (s : List ℕ) → inet_pton s ≡ true → length s < 16) where
  -- What the copies need: room in `serverIP` and in `fileName`.
  record Fits (c : ClientInput F) : Type 0 where
    pub ip : length c.server_ip < 16
    pub name : length c.file_name ≤ buffer_room

  abbrev Result : Reading (ClientInput F) → Type 0
  Result (ok c) = Fits c
  Result exits = Unit
  Result out_of_bounds = Unit

  abbrev Bounded : Reading (ClientInput F) → Type 0
  Bounded (ok c) =
      (length c.server_ip < 16) × (length c.file_name < 512) × (length c.file_name_received < 512)
  Bounded exits = Unit
  Bounded out_of_bounds = Unit

  set_client_field-Fits :
      (count : ℕ) (line : List ℕ) (c c' : ClientInput F)
      → length line ≤ buffer_room
      → Fits c
      → set_client_field inet_pton atof count line c ≡ ok c'
      → Fits c'
  unfolding set_client_field
  set_client_field-Fits count line c c' short h e = record {
    ip = ground (arith, e, address_short line);
    name = ground (arith, e);
  }

  client_lines-Fits :
      (bs : List (List ℕ)) (count : ℕ) (c c' : ClientInput F)
      → AllShort bs
      → Fits c
      → client_lines inet_pton atof bs count c ≡ ok c'
      → Fits c'
  unfolding client_lines
  client_lines-Fits [] count c c' a h e = subst (λ (r : Reading (ClientInput F)). Result r) e h
  client_lines-Fits (b ∷ bs) count c c' a h e = elim (Bool-cases (is_empty (c_string b))) [
    | inl blank ↦ client_lines-Fits bs count c c' a.1 h (rw blank at e)
    | inr line ↦
        let set = set_client_field inet_pton atof count (chomp (c_string b)) c in
        let (c1, e1, e2) =
          bind-eq-ok set (λ d. client_lines inet_pton atof bs (count + 1) d) c' (rw line at e) in
        let short : length (chomp (c_string b)) ≤ buffer_room =
          omega (arith, length-chomp (c_string b), length-c_string b, a.0) in
        client_lines-Fits bs (count + 1) c1 c' a.1
          (set_client_field-Fits count (chomp (c_string b)) c c1 short h e1) e2
  ]

  -- Let `inet_pton` accept no address of 16 bytes or more, and let the fields hold strings of at most 15
  -- and 255 bytes before. Whatever the file holds, the address, the file's name and the name of the
  -- received file fit into their arrays of 16, 512 and 512 bytes.
  pub read_client_input-fits :
      (f : Option (List ℕ)) (c c' : ClientInput F)
      → length c.server_ip < 16
      → length c.file_name ≤ buffer_room
      → read_client_input inet_pton atof f c ≡ ok c'
      → (length c'.server_ip < 16)
        × (length c'.file_name < 512)
        × (length c'.file_name_received < 512)
  unfolding read_client_input
  read_client_input-fits none c c' ip name e = absurd (cc e)
  read_client_input-fits (some s) c c' ip name e =
      let (d, e1, e2) =
        bind-eq-ok (client_lines inet_pton atof (buffers (length s) s) 0 c)
          (λ d. ok (record d { file_name_received = d.file_name ++ received_suffix })) c' e in
      let h =
        client_lines-Fits (buffers (length s) s) 0 c d (buffers-AllShort (length s) s)
          (record { ip = ip; name = name }) e1 in
      finish d c' h e2
    where
      finish :
          (d c' : ClientInput F)
          → Fits d
          → ◌≡◌ {A = Reading (ClientInput F)}
              (ok (record d { file_name_received = d.file_name ++ received_suffix }))
              (ok c')
          → (length c'.server_ip < 16)
            × (length c'.file_name < 512)
            × (length c'.file_name_received < 512)
      finish d c' h e2 =
          let kept : Bounded
              (ok (record d { file_name_received = d.file_name ++ received_suffix })) =
            (
              h.ip,
              omega (arith, h.name),
              omega (arith, h.name, length-append d.file_name received_suffix),
            ) in
          subst Bounded e2 kept
