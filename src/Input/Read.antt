-- ===== src/Input/Read.antt =====
-- The inputs that the readers of client.c and server.c make of the lines of their files.
use tcp_implementation_over.Common.{
  ℕ, ◌<◌, ◌≡◌, refl, ap, ◌∙◌, Bool, true, false, not, Option, none, some, List, [], ◌∷◌, ◌++◌, ◌&&◌,
  arith, length, leb, get_elem?, inl, inr, Bool-cases, if◌then◌else◌,
}
use tcp_implementation_over.Input.{
  atoi, is_zero, Reading, ok, exits, ◌>>=◌, ClientInput, ServerInput, received_suffix,
  set_client_field, set_server_field, read_client_input, read_server_input,
}
use tcp_implementation_over.Input.Buffers.{IsLine, AllLines, text_of}
use tcp_implementation_over.Input.Fields.{
  client_fields, with_received, client_fields-exits, read_client_input_lem,
}
use tcp_implementation_over.Input.Server.{server_fields, not_blank, read_server_input_lem}

-- What is read of a line, if it is there.
abbrev pub read_or : {A : Type 0} → A → (List ℕ → A) → Option (List ℕ) → A
read_or old f none = old
read_or old f (some l) = f l

module _ {F : Type 0} (inet_pton : List ℕ → Bool) (atof : List ℕ → F) where
  -- The lines that the client accepts: at most seven, the first one an address, and the second one a port
  -- other than 0.
  abbrev pub are_client_lines : List (List ℕ) → Bool
  are_client_lines ls =
      read_or true inet_pton (get_elem? ls 0)
      && read_or true (λ l. not (is_zero (atoi l))) (get_elem? ls 1)
      && leb (length ls) 7

  -- Each of the seven fields from its own line, the others as they were.
  abbrev pub client_input_of : List (List ℕ) → ClientInput F → ClientInput F
  client_input_of ls c =
      let name = read_or c.file_name (λ l. l) (get_elem? ls 2) in
      record {
        server_ip = read_or c.server_ip (λ l. l) (get_elem? ls 0);
        server_port = read_or c.server_port atoi (get_elem? ls 1);
        file_name = name;
        receiving_window_size = read_or c.receiving_window_size atoi (get_elem? ls 3);
        seed_value = read_or c.seed_value atoi (get_elem? ls 4);
        p_data_loss = read_or c.p_data_loss atof (get_elem? ls 5);
        mean = read_or c.mean atoi (get_elem? ls 6);
        file_name_received = name ++ received_suffix;
      }

  abbrev Reads : List (List ℕ) → ClientInput F → Type 0
  Reads ls c =
      (client_fields inet_pton atof ls 0 c >>= with_received inet_pton atof)
      ≡ (if are_client_lines ls then ok (client_input_of ls c) else exits)

  one-Reads : (a : List ℕ) (c : ClientInput F) → Reads (a ∷ []) c
  unfolding set_client_field
  one-Reads a c = elim (Bool-cases (inet_pton a)) [
    | inl valid ↦ rw valid refl
    | inr wrong ↦ rw wrong refl
  ]

  -- The lines behind the first two, of which there are five at most.
  later-Reads :
      (a b : List ℕ) (ls : List (List ℕ)) (c : ClientInput F)
      → ((client_fields inet_pton atof ls 2 (record c { server_ip = a; server_port = atoi b })
            >>= with_received inet_pton atof)
          ≡ (if leb (length (a ∷ b ∷ ls)) 7 then ok (client_input_of (a ∷ b ∷ ls) c) else exits))
      → Reads (a ∷ b ∷ ls) c
  unfolding set_client_field
  later-Reads a b ls c h = elim (Bool-cases (inet_pton a)) [
    | inr wrong ↦ rw wrong refl
    | inl valid ↦ elim (Bool-cases (is_zero (atoi b))) [
      | inl zero ↦ rw (valid, zero) refl
      | inr used ↦ rw (valid, used) h
    ]
  ]

  many-Reads : (ls : List (List ℕ)) (c : ClientInput F) → 7 < length ls → Reads ls c
  many-Reads ls c n =
      let no : leb (length ls) 7 ≡ false = ground (arith, n) in
      let refused : are_client_lines ls ≡ false = ground (arith, no) in
      ap (λ (r : Reading (ClientInput F)). r >>= with_received inet_pton atof)
        (client_fields-exits inet_pton atof ls 0 c (omega arith) (omega (arith, n)))
      ∙ rw refused refl

  fields-Reads : (ls : List (List ℕ)) (c : ClientInput F) → Reads ls c
  unfolding set_client_field
  fields-Reads [] c = refl
  fields-Reads (a ∷ []) c = one-Reads a c
  fields-Reads (a ∷ b ∷ []) c = later-Reads a b [] c refl
  fields-Reads (a ∷ b ∷ d ∷ []) c = later-Reads a b (d ∷ []) c refl
  fields-Reads (a ∷ b ∷ d ∷ e ∷ []) c = later-Reads a b (d ∷ e ∷ []) c refl
  fields-Reads (a ∷ b ∷ d ∷ e ∷ f ∷ []) c = later-Reads a b (d ∷ e ∷ f ∷ []) c refl
  fields-Reads (a ∷ b ∷ d ∷ e ∷ f ∷ g ∷ []) c = later-Reads a b (d ∷ e ∷ f ∷ g ∷ []) c refl
  fields-Reads (a ∷ b ∷ d ∷ e ∷ f ∷ g ∷ i ∷ []) c = later-Reads a b (d ∷ e ∷ f ∷ g ∷ i ∷ []) c refl
  fields-Reads (a ∷ b ∷ d ∷ e ∷ f ∷ g ∷ i ∷ j ∷ ls) c =
      many-Reads (a ∷ b ∷ d ∷ e ∷ f ∷ g ∷ i ∷ j ∷ ls) c (omega arith)

  -- Of lines that are free of zero bytes and fit into the buffer, blank ones included, the client accepts
  -- at most seven, the first an address and the second a port other than 0; the address, the port, the name
  -- of the file, the window, the seed, the loss and the mean are read from them in this order, those
  -- without a line stay, and the name of the received file is that of the file with its ending. With any
  -- other lines it exits. What follows the last newline is ignored.
  pub read_client_input-accepted :
      (ls : List (List ℕ)) (t : List ℕ) (c : ClientInput F)
      → AllLines ls
      → IsLine t
      → read_client_input inet_pton atof (some (text_of ls ++ t)) c
        ≡ (if are_client_lines ls then ok (client_input_of ls c) else exits)
  read_client_input-accepted ls t c a x =
      read_client_input_lem inet_pton atof ls t c a x ∙ fields-Reads ls c

-- The lines that the server accepts: at most two, the first one a port other than 0.
abbrev pub are_server_lines : List (List ℕ) → Bool
are_server_lines ls =
    read_or true (λ l. not (is_zero (atoi l))) (get_elem? ls 0) && leb (length ls) 2

abbrev pub server_input_of : List (List ℕ) → ServerInput → ServerInput
server_input_of ls c = record {
  server_port = read_or c.server_port atoi (get_elem? ls 0);
  sending_window_size = read_or c.sending_window_size atoi (get_elem? ls 1);
}

server_fields-accepted :
    (ls : List (List ℕ)) (c : ServerInput)
    → server_fields ls 0 c ≡ (if are_server_lines ls then ok (server_input_of ls c) else exits)
unfolding set_server_field
server_fields-accepted [] c = refl
server_fields-accepted (a ∷ []) c = elim (Bool-cases (is_zero (atoi a))) [
  | inl zero ↦ rw zero refl
  | inr used ↦ rw used refl
]
server_fields-accepted (a ∷ b ∷ []) c = elim (Bool-cases (is_zero (atoi a))) [
  | inl zero ↦ rw zero refl
  | inr used ↦ rw used refl
]
server_fields-accepted (a ∷ b ∷ d ∷ ls) c =
    let no : leb (length (a ∷ b ∷ d ∷ ls)) 2 ≡ false = ground arith in
    elim (Bool-cases (is_zero (atoi a))) [ inl zero ↦ rw zero refl | inr used ↦ rw (used, no) refl ]

-- Of lines that are free of zero bytes and fit into the buffer, the server passes over the blank ones, and
-- accepts at most two others, the first a port other than 0; the port and the window are read from them in
-- this order, and what has no line stays. With any other lines it exits. What follows the last newline is
-- ignored.
pub read_server_input-accepted :
    (ls : List (List ℕ)) (t : List ℕ) (c : ServerInput)
    → AllLines ls
    → IsLine t
    → read_server_input (some (text_of ls ++ t)) c
      ≡ (if are_server_lines (not_blank ls) then ok (server_input_of (not_blank ls) c) else exits)
read_server_input-accepted ls t c a x =
    read_server_input_lem ls t c a x ∙ server_fields-accepted (not_blank ls) c
