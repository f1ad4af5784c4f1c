-- ===== src/Input/Standalone.antt =====
-- readInput.c, a program of its own that reads both input files: its `ClientInput` has no name of the
-- received file.
use tcp_implementation_over.Common.{
  ℕ, ◌+◌, ◌≡◌, refl, ap, ap₂, sym, ◌∙◌, Bool, Option, none, some, List, [], ◌∷◌, ◌++◌, ◌==◌,
  if◌then◌else◌, length, arith, inl, inr, Bool-cases,
}
use tcp_implementation_over.Common.Int.{ℤ}
use tcp_implementation_over.Input
use tcp_implementation_over.Input.{
  is_empty, buffers, c_string, chomp, atoi, is_zero, Reading, ok, exits, out_of_bounds, ◌>>=◌,
  ServerInput, received_suffix,
}
use tcp_implementation_over.Input.Fields.{bind-eq}

pub record ClientInput (F : Type 0) : Type 0 where
  pub server_ip : List ℕ
  pub server_port : ℤ
  pub file_name : List ℕ
  pub receiving_window_size : ℤ
  pub seed_value : ℤ
  pub p_data_loss : F
  pub mean : ℤ

module _ {F : Type 0} (inet_pton : List ℕ → Bool) (atof : List ℕ → F) where
  pub set_client_field : ℕ → List ℕ → ClientInput F → Reading (ClientInput F)
  set_client_field count line c =
      if count == 0
      then (if inet_pton line then ok (record c { server_ip = line }) else exits)
      else if count == 1
      then (if is_zero (atoi line) then exits else ok (record c { server_port = atoi line }))
      else if count == 2
      then ok (record c { file_name = line })
      else if count == 3
      then ok (record c { receiving_window_size = atoi line })
      else if count == 4
      then ok (record c { seed_value = atoi line })
      else if count == 5
      then ok (record c { p_data_loss = atof line })
      else if count == 6
      then ok (record c { mean = atoi line })
      else exits

  pub client_lines : List (List ℕ) → ℕ → ClientInput F → Reading (ClientInput F)
  unfolding set_client_field
  client_lines [] count c = ok c
  client_lines (b ∷ bs) count c =
      let next =
        set_client_field count (chomp (c_string b)) c >>= λ c'. client_lines bs (count + 1) c' in
      let same = client_lines bs count c in if is_empty (c_string b) then same else next

  pub read_client_input : Option (List ℕ) → ClientInput F → Reading (ClientInput F)
  unfolding client_lines
  read_client_input none c = exits
  read_client_input (some s) c = client_lines (buffers (length s) s) 0 c

  -- The same input in client.c, where the name of the received file is `received` so far.
  abbrev pub extend : List ℕ → ClientInput F → Input.ClientInput F
  extend received c = record {
    server_ip = c.server_ip;
    server_port = c.server_port;
    file_name = c.file_name;
    receiving_window_size = c.receiving_window_size;
    seed_value = c.seed_value;
    p_data_loss = c.p_data_loss;
    mean = c.mean;
    file_name_received = received;
  }

  abbrev pub map_ok : {A B : Type 0} → (A → B) → Reading A → Reading B
  map_ok f r = r >>= λ a. ok (f a)

  set_client_field-extend :
      (received : List ℕ) (count : ℕ) (line : List ℕ) (c : ClientInput F)
      → Input.set_client_field inet_pton atof count line (extend received c)
        ≡ map_ok (extend received) (set_client_field count line c)
  unfolding set_client_field Input.set_client_field
  set_client_field-extend received count line c = ground arith

  map_ok-bind :
      {A B C : Type 0} (m : Reading A) (f : A → Reading B) (g : B → C)
      → map_ok g (m >>= f) ≡ (m >>= λ a. map_ok g (f a))
  map_ok-bind (ok a) f g = refl
  map_ok-bind exits f g = refl
  map_ok-bind out_of_bounds f g = refl

  bind-map_ok :
      {A B C : Type 0} (m : Reading A) (f : A → B) (g : B → Reading C)
      → (map_ok f m >>= g) ≡ (m >>= λ a. g (f a))
  bind-map_ok (ok a) f g = refl
  bind-map_ok exits f g = refl
  bind-map_ok out_of_bounds f g = refl

  client_lines-extend :
      (received : List ℕ) (bs : List (List ℕ)) (count : ℕ) (c : ClientInput F)
      → Input.client_lines inet_pton atof bs count (extend received c)
        ≡ map_ok (extend received) (client_lines bs count c)
  unfolding client_lines Input.client_lines
  client_lines-extend received [] count c = refl
  client_lines-extend received (b ∷ bs) count c = elim (Bool-cases (is_empty (c_string b))) [
    | inl blank ↦ rw blank (client_lines-extend received bs count c)
    | inr line ↦
        let l = chomp (c_string b) in
        let m = set_client_field count l c in
        rw line (
          ap
            (λ (r : Reading (Input.ClientInput F)).
              r >>= λ d. Input.client_lines inet_pton atof bs (count + 1) d)
            (set_client_field-extend received count l c)
          ∙ bind-map_ok m (extend received)
              (λ d. Input.client_lines inet_pton atof bs (count + 1) d)
          ∙ bind-eq m _ _ (λ d. client_lines-extend received bs (count + 1) d)
          ∙ sym (map_ok-bind m (λ d. client_lines bs (count + 1) d) (extend received)))
  ]

  -- On every file, readable or not, the reader of client.c does what that of readInput.c does, and adds
  -- the name of the received file.
  pub read_client_input-eq :
      (received : List ℕ) (f : Option (List ℕ)) (c : ClientInput F)
      → Input.read_client_input inet_pton atof f (extend received c)
        ≡ map_ok (λ d. extend (d.file_name ++ received_suffix) d) (read_client_input f c)
  unfolding read_client_input Input.read_client_input
  read_client_input-eq received none c = refl
  read_client_input-eq received (some s) c =
      let lines = client_lines (buffers (length s) s) 0 c in
      ap
        (λ (r : Reading (Input.ClientInput F)).
          r >>= λ d. ok (record d { file_name_received = d.file_name ++ received_suffix }))
        (client_lines-extend received (buffers (length s) s) 0 c)
      ∙ bind-map_ok lines (extend received)
          (λ d. ok (record d { file_name_received = d.file_name ++ received_suffix }))

-- Its reader of the server's input.
pub set_server_field : ℕ → List ℕ → ServerInput → Reading ServerInput
set_server_field count line c =
    if count == 0
    then (if is_zero (atoi line) then exits else ok (record c { server_port = atoi line }))
    else if count == 1
    then ok (record c { sending_window_size = atoi line })
    else exits

pub server_lines : List (List ℕ) → ℕ → ServerInput → Reading ServerInput
unfolding set_server_field
server_lines [] count c = ok c
server_lines (b ∷ bs) count c =
    let line = chomp (c_string b) in
    let next = set_server_field count line c >>= λ c'. server_lines bs (count + 1) c' in
    let same = server_lines bs count c in
    if is_empty (c_string b) then out_of_bounds else if is_empty line then same else next

pub read_server_input : Option (List ℕ) → ServerInput → Reading ServerInput
unfolding server_lines
read_server_input none c = exits
read_server_input (some s) c = server_lines (buffers (length s) s) 0 c

set_server_field-eq :
    (count : ℕ) (line : List ℕ) (c : ServerInput)
    → Input.set_server_field count line c ≡ set_server_field count line c
unfolding set_server_field Input.set_server_field
set_server_field-eq count line c = refl

server_lines-eq :
    (bs : List (List ℕ)) (count : ℕ) (c : ServerInput)
    → Input.server_lines bs count c ≡ server_lines bs count c
unfolding server_lines Input.server_lines
server_lines-eq [] count c = refl
server_lines-eq (b ∷ bs) count c =
    let line = chomp (c_string b) in
    ap₂
      (λ (p q : Reading ServerInput).
        if is_empty (c_string b) then out_of_bounds else if is_empty line then p else q)
      (server_lines-eq bs count c)
      (ap (λ (m : Reading ServerInput). m >>= λ d. Input.server_lines bs (count + 1) d)
          (set_server_field-eq count line c)
        ∙ bind-eq (set_server_field count line c) _ _ (λ d. server_lines-eq bs (count + 1) d))

-- On every file the reader of server.c and that of readInput.c agree.
pub read_server_input-eq :
    (f : Option (List ℕ)) (c : ServerInput) → Input.read_server_input f c ≡ read_server_input f c
unfolding read_server_input Input.read_server_input
read_server_input-eq none c = refl
read_server_input-eq (some s) c = server_lines-eq (buffers (length s) s) 0 c
