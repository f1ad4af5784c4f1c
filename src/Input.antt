-- ===== src/Input.antt =====
-- The input files: `readClientInput` of client.c and `readServerInput` of server.c.
-- A file is its bytes, a string of C the bytes before its terminating 0. `fgets` and `atoi` are those of
-- the C library; a number that `atoi` cannot hold in an `int` is not cut. `inet_pton` and `atof` are
-- parameters, the numbers with a fraction too.
pub mod Buffers
pub mod Fields
pub mod Server
pub mod Read
pub mod Fits
pub mod Standalone
mod Tests
use tcp_implementation_over.Common.{
  ℕ, zero, suc, ◌+◌, ◌-◌, ◌*◌, Bool, true, false, Option, none, some, List, [], ◌∷◌, ◌++◌, ◌&&◌,
  ◌||◌, ◌==◌, if◌then◌else◌, leb, length,
}
use tcp_implementation_over.Common.Int.{ℤ, pos, ◌-ℤ◌}

abbrev pub newline : ℕ
newline = b'\n'

-- `sizeof (buffer) - 1`
abbrev pub buffer_room : ℕ
buffer_room = 255

abbrev pub is_empty : List ℕ → Bool
is_empty [] = true
is_empty (c ∷ s) = false

-- `fgets` with room for `n` bytes: what it reads, whether it met the end of the file, and the rest.
unfoldable pub fgets : ℕ → List ℕ → List ℕ × Bool × List ℕ
fgets zero s = ([], false, s)
fgets (suc n) [] = ([], true, [])
fgets (suc n) (c ∷ s) =
    let (line, eof, rest) = fgets n s in
    if c == newline then (c ∷ [], false, s) else (c ∷ line, eof, rest)

-- The buffers that the loop's body gets: `fgets` until it reads nothing, or `feof` holds. Each takes a
-- byte at least, so that the length of the file is fuel enough.
unfoldable pub buffers : ℕ → List ℕ → List (List ℕ)
unfolding fgets
buffers zero s = []
buffers (suc fuel) s =
    let (line, eof, rest) = fgets buffer_room s in
    let more = line ∷ buffers fuel rest in if is_empty line || eof then [] else more

-- `strlen` ends at the first 0.
unfoldable pub c_string : List ℕ → List ℕ
c_string [] = []
c_string (c ∷ s) = if c == 0 then [] else c ∷ c_string s

-- A newline at the end of a string is overwritten.
unfoldable pub chomp : List ℕ → List ℕ
chomp [] = []
chomp (c ∷ []) = if c == newline then [] else c ∷ []
chomp (c ∷ d ∷ s) = c ∷ chomp (d ∷ s)

is_space : ℕ → Bool
is_space c = c == b' ' || (leb 9 c && leb c 13)

skip_spaces : List ℕ → List ℕ
unfolding is_space
skip_spaces [] = []
skip_spaces (c ∷ s) = if is_space c then skip_spaces s else c ∷ s

unfoldable pub digits : ℕ → List ℕ → ℕ
digits n [] = n
digits n (c ∷ s) =
    let more = digits (n * 10 + (c - b'0')) s in if leb b'0' c && leb c b'9' then more else n

signed : List ℕ → ℤ
unfolding digits ◌-ℤ◌
signed [] = pos 0
signed (c ∷ s) =
    if c == b'-'
    then pos 0 -ℤ pos (digits 0 s)
    else if c == b'+'
    then pos (digits 0 s)
    else pos (digits 0 (c ∷ s))

unfoldable pub atoi : List ℕ → ℤ
unfolding skip_spaces signed
atoi s = signed (skip_spaces s)

abbrev pub is_zero : ℤ → Bool
is_zero (pos n) = n == 0
is_zero _ = false

-- How a reader ends: with the input, by `exit`, or by an access before the buffer's start.
pub data Reading (A : Type 0) : Type 0 where
  ok : A → Reading A
  exits : Reading A
  out_of_bounds : Reading A

infixl 5 ◌>>=◌
abbrev pub ◌>>=◌ : {A B : Type 0} → Reading A → (A → Reading B) → Reading B
ok a >>= f = f a
exits >>= f = exits
out_of_bounds >>= f = out_of_bounds

-- `ClientInput`; `F` are the values of a `float`.
pub record ClientInput (F : Type 0) : Type 0 where
  pub server_ip : List ℕ
  pub server_port : ℤ
  pub file_name : List ℕ
  pub receiving_window_size : ℤ
  pub seed_value : ℤ
  pub p_data_loss : F
  pub mean : ℤ
  pub file_name_received : List ℕ

pub record ServerInput : Type 0 where
  pub server_port : ℤ
  pub sending_window_size : ℤ

-- ".received"
abbrev pub received_suffix : List ℕ
received_suffix = b'.' ∷ b'r' ∷ b'e' ∷ b'c' ∷ b'e' ∷ b'i' ∷ b'v' ∷ b'e' ∷ b'd' ∷ []

module _ {F : Type 0} (inet_pton : List ℕ → Bool) (atof : List ℕ → F) where
  -- The `switch` of the client's reader.
  unfoldable pub set_client_field : ℕ → List ℕ → ClientInput F → Reading (ClientInput F)
  set_client_field count line c =
      if count == 0
      then (if inet_pton line then ok (record c { server_ip = line }) else exits)
      else if count == 1
      then (if is_zero (atoi line) then exits else ok (record c { server_port = atoi line }))
      else if count == 2
      then ok (record c { file_name = line })
      else if count == 3
      then ok (record c { receiving_window_size = atoi line })
      else if count == 4
      then ok (record c { seed_value = atoi line })
      else if count == 5
      then ok (record c { p_data_loss = atof line })
      else if count == 6
      then ok (record c { mean = atoi line })
      else exits

  -- The loop over the buffers, with `count`. The test for an empty line comes first.
  unfoldable pub client_lines : List (List ℕ) → ℕ → ClientInput F → Reading (ClientInput F)
  unfolding c_string chomp set_client_field
  client_lines [] count c = ok c
  client_lines (b ∷ bs) count c =
      let next =
        set_client_field count (chomp (c_string b)) c >>= λ c'. client_lines bs (count + 1) c' in
      let same = client_lines bs count c in if is_empty (c_string b) then same else next

  -- `none`: the file cannot be opened.
  unfoldable pub read_client_input : Option (List ℕ) → ClientInput F → Reading (ClientInput F)
  unfolding client_lines buffers
  read_client_input none c = exits
  read_client_input (some s) c = client_lines (buffers (length s) s) 0 c >>= λ c'.
      ok (record c' { file_name_received = c'.file_name ++ received_suffix })

-- The `switch` of the server's reader.
pub set_server_field : ℕ → List ℕ → ServerInput → Reading ServerInput
set_server_field count line c =
    if count == 0
    then (if is_zero (atoi line) then exits else ok (record c { server_port = atoi line }))
    else if count == 1
    then ok (record c { sending_window_size = atoi line })
    else exits

-- Here the newline is looked for first: `buffer[strlen(buffer) - 1]` of an empty string is outside the
-- buffer.
pub server_lines : List (List ℕ) → ℕ → ServerInput → Reading ServerInput
unfolding c_string chomp set_server_field
server_lines [] count c = ok c
server_lines (b ∷ bs) count c =
    let line = chomp (c_string b) in
    let next = set_server_field count line c >>= λ c'. server_lines bs (count + 1) c' in
    let same = server_lines bs count c in
    if is_empty (c_string b) then out_of_bounds else if is_empty line then same else next

pub read_server_input : Option (List ℕ) → ServerInput → Reading ServerInput
unfolding server_lines buffers
read_server_input none c = exits
read_server_input (some s) c = server_lines (buffers (length s) s) 0 c
