-- ===== src/Input/Tests.antt =====
-- Input files of seven lines and of three, with and without a newline at the end.
use Prim.Native.Char.{code}
use Prim.Native.String.{String}
use tcp_implementation_over.Common.{
  ℕ, ◌<◌, ◌≡◌, refl, Bool, true, false, some, List, [], ◌∷◌, ◌++◌, arith, length, leb, ltb, not,
  ◌&&◌, ◌==◌, if◌then◌else◌,
}
use tcp_implementation_over.Common.Int.{pos, negsuc}
use tcp_implementation_over.Input
use tcp_implementation_over.Input.{
  ClientInput, ServerInput, Reading, ok, exits, out_of_bounds, ◌>>=◌, fgets, buffers, c_string,
  chomp, is_zero, atoi, set_client_field, client_lines, read_client_input, set_server_field,
  server_lines, read_server_input, received_suffix,
}
use tcp_implementation_over.Input.Read.{
  are_client_lines, client_input_of, read_client_input-accepted, are_server_lines, server_input_of,
  read_server_input-accepted,
}
use tcp_implementation_over.Input.Buffers.{IsText, IsLine, AllLines, text_of}
use tcp_implementation_over.Input.Fields.{read_client_input-seven}
use tcp_implementation_over.Input.Server.{not_blank}
use tcp_implementation_over.Input.Fits.{read_client_input-fits}
use tcp_implementation_over.Input.Standalone
use tcp_implementation_over.Input.Standalone.{
  extend, map_ok, read_client_input-eq, read_server_input-eq,
}

abbrev codes : String → List ℕ
codes String.[] = []
codes (String.◌∷◌ c s) = code c ∷ codes s

numbers :
    (atoi (codes " 42x") ≡ pos 42) × (atoi (codes "-7") ≡ negsuc 6) × (atoi (codes "a") ≡ pos 0)
unfolding atoi
numbers = (refl, refl, refl)

-- Texts of at most 15 bytes pass for addresses, and a number with a fraction is its text.
abbrev accepts : List ℕ → Bool
accepts s = leb (length s) 15

accepts-short : (s : List ℕ) → accepts s ≡ true → length s < 16
accepts-short s h = ground arith

abbrev as_text : List ℕ → List ℕ
as_text s = s

abbrev empty_input : ClientInput (List ℕ)
empty_input = record {
  server_ip = [];
  server_port = pos 0;
  file_name = [];
  receiving_window_size = pos 0;
  seed_value = pos 0;
  p_data_loss = [];
  mean = pos 0;
  file_name_received = [];
}

abbrev ip : List ℕ
ip = codes "10.0.0.1"

abbrev seven : List (List ℕ)
seven = ip ∷ codes "4000" ∷ codes "abc.txt" ∷ codes "8" ∷ codes "1" ∷ codes "0.1" ∷ codes "50" ∷ []

-- A line can be checked by running.
abbrev is_text : List ℕ → Bool
is_text [] = true
is_text (c ∷ s) = not (c == Input.newline) && not (c == 0) && is_text s

is_text-IsText : (s : List ℕ) → is_text s ≡ true → IsText s
is_text-IsText [] h = tt
is_text-IsText (c ∷ s) h = (ground arith, ground arith, is_text-IsText s (ground arith))

abbrev are_lines : List (List ℕ) → Bool
are_lines [] = true
are_lines (l ∷ ls) = is_text l && ltb (length l) 255 && are_lines ls

are_lines-AllLines : (ls : List (List ℕ)) → are_lines ls ≡ true → AllLines ls
are_lines-AllLines [] h = tt
are_lines-AllLines (l ∷ ls) h = (
  record { text = is_text-IsText l (ground arith); short = ground arith },
  are_lines-AllLines ls (ground arith),
)

nothing-IsLine : IsLine []
nothing-IsLine = record { text = tt; short = omega arith }

-- A last line without its newline.
abbrev unfinished : List ℕ
unfinished = codes "99"

unfinished-IsLine : IsLine unfinished
unfinished-IsLine = (are_lines-AllLines (unfinished ∷ []) refl).0

four_thousand : is_zero (atoi (codes "4000")) ≡ false
unfolding atoi
four_thousand = refl

read_client_input-accepted_example :
    read_client_input accepts as_text (some (text_of seven ++ unfinished)) empty_input ≡ (
      if are_client_lines accepts as_text seven
      then ok (client_input_of accepts as_text seven empty_input)
      else exits)
read_client_input-accepted_example =
    read_client_input-accepted accepts as_text seven unfinished empty_input
      (are_lines-AllLines seven refl) unfinished-IsLine

abbrev server_input : ServerInput
server_input = record { server_port = pos 0; sending_window_size = pos 0 }

-- A blank line between the two.
abbrev three : List (List ℕ)
three = codes "4000" ∷ [] ∷ codes "8" ∷ []

read_server_input-accepted_example :
    read_server_input (some (text_of three ++ unfinished)) server_input ≡ (
      if are_server_lines (not_blank three)
      then ok (server_input_of (not_blank three) server_input)
      else exits)
read_server_input-accepted_example =
    read_server_input-accepted three unfinished server_input (are_lines-AllLines three refl)
      unfinished-IsLine

-- A line that begins with a zero byte.
zero_byte : read_server_input (some (0 ∷ 10 ∷ [])) server_input ≡ out_of_bounds
unfolding read_server_input server_lines buffers fgets c_string chomp
zero_byte = refl

abbrev with_received_seven : ClientInput (List ℕ)
with_received_seven = record {
  server_ip = ip;
  server_port = atoi (codes "4000");
  file_name = codes "abc.txt";
  receiving_window_size = atoi (codes "8");
  seed_value = atoi (codes "1");
  p_data_loss = codes "0.1";
  mean = atoi (codes "50");
  file_name_received = codes "abc.txt" ++ received_suffix;
}

seven_read :
    read_client_input accepts as_text (some (text_of seven ++ unfinished)) empty_input
    ≡ ok with_received_seven
seven_read =
    read_client_input-seven accepts as_text ip (codes "4000") (codes "abc.txt") (codes "8")
      (codes "1") (codes "0.1") (codes "50") unfinished empty_input (are_lines-AllLines seven refl)
      unfinished-IsLine refl four_thousand

read_client_input-fits_example :
    let c = with_received_seven in
    (length c.server_ip < 16) × (length c.file_name < 512) × (length c.file_name_received < 512)
read_client_input-fits_example =
    read_client_input-fits accepts as_text accepts-short (some (text_of seven ++ unfinished))
      empty_input with_received_seven (omega arith) (omega arith) seven_read

abbrev standalone_input : Standalone.ClientInput (List ℕ)
standalone_input = record {
  server_ip = [];
  server_port = pos 0;
  file_name = [];
  receiving_window_size = pos 0;
  seed_value = pos 0;
  p_data_loss = [];
  mean = pos 0;
}

read_client_input-eq_example :
    Input.read_client_input accepts as_text
      (some (text_of seven))
      (extend accepts as_text [] standalone_input)
    ≡ map_ok accepts as_text
        (λ d. extend accepts as_text (d.file_name ++ received_suffix) d)
        (Standalone.read_client_input accepts as_text (some (text_of seven)) standalone_input)
read_client_input-eq_example =
    read_client_input-eq accepts as_text [] (some (text_of seven)) standalone_input
