-- ===== src/Input/Server.antt =====
-- What the server's reader makes of the lines of its input file.
use tcp_implementation_over.Common.{ℕ, ◌+◌, ◌≡◌, refl, ap, ◌∙◌, some, List, [], ◌∷◌, ◌++◌, map}
use tcp_implementation_over.Input.{
  c_string, chomp, Reading, ok, ◌>>=◌, ServerInput, set_server_field, server_lines,
  read_server_input,
}
use tcp_implementation_over.Input.Fields.{bind-eq}
use tcp_implementation_over.Input.Buffers.{
  IsLine, AllLines, ended, text_of, buffers_lem, c_string-ended, chomp-ended,
}

abbrev pub server_fields : List (List ℕ) → ℕ → ServerInput → Reading ServerInput
server_fields [] count c = ok c
server_fields (l ∷ ls) count c =
    set_server_field count l c >>= λ c'. server_fields ls (count + 1) c'

abbrev pub not_blank : List (List ℕ) → List (List ℕ)
not_blank [] = []
not_blank ([] ∷ ls) = not_blank ls
not_blank ((c ∷ l) ∷ ls) = (c ∷ l) ∷ not_blank ls

server_lines-ended :
    (ls : List (List ℕ)) (count : ℕ) (c : ServerInput)
    → AllLines ls
    → server_lines (map ended ls) count c ≡ server_fields (not_blank ls) count c
unfolding server_lines c_string chomp
server_lines-ended [] count c a = refl
server_lines-ended ([] ∷ ls) count c a = server_lines-ended ls count c a.1
server_lines-ended ((d ∷ l) ∷ ls) count c a =
    rw (c_string-ended (d ∷ l) a.0.text, chomp-ended (d ∷ l))
      (bind-eq (set_server_field count (d ∷ l) c) _ _
        (λ c'. server_lines-ended ls (count + 1) c' a.1))

-- The server's reader sets its fields from the lines in order and passes over blank ones; what follows
-- the last newline is ignored. The lines are free of zero bytes and fit into the buffer.
pub read_server_input_lem :
    (ls : List (List ℕ)) (t : List ℕ) (c : ServerInput)
    → AllLines ls
    → IsLine t
    → read_server_input (some (text_of ls ++ t)) c ≡ server_fields (not_blank ls) 0 c
unfolding read_server_input
read_server_input_lem ls t c a x =
    ap (λ (bs : List (List ℕ)). server_lines bs 0 c) (buffers_lem ls t a x)
    ∙ server_lines-ended ls 0 c a
