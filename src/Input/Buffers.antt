-- ===== src/Input/Buffers.antt =====
-- How `fgets` cuts an input file into the buffers that the readers look at.
use tcp_implementation_over.Common.{
  ℕ, zero, suc, ◌+◌, ◌≤◌, ◌<◌, ◌≡◌, refl, ap, Bool, true, false, List, [], ◌∷◌, ◌++◌, ◌||◌, arith,
  length, length-append, map, ◌==◌, if◌then◌else◌,
}
use mathlib.Core.List.{append_assoc}
use tcp_implementation_over.Input.{newline, buffer_room, is_empty, fgets, buffers, c_string, chomp}

-- Neither a newline nor the end of a string is among the bytes.
abbrev pub IsText : List ℕ → Type 0
IsText [] = Unit
IsText (c ∷ s) = ((c == newline) ≡ false) × ((c == 0) ≡ false) × IsText s

-- A line that fits into the buffer with its newline.
pub record IsLine (l : List ℕ) : Type 0 where
  pub text : IsText l
  pub short : length l < buffer_room

abbrev pub AllLines : List (List ℕ) → Type 0
AllLines [] = Unit
AllLines (l ∷ ls) = IsLine l × AllLines ls

abbrev pub ended : List ℕ → List ℕ
ended l = l ++ newline ∷ []

-- The lines, each with its newline.
abbrev pub text_of : List (List ℕ) → List ℕ
text_of [] = []
text_of (l ∷ ls) = l ++ newline ∷ text_of ls

fgets-line :
    (n : ℕ) (l rest : List ℕ)
    → IsText l
    → length l < n
    → fgets n (l ++ newline ∷ rest) ≡ (ended l, false, rest)
unfolding fgets
fgets-line zero l rest t h = absurd (omega arith)
fgets-line (suc n) [] rest t h = refl
fgets-line (suc n) (c ∷ l) rest t h = rw t.0 (rw (fgets-line n l rest t.2 (omega arith)) refl)

fgets-tail : (n : ℕ) (t : List ℕ) → IsText t → length t < n → fgets n t ≡ (t, true, [])
unfolding fgets
fgets-tail zero t x h = absurd (omega arith)
fgets-tail (suc n) [] x h = refl
fgets-tail (suc n) (c ∷ t) x h = rw x.0 (rw (fgets-tail n t x.2 (omega arith)) refl)

-- Nothing is lost between two calls of `fgets`, and a buffer is never overrun.
pub fgets-length :
    (n : ℕ) (s : List ℕ)
    → let (line, eof, rest) = fgets n s in
      (length line + length rest ≡ length s) × (length line ≤ n)
unfolding fgets
fgets-length zero s = (omega arith, omega arith)
fgets-length (suc n) [] = (omega arith, omega arith)
fgets-length (suc n) (c ∷ s) = ground (arith, fgets-length n s)

pub ended-not_empty : (l : List ℕ) → is_empty (ended l) ≡ false
ended-not_empty [] = refl
ended-not_empty (c ∷ l) = refl

next-eq :
    (f g : ℕ) (line rest : List ℕ) (eof : Bool)
    → (0 < length line → buffers f rest ≡ buffers g rest)
    → (if is_empty line || eof then [] else line ∷ buffers f rest)
      ≡ (if is_empty line || eof then [] else line ∷ buffers g rest)
next-eq f g [] rest eof k = refl
next-eq f g (c ∷ l) rest true k = refl
next-eq f g (c ∷ l) rest false k = ap (λ (bs : List (List ℕ)). (c ∷ l) ∷ bs) (k (omega arith))

-- The length of the file is fuel enough: more changes nothing.
pub buffers-fuel : (f g : ℕ) (s : List ℕ) → length s ≤ f → length s ≤ g → buffers f s ≡ buffers g s
unfolding buffers
buffers-fuel zero zero s hf hg = refl
buffers-fuel zero (suc g) [] hf hg = refl
buffers-fuel (suc f) zero [] hf hg = refl
buffers-fuel zero (suc g) (c ∷ s) hf hg = absurd (omega arith)
buffers-fuel (suc f) zero (c ∷ s) hf hg = absurd (omega arith)
buffers-fuel (suc f) (suc g) s hf hg =
    let (line, eof, rest) = fgets buffer_room s in
    let whole = (fgets-length buffer_room s).0 in
    next-eq f g line rest eof
      (λ some. buffers-fuel f g rest (omega (arith, whole, some)) (omega (arith, whole, some)))

text-length : (ls : List (List ℕ)) (t : List ℕ) → length ls ≤ length (text_of ls ++ t)
text-length [] t = omega arith
text-length (l ∷ ls) t = omega (
  arith,
  length-append (l ++ newline ∷ text_of ls) t,
  length-append l (newline ∷ text_of ls),
  length-append (text_of ls) t,
  text-length ls t,
)

buffers-text :
    (fuel : ℕ) (ls : List (List ℕ)) (t : List ℕ)
    → AllLines ls
    → IsLine t
    → length ls ≤ fuel
    → buffers fuel (text_of ls ++ t) ≡ map ended ls
unfolding buffers
buffers-text zero [] t a x h = refl
buffers-text zero (l ∷ ls) t a x h = absurd (omega arith)
buffers-text (suc fuel) [] t a x h = rw (fgets-tail buffer_room t x.text x.short) (ground arith)
buffers-text (suc fuel) (l ∷ ls) t a x h =
    let e = append_assoc l (newline ∷ text_of ls) t in
    rw (e, fgets-line buffer_room l (text_of ls ++ t) a.0.text a.0.short)
      (rw (ended-not_empty l)
        (ap (λ (bs : List (List ℕ)). ended l ∷ bs) (buffers-text fuel ls t a.1 x (omega arith))))

-- Of a file whose lines fit, the readers see these lines; what follows the last newline is never seen.
pub buffers_lem :
    (ls : List (List ℕ)) (t : List ℕ)
    → AllLines ls
    → IsLine t
    → let s = text_of ls ++ t in buffers (length s) s ≡ map ended ls
buffers_lem ls t a x = buffers-text (length (text_of ls ++ t)) ls t a x (text-length ls t)

pub c_string-ended : (l : List ℕ) → IsText l → c_string (ended l) ≡ ended l
unfolding c_string
c_string-ended [] t = refl
c_string-ended (c ∷ l) t = rw t.1 (ap (λ (s : List ℕ). c ∷ s) (c_string-ended l t.2))

pub chomp-ended : (l : List ℕ) → chomp (ended l) ≡ l
unfolding chomp
chomp-ended [] = refl
chomp-ended (c ∷ []) = refl
chomp-ended (c ∷ d ∷ l) = ap (λ (s : List ℕ). c ∷ s) (chomp-ended (d ∷ l))
