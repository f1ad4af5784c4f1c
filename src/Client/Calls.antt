-- ===== src/Client/Calls.antt =====
-- The calls on the window behind a history of the client, appended one at a time.
use tcp_implementation_over.Common.{
  ℕ, ◌+◌, ◌≡◌, refl, sym, ap, ◌∙◌, Option, none, some, List, [], ◌∷◌, ◌++◌, arith, take, length,
}
use mathlib.Core.List.{append-nil, append_assoc}
use tcp_implementation_over.Common.Int.{pos, negsuc}
use tcp_implementation_over.Wire.{Segment}
use tcp_implementation_over.Segments.{write_length, write_segments}
use tcp_implementation_over.Window
use tcp_implementation_over.Window.{Window, init, add_segment, fetch_and_remove}
use tcp_implementation_over.Window.Ops.{Op, arrive, consume, emit}
use tcp_implementation_over.Window.Delivery.{IsFromFile}

module _ {A : Type 0} where
  pub emit-append :
      (o : Option (A × ℕ)) (xs ys : List (A × ℕ)) → emit o (xs ++ ys) ≡ emit o xs ++ ys
  emit-append none xs ys = refl
  emit-append (some x) xs ys = refl

  run-append :
      (w : Window A) (xs ys : List (Op A))
      → Window.run w (xs ++ ys) ≡ (
          let (outs, w') = Window.run w xs in
          let (outs', w'') = Window.run w' ys in (outs ++ outs', w''))
  unfolding Window.run
  run-append w [] ys = refl
  run-append w (arrive x k ∷ xs) ys = run-append (add_segment w x k) xs ys
  run-append w (consume ∷ xs) ys =
      ap (λ (r : List (A × ℕ) × Window A). (emit (fetch_and_remove w).0 r.0, r.1))
        (run-append (fetch_and_remove w).1 xs ys)
      ∙ ap
          (λ (outs : List (A × ℕ)).
            (outs, (Window.run (Window.run (fetch_and_remove w).1 xs).1 ys).1))
          (emit-append (fetch_and_remove w).0 _ _)

  pub run-more :
      (w w' : Window A) (xs ys : List (Op A)) (outs : List (A × ℕ))
      → Window.run w xs ≡ (outs, w')
      → Window.run w (xs ++ ys) ≡ (outs ++ (Window.run w' ys).0, (Window.run w' ys).1)
  run-more w w' xs ys outs e =
      run-append w xs ys
      ∙ ap (λ (r : List (A × ℕ) × Window A). (r.0 ++ (Window.run r.1 ys).0, (Window.run r.1 ys).1))
          e

  pub IsFromFile-append :
      (R : ℕ → A → Type 0) (xs ys : List (Op A))
      → IsFromFile R xs
      → IsFromFile R ys
      → IsFromFile R (xs ++ ys)
  IsFromFile-append R [] ys p q = q
  IsFromFile-append R (arrive x (pos k) ∷ xs) ys p q = (p.0, IsFromFile-append R xs ys p.1 q)
  IsFromFile-append R (arrive x (negsuc k) ∷ xs) ys p q = IsFromFile-append R xs ys p q
  IsFromFile-append R (consume ∷ xs) ys p q = IsFromFile-append R xs ys p q

abbrev pub data_of : Segment × ℕ → List ℕ
data_of (s, k) = s.segment_data

write_segments-snoc :
    (len total i : ℕ) (xs : List (List ℕ)) (s : List ℕ)
    → write_segments len total i (xs ++ s ∷ [])
      ≡ write_segments len total i xs ++ take (write_length len total (i + length xs)) s
unfolding write_segments
write_segments-snoc len total i [] s =
    append-nil _ ∙ ap (λ (k : ℕ). take (write_length len total k) s) (omega arith)
write_segments-snoc len total i (x ∷ xs) s =
    ap (◌++◌ (take (write_length len total i) x)) (
      write_segments-snoc len total (i + 1) xs s
      ∙ ap (λ (k : ℕ). write_segments len total (i + 1) xs ++ take (write_length len total k) s)
          (omega arith))
    ∙ sym (append_assoc (take (write_length len total i) x) _ _)

pub write_segments-last :
    (len total : ℕ) (xs : List (List ℕ)) (s : List ℕ)
    → write_segments len total 0 (xs ++ s ∷ [])
      ≡ write_segments len total 0 xs ++ take (write_length len total (length xs)) s
write_segments-last len total xs s =
    write_segments-snoc len total 0 xs s
    ∙ ap (λ (k : ℕ). write_segments len total 0 xs ++ take (write_length len total k) s)
        (omega arith)
