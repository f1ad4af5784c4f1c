-- ===== src/Startup/Ends.antt =====
-- Postconditions of the actions: one for a value, one for an end by `return -1` (`none`) or by `exit`.
use tcp_implementation_over.Common.{
  ℕ, ◌≡◌, refl, Bool, true, false, Option, none, some, List, ◌∷◌, if◌then◌else◌,
}
use tcp_implementation_over.Startup.{
  Call, close_socket, Outcome, ok, failed, exited, waiting, undefined, Exec, and_then, ◌>>=◌,
  or_close, or_fail, or_exit,
}

abbrev pub Ends :
    {A : Type 0}
    → (A → List Call → Type 0)
    → (Option ℕ → List Call → Type 0)
    → Outcome A × List Call
    → Type 0
Ends P Q (ok a, tr) = P a tr
Ends P Q (failed, tr) = Q none tr
Ends P Q (exited n, tr) = Q (some n) tr
Ends P Q (waiting, tr) = Unit
Ends P Q (undefined, tr) = Unit

module _ {A B : Type 0} (P : A → List Call → Type 0) (P' : B → List Call → Type 0)
    (Q : Option ℕ → List Call → Type 0) where
  pub and_then-Ends :
      (r : Outcome A × List Call) (f : A → Exec B)
      → Ends P Q r
      → ((a : A) (tr : List Call) → P a tr → Ends P' Q (f a tr))
      → Ends P' Q (and_then r f)
  and_then-Ends (ok a, tr) f h k = k a tr h
  and_then-Ends (failed, tr) f h k = h
  and_then-Ends (exited n, tr) f h k = h
  and_then-Ends (waiting, tr) f h k = tt
  and_then-Ends (undefined, tr) f h k = tt

module _ {B : Type 0} (succeeds : List Call → Call → Bool) (P : B → List Call → Type 0)
    (Q : Option ℕ → List Call → Type 0) where
  if-Ends :
      (b : Bool) (o : Outcome (Unit {0})) (good bad : List Call) (f : Unit {0} → Exec B)
      → Ends P Q (f tt good)
      → Ends P Q (and_then (o, bad) f)
      → Ends P Q (and_then (if b then (ok tt, good) else (o, bad)) f)
  if-Ends true o good bad f h k = h
  if-Ends false o good bad f h k = k

  pub or_close-fails :
      (c : Call) (tr : List Call) (f : Unit {0} → Exec B)
      → Q none (close_socket ∷ c ∷ tr)
      → Ends P Q (f tt (c ∷ tr))
      → Ends P Q ((or_close succeeds c failed >>= f) tr)
  or_close-fails c tr f q h = if-Ends (succeeds tr c) failed _ _ f h q

  pub or_close-exits :
      (c : Call) (n : ℕ) (tr : List Call) (f : Unit {0} → Exec B)
      → Q (some n) (close_socket ∷ c ∷ tr)
      → Ends P Q (f tt (c ∷ tr))
      → Ends P Q ((or_close succeeds c (exited n) >>= f) tr)
  or_close-exits c n tr f q h = if-Ends (succeeds tr c) (exited n) _ _ f h q

  pub or_fail-Ends :
      (c : Call) (tr : List Call) (f : Unit {0} → Exec B)
      → Q none (c ∷ tr)
      → Ends P Q (f tt (c ∷ tr))
      → Ends P Q ((or_fail succeeds c >>= f) tr)
  or_fail-Ends c tr f q h = if-Ends (succeeds tr c) failed _ _ f h q

  pub or_exit-Ends :
      (c : Call) (tr : List Call) (f : Unit {0} → Exec B)
      → Q (some 1) (c ∷ tr)
      → Ends P Q (f tt (c ∷ tr))
      → Ends P Q ((or_exit succeeds c >>= f) tr)
  or_exit-Ends c tr f q h = if-Ends (succeeds tr c) (exited 1) _ _ f h q

module _ (succeeds : List Call → Call → Bool) (Q : Option ℕ → List Call → Type 0) where
  pub or_close-last :
      (c : Call) (tr : List Call)
      → Q none (close_socket ∷ c ∷ tr)
      → Ends {A = Unit {0}} (λ _ tr'. tr' ≡ c ∷ tr) Q (or_close succeeds c failed tr)
  or_close-last c tr q = by_answer (succeeds tr c)
    where
      by_answer :
          (b : Bool)
          → Ends {A = Unit {0}}
              (λ _ tr'. tr' ≡ c ∷ tr)
              Q
              (if b then (ok tt, c ∷ tr) else (failed, close_socket ∷ c ∷ tr))
      by_answer true = refl
      by_answer false = q
