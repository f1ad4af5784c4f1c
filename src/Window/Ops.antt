-- ===== src/Window/Ops.antt =====
-- The calls that the two threads of the client make on the receive window.
use tcp_implementation_over.Common.{ℕ, Option, none, some, List, ◌∷◌}
use tcp_implementation_over.Common.Int.{ℤ}

-- A call on the window by one of the two threads, each under the mutex.
pub data Op (A : Type 0) : Type 0 where
  arrive : A → ℤ → Op A
  consume : Op A

module _ {A : Type 0} where
  abbrev pub emit : Option (A × ℕ) → List (A × ℕ) → List (A × ℕ)
  emit none outs = outs
  emit (some x) outs = x ∷ outs
