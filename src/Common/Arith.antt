-- ===== src/Common/Arith.antt =====
-- Remainders by a variable.
use Prim.Native.Nat.{ℕ, ◌+◌, ◌%◌, ◌≤◌, ◌<◌}
use mathlib.Core.Path.{sym}
use native.Mathlib.Decide.{dec_lt}
use mathlib.Core.Logic.{◌≢◌}
use native.Mathlib.Nat.{div-add-mod}
use native.Mathlib.Omega.{arith}

-- Two indices of one window fall on different slots.
pub mod-ne : (a b n : ℕ) → a < b → b < a + n → a % n ≢ b % n
mod-ne a b n h k e = grind (arith, div-add-mod)

pub mod-ne_in_window :
    (base a b n : ℕ) → base ≤ a → a < base + n → base ≤ b → b < base + n → a ≢ b → a % n ≢ b % n
mod-ne_in_window base a b n la ha lb hb ne e = elim (dec_lt a b) [
  | yes p ↦ mod-ne a b n p (omega arith) e
  | no p ↦ mod-ne b a n (omega arith) (omega arith) (sym e)
]
