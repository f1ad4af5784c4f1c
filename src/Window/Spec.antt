-- ===== src/Window/Spec.antt =====
-- What the receive window promises: a reorder buffer that holds segments by their absolute index.
use tcp_implementation_over.Common.{
  ℕ, ◌+◌, Bool, Option, none, some, List, [], ◌∷◌, ◌&&◌, if◌then◌else◌, leb, ltb, ◌==◌, is_none,
}
use tcp_implementation_over.Common.Int.{ℤ, pos, negsuc}
use tcp_implementation_over.Window.Ops.{Op, arrive, consume, emit}

-- `held k` is the segment of index `k`, if it waits; the indices `base … base + size - 1` may wait.
pub record Buffer (A : Type 0) : Type 0 where
  pub size : ℕ
  pub base : ℕ
  pub held : ℕ → Option A

abbrev pub in_window : ℕ → ℕ → ℕ → Bool
in_window size base k = leb base k && ltb k (base + size)

module _ {A : Type 0} where
  unfoldable pub put : Buffer A → A → ℤ → Buffer A
  put b x (negsuc k) = b
  put b x (pos k) =
      if in_window b.size b.base k && is_none (b.held k)
      then record b { held = λ j. if j == k then some x else b.held j }
      else b

  unfoldable pub next : Buffer A → Option (A × ℕ) × Buffer A
  next b = elim (b.held b.base) [
    | none ↦ (none, b)
    | some x ↦ (
      some (x, b.base),
      record b { base = b.base + 1; held = λ j. if j == b.base then none else b.held j },
    )
  ]

  unfoldable pub run : Buffer A → List (Op A) → List (A × ℕ) × Buffer A
  run b [] = ([], b)
  run b (arrive x k ∷ ops) = run (put b x k) ops
  run b (consume ∷ ops) =
      let (out, b') = next b in let (outs, b'') = run b' ops in (emit out outs, b'')
