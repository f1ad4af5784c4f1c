-- ===== src/Window/Delivery.antt =====
-- What the receive window delivers when every arriving segment comes from one file: the network
-- may lose, repeat and reorder segments, and the two threads may alternate in any way.
use tcp_implementation_over.Common.{
  ℕ, ◌+◌, ◌<◌, ◌≡◌, refl, sym, Bool, true, false, not, ◌||◌, none, some, List, [], ◌∷◌, Memᴰ, arith,
  subst, Bool-cases, ◌&&◌, Option-cases, ◌%◌, dec_lt, ltb, ◌==◌, if◌then◌else◌, is_none, length,
  inl, inr, ◌⊎◌, get_elem?-replicate,
}
use mathlib.Core.Path.{subst₂}
use tcp_implementation_over.Common.Int.{ℤ, pos, negsuc}
use tcp_implementation_over.Window.Ops.{Op, arrive, consume}
use tcp_implementation_over.Window.Spec
use tcp_implementation_over.Window.Spec.{Buffer, in_window, put, next}
use tcp_implementation_over.Window.Bounds.{init-IsValid, next_ack-IsFirstVacant, IsFirstVacant}
use tcp_implementation_over.Window.Refine.{
  view, held_at, run_refines, next-some, next-none, put-negsuc,
}
use tcp_implementation_over.Window.{Window, Slot, init, get_next_ack_index, run}

module _ {A : Type 0} where
  -- The segments carry the indices `b, b + 1, …` in this order, and the right data: `R k x` says
  -- that `x` is a copy of the segment `k`.
  abbrev pub InOrder : (ℕ → A → Type 0) → ℕ → List (A × ℕ) → Type 0
  InOrder R b [] = Unit
  InOrder R b ((x, k) ∷ outs) = (k ≡ b) × R b x × InOrder R (b + 1) outs

  -- Every arrival that is marked with an index is a copy of that segment.
  abbrev pub IsFromFile : (ℕ → A → Type 0) → List (Op A) → Type 0
  IsFromFile R [] = Unit
  IsFromFile R (arrive x (pos k) ∷ ops) = R k x × IsFromFile R ops
  IsFromFile R (arrive x (negsuc k) ∷ ops) = IsFromFile R ops
  IsFromFile R (consume ∷ ops) = IsFromFile R ops

  abbrev pub arrivals : List (Op A) → List ℤ
  arrivals [] = []
  arrivals (arrive x k ∷ ops) = k ∷ arrivals ops
  arrivals (consume ∷ ops) = arrivals ops

  -- All that waits is the file's.
  abbrev Holds : (ℕ → A → Type 0) → Buffer A → Type 0
  Holds R b = (k : ℕ) (x : A) → b.held k ≡ some x → R k x

  put-Holds :
      (R : ℕ → A → Type 0) (b : Buffer A) (x : A) (k : ℕ)
      → Holds R b
      → R k x
      → Holds R (put b x (pos k))
  unfolding put
  put-Holds R b x k h e j y p =
      elim (Bool-cases (in_window b.size b.base k && is_none (b.held k) && (j == k))) [
        | inl this ↦ subst₂ R (ground arith) (ground arith) e
        | inr other ↦ h j y (ground arith)
      ]

  put-base : (b : Buffer A) (x : A) (k : ℤ) → (put b x k).base ≡ b.base
  unfolding put
  put-base b x (pos k) = ground arith
  put-base b x (negsuc k) = refl

  -- The buffer once its base has been handed out.
  abbrev emptied : Buffer A → Buffer A
  emptied b = record b { base = b.base + 1; held = λ j. if j == b.base then none else b.held j }

  emptied-Holds : (R : ℕ → A → Type 0) (b : Buffer A) → Holds R b → Holds R (emptied b)
  emptied-Holds R b h j y p = h j y (ground arith)

  abbrev IsDelivered : (ℕ → A → Type 0) → ℕ → List (A × ℕ) × Buffer A → Type 0
  IsDelivered R base (outs, b) = InOrder R base outs × (b.base ≡ base + length outs)

  run-IsDelivered :
      (R : ℕ → A → Type 0) (b : Buffer A) (ops : List (Op A))
      → Holds R b
      → IsFromFile R ops
      → IsDelivered R b.base (Spec.run b ops)
  unfolding Spec.run
  run-IsDelivered R b [] h f = (tt, omega arith)
  run-IsDelivered R b (arrive x (negsuc k) ∷ ops) h f =
      subst (λ (c : Buffer A). IsDelivered R b.base (Spec.run c ops)) (sym (put-negsuc b x k))
        (run-IsDelivered R b ops h f)
  run-IsDelivered R b (arrive x (pos k) ∷ ops) h f =
      subst (λ (n : ℕ). IsDelivered R n (Spec.run (put b x (pos k)) ops)) (put-base b x (pos k))
        (run-IsDelivered R (put b x (pos k)) ops (put-Holds R b x k h f.0) f.1)
  run-IsDelivered R b (consume ∷ ops) h f = elim (Option-cases (b.held b.base)) [
    | inl empty ↦ rw (next-none b empty) (run-IsDelivered R b ops h f)
    | inr (x, here) ↦
        let rest = run-IsDelivered R (emptied b) ops (emptied-Holds R b h) f in
        rw (next-some b x here) ((refl, h b.base x here, rest.0), omega arith)
  ]

  -- Whether the index has been handed out, or waits.
  abbrev got : Buffer A → ℕ → Bool
  got b j = ltb j b.base || not (is_none (b.held j))

  got-put :
      (b : Buffer A) (x : A) (k : ℤ) (j : ℕ)
      → got (put b x k) j ≡ true
      → (k ≡ pos j) ⊎ (got b j ≡ true)
  unfolding put
  got-put b x (pos k) j h = ground arith
  got-put b x (negsuc k) j h = inr h

  got-emptied : (b : Buffer A) (j : ℕ) → got (emptied b) j ≡ true → (j ≡ b.base) ⊎ (got b j ≡ true)
  got-emptied b j h = ground arith

  got-run :
      (b : Buffer A) (ops : List (Op A)) (j : ℕ)
      → got (Spec.run b ops).1 j ≡ true
      → (got b j ≡ true) ⊎ Memᴰ (pos j) (arrivals ops)
  unfolding Spec.run
  got-run b [] j h = inl h
  got-run b (arrive x k ∷ ops) j h = elim (got-run (put b x k) ops j h) [
    | inr later ↦ inr (Memᴰ.tail later)
    | inl now ↦ elim (got-put b x k j now) [
      | inl this ↦ inr (Memᴰ.head (sym this))
      | inr before ↦ inl before
    ]
  ]
  got-run b (consume ∷ ops) j h = elim (Option-cases (b.held b.base)) [
    | inl empty ↦ got-run b ops j (rw (next-none b empty) at h)
    | inr (x, here) ↦ elim (got-run (emptied b) ops j (rw (next-some b x here) at h)) [
      | inr later ↦ inr later
      | inl now ↦ elim (got-emptied b j now) [
        | inl this ↦ inl (ground arith)
        | inr before ↦ inl before
      ]
    ]
  ]

  held_at-init : (size : ℕ) (zeroed : A) (k : ℕ) → held_at (init size zeroed) k ≡ none
  unfolding init
  held_at-init size zeroed k =
      let fresh : Slot A = record { in_use = false; segment_data = zeroed } in
      ground (arith, get_elem?-replicate size (k % size) fresh)

  init-Holds : (R : ℕ → A → Type 0) (size : ℕ) (zeroed : A) → Holds R (view (init size zeroed))
  init-Holds R size zeroed k x e = absurd (ground (arith, held_at-init size zeroed k))

  got-init : (size : ℕ) (zeroed : A) (j : ℕ) → got (view (init size zeroed)) j ≡ false
  got-init size zeroed j = rw (held_at-init size zeroed j) (unfold init in ground arith)

  -- If every arrival that is marked with an index is a copy of that segment and the window has room,
  -- then, whatever arrives and whenever the reader comes, the segments that are fetched are copies of the
  -- file's first ones, in order and once each, and as many as `currentIndex` says.
  pub fetched-InOrder :
      (R : ℕ → A → Type 0) (size : ℕ) (zeroed : A) (ops : List (Op A))
      → 0 < size
      → IsFromFile R ops
      → let (outs, w) = run (init size zeroed) ops in
        InOrder R 0 outs × (w.current_index ≡ length outs)
  unfolding init
  fetched-InOrder R size zeroed ops room f =
      let w = init size zeroed in
      let done =
        subst (IsDelivered R 0) (sym (run_refines w ops (init-IsValid size zeroed room)))
          (run-IsDelivered R (view w) ops (init-Holds R size zeroed) f) in
      (done.0, omega (arith, done.1))

  got-in_use : (w : Window A) (k j : ℕ) → IsFirstVacant w k → j < k → got (view w) j ≡ true
  got-in_use w k j h lt = elim (dec_lt j w.current_index) [
    | yes below ↦ ground arith
    | no inside ↦ ground (arith, h.3 j (omega arith) lt)
  ]

  -- With room in the window, an acknowledgement of `k` is only ever computed when all segments below `k` have arrived.
  pub next_ack_sound :
      (size : ℕ) (zeroed : A) (ops : List (Op A)) (k j : ℕ)
      → 0 < size
      → get_next_ack_index (run (init size zeroed) ops).1 ≡ some k
      → j < k
      → Memᴰ (pos j) (arrivals ops)
  next_ack_sound size zeroed ops k j room e lt =
      let w = init size zeroed in
      let w' = (run w ops).1 in
      let mine = got-in_use w' k j (next_ack-IsFirstVacant w' k e) lt in
      let theirs =
        subst (λ (r : List (A × ℕ) × Buffer A). got r.1 j ≡ true)
          (run_refines w ops (init-IsValid size zeroed room)) mine in
      elim (got-run (view w) ops j theirs) [
        | inl early ↦ absurd (ground (arith, got-init size zeroed j))
        | inr arrived ↦ arrived
      ]
