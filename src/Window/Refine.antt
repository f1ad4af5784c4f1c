-- ===== src/Window/Refine.antt =====
-- The ring of slots refines the reorder buffer.
use tcp_implementation_over.Common.{
  ℕ, ◌+◌, ◌*◌, ◌%◌, ◌<◌, ◌≡◌, refl, true, false, Option, none, some, List, [], ◌∷◌, arith, ap,
  Bool-cases, inl, inr, get_elem?, get_elem?-set_self, get_elem?-set_ne, length, if◌then◌else◌,
  mod-ne_in_window, mod-ne, ◌==◌, ◌≢◌, ◌∙◌, sym,
}
use native.Mathlib.Nat.{mod-lt, add-mul-mod_self_left}
use tcp_implementation_over.Common.Int.{ℤ, pos, negsuc}
use tcp_implementation_over.Window.Ops.{Op, arrive, consume, emit}
use tcp_implementation_over.Window.Spec
use tcp_implementation_over.Window.Spec.{Buffer, in_window, put, next}
use tcp_implementation_over.Window.Bounds.{
  IsValid, add_segment-inside, add_segment-outside, add_segment-negsuc, add_segment-IsValid,
  fetch_and_remove-IsValid,
}
use tcp_implementation_over.Window.{
  Window, Slot, fill, add_segment, vacate, take_slot, fetch_and_remove, run,
}

module _ {A : Type 0} where
  -- The segment in a slot, if its flag is set.
  abbrev pub content : Option (Slot A) → Option A
  content none = none
  content (some s) = if s.in_use then some s.segment_data else none

  -- The segment of index `k`, where the window holds it.
  abbrev pub held_at : Window A → ℕ → Option A
  held_at w k =
      if in_window w.receiving_window_size w.current_index k
      then content (get_elem? w.slots (k % w.receiving_window_size))
      else none

  abbrev pub view : Window A → Buffer A
  view w = record { size = w.receiving_window_size; base = w.current_index; held = held_at w }

  Buffer-ext :
      (b c : Buffer A) → b.size ≡ c.size → b.base ≡ c.base → ((k : ℕ) → b.held k ≡ c.held k) → b ≡ c
  Buffer-ext b c p q h = λ i. record { size = p i; base = q i; held = λ k. h k i }

  pub slot_lt : (w : Window A) (k : ℕ) → IsValid w → k % w.receiving_window_size < length w.slots
  slot_lt w k v = omega (arith, mod-lt k v.some_room)

  -- The index that enters the window shares its slot with the one that leaves.
  wrap_round :
      (w : Window A) (j : ℕ)
      → j ≡ w.current_index + w.receiving_window_size
      → j % w.receiving_window_size ≡ w.current_index % w.receiving_window_size
  wrap_round w j e =
      let n = w.receiving_window_size in
      let once : j ≡ w.current_index + n * 1 = omega arith in
      ap (λ (t : ℕ). t % n) once ∙ add-mul-mod_self_left w.current_index n 1

  -- A store leaves every other index of the window as it was.
  other_slot :
      (w : Window A) (k j : ℕ)
      → in_window w.receiving_window_size w.current_index k ≡ true
      → in_window w.receiving_window_size w.current_index j ≡ true
      → k ≢ j
      → k % w.receiving_window_size ≢ j % w.receiving_window_size
  other_slot w k j hk hj ne =
      mod-ne_in_window w.current_index k j w.receiving_window_size (ground arith) (ground arith)
        (ground arith) (ground arith) ne

  held_at-fill :
      (w : Window A) (x : A) (k j : ℕ)
      → IsValid w
      → in_window w.receiving_window_size w.current_index k ≡ true
      → held_at (fill w x (k % w.receiving_window_size)) j ≡ (put (view w) x (pos k)).held j
  unfolding fill put
  held_at-fill w x k j v inside =
      let i = k % w.receiving_window_size in
      let s : Slot A = record { in_use = true; segment_data = x } in
      ground (
        arith,
        slot_lt w k v,
        get_elem?-set_self w.slots i s,
        get_elem?-set_ne w.slots i (j % w.receiving_window_size) s,
        other_slot w k j,
      )

  fill_refines :
      (w : Window A) (x : A) (k : ℕ)
      → IsValid w
      → in_window w.receiving_window_size w.current_index k ≡ true
      → view (fill w x (k % w.receiving_window_size)) ≡ put (view w) x (pos k)
  fill_refines w x k v inside =
      Buffer-ext (view (fill w x (k % w.receiving_window_size))) (put (view w) x (pos k))
        (unfold fill put in ground arith) (unfold fill put in ground arith)
        (λ j. held_at-fill w x k j v inside)

  put-outside :
      (b : Buffer A) (x : A) (k : ℕ) → in_window b.size b.base k ≡ false → put b x (pos k) ≡ b
  unfolding put
  put-outside b x k h = rw h

  pub put-negsuc : (b : Buffer A) (x : A) (k : ℕ) → put b x (negsuc k) ≡ b
  unfolding put
  put-negsuc b x k = refl

  -- On a valid window, storing a segment is the buffer's `put`.
  pub add_segment_refines :
      (w : Window A) (x : A) (k : ℤ) → IsValid w → view (add_segment w x k) ≡ put (view w) x k
  add_segment_refines w x (negsuc k) v =
      rw (add_segment-negsuc w x k) (sym (put-negsuc (view w) x k))
  add_segment_refines w x (pos k) v =
      elim (Bool-cases (in_window w.receiving_window_size w.current_index k)) [
        | inl inside ↦ ap view (add_segment-inside w x k inside) ∙ fill_refines w x k v inside
        | inr outside ↦
            ap view (add_segment-outside w x k outside) ∙ sym (put-outside (view w) x k outside)
      ]

  held_at-vacate :
      (w : Window A) (s : Slot A) (j : ℕ)
      → IsValid w
      → held_at (vacate w (w.current_index % w.receiving_window_size) s) j
        ≡ (if j == w.current_index then none else held_at w j)
  unfolding vacate
  held_at-vacate w s j v =
      let i = w.current_index % w.receiving_window_size in
      let n = w.receiving_window_size in
      let s' : Slot A = record s { in_use = false } in
      ground (
        arith,
        v,
        slot_lt w w.current_index v,
        get_elem?-set_self w.slots i s',
        get_elem?-set_ne w.slots i (j % n) s',
        mod-ne w.current_index j n,
        wrap_round w j,
      )

  -- What lies at the base is what the slot at `currentIndex % size` holds.
  held_at-base :
      (w : Window A)
      → IsValid w
      → held_at w w.current_index
        ≡ content (get_elem? w.slots (w.current_index % w.receiving_window_size))
  held_at-base w v = ground (arith, v)

  pub next-some :
      (b : Buffer A) (x : A)
      → b.held b.base ≡ some x
      → next b ≡ (
        some (x, b.base),
        record b { base = b.base + 1; held = λ j. if j == b.base then none else b.held j },
      )
  unfolding next
  next-some b x e = rw (e, next)

  pub next-none : (b : Buffer A) → b.held b.base ≡ none → next b ≡ (none, b)
  unfolding next
  next-none b e = rw (e, next)

  vacate_refines :
      (w : Window A) (s : Slot A)
      → IsValid w
      → view (vacate w (w.current_index % w.receiving_window_size) s) ≡ record {
        size = w.receiving_window_size;
        base = w.current_index + 1;
        held = λ j. if j == w.current_index then none else held_at w j;
      }
  vacate_refines w s v =
      Buffer-ext _ _ (unfold vacate in refl) (unfold vacate in refl) (λ j. held_at-vacate w s j v)

  abbrev seen : Option (A × ℕ) × Window A → Option (A × ℕ) × Buffer A
  seen (out, w) = (out, view w)

  take_slot_refines :
      (w : Window A) (o : Option (Slot A))
      → IsValid w
      → get_elem? w.slots (w.current_index % w.receiving_window_size) ≡ o
      → seen (take_slot w (w.current_index % w.receiving_window_size) o) ≡ next (view w)
  unfolding take_slot vacate
  take_slot_refines w none v e = sym (next-none (view w) (held_at-base w v ∙ ap content e))
  take_slot_refines w (some s) v e = elim (Bool-cases s.in_use) [
    | inl busy ↦ rw busy (
        ap (λ (b : Buffer A). (some (s.segment_data, w.current_index), b)) (vacate_refines w s v)
        ∙ sym (next-some (view w) s.segment_data (held_at-base w v ∙ ap content e ∙ rw busy)))
    | inr vacant ↦
        rw vacant (sym (next-none (view w) (held_at-base w v ∙ ap content e ∙ rw vacant)))
  ]

  -- On a valid window, fetching is the buffer's `next`: what it hands out, and what it leaves.
  pub fetch_and_remove_refines :
      (w : Window A)
      → IsValid w
      → let (out, w') = fetch_and_remove w in (out, view w') ≡ next (view w)
  unfolding fetch_and_remove
  fetch_and_remove_refines w v = take_slot_refines w _ v refl

  -- From a valid window on, no sequence of calls tells the ring of slots from the reorder buffer.
  pub run_refines :
      (w : Window A) (ops : List (Op A))
      → IsValid w
      → let (outs, w') = run w ops in (outs, view w') ≡ Spec.run (view w) ops
  unfolding run Spec.run
  run_refines w [] v = refl
  run_refines w (arrive x k ∷ ops) v =
      run_refines (add_segment w x k) ops (add_segment-IsValid w x k v)
      ∙ ap (λ (b : Buffer A). Spec.run b ops) (add_segment_refines w x k v)
  run_refines w (consume ∷ ops) v =
      ap (λ (r : List (A × ℕ) × Buffer A). (emit (fetch_and_remove w).0 r.0, r.1))
        (run_refines (fetch_and_remove w).1 ops (fetch_and_remove-IsValid w v))
      ∙ ap
          (λ (r : Option (A × ℕ) × Buffer A).
            let (outs, b) = Spec.run r.1 ops in (emit r.0 outs, b))
          (fetch_and_remove_refines w v)
