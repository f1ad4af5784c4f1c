-- ===== src/Window/Progress.antt =====
-- The acknowledgement of the receive window never goes back, and the segment that it asks for
-- moves it on.
use tcp_implementation_over.Common.{
  ℕ, ◌+◌, ◌%◌, ◌≤◌, ◌<◌, ◌≡◌, Bool, true, false, Option, none, some, arith, sym, Bool-cases, inl,
  inr, get_elem?, get_elem?-set_self, get_elem?-set_ne, if◌then◌else◌, mod-ne, dec_lt, dec_le,
  subst,
}
use tcp_implementation_over.Common.Int.{ℤ, pos, negsuc}
use tcp_implementation_over.Window.Ops.{Op, arrive, consume}
use tcp_implementation_over.Window.Spec.{in_window}
use tcp_implementation_over.Window.Bounds.{
  IsValid, in_use_at, add_segment-inside, add_segment-outside, add_segment-negsuc,
  next_ack-IsFirstVacant,
}
use tcp_implementation_over.Window.Refine.{slot_lt}
use tcp_implementation_over.Window.{
  Window, Slot, get_next_ack_index, fill, add_segment, vacate, take_slot, fetch_and_remove,
}

module _ {A : Type 0} where
  -- A call leaves the indices of its window that were in use so, but for the base it hands out.
  abbrev pub IsKept : Window A → Window A → Type 0
  IsKept w w' =
      (w.current_index ≤ w'.current_index)
      × ((j : ℕ)
          → w'.current_index ≤ j
          → j < w.current_index + w.receiving_window_size
          → in_use_at w j ≡ true
          → in_use_at w' j ≡ true)

  same-IsKept : (w : Window A) → IsKept w w
  same-IsKept w = (omega arith, λ j lo hi h. h)

  in_use-fill :
      (w : Window A) (x : A) (k j : ℕ)
      → IsValid w
      → in_use_at w j ≡ true
      → in_use_at (fill w x (k % w.receiving_window_size)) j ≡ true
  unfolding fill
  in_use-fill w x k j v h =
      let i = k % w.receiving_window_size in
      let s : Slot A = record { in_use = true; segment_data = x } in
      ground (
        arith,
        slot_lt w k v,
        get_elem?-set_self w.slots i s,
        get_elem?-set_ne w.slots i (j % w.receiving_window_size) s,
      )

  in_use-fill_self :
      (w : Window A) (x : A) (k : ℕ)
      → IsValid w
      → in_use_at (fill w x (k % w.receiving_window_size)) k ≡ true
  unfolding fill
  in_use-fill_self w x k v =
      let i = k % w.receiving_window_size in
      let s : Slot A = record { in_use = true; segment_data = x } in
      ground (arith, slot_lt w k v, get_elem?-set_self w.slots i s)

  index-fill : (w : Window A) (x : A) (i : ℕ) → (fill w x i).current_index ≡ w.current_index
  unfolding fill
  index-fill w x i = ground arith

  pub add_segment-IsKept : (w : Window A) (x : A) (k : ℤ) → IsValid w → IsKept w (add_segment w x k)
  add_segment-IsKept w x (negsuc k) v =
      subst (IsKept w) (sym (add_segment-negsuc w x k)) (same-IsKept w)
  add_segment-IsKept w x (pos k) v =
      elim (Bool-cases (in_window w.receiving_window_size w.current_index k)) [
        | inl inside ↦ subst (IsKept w) (sym (add_segment-inside w x k inside)) (
          omega (arith, index-fill w x (k % w.receiving_window_size)),
          λ j lo hi h. in_use-fill w x k j v h,
        )
        | inr outside ↦ subst (IsKept w) (sym (add_segment-outside w x k outside)) (same-IsKept w)
      ]

  in_use-vacate :
      (w : Window A) (s : Slot A) (j : ℕ)
      → w.current_index < j
      → j < w.current_index + w.receiving_window_size
      → in_use_at w j ≡ true
      → in_use_at (vacate w (w.current_index % w.receiving_window_size) s) j ≡ true
  unfolding vacate
  in_use-vacate w s j lo hi h =
      let n = w.receiving_window_size in
      let s' : Slot A = record s { in_use = false } in
      ground (
        arith,
        get_elem?-set_ne w.slots (w.current_index % n) (j % n) s',
        mod-ne w.current_index j n,
      )

  vacate-IsKept :
      (w : Window A) (s : Slot A)
      → IsKept w (vacate w (w.current_index % w.receiving_window_size) s)
  vacate-IsKept w s = (
    unfold vacate in omega arith,
    λ j lo hi h. in_use-vacate w s j (unfold vacate in omega (arith, lo)) hi h,
  )

  branch-IsKept :
      (w : Window A) (b : Bool) (p q : Option (A × ℕ) × Window A)
      → IsKept w p.1
      → IsKept w q.1
      → IsKept w (if◌then◌else◌ {A = Option (A × ℕ) × Window A} b p q).1
  branch-IsKept w true p q hp hq = hp
  branch-IsKept w false p q hp hq = hq

  take_slot-IsKept :
      (w : Window A) (o : Option (Slot A))
      → IsKept w (take_slot w (w.current_index % w.receiving_window_size) o).1
  unfolding take_slot
  take_slot-IsKept w none = same-IsKept w
  take_slot-IsKept w (some s) =
      branch-IsKept w s.in_use (some (s.segment_data, w.current_index), vacate w _ s) (none, w)
        (vacate-IsKept w s) (same-IsKept w)

  pub fetch_and_remove-IsKept : (w : Window A) → IsKept w (fetch_and_remove w).1
  unfolding fetch_and_remove
  fetch_and_remove-IsKept w =
      take_slot-IsKept w (get_elem? w.slots (w.current_index % w.receiving_window_size))

  -- One call, by either thread.
  unfoldable pub step : Window A → Op A → Window A
  step w (arrive x k) = add_segment w x k
  step w consume = (fetch_and_remove w).1

  step-IsKept : (w : Window A) (o : Op A) → IsValid w → IsKept w (step w o)
  unfolding step
  step-IsKept w (arrive x k) v = add_segment-IsKept w x k v
  step-IsKept w consume v = fetch_and_remove-IsKept w

  -- Whatever call is made on a valid window, the index that is acknowledged next does not fall, if one
  -- is returned before and after.
  pub next_ack_monotone :
      (w : Window A) (o : Op A) (k k' : ℕ)
      → IsValid w
      → get_next_ack_index w ≡ some k
      → get_next_ack_index (step w o) ≡ some k'
      → k ≤ k'
  next_ack_monotone w o k k' v e e' = elim (dec_le k k') [
    | yes up ↦ up
    | no down ↦
        let old = next_ack-IsFirstVacant w k e in
        let new = next_ack-IsFirstVacant (step w o) k' e' in
        let kept = step-IsKept w o v in
        let busy = kept.1 k' new.0 (omega arith) (old.3 k' (omega arith) (omega arith)) in
        absurd (ground arith)
  ]

  -- A segment that falls into the window is held once it has arrived.
  pub in_use-add_segment :
      (w : Window A) (x : A) (k : ℕ)
      → IsValid w
      → w.current_index ≤ k
      → k < w.current_index + w.receiving_window_size
      → in_use_at (add_segment w x (pos k)) k ≡ true
  in_use-add_segment w x k v lo hi =
      subst (λ (u : Window A). in_use_at u k ≡ true)
        (sym (add_segment-inside w x k (ground (arith, lo, hi)))) (in_use-fill_self w x k v)

  pub IsKept-trans :
      (u v w : Window A)
      → v.receiving_window_size ≡ u.receiving_window_size
      → IsKept u v
      → IsKept v w
      → IsKept u w
  IsKept-trans u v w e p q = (
    omega (arith, p.0, q.0),
    λ j lo hi h. q.1 j lo (omega (arith, p.0, e)) (p.1 j (omega (arith, q.0)) hi h),
  )

  -- Nothing comes out of a window only if its first index is vacant.
  pub fetched_none-vacant :
      (w : Window A) → (fetch_and_remove w).0 ≡ none → in_use_at w w.current_index ≡ false
  unfolding fetch_and_remove take_slot
  fetched_none-vacant w e = ground arith

  -- When the segment that a valid window asks for arrives, the next acknowledgement, if one is
  -- returned, is higher.
  pub next_ack_advances :
      (w : Window A) (x : A) (k k' : ℕ)
      → IsValid w
      → get_next_ack_index w ≡ some k
      → get_next_ack_index (add_segment w x (pos k)) ≡ some k'
      → k < k'
  next_ack_advances w x k k' v e e' =
      let up = next_ack_monotone w (arrive x (pos k)) k k' v e (unfold step in e') in
      elim (dec_lt k k') [
        | yes higher ↦ higher
        | no stuck ↦
            let here : k' ≡ k = omega arith in
            let w' = add_segment w x (pos k) in
            let old = next_ack-IsFirstVacant w k e in
            let held = in_use-add_segment w x k v old.0 old.1 in
            absurd (ground (arith, held, rw here at (next_ack-IsFirstVacant w' k' e').2))
      ]
