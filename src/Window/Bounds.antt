-- ===== src/Window/Bounds.antt =====
-- The representation invariant of the receive window, and what its loops return.
use tcp_implementation_over.Common.{
  ℕ, zero, suc, ◌+◌, ◌-◌, ◌%◌, ◌≤◌, ◌<◌, ◌≡◌, Bool, true, false, Option, none, some, List, [], ◌∷◌,
  get_elem?, length, length-set, length-replicate, arith, Bool-cases, Option-cases, dec_lt, inl,
  inr, ◌↔◌, ap, ◌∙◌, if◌then◌else◌,
}
use tcp_implementation_over.Common.Int.{ℤ, pos, negsuc}
use tcp_implementation_over.Window.Spec.{in_window}
use tcp_implementation_over.Window.Ops.{Op, arrive, consume}
use tcp_implementation_over.Window.{
  Window, Slot, init, flag, scan, get_next_ack_index, get_available_window_size, fill, add_segment,
  vacate, take_slot, fetch_and_remove, run,
}

pub record IsValid {A : Type 0} (w : Window A) : Type 0 where
  pub some_room : 0 < w.receiving_window_size
  pub ring : length w.slots ≡ w.receiving_window_size

module _ {A : Type 0} where
  -- Whether the slot that the index `k` falls on is in use.
  abbrev pub in_use_at : Window A → ℕ → Bool
  in_use_at w k = flag (get_elem? w.slots (k % w.receiving_window_size))

  pub init-IsValid : (size : ℕ) (zeroed : A) → 0 < size → IsValid (init size zeroed)
  unfolding init
  init-IsValid size zeroed h = record { some_room = h; ring = length-replicate size _ }

  fill-IsValid : (w : Window A) (buf : A) (i : ℕ) → IsValid w → IsValid (fill w buf i)
  unfolding fill
  fill-IsValid w buf i v =
      ground (arith, length-set w.slots i (record { in_use = true; segment_data = buf }))

  -- Only an index in the window is stored, at its remainder.
  pub add_segment-pos :
      (w : Window A) (buf : A) (k : ℕ)
      → add_segment w buf (pos k) ≡ (
          if in_window w.receiving_window_size w.current_index k
          then fill w buf (k % w.receiving_window_size)
          else w)
  unfolding add_segment
  add_segment-pos w buf k = ground arith

  pub add_segment-inside :
      (w : Window A) (buf : A) (k : ℕ)
      → in_window w.receiving_window_size w.current_index k ≡ true
      → add_segment w buf (pos k) ≡ fill w buf (k % w.receiving_window_size)
  add_segment-inside w buf k h = add_segment-pos w buf k ∙ rw h

  pub add_segment-outside :
      (w : Window A) (buf : A) (k : ℕ)
      → in_window w.receiving_window_size w.current_index k ≡ false
      → add_segment w buf (pos k) ≡ w
  add_segment-outside w buf k h = add_segment-pos w buf k ∙ rw h

  pub add_segment-negsuc : (w : Window A) (buf : A) (k : ℕ) → add_segment w buf (negsuc k) ≡ w
  unfolding add_segment
  add_segment-negsuc w buf k = ground arith

  pub add_segment-IsValid :
      (w : Window A) (buf : A) (index : ℤ) → IsValid w → IsValid (add_segment w buf index)
  add_segment-IsValid w buf (pos k) v =
      rw (add_segment-pos w buf k)
        (ground (arith, fill-IsValid w buf (k % w.receiving_window_size) v))
  add_segment-IsValid w buf (negsuc k) v = rw (add_segment-negsuc w buf k) v

  pub take_slot-IsValid :
      (w : Window A) (i : ℕ) (o : Option (Slot A)) → IsValid w → IsValid (take_slot w i o).1
  unfolding take_slot vacate
  take_slot-IsValid w i none v = v
  take_slot-IsValid w i (some s) v =
      ground (arith, length-set w.slots i (record s { in_use = false }))

  pub fetch_and_remove-IsValid : (w : Window A) → IsValid w → IsValid (fetch_and_remove w).1
  unfolding fetch_and_remove
  fetch_and_remove-IsValid w v = take_slot-IsValid w _ _ v

  -- No sequence of calls spoils a valid window.
  pub run-IsValid : (w : Window A) (ops : List (Op A)) → IsValid w → IsValid (run w ops).1
  unfolding run
  run-IsValid w [] v = v
  run-IsValid w (arrive buf k ∷ ops) v =
      run-IsValid (add_segment w buf k) ops (add_segment-IsValid w buf k v)
  run-IsValid w (consume ∷ ops) v =
      run-IsValid (fetch_and_remove w).1 ops (fetch_and_remove-IsValid w v)

  scan-some :
      (w : Window A) (n i k : ℕ)
      → scan w n i ≡ some k
      → (w.current_index + i ≤ k)
        × (k < w.current_index + i + n)
        × (in_use_at w k ≡ false)
        × ((j : ℕ) → w.current_index + i ≤ j → j < k → in_use_at w j ≡ true)
  unfolding scan
  scan-some w zero i k e = absurd (cc)
  scan-some w (suc n) i k e = elim (Bool-cases (in_use_at w (w.current_index + i))) [
    | inl busy ↦
        let rest = scan-some w n (i + 1) k (rw busy at e) in
        (
          omega arith,
          omega arith,
          rest.2,
          λ j lo hi. elim (dec_lt (w.current_index + i) j) [
            | yes after ↦ rest.3 j (omega arith) hi
            | no here ↦ let same : j ≡ w.current_index + i = omega arith in rw same busy
          ],
        )
    | inr vacant ↦
        let here : w.current_index + i ≡ k = ground arith in
        (omega arith, omega arith, rw (← here) vacant, λ j lo hi. absurd (omega arith))
  ]

  scan-none :
      (w : Window A) (n i : ℕ)
      → scan w n i ≡ none
      → (j : ℕ) → w.current_index + i ≤ j
      → j < w.current_index + i + n
      → in_use_at w j ≡ true
  unfolding scan
  scan-none w zero i e j lo hi = absurd (omega arith)
  scan-none w (suc n) i e j lo hi = elim (Bool-cases (in_use_at w (w.current_index + i))) [
    | inl busy ↦ elim (dec_lt (w.current_index + i) j) [
      | yes after ↦ scan-none w n (i + 1) (rw busy at e) j (omega arith) (omega arith)
      | no here ↦ let same : j ≡ w.current_index + i = omega arith in rw same busy
    ]
    | inr vacant ↦ absurd (ground arith)
  ]

  -- The acknowledged index is the first vacant one of the window.
  abbrev pub IsFirstVacant : Window A → ℕ → Type 0
  IsFirstVacant w k =
      (w.current_index ≤ k)
      × (k < w.current_index + w.receiving_window_size)
      × (in_use_at w k ≡ false)
      × ((j : ℕ) → w.current_index ≤ j → j < k → in_use_at w j ≡ true)

  -- The index returned lies in the window, is vacant, and every index of the window below it is in
  -- use.
  pub next_ack-IsFirstVacant :
      (w : Window A) (k : ℕ) → get_next_ack_index w ≡ some k → IsFirstVacant w k
  unfolding get_next_ack_index
  next_ack-IsFirstVacant w k e =
      let found = scan-some w w.receiving_window_size 0 k e in
      (omega arith, omega arith, found.2, λ j lo hi. found.3 j (omega arith) hi)

  -- The loop runs off its end on a full window, and on no other.
  pub next_ack-none_iff_full :
      (w : Window A)
      → (get_next_ack_index w ≡ none) ↔ (
          (j : ℕ)
          → w.current_index ≤ j
          → j < w.current_index + w.receiving_window_size
          → in_use_at w j ≡ true)
  unfolding get_next_ack_index
  next_ack-none_iff_full w = (
    λ e j lo hi. scan-none w w.receiving_window_size 0 e j (omega arith) (omega arith),
    λ full. elim (Option-cases (scan w w.receiving_window_size 0)) [
      | inl e ↦ e
      | inr (k, e) ↦
          let found = scan-some w w.receiving_window_size 0 k e in
          let busy = full k (omega arith) (omega arith) in absurd (ground arith)
    ],
  )

  -- Where the advertised window is defined it is at least 1, at most the whole window, and the
  -- acknowledged index lies that far below the window's end.
  available_window-bounds :
      (w : Window A) (n : ℕ)
      → get_available_window_size w ≡ some n
      → (0 < n)
        × (n ≤ w.receiving_window_size)
        × (get_next_ack_index w ≡ some (w.current_index + w.receiving_window_size - n))
  unfolding get_available_window_size
  available_window-bounds w n e = elim (Option-cases (get_next_ack_index w)) [
    | inl missing ↦ absurd (ground arith)
    | inr (k, here) ↦
        let found = next_ack-IsFirstVacant w k here in
        let size : w.receiving_window_size + w.current_index - k ≡ n = ground arith in
        (omega arith, omega arith, here ∙ ap some (omega arith))
  ]
