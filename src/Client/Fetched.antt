-- ===== src/Client/Fetched.antt =====
-- What a fetch of the consumer leaves of the index that the client asks for.
use tcp_implementation_over.Common.{
  ℕ, zero, suc, ◌+◌, ◌%◌, ◌≤◌, ◌≡◌, refl, sym, subst, ◌∙◌, false, Option, none, some, List, [], ◌∷◌,
  arith, dec_lt, dec_le, get_elem?, set,
}
use tcp_implementation_over.Window.{Window, Slot, fetch_and_remove, take_slot, vacate, flag}
use tcp_implementation_over.Window.Bounds.{
  in_use_at, next_ack-IsFirstVacant, fetch_and_remove-IsValid,
}
use tcp_implementation_over.Window.Progress.{fetch_and_remove-IsKept}
use tcp_implementation_over.Client.Marked.{either}
use tcp_implementation_over.Client.Asking.{AsksFor, some_asked}

module _ {A : Type 0} where
  -- To empty a place of a list of slots fills none.
  vacant-set :
      (xs : List (Slot A)) (i j : ℕ) (s : Slot A)
      → s.in_use ≡ false
      → flag (get_elem? xs j) ≡ false
      → flag (get_elem? (set xs i s) j) ≡ false
  vacant-set [] i j s e h = h
  vacant-set (x ∷ xs) zero zero s e h = e
  vacant-set (x ∷ xs) zero (suc j) s e h = h
  vacant-set (x ∷ xs) (suc i) zero s e h = h
  vacant-set (x ∷ xs) (suc i) (suc j) s e h = vacant-set xs i j s e h

  take_slot-vacant :
      (w : Window A) (i : ℕ) (o : Option (Slot A)) (j : ℕ)
      → in_use_at w j ≡ false
      → in_use_at (take_slot w i o).1 j ≡ false
  unfolding take_slot vacate
  take_slot-vacant w i none j h = h
  take_slot-vacant w i (some s) j h =
      either (λ (r : Option (A × ℕ) × Window A). in_use_at r.1 j ≡ false) s.in_use
        (some (s.segment_data, w.current_index), vacate w i s) (none, w)
        (vacant-set w.slots i (j % w.receiving_window_size) (record s { in_use = false }) refl h) h

  -- A fetch puts nothing into the window, and moves its base by one at most.
  fetch-vacant :
      (w : Window A) (j : ℕ) → in_use_at w j ≡ false → in_use_at (fetch_and_remove w).1 j ≡ false
  unfolding fetch_and_remove
  fetch-vacant w j h =
      take_slot-vacant w (w.current_index % w.receiving_window_size)
        (get_elem? w.slots (w.current_index % w.receiving_window_size)) j h

  pub fetch-base :
      (w : Window A)
      → ((fetch_and_remove w).1.current_index ≤ w.current_index + 1)
        × ((fetch_and_remove w).1.receiving_window_size ≡ w.receiving_window_size)
        × (in_use_at w w.current_index ≡ false
            → (fetch_and_remove w).1.current_index ≡ w.current_index)
  unfolding fetch_and_remove take_slot vacate
  fetch-base w = (ground arith, ground arith, λ h. ground (arith, h))

  -- A fetch leaves the index that the window asks for as it is.
  pub fetch-AsksFor :
      (total : ℕ) (w : Window A) (k : ℕ)
      → AsksFor total w k
      → k ≤ total
      → AsksFor total (fetch_and_remove w).1 k
  fetch-AsksFor total w k h le =
      let w' = (fetch_and_remove w).1 in
      let first = next_ack-IsFirstVacant w k h.shown in
      let base = fetch-base w in
      let kept = fetch_and_remove-IsKept w in
      let in_base : w'.current_index ≤ k = elim (dec_lt w.current_index k) [
        | yes below ↦ omega (arith, base.0, below)
        | no here ↦
            let same : k ≡ w.current_index = omega (arith, first.0, here) in
            let vacant : in_use_at w w.current_index ≡ false =
              subst (λ (j : ℕ). in_use_at w j ≡ false) same first.2 in
            omega (arith, base.2 vacant, first.0)
      ] in
      let (k', h', le') =
        some_asked total w' (fetch_and_remove-IsValid w h.valid) (omega (arith, in_base, le))
          (omega (arith, kept.0, base.1, h.past)) (fetch-vacant w total h.vacant) in
      let first' = next_ack-IsFirstVacant w' k' h'.shown in
      let down : k' ≤ k = elim (dec_le k' k) [
        | yes down ↦ down
        | no up ↦
            absurd (cc (sym (fetch-vacant w k first.2) ∙ first'.3 k in_base (omega (arith, up))))
      ] in
      let up : k ≤ k' = elim (dec_le k k') [
        | yes up ↦ up
        | no below ↦
            let busy =
              kept.1 k' first'.0 (omega (arith, below, first.1))
                (first.3 k' (omega (arith, first'.0, kept.0)) (omega (arith, below))) in
            absurd (cc (sym first'.2 ∙ busy))
      ] in
      let same : k' ≡ k = omega (arith, up, down) in subst (AsksFor total w') same h'
