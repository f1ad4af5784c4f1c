-- ===== src/Window/Tests.antt =====
-- The receive window on small inputs.
use tcp_implementation_over.Common.{
  ℕ, ◌+◌, ◌<◌, ◌≤◌, ◌≡◌, refl, true, none, some, List, [], ◌∷◌, length, arith, ◌↔◌,
}
use tcp_implementation_over.Common.Int.{pos, negsuc, ◌-ℤ◌, rem_ℤ}
use tcp_implementation_over.Window.{
  Window, init, scan, get_next_ack_index, get_available_window_size, fill, add_segment, vacate,
  take_slot, fetch_and_remove, run,
}
use tcp_implementation_over.Window.Ops.{Op, arrive, consume}
use tcp_implementation_over.Window.Spec
use tcp_implementation_over.Window.Spec.{put, next}
use tcp_implementation_over.Window.Bounds.{
  IsValid, in_use_at, init-IsValid, run-IsValid, next_ack-none_iff_full,
}
use tcp_implementation_over.Window.Refine.{view, run_refines}
use tcp_implementation_over.Window.Delivery.{InOrder, fetched-InOrder}
use tcp_implementation_over.Window.Progress.{step, next_ack_monotone}

-- A segment's data is a number here: 10 for the segment 0, 11 for the segment 1.
abbrev empty_window : Window ℕ
empty_window = init 3 0

abbrev empty_window-IsValid : IsValid empty_window
empty_window-IsValid = init-IsValid 3 0 (omega arith)

-- A reordered pair, a segment out of the window, and a repeated one.
abbrev reordered : List (Op ℕ)
reordered =
    arrive 11 (pos 1)
    ∷ arrive 10 (pos 0)
    ∷ arrive 13 (pos 3)
    ∷ arrive 9 (negsuc 0)
    ∷ arrive 10 (pos 0)
    ∷ []

abbrev mixed : List (Op ℕ)
mixed = arrive 11 (pos 1) ∷ arrive 10 (pos 0) ∷ consume ∷ arrive 13 (pos 3) ∷ consume ∷ consume ∷ []

abbrev IsData : ℕ → ℕ → Type 0
IsData k x = x ≡ 10 + k

reordered_next : get_next_ack_index (run (init 3 0) reordered).1 ≡ some 2
unfolding run init get_next_ack_index scan add_segment fill ◌-ℤ◌ rem_ℤ
reordered_next = refl

mixed_fetched : (run empty_window mixed).0 ≡ (10, 0) ∷ (11, 1) ∷ []
unfolding run init add_segment fill fetch_and_remove take_slot vacate ◌-ℤ◌ rem_ℤ
mixed_fetched = refl

run_refines_example :
    let (outs, w') = run empty_window mixed in (outs, view w') ≡ Spec.run (view empty_window) mixed
run_refines_example = run_refines empty_window mixed empty_window-IsValid

abbrev waiting_window : Window ℕ
waiting_window = (run empty_window reordered).1

fetched-InOrder_example :
    let (outs, w) = run (init 3 0) mixed in InOrder IsData 0 outs × (w.current_index ≡ length outs)
fetched-InOrder_example = fetched-InOrder IsData 3 0 mixed (omega arith) (refl, (refl, (refl, tt)))

available_window : get_available_window_size (run (init 3 0) reordered).1 ≡ some 1
unfolding get_available_window_size run init get_next_ack_index scan add_segment fill ◌-ℤ◌ rem_ℤ
available_window = refl

next_ack-none_iff_full_example : (get_next_ack_index waiting_window ≡ none) ↔ (
    (j : ℕ)
    → waiting_window.current_index ≤ j
    → j < waiting_window.current_index + waiting_window.receiving_window_size
    → in_use_at waiting_window j ≡ true)
next_ack-none_iff_full_example = next_ack-none_iff_full waiting_window

fetched_next : get_next_ack_index (step (run (init 3 0) reordered).1 consume) ≡ some 2
unfolding step run init get_next_ack_index scan add_segment fill fetch_and_remove take_slot vacate
    ◌-ℤ◌ rem_ℤ
fetched_next = refl

next_ack_monotone_example : 2 ≤ 2
next_ack_monotone_example =
    next_ack_monotone waiting_window consume 2 2
      (run-IsValid empty_window reordered empty_window-IsValid) reordered_next fetched_next

first_next : get_next_ack_index {A = ℕ} (init 3 0) ≡ some 0
unfolding init get_next_ack_index scan
first_next = refl

second_next : get_next_ack_index {A = ℕ} (add_segment (init 3 0) 10 (pos 0)) ≡ some 1
unfolding init get_next_ack_index scan add_segment fill ◌-ℤ◌ rem_ℤ
second_next = refl
