-- ===== src/Window.antt =====
-- The client's receive window, slidingwindow.c: a ring of segment buffers that two threads share.
pub mod Ops
pub mod Spec
pub mod Bounds
pub mod Refine
pub mod Delivery
pub mod Progress
mod Tests
use tcp_implementation_over.Common.{
  ℕ, zero, suc, ◌+◌, ◌-◌, ◌%◌, Bool, true, false, Option, none, some, List, [], ◌∷◌, ◌||◌,
  if◌then◌else◌, get_elem?, set, replicate,
}
use tcp_implementation_over.Common.Int.{ℤ, pos, pos_part, ltb_ℤ, leb_ℤ, ◌-ℤ◌, rem_ℤ}
use mathlib.Core.Option
use Ops.{Op, arrive, consume, emit}

-- `SlidingWindow`: one buffer of the ring. `A` is the contents of SEGMENTSIZE bytes, which this
-- file only copies.
pub record Slot (A : Type 0) : Type 0 where
  pub in_use : Bool
  pub segment_data : A

-- The statics `slidingWindow` and `currentIndex`, with the configured `receivingWindowSize` that
-- every function reads.
pub record Window (A : Type 0) : Type 0 where
  pub receiving_window_size : ℕ
  pub slots : List (Slot A)
  pub current_index : ℕ

module _ {A : Type 0} where
  -- `calloc` clears the flag and the bytes; `currentIndex` starts at 0 with the process.
  unfoldable pub init : ℕ → A → Window A
  init size zeroed = record {
    receiving_window_size = size;
    slots = replicate size (record { in_use = false; segment_data = zeroed });
    current_index = 0;
  }

  -- The flag of a slot; a slot out of range, which `Bounds` rules out, reads as vacant.
  abbrev pub flag : Option (Slot A) → Bool
  flag none = false
  flag (some s) = s.in_use

  -- The loop from `i` with `n` rounds left. `none`: control runs off the end of the function, and
  -- the caller reads a value that C leaves undefined.
  unfoldable pub scan : Window A → ℕ → ℕ → Option ℕ
  scan w zero i = none
  scan w (suc n) i =
      if flag (get_elem? w.slots ((w.current_index + i) % w.receiving_window_size))
      then scan w n (i + 1)
      else some (w.current_index + i)

  unfoldable pub get_next_ack_index : Window A → Option ℕ
  unfolding scan
  get_next_ack_index w = scan w w.receiving_window_size 0

  -- The difference cannot be negative: `Bounds.available_window-bounds`.
  pub get_available_window_size : Window A → Option ℕ
  unfolding get_next_ack_index
  get_available_window_size w =
      Option.map (λ k. w.receiving_window_size + w.current_index - k) (get_next_ack_index w)

  -- A slot that is in use keeps its first contents.
  unfoldable pub fill : Window A → A → ℕ → Window A
  fill w buf i =
      if flag (get_elem? w.slots i)
      then w
      else record w { slots = set w.slots i (record { in_use = true; segment_data = buf }) }

  unfoldable pub add_segment : Window A → A → ℤ → Window A
  unfolding ◌-ℤ◌ rem_ℤ
  add_segment w buf index =
      let index_in_window = index -ℤ pos w.current_index in
      if ltb_ℤ index_in_window (pos 0) || leb_ℤ (pos w.receiving_window_size) index_in_window
      then w
      else fill w buf (pos_part (rem_ℤ index w.receiving_window_size))

  unfoldable pub vacate : Window A → ℕ → Slot A → Window A
  vacate w i s = record w {
    slots = set w.slots i (record s { in_use = false });
    current_index = w.current_index + 1;
  }

  -- `none` is an `outIndex` of -1; otherwise the segment and its index.
  unfoldable pub take_slot : Window A → ℕ → Option (Slot A) → Option (A × ℕ) × Window A
  take_slot w i none = (none, w)
  take_slot w i (some s) =
      if s.in_use then (some (s.segment_data, w.current_index), vacate w i s) else (none, w)

  unfoldable pub fetch_and_remove : Window A → Option (A × ℕ) × Window A
  unfolding take_slot
  fetch_and_remove w =
      let i = w.current_index % w.receiving_window_size in take_slot w i (get_elem? w.slots i)

module _ {A : Type 0} where
  -- A sequence of calls, with what each fetch hands out.
  unfoldable pub run : Window A → List (Op A) → List (A × ℕ) × Window A
  run w [] = ([], w)
  run w (arrive buf index ∷ ops) = run (add_segment w buf index) ops
  run w (consume ∷ ops) =
      let (out, w') = fetch_and_remove w in let (outs, w'') = run w' ops in (emit out outs, w'')
