-- ===== src/Transfer/RepairTests.antt =====
-- One segment that is lost in the last round, and what repairs it.
use tcp_implementation_over.Common.{
  ℕ, ◌^◌, inr, some, ◌-◌, ◌<◌, ◌⊎◌, ◌≡◌, refl, true, false, List, [], ◌∷◌, arith,
}
use tcp_implementation_over.Common.Int.{pos, ◌-ℤ◌, rem_ℤ, to_int}
use tcp_implementation_over.Window
use tcp_implementation_over.Window.{
  init, scan, get_next_ack_index, fill, add_segment, vacate, take_slot, fetch_and_remove,
}
use tcp_implementation_over.Segments.{get_segment_count, initialize_file_segment_info}
use tcp_implementation_over.Transmit.{Sender}
use tcp_implementation_over.Transmit.Loop.{begun, outer, resume, run, handle_file_transmission}
use tcp_implementation_over.Client.{Client, next_ack, produce, send_client_ack_with_loss}
use tcp_implementation_over.Client.Runs.{Event, datagram, pass, run_client}
use tcp_implementation_over.Transmit.Loop
use tcp_implementation_over.Segments.Table.{initialize-IsTable}
use tcp_implementation_over.Window.Bounds.{init-IsValid}
use tcp_implementation_over.Client.Asking.{plain_ack}
use tcp_implementation_over.Transmit.Congestion.{segment}
use tcp_implementation_over.Transfer.Joint.{IsStuck, IsOver, repairs}
use tcp_implementation_over.Transfer.Repair.{repairs-IsOver}
use tcp_implementation_over.Transfer.LastRound.{IsLastRound, last_round-IsOver}
use tcp_implementation_over.Transfer.Unheard.{lost_last_ack}
use tcp_implementation_over.Transfer.Tests.{
  small_file, stale, noon, info, no_ack, zeroed, plain, first_segment, one_segment, one_small,
  one_low,
}

-- The server behind its only segment, which is lost.
abbrev asking : Sender
asking = record {
  index = 1;
  cwindow = 1;
  ssthresh = 4;
  current_window = 1;
  last_advt_window = 4;
  last_ack_received = 2 ^ 32 - 1;
  duplicate_ack = 0;
  total_to_send = 1;
  total_to_recv = 0;
  tsend = 0;
  ack = no_ack;
  rttinfo = info;
  table = initialize_file_segment_info 3;
  sent = first_segment ∷ [];
  now = noon;
}

abbrev fresh_client : Client
fresh_client = record {
  file_fd = pos 3;
  window = init 2 zeroed;
  lastack = 0;
  acks = [];
  count = 0;
  written = [];
}

-- A server that expects `n` acknowledgements in its round.
asking-IsStuck :
    (n : ℕ)
    → 0 < n
    → IsStuck small_file stale (record asking { total_to_send = n }) fresh_client 0 0
unfolding get_segment_count Window.init scan get_next_ack_index
asking-IsStuck n h = record {
  waits = record {
    entries = initialize-IsTable 3;
    position = refl;
    asked = refl;
    fresh = inr (omega arith);
    expected = omega (arith, h);
  };
  behind_client = omega arith;
  missing = omega arith;
  left = omega arith;
  asks = record {
    valid = init-IsValid 2 zeroed (omega arith);
    shown = refl;
    past = omega arith;
    vacant = refl;
  };
  runs = refl;
  small = omega arith;
}

repairs-IsOver_example : IsOver small_file (
    repairs small_file stale plain 2 zeroed noon 1
      (record { server = Loop.running asking; client = fresh_client }))
repairs-IsOver_example =
    repairs-IsOver small_file stale plain 2 zeroed noon 1 asking fresh_client 0 0 (λ m. refl)
      (asking-IsStuck 1 (omega arith)) one_segment

-- The server where its only round begins, and what the client meets: the segment is lost.
abbrev beginning : Sender
beginning = record asking { index = 0; total_to_send = 0; sent = [] }

abbrev lossy_round : List Event
lossy_round = datagram first_segment true false false ∷ pass false ∷ []

beginning-IsLastRound : IsLastRound small_file stale beginning
unfolding get_segment_count
beginning-IsLastRound = record {
  entries = initialize-IsTable 3;
  asked = refl;
  rest = refl;
  fresh = inr (omega arith);
  left = omega arith;
}

first_low : to_int 0 ≡ pos 0
unfolding to_int
first_low = refl

last_round-IsOver_example :
    let c = run_client plain small_file 2 zeroed 3 fresh_client lossy_round in
    (t : Sender) × (outer small_file stale (get_segment_count 3) beginning ≡ Loop.running t)
    × ((c.lastack ≡ 1)
        ⊎ IsOver small_file (
            repairs small_file stale plain 2 zeroed noon 1
              (record { server = Loop.running t; client = c })))
unfolding Window.init
last_round-IsOver_example =
    last_round-IsOver small_file stale plain 2 zeroed noon 1 beginning fresh_client 0 lossy_round
      (λ m. refl) beginning-IsLastRound (asking-IsStuck 1 (omega arith)).asks refl (omega arith)
      one_low one_small ((0, first_low, one_low), tt) (omega arith)

-- The datagrams of the client's window behind the only segment.
all_asked :
    get_next_ack_index
      (produce plain
        (get_segment_count 3)
        fresh_client
        (segment small_file stale 0)
        false
        false
        true).0.window
    ≡ some (get_segment_count 3)
unfolding produce next_ack send_client_ack_with_loss get_segment_count Window.init scan
    get_next_ack_index fill add_segment to_int ◌-ℤ◌ rem_ℤ
all_asked = refl

lost_last_ack_example :
    let s : Sender = record asking { total_to_send = 2 } in
    let c =
      (produce plain
        (get_segment_count 3)
        fresh_client
        (segment small_file stale 0)
        false
        false
        true).0 in
    let a = plain_ack c.window (get_segment_count 3) 0 in
    (c.acks ≡ a ∷ [])
    × (c.lastack ≡ 1)
    × (Loop.run small_file stale
          (get_segment_count 3)
          s
          (Loop.alarm noon ∷ Loop.reads (some a) [] noon ∷ Loop.alarm noon ∷ [])
        ≡ Loop.undefined)
lost_last_ack_example =
    lost_last_ack small_file stale plain (record asking { total_to_send = 2 }) fresh_client 0 noon
      (λ m. refl) (asking-IsStuck 2 (omega arith)) all_asked (omega arith)
