-- ===== src/Client/Tests.antt =====
-- A short file of three bytes, its one segment repeated, and a consumer that comes twice.
use tcp_implementation_over.Common.{
  ℕ, ◌≡◌, ◌<◌, ◌≤◌, ◌+◌, ◌⊎◌, Bool, ◌++◌, zero, suc, some, refl, subst, ap, true, false, List, [],
  ◌∷◌, ◌++◌, arith,
}
use tcp_implementation_over.Common.Int.{pos, ◌-ℤ◌, rem_ℤ, to_int, to_unsigned, pos_part}
use tcp_implementation_over.Wire.{Segment}
use tcp_implementation_over.Window
use tcp_implementation_over.Window.{
  Window, init, scan, get_next_ack_index, fill, add_segment, vacate, take_slot, fetch_and_remove,
}
use tcp_implementation_over.Segments.Reassemble.{IsCopy}
use tcp_implementation_over.Segments.{get_segment_count, write_length}
use tcp_implementation_over.Client.{
  Client, Config, drain, next_ack, available, produce, consume_pass, send_client_ack_with_loss,
  write_segment,
}
use tcp_implementation_over.Client.Explain.{IsGenuine}
use tcp_implementation_over.Client.Recovers
use tcp_implementation_over.Client.Rounds
use tcp_implementation_over.Client.Runs
use tcp_implementation_over.Client.Runs.{Event, datagram, pass, start, run_client, step}

abbrev small_file : List ℕ
small_file = 72 ∷ 105 ∷ 33 ∷ []

abbrev zeroed : Segment
zeroed = record { segment_num = 0; segment_data = [] }

abbrev plain : Config
plain = record { write_file_fd = pos 3; htonl = λ n. n; left_over = λ w. pos 0 }

-- Behind the file's bytes the buffer holds others.
abbrev first_segment : Segment
first_segment = record { segment_num = 0; segment_data = 72 ∷ 105 ∷ 33 ∷ 9 ∷ 9 ∷ [] }

abbrev history : List Event
history =
    pass false
    ∷ datagram first_segment true false false
    ∷ datagram first_segment false true false
    ∷ datagram first_segment false false false
    ∷ pass false
    ∷ []

first_segment-IsGenuine :
    IsGenuine plain small_file 2 zeroed (λ k s. IsCopy small_file k s.segment_data) first_segment
unfolding to_int get_segment_count
first_segment-IsGenuine k e =
    subst (λ (j : ℕ). IsCopy small_file j first_segment.segment_data) (ap pos_part e) refl

all_counted :
    (run_client plain small_file 2 zeroed 3 (start plain small_file 2 zeroed) history).count
    ≡ get_segment_count 3
unfolding run_client start step produce consume_pass drain next_ack available
    send_client_ack_with_loss write_segment get_segment_count Window.init scan get_next_ack_index
    fill add_segment vacate take_slot fetch_and_remove to_int to_unsigned ◌-ℤ◌ rem_ℤ write_length
all_counted = refl

-- The client with its one segment waiting.
abbrev waiting_client : Client
waiting_client = record (start plain small_file 2 zeroed) {
  window = add_segment (init 2 zeroed) first_segment (pos 0);
}

abbrev waiting : Client
waiting = run_client plain small_file 2 zeroed 3 (start plain small_file 2 zeroed) (pass false ∷ [])

-- The only segment makes the producer return, though its acknowledgements are lost.
returns : (produce plain (get_segment_count 3) waiting first_segment false true true).1 ≡ true
unfolding run_client start step produce consume_pass drain next_ack available
    send_client_ack_with_loss write_segment get_segment_count Window.init scan get_next_ack_index
    fill add_segment vacate take_slot fetch_and_remove to_int to_unsigned ◌-ℤ◌ rem_ℤ write_length
returns = refl

stays_open :
    get_next_ack_index
      (produce plain (get_segment_count 3) waiting first_segment false true true).0.window
    ≡ some 1
unfolding run_client start step produce consume_pass drain next_ack available
    send_client_ack_with_loss write_segment get_segment_count Window.init scan get_next_ack_index
    fill add_segment vacate take_slot fetch_and_remove to_int to_unsigned ◌-ℤ◌ rem_ℤ write_length
stays_open = refl

one_low : 0 < get_segment_count 3
unfolding get_segment_count
one_low = omega arith

abbrev marked : ℕ → Segment
marked k = record first_segment { segment_num = k }

abbrev no_loss : ℕ → ℕ → Bool
no_loss n i = false

-- The only datagram was lost; one round is left.
abbrev lost_history : List Event
lost_history = pass false ∷ datagram first_segment true false false ∷ []

marked-number : (k : ℕ) → k < get_segment_count 3 → to_int (marked k).segment_num ≡ pos k
unfolding to_int get_segment_count
marked-number k low = ground (arith, low)

marked-IsCopy : (k : ℕ) → k < get_segment_count 3 → IsCopy small_file k (marked k).segment_data
unfolding get_segment_count
marked-IsCopy zero low = refl
marked-IsCopy (suc k) low = absurd (omega (arith, low))

lost_history-AllGenuine : Recovers.AllGenuine plain small_file 2 zeroed lost_history
unfolding to_int get_segment_count
lost_history-AllGenuine = (
  λ k e.
      subst (λ (j : ℕ). Recovers.OfFile plain small_file 2 zeroed j first_segment) (ap pos_part e)
        (omega arith, refl),
  tt,
)

one_missing :
    get_segment_count 3
    ≤ (run_client plain small_file 2 zeroed 3 (start plain small_file 2 zeroed) lost_history).count
      + 1
unfolding get_segment_count
one_missing = omega arith

resent_writes_file_example :
    let s = Runs.reached plain small_file 2 zeroed 3 lost_history in
    let after = lost_history ++ Rounds.resendings plain small_file 2 zeroed 3 marked no_loss 1 s in
    (((Runs.reached plain small_file 2 zeroed 3 after).count ≡ 1)
      × ((Runs.reached plain small_file 2 zeroed 3 after).written ≡ small_file))
    ⊎ Runs.WasFull plain small_file 2 zeroed 3 after
unfolding get_segment_count
resent_writes_file_example =
    Recovers.resent_writes_file plain small_file 2 zeroed marked no_loss lost_history 1 refl
      (omega arith) lost_history-AllGenuine marked-number marked-IsCopy one_missing
