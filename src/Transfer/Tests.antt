-- ===== src/Transfer/Tests.antt =====
-- One segment, from the server to the client.
use tcp_implementation_over.Common.{
  ℕ, ◌+◌, ◌^◌, some, ◌≤◌, ◌-◌, ◌%◌, ◌<◌, ◌⊎◌, ◌≡◌, refl, true, false, List, [], ◌∷◌, Memᴰ, ◌==◌,
  if◌then◌else◌, take, arith,
}
use tcp_implementation_over.Common.Int.{pos, ◌-ℤ◌, rem_ℤ, to_int, to_unsigned}
use tcp_implementation_over.Wire.{Segment, ClientAck, segment_data_size}
use tcp_implementation_over.Rtt.{RttInfo, Timeval}
use tcp_implementation_over.Window
use tcp_implementation_over.Window.{
  init, scan, get_next_ack_index, fill, add_segment, vacate, take_slot, fetch_and_remove,
}
use tcp_implementation_over.Segments.{
  get_segment_count, segment_info, fill_table, initialize_file_segment_info, read_into,
  send_segment, write_length,
}
use tcp_implementation_over.Transmit
use tcp_implementation_over.Transmit.{
  Sender, send, burst, begin_round, on_read, receive, open_window,
}
use tcp_implementation_over.Transmit.Loop.{begun, outer, resume, run, handle_file_transmission}
use tcp_implementation_over.Client.{
  Config, drain, next_ack, available, produce, consume_pass, send_client_ack_with_loss,
  write_segment,
}
use tcp_implementation_over.Client.Runs.{Event, datagram, pass, start, run_client, step}
use tcp_implementation_over.Transmit.Loop
use tcp_implementation_over.Transmit.Holds.{MayMeet}
use tcp_implementation_over.Client.LastAck.{datagrams}
use tcp_implementation_over.Client.Runs.{reached, WasFull}
use tcp_implementation_over.Transfer.Closing.{closing-IsComplete}
use tcp_implementation_over.Transfer.{output, IsCarried, file_transferred, transfer_completes}

abbrev pub small_file : List ℕ
small_file = 72 ∷ 105 ∷ 33 ∷ []

abbrev pub stale : List ℕ
stale = 0 ∷ 0 ∷ 0 ∷ 9 ∷ []

abbrev pub noon : Timeval
noon = record { tv_sec = 12; tv_usec = 0 }

abbrev pub info : RttInfo
info = record {
  rtt_rtt = pos 0;
  rtt_srtt = pos 0;
  rtt_rttvar = pos 0;
  rtt_rto = pos 1000;
  rtt_nrexmt = 0;
  rtt_base = 12;
}

abbrev pub no_ack : ClientAck
no_ack = record { current_request = 0; advt_window = 0; lastack_sent = 0 }

abbrev pub zeroed : Segment
zeroed = record { segment_num = 0; segment_data = [] }

abbrev pub plain : Config
plain = record { write_file_fd = pos 3; htonl = λ n. n; left_over = λ w. pos 0 }

abbrev pub first_segment : Segment
first_segment = record { segment_num = 0; segment_data = 72 ∷ 105 ∷ 33 ∷ 9 ∷ [] }

-- The segment is lost once, and comes twice.
abbrev arrived : List Event
arrived =
    datagram first_segment true false false
    ∷ datagram first_segment false true false
    ∷ datagram first_segment false false false
    ∷ pass false
    ∷ []

arrived-IsCarried :
    IsCarried (output (handle_file_transmission small_file stale 3 4 no_ack info noon [])) arrived
unfolding handle_file_transmission outer begun resume run begin_round burst send Transmit.start
    initialize_file_segment_info fill_table segment_info send_segment read_into get_segment_count
arrived-IsCarried = (Memᴰ.head refl, (Memᴰ.head refl, (Memᴰ.head refl, tt)))

all_counted :
    (run_client plain small_file 2 zeroed 3 (start plain small_file 2 zeroed) arrived).count
    ≡ get_segment_count 3
unfolding run_client start step produce consume_pass drain next_ack available
    send_client_ack_with_loss write_segment get_segment_count Window.init scan get_next_ack_index
    fill add_segment vacate take_slot fetch_and_remove to_int to_unsigned ◌-ℤ◌ rem_ℤ write_length
all_counted = refl

file_transferred_example :
    (run_client plain small_file 2 zeroed 3 (start plain small_file 2 zeroed) arrived).written
    ≡ take (if 3 % segment_data_size == 0 then 3 - segment_data_size else 3) small_file
file_transferred_example =
    file_transferred small_file stale plain 2 zeroed 4 no_ack info noon [] arrived refl
      arrived-IsCarried (omega arith) all_counted

-- The same without the pass of the consumer.
abbrev waiting : List Event
waiting = datagram first_segment true false false ∷ datagram first_segment false true false ∷ []

waiting-IsCarried :
    IsCarried (output (handle_file_transmission small_file stale 3 4 no_ack info noon [])) waiting
unfolding handle_file_transmission outer begun resume run begin_round burst send Transmit.start
    initialize_file_segment_info fill_table segment_info send_segment read_into get_segment_count
waiting-IsCarried = (Memᴰ.head refl, (Memᴰ.head refl, tt))

waiting_ack :
    get_next_ack_index
      (run_client plain small_file 2 zeroed 3 (start plain small_file 2 zeroed) waiting).window
    ≡ some 1
unfolding run_client start step produce consume_pass drain next_ack available
    send_client_ack_with_loss write_segment get_segment_count Window.init scan get_next_ack_index
    fill add_segment vacate take_slot fetch_and_remove to_int to_unsigned ◌-ℤ◌ rem_ℤ write_length
waiting_ack = refl

pub one_segment : get_segment_count 3 ≤ 1
unfolding get_segment_count
one_segment = omega arith

transfer_completes_example :
    let c =
      step plain small_file 2 zeroed 3
        (run_client plain small_file 2 zeroed 3 (start plain small_file 2 zeroed) waiting)
        (pass true) in
    (c.count ≡ get_segment_count 3)
    × (c.written
        ≡ take (if 3 % segment_data_size == 0 then 3 - segment_data_size else 3) small_file)
transfer_completes_example =
    transfer_completes small_file stale plain 2 zeroed 4 no_ack info noon [] waiting refl
      waiting-IsCarried true 1 (omega arith) waiting_ack one_segment

-- The client's last acknowledgement reaches the server, which closes.
abbrev last_ack : ClientAck
last_ack = record { current_request = 1; advt_window = 1; lastack_sent = 1 }

abbrev heard : List Loop.Event
heard = Loop.reads (some last_ack) [] noon ∷ []

heard-MayMeet :
    MayMeet (λ a. Memᴰ a (no_ack ∷ (reached plain small_file 2 zeroed 3 arrived).acks)) heard
unfolding run_client start step produce consume_pass drain next_ack available
    send_client_ack_with_loss write_segment get_segment_count Window.init scan get_next_ack_index
    fill add_segment vacate take_slot fetch_and_remove to_int to_unsigned ◌-ℤ◌ rem_ℤ write_length
heard-MayMeet = (Memᴰ.tail (Memᴰ.head refl), tt, tt)

closed :
    (t : Sender) × (handle_file_transmission small_file stale 3 4 no_ack info noon heard
      ≡ Loop.closing t)
unfolding handle_file_transmission outer begun resume run begin_round burst send Transmit.start
    initialize_file_segment_info fill_table segment_info send_segment read_into get_segment_count
    Loop.step Loop.after_read Loop.end_round on_read receive open_window
closed = (_, refl)

pub one_small : get_segment_count 3 + 2 < 2 ^ 31
unfolding get_segment_count
one_small = omega arith

pub one_low : 0 < get_segment_count 3
unfolding get_segment_count
one_low = omega arith

closing-IsComplete_example :
    ((s : Segment) × Memᴰ s (datagrams arrived) × (to_int s.segment_num ≡ pos 0))
    ⊎ WasFull plain small_file 2 zeroed 3 arrived
closing-IsComplete_example =
    closing-IsComplete small_file stale plain 2 zeroed 4 no_ack info noon heard closed.0 arrived 0
      refl (omega arith) (λ e. cc e) one_low heard-MayMeet closed.1
