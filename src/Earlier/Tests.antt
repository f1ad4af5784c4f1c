-- ===== src/Earlier/Tests.antt =====
-- A file of one segment, a client that closes its window, and one that asks twice.
use tcp_implementation_over.Common.{ℕ, ◌≡◌, refl, none, List, [], ◌∷◌}
use tcp_implementation_over.Common.Int.{pos, to_int}
use tcp_implementation_over.Wire.{ClientAck}
use tcp_implementation_over.Segments.{
  get_segment_count, segment_info, fill_table, initialize_file_segment_info, read_into,
  send_segment,
}
use tcp_implementation_over.Clients.{no_clients, is_client, chk_request_retransmitted}
use tcp_implementation_over.Listen.{idle, request, Selected, interrupted, ready, first_request}
use tcp_implementation_over.Earlier.{
  allocated, sent_all, spinning, initial, note_ack, send_next, send_some, send_window, begin_window,
  after_ack_read, read_ack, read_acks, transmit_in_lockstep, earlier_loop,
}

abbrev small_file : List ℕ
small_file = 72 ∷ 105 ∷ 33 ∷ []

abbrev stale : List ℕ
stale = 0 ∷ 0 ∷ 0 ∷ 9 ∷ []

abbrev no_ack : ClientAck
no_ack = record { current_request = 0; advt_window = 0; lastack_sent = 0 }

-- The only segment has been sent and a read has returned: the loops end.
ends : (t : _) × (transmit_in_lockstep small_file stale 16 (pos 4) no_ack (none ∷ []) ≡ sent_all t)
unfolding transmit_in_lockstep allocated read_acks read_ack after_ack_read begin_window send_window
    send_some send_next note_ack initial initialize_file_segment_info fill_table segment_info
    send_segment read_into get_segment_count to_int
ends = (_, refl)

-- A sending window of 0 in the input file: the server spins.
spins : (t : _) × (transmit_in_lockstep small_file stale 16 (pos 0) no_ack [] ≡ spinning t)
unfolding transmit_in_lockstep allocated read_acks read_ack after_ack_read begin_window send_window
    send_some send_next note_ack initial initialize_file_segment_info fill_table segment_info
    send_segment read_into get_segment_count to_int
spins = (_, refl)

-- A client asks on the second socket, and again on the first.
abbrev selected : List Selected
selected =
    ready (idle ∷ request "10.1.2.9" 4000 ∷ [])
    ∷ interrupted
    ∷ ready (request "10.1.2.9" 4000 ∷ [])
    ∷ []

two_for_one : earlier_loop no_clients selected ≡ (1, "10.1.2.9", 4000) ∷ (0, "10.1.2.9", 4000) ∷ []
unfolding earlier_loop first_request chk_request_retransmitted is_client
two_for_one = refl
