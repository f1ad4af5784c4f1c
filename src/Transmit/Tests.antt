-- ===== src/Transmit/Tests.antt =====
-- The transmission of a file of one segment.
use tcp_implementation_over.Common.{
  ◌⊎◌, inr, ◌<◌, ℕ, ◌+◌, ◌/◌, ◌≤◌, ◌≡◌, refl, false, some, none, List, [], ◌∷◌, ◌++◌, arith,
}
use tcp_implementation_over.Common.Int.{pos}
use tcp_implementation_over.Wire.{ClientAck}
use tcp_implementation_over.Segments.{get_segment_count, initialize_file_segment_info}
use tcp_implementation_over.Segments.Table.{IsTable, initialize-IsTable}
use tcp_implementation_over.Rtt.{RttInfo, Timeval}
use tcp_implementation_over.Transmit.{Sender, begin_round, on_alarm}
use tcp_implementation_over.Transmit.Bursts.{
  total, segments_from, begin_round_lem, begin_round-past,
}
use tcp_implementation_over.Transmit.Congestion
use tcp_implementation_over.Transmit.Congestion.{on_alarm_lem}
use tcp_implementation_over.Transmit.Duplicates
use tcp_implementation_over.Transmit.Duplicates.{IsRepeat, repeats, retransmitted_once}
use tcp_implementation_over.Transmit.Genuine.{All}
use tcp_implementation_over.Transmit.Loop.{Event, reads, alarm, handle_file_transmission}
use tcp_implementation_over.Transmit.Holds.{Holds}
use tcp_implementation_over.Transmit.Output.{sent-IsPart, IsPart}

abbrev small_file : List ℕ
small_file = 72 ∷ 105 ∷ 33 ∷ []

abbrev stale : List ℕ
stale = 0 ∷ 0 ∷ []

abbrev noon : Timeval
noon = record { tv_sec = 12; tv_usec = 0 }

abbrev info : RttInfo
info = record {
  rtt_rtt = pos 0;
  rtt_srtt = pos 0;
  rtt_rttvar = pos 0;
  rtt_rto = pos 1000;
  rtt_nrexmt = 0;
  rtt_base = 12;
}

abbrev first_ack : ClientAck
first_ack = record { current_request = 0; advt_window = 2; lastack_sent = 0 }

abbrev last_ack : ClientAck
last_ack = record { current_request = 1; advt_window = 2; lastack_sent = 1 }

-- A sender at the start of a round, its congestion window `n`.
abbrev sender : ℕ → Sender
sender n = record {
  index = 0;
  cwindow = n;
  ssthresh = 8;
  current_window = 1;
  last_advt_window = 4;
  last_ack_received = 0;
  duplicate_ack = 0;
  total_to_send = 0;
  total_to_recv = 0;
  tsend = 0;
  ack = first_ack;
  rttinfo = info;
  table = initialize_file_segment_info 3;
  sent = [];
  now = noon;
}

one_segment : total small_file stale ≡ 1
unfolding get_segment_count
one_segment = refl

begin_round_lem_example :
    (t : Sender) × (begin_round small_file stale (sender 1) ≡ some t)
    × (t.sent ≡ [] ++ segments_from small_file stale 0 1)
    × (t.index ≡ 0 + 1)
    × (t.total_to_send ≡ 1)
    × (t.total_to_recv ≡ 0)
    × IsTable 3 t.table
begin_round_lem_example =
    begin_round_lem small_file stale 1 (sender 1) (omega arith, omega arith, inr refl)
      (initialize-IsTable 3) (omega arith) (omega (arith, one_segment))

begin_round-past_example : begin_round small_file stale (sender 2) ≡ none
begin_round-past_example =
    begin_round-past small_file stale (sender 2) (initialize-IsTable 3) (omega arith) (omega arith)
      (omega (arith, one_segment))

on_alarm_lem_example :
    (t : Sender) × (on_alarm small_file stale (sender 4) ≡ some (t, false))
    × (t.sent ≡ [] ++ Congestion.segment small_file stale 0 ∷ [])
    × (t.cwindow ≡ 1)
    × (((4 ≤ 8) × (t.ssthresh ≡ 8 / 2)) ⊎ ((8 < 4) × (t.ssthresh ≡ 2)))
    × (t.index ≡ 0)
    × (t.rttinfo.rtt_nrexmt ≡ 0 + 1)
on_alarm_lem_example =
    on_alarm_lem small_file stale (sender 4) (initialize-IsTable 3) (omega arith)
      (omega (arith, one_segment))

abbrev first_ack-IsRepeat : IsRepeat first_ack (sender 6)
first_ack-IsRepeat = record { same = refl; is_open = refl; more = refl }

retransmitted_once_example :
    (t : Sender) × (repeats small_file stale first_ack 5 (sender 6) ≡ some t)
    × (t.sent ≡ [] ++ Duplicates.segment small_file stale 0 ∷ [])
    × (t.cwindow ≡ 6 / 2 + 3)
    × (t.index ≡ 0)
retransmitted_once_example =
    retransmitted_once small_file stale first_ack (sender 6) 3 first_ack-IsRepeat
      (initialize-IsTable 3) (omega (arith, one_segment)) refl

abbrev met : List Event
met = alarm noon ∷ reads (some last_ack) [] noon ∷ []

sent-IsPart_example :
    Holds
      (λ s. All (IsPart small_file stale) s.sent)
      (handle_file_transmission small_file stale 3 4 first_ack info noon met)
sent-IsPart_example = sent-IsPart small_file stale (λ n. n) 4 first_ack info noon met refl
