-- ===== src/Transmit/Repair.antt =====
-- A timeout and the acknowledgement that it brings, at the end of a file: every segment has been sent
-- once, and the server waits for the acknowledgements of its last round.
use tcp_implementation_over.Common.{
  ℕ, ◌+◌, ◌≤◌, ◌<◌, ◌≡◌, refl, ap, ◌∙◌, Bool, true, false, none, some, List, [], ◌∷◌, ◌++◌, arith,
  length, ◌==◌, if◌then◌else◌,
}
use tcp_implementation_over.Wire.{ClientAck}
use tcp_implementation_over.Segments.{FileSegment, get_segment_count}
use tcp_implementation_over.Segments.Table.{IsTable}
use tcp_implementation_over.Rtt.{rtt_maxnrexmt, rtt_timeout, rtt_newpack}
use tcp_implementation_over.Transmit.{
  Sender, again, round_over, take_sample, receive, on_new_ack, collapse, send, on_alarm, on_read,
  ◌>>=◌,
}
use tcp_implementation_over.Transmit.Bursts.{bind-some, bind-none, send_lem, send-past}
use tcp_implementation_over.Transmit.Duplicates.{after_ack-silent}
use tcp_implementation_over.Transmit.Congestion.{segment, timeout_result}

-- An acknowledgement that is new, not the last, and leaves the window open.
pub record IsNew (a : ClientAck) (s : Sender) : Type 0 where
  pub fresh : (s.last_ack_received == a.current_request) ≡ false
  pub is_open : (a.advt_window == 0) ≡ false
  pub more : (a.lastack_sent == 1) ≡ false

abbrev pub noted : ClientAck → Sender → Sender
noted a s = on_new_ack (receive (some a) s)

-- What it leaves behind.
pub record IsNoted (a : ClientAck) (s t : Sender) : Type 0 where
  pub asked : t.ack ≡ a
  pub last : t.last_ack_received ≡ a.current_request
  pub counted : t.total_to_recv ≡ s.total_to_recv + 1
  pub expected : t.total_to_send ≡ s.total_to_send
  pub position : t.index ≡ s.index
  pub entries : t.table ≡ s.table
  pub retries : t.rttinfo.rtt_nrexmt ≡ 0
  pub repeated : t.duplicate_ack ≡ 0

pub noted-IsNoted : (a : ClientAck) (s : Sender) → IsNoted a s (noted a s)
unfolding receive on_new_ack take_sample rtt_newpack
noted-IsNoted a s = record {
  asked = ground arith;
  last = ground arith;
  counted = ground arith;
  expected = ground arith;
  position = ground arith;
  entries = ground arith;
  retries = ground arith;
  repeated = ground arith;
}

module _ (file stale : List ℕ) where
  abbrev total : ℕ
  total = get_segment_count (length file)

  -- The server behind a timeout that sends the segment asked for again.
  abbrev pub resent : Sender → List FileSegment → Sender
  resent s table = collapse (record s {
    rttinfo = (rtt_timeout s.rttinfo).0;
    table = table;
    sent = s.sent ++ segment file stale s.ack.current_request ∷ [];
  })

  pub on_alarm-resent :
      (s : Sender)
      → IsTable (length file) s.table
      → s.rttinfo.rtt_nrexmt < rtt_maxnrexmt
      → s.ack.current_request < total
      → (table : List FileSegment) × (on_alarm file stale s ≡ some (resent s table, false))
        × IsTable (length file) table
  unfolding on_alarm
  on_alarm-resent s t left inside =
      let s' : Sender = record s { rttinfo = (rtt_timeout s.rttinfo).0 } in
      let k = s.ack.current_request in
      let (table, e, t') = send_lem file stale s' k t inside in
      (
        table,
        ap
              (λ (b : Bool).
                if b
                then some (s', true)
                else (send file stale s' k >>= λ v. some (collapse v, false)))
              (timeout_result file stale s.rttinfo left)
            ∙ bind-some (send file stale s' k) (λ v. some (collapse v, false)) e,
        t',
      )

  -- Such an acknowledgement ends the round if it is the last of the round's, and is counted if not.
  pub on_read-new :
      (a : ClientAck) (s : Sender)
      → IsNew a s
      → on_read file stale (some a) s ≡ (
          if (noted a s).total_to_recv == (noted a s).total_to_send
          then some
              (record (noted a s) { last_advt_window = (noted a s).ack.advt_window }, round_over)
          else some (noted a s, again))
  unfolding on_read receive
  on_read-new a s n =
      let silent =
        after_ack-silent file stale (noted a s) (ground (arith, (noted-IsNoted a s).repeated)) in
      rw (n.more, n.is_open, n.fresh, silent) refl

  -- A timeout once the last acknowledgement asks for no segment of the file reads behind the table.
  pub on_alarm-past :
      (s : Sender)
      → IsTable (length file) s.table
      → s.rttinfo.rtt_nrexmt < rtt_maxnrexmt
      → total ≤ s.ack.current_request
      → on_alarm file stale s ≡ none
  unfolding on_alarm
  on_alarm-past s t left past =
      let s' : Sender = record s { rttinfo = (rtt_timeout s.rttinfo).0 } in
      let k = s.ack.current_request in
      ap
        (λ (b : Bool).
          if b then some (s', true) else (send file stale s' k >>= λ v. some (collapse v, false)))
        (timeout_result file stale s.rttinfo left)
      ∙ bind-none (send file stale s' k) (λ v. some (collapse v, false))
          (send-past file stale s' k t past)
