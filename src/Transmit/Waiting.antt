-- ===== src/Transmit/Waiting.antt =====
-- The server at the end of a file: every segment has been sent once, and it waits for the
-- acknowledgements of its last round.
use tcp_implementation_over.Common.{
  ℕ, ◌+◌, ◌≤◌, ◌<◌, ◌≡◌, refl, sym, ap, subst, ◌∙◌, true, false, some, List, [], ◌∷◌, ◌++◌, arith,
  length, ◌⊎◌, inl, inr, ◌==◌, ltb, Bool-cases,
}
use tcp_implementation_over.Wire.{ClientAck}
use tcp_implementation_over.Segments.{get_segment_count}
use tcp_implementation_over.Segments.Table.{IsTable}
use tcp_implementation_over.Rtt.{Timeval, rtt_maxnrexmt, rtt_timeout}
use tcp_implementation_over.Transmit.{
  Sender, again, round_over, take_sample, receive, collapse, open_window, next_round, on_read,
}
use tcp_implementation_over.Transmit.Loop.{
  running, sent_all, closing, alarm, reads, step, after_alarm, after_read, end_round, outer,
}
use tcp_implementation_over.Transmit.Congestion.{segment}
use tcp_implementation_over.Transmit.Repair.{
  resent, on_alarm-resent, IsNew, noted, on_read-new, noted-IsNoted,
}

open_window-keeps : (t : Sender) → ((open_window t).ack ≡ t.ack) × ((open_window t).index ≡ t.index)
unfolding open_window
open_window-keeps t = (ground arith, ground arith)

module _ (file stale : List ℕ) where
  abbrev total : ℕ
  total = get_segment_count (length file)

  -- The last acknowledgement asks for the segment `k`, the one remembered asks for none behind it up to
  -- the end of the file, and the round expects at least as many more as there are segments from `k` on.
  pub record IsWaiting (s : Sender) (k : ℕ) : Type 0 where
    pub entries : IsTable (length file) s.table
    pub position : s.index ≡ total
    pub asked : s.ack.current_request ≡ k
    pub fresh : (s.last_ack_received ≤ k) ⊎ (total < s.last_ack_received)
    pub expected : s.total_to_recv + total ≤ s.total_to_send + k

  -- A timeout sends the segment `k` again, and the server still waits.
  pub alarm-IsWaiting :
      (s : Sender) (k : ℕ) (now : Timeval)
      → IsWaiting s k
      → k < total
      → s.rttinfo.rtt_nrexmt < rtt_maxnrexmt
      → (t : Sender) × (step file stale total s (alarm now) ≡ running t)
        × (t.sent ≡ s.sent ++ segment file stale k ∷ [])
        × IsWaiting t k
        × (t.total_to_recv ≡ s.total_to_recv)
        × (t.total_to_send ≡ s.total_to_send)
  unfolding step after_alarm collapse rtt_timeout
  alarm-IsWaiting s k now w low left =
      let s' : Sender = record s { now = now } in
      let (table, e, t') =
        on_alarm-resent file stale s' w.entries left (omega (arith, w.asked, low)) in
      (
        resent file stale s' table,
        ap after_alarm e,
        ap (λ (j : ℕ). s.sent ++ segment file stale j ∷ []) w.asked,
        record {
          entries = t';
          position = w.position;
          asked = w.asked;
          fresh = w.fresh;
          expected = w.expected;
        },
        refl,
        refl,
      )

  -- The end of the last round.
  end_round-sent_all :
      (t : Sender)
      → (t.ack.lastack_sent == 1) ≡ false
      → t.index ≡ total
      → (u : Sender) × (end_round file stale total t ≡ sent_all u)
  unfolding end_round outer next_round take_sample
  end_round-sent_all t more done =
      let u = open_window t in
      let same = open_window-keeps t in
      let more' : (u.ack.lastack_sent == 1) ≡ false = ground (arith, same.0, more) in
      let stop : ltb u.index total ≡ false = ground (arith, same.1, done) in
      (next_round u, rw (more', stop) refl)

  -- An acknowledgement of more segments: the server still waits, or it asks for no more, and the
  -- transmission ends.
  pub reads-IsWaiting :
      (s : Sender) (a : ClientAck) (k : ℕ) (now : Timeval)
      → IsWaiting s k
      → k < a.current_request
      → a.current_request ≤ total
      → (a.advt_window == 0) ≡ false
      → (a.lastack_sent == 1) ≡ false
      → ((t : Sender) × (step file stale total s (reads (some a) [] now) ≡ running t)
          × IsWaiting t a.current_request
          × (t.rttinfo.rtt_nrexmt ≡ 0))
        ⊎ ((t : Sender) × (step file stale total s (reads (some a) [] now) ≡ sent_all t)
            × (a.current_request ≡ total)
            × (s.total_to_recv + 1 ≡ s.total_to_send))
  unfolding step after_read
  reads-IsWaiting s a k now w up in_file room more =
      let s' : Sender = record s { now = now } in
      let new : IsNew a s' = record {
        fresh = ground (arith, w.fresh);
        is_open = room;
        more = more;
      } in
      let n = noted-IsNoted a s' in
      let t = noted a s' in
      elim (Bool-cases (t.total_to_recv == t.total_to_send)) [
        | inl last ↦
            let ended : Sender = record t { last_advt_window = t.ack.advt_window } in
            let more' : (t.ack.lastack_sent == 1) ≡ false = ground (arith, n.asked, more) in
            let over : on_read file stale (some a) s' ≡ some (ended, round_over) =
              on_read-new file stale a s' new ∙ rw last refl in
            let (u, e) = end_round-sent_all ended more' (n.position ∙ w.position) in
            inr (
              u,
              ap (after_read file stale total []) over ∙ e,
              ground (arith, last, n.counted, n.expected, w.expected),
              ground (arith, last, n.counted, n.expected),
            )
        | inr waits ↦
            let on : on_read file stale (some a) s' ≡ some (t, again) =
              on_read-new file stale a s' new ∙ rw waits refl in
            inl (
              t,
              ap (after_read file stale total []) on,
              record {
                entries = subst (IsTable (length file)) (sym n.entries) w.entries;
                position = n.position ∙ w.position;
                asked = ap (λ (b : ClientAck). b.current_request) n.asked;
                fresh = inl (omega (arith, n.last));
                expected = omega (arith, n.counted, n.expected, w.expected);
              },
              n.retries,
            )
      ]

  -- The client's last acknowledgement closes the transmission.
  pub last-closing :
      (s : Sender) (a : ClientAck) (now : Timeval)
      → a.lastack_sent ≡ 1
      → (t : Sender) × (step file stale total s (reads (some a) [] now) ≡ closing t)
  unfolding step after_read end_round on_read receive
  last-closing s a now last =
      let r : Sender = receive (some a) (record s { now = now }) in
      let marked : (a.lastack_sent == 1) ≡ true = ground (arith, last) in
      let same = open_window-keeps r in
      let marked' : ((open_window r).ack.lastack_sent == 1) ≡ true = ground (arith, same.0, last) in
      (open_window r, rw (marked, marked') refl)
