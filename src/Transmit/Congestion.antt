-- ===== src/Transmit/Congestion.antt =====
-- The congestion control of `HandleFileTransmission`: the growth of its window, its fall after a
-- timeout, and the fast retransmit.
use tcp_implementation_over.Common.{
  ◌⊎◌, inl, inr, dec_le, ℕ, ◌+◌, ◌/◌, ◌≤◌, ◌<◌, ◌≡◌, refl, ap, ◌∙◌, Bool, true, false, some, List,
  [], ◌∷◌, ◌++◌, arith, length, if◌then◌else◌,
}
use tcp_implementation_over.Common.Int.{pos, ltb_ℤ}
use tcp_implementation_over.Wire.{Segment}
use tcp_implementation_over.Segments.{get_segment_count}
use tcp_implementation_over.Segments.Table.{IsTable}
use tcp_implementation_over.Segments.Reassemble.{payload}
use tcp_implementation_over.Rtt.{RttInfo, rtt_maxnrexmt, rtt_timeout}
use tcp_implementation_over.Transmit.{
  Sender, take_sample, on_new_ack, collapse, open_window, send, on_alarm, ◌>>=◌,
}
use tcp_implementation_over.Transmit.Bursts.{bind-some, send_lem}

-- A new acknowledgement and the end of a round open the congestion window by at most one segment, by
-- none at all from the client's last advertised window on, and leave the threshold as it is.
on_new_ack-growth :
    (s : Sender)
    → (s.cwindow ≤ (on_new_ack s).cwindow)
      × ((on_new_ack s).cwindow ≤ s.cwindow + 1)
      × (s.last_advt_window ≤ s.cwindow → (on_new_ack s).cwindow ≡ s.cwindow)
      × ((on_new_ack s).ssthresh ≡ s.ssthresh)
      × (s.cwindow ≤ (open_window s).cwindow)
      × ((open_window s).cwindow ≤ s.cwindow + 1)
      × (s.last_advt_window ≤ s.cwindow → (open_window s).cwindow ≡ s.cwindow)
      × ((open_window s).ssthresh ≡ s.ssthresh)
unfolding on_new_ack open_window take_sample
on_new_ack-growth s = (
  ground arith,
  ground arith,
  ground arith,
  ground arith,
  ground arith,
  ground arith,
  ground arith,
  ground arith,
)

module _ (file stale : List ℕ) where
  abbrev pub total : ℕ
  total = get_segment_count (length file)

  abbrev pub segment : ℕ → Segment
  segment k = record { segment_num = k; segment_data = payload file stale k }

  pub timeout_result :
      (p : RttInfo) → p.rtt_nrexmt < rtt_maxnrexmt → ltb_ℤ (rtt_timeout p).1 (pos 0) ≡ false
  unfolding rtt_timeout
  timeout_result p h = ground arith

  -- A timeout with retransmissions left sends the segment that the last acknowledgement asks for,
  -- and nothing else; it sets the congestion window to 1, halves a threshold of at least 4, and makes a
  -- lower one 2; it leaves the next segment to send as it is.
  pub on_alarm_lem :
      (s : Sender)
      → IsTable (length file) s.table
      → s.rttinfo.rtt_nrexmt < rtt_maxnrexmt
      → s.ack.current_request < total
      → (t : Sender) × (on_alarm file stale s ≡ some (t, false))
        × (t.sent ≡ s.sent ++ segment s.ack.current_request ∷ [])
        × (t.cwindow ≡ 1)
        × (((4 ≤ s.ssthresh) × (t.ssthresh ≡ s.ssthresh / 2))
            ⊎ ((s.ssthresh < 4) × (t.ssthresh ≡ 2)))
        × (t.index ≡ s.index)
        × (t.rttinfo.rtt_nrexmt ≡ s.rttinfo.rtt_nrexmt + 1)
  unfolding on_alarm collapse rtt_timeout
  on_alarm_lem s t left inside =
      let s' : Sender = record s { rttinfo = (rtt_timeout s.rttinfo).0 } in
      let k = s.ack.current_request in
      let (table, e, t') = send_lem file stale s' k t inside in
      let u : Sender = record s' { table = table; sent = s.sent ++ segment k ∷ [] } in
      (
        collapse u,
        ap
              (λ (b : Bool).
                if b
                then some (s', true)
                else (send file stale s' k >>= λ v. some (collapse v, false)))
              (timeout_result s.rttinfo left)
            ∙ bind-some (send file stale s' k) (λ v. some (collapse v, false)) e,
        refl,
        refl,
        elim (dec_le 4 s.ssthresh) [
          | yes enough ↦ inl (enough, ground (arith, enough))
          | no low ↦ inr (omega (arith, low), ground (arith, low))
        ],
        refl,
        refl,
      )
