-- ===== src/Transmit/LastAck.antt =====
-- When the transmission closes: on an acknowledgement that is marked as the last.
use tcp_implementation_over.Common.{
  length, ℕ, ◌≡◌, sym, subst, Option, none, some, List, [], ◌∷◌, arith, ◌++◌,
}
use tcp_implementation_over.Wire.{ClientAck, Segment}
use tcp_implementation_over.Segments.{FileSegment, send_segment}
use tcp_implementation_over.Rtt.{RttInfo, Timeval}
use tcp_implementation_over.Transmit.{Sender, start, send, ◌>>=◌}
use tcp_implementation_over.Transmit.Invariant.{Maybe, IsInvariant}
use tcp_implementation_over.Transmit.Holds.{MayMeet, Holds, transmission-Holds}
use tcp_implementation_over.Transmit.Loop.{Event, closing, handle_file_transmission}

module _ (file stale : List ℕ) (Allowed : ClientAck → Type 0) where
  abbrev Heard : Sender → Type 0
  Heard s = Allowed s.ack

  send-Heard : (s : Sender) (k : ℕ) → Heard s → Maybe Heard (send file stale s k)
  unfolding send
  send-Heard s k h = sent (send_segment file stale s.table k)
    where
      sent :
          (o : Option (Segment × List FileSegment))
          → Maybe Heard (o >>= λ p. some (record s { table = p.1; sent = s.sent ++ p.0 ∷ [] }))
      sent none = tt
      sent (some p) = h

  Heard-IsInvariant : IsInvariant file stale Heard Allowed
  Heard-IsInvariant = record {
    sends = send-Heard;
    keep = λ s t p q r h. subst Allowed (sym r) h;
    hear = λ s t p q a h. a;
    heard = λ s h. h;
  }

  -- Where every acknowledgement that the sender starts with, reads or gets in a probe is allowed, a
  -- transmission that closes holds an allowed one that is marked as the last.
  pub closing-Allowed :
      (client_original_window : ℕ) (ack : ClientAck) (info : RttInfo) (now : Timeval)
      (es : List Event) (t : Sender)
      → Allowed ack
      → MayMeet Allowed es
      → handle_file_transmission file stale (length file) client_original_window ack info now es
        ≡ closing t
      → Allowed t.ack × (t.ack.lastack_sent ≡ 1)
  unfolding start
  closing-Allowed w ack info now es t allowed meets e =
      let h = subst (Holds Heard) e (
        transmission-Holds file stale Heard Allowed Heard-IsInvariant w ack info now es meets
          allowed) in
      (h.0, ground (arith, h.1))
