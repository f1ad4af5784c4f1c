-- ===== src/Close/Passive.antt =====
-- The server's side of the close.
use tcp_implementation_over.Common.{
  ℕ, zero, suc, ◌≡◌, false, List, [], ◌∷◌, ◌++◌, ◌==◌, arith, if◌then◌else◌, ltb,
}
use tcp_implementation_over.Wire.{fin_request, ack_request}
use tcp_implementation_over.Close.{
  Event, timeout, received, acknowledged, failed, passive_loop, passive_close,
}

-- Events without the client's ACK.
abbrev pub NoAck : List Event → Type 0
NoAck [] = Unit
NoAck (timeout ∷ es) = NoAck es
NoAck (received m ∷ es) = ((m == ack_request) ≡ false) × NoAck es

abbrev pub silent : List Event → ℕ
silent [] = 0
silent (timeout ∷ es) = suc (silent es)
silent (received m ∷ es) = silent es

loop-acknowledged :
    (n : ℕ) (before after : List Event)
    → NoAck before
    → (passive_loop n (before ++ received ack_request ∷ after)).1
      ≡ (if ltb (silent before) n then acknowledged else failed)
unfolding passive_loop
loop-acknowledged zero before after h = ground arith
loop-acknowledged (suc n) [] after h = ground arith
loop-acknowledged (suc n) (timeout ∷ es) after h = ground (arith, loop-acknowledged n es after h)
loop-acknowledged (suc n) (received m ∷ es) after h =
    ground (arith, loop-acknowledged (suc n) es after h.1)

-- After the client's FIN the close succeeds exactly if the client's ACK comes before the second
-- timeout; other messages do not count.
passive_close-acknowledged :
    (before after : List Event)
    → NoAck before
    → (passive_close fin_request (before ++ received ack_request ∷ after)).1
      ≡ (if ltb (silent before) 2 then acknowledged else failed)
unfolding passive_close
passive_close-acknowledged before after h = loop-acknowledged 2 before after h
