-- ===== src/Close/Tests.antt =====
-- The close on both sides, with messages in order and out of order.
use tcp_implementation_over.Common.{◌≡◌, refl, true, List, [], ◌∷◌, arith}
use tcp_implementation_over.Wire.{fin_request, ack_request}
use tcp_implementation_over.Close
use tcp_implementation_over.Close.{
  Event, received, Outcome, on_ack, on_fin, after_inner, on_timeout, active_step, add_sent, follow,
  active_loop, start, active_close, passive_loop, passive_close, acknowledged, failed,
}
use tcp_implementation_over.Close.Active.{active_close-done}
use tcp_implementation_over.Close.Agreement.{AreFrom, acknowledged-heard}
use mathlib.Core.List.{Memᴰ}

-- The server's FIN overtakes its ACK; then the client waits its time out.
abbrev crossed : List Event
crossed = received fin_request ∷ received ack_request ∷ Close.timeout ∷ Close.timeout ∷ []

abbrev unheard : List Event
unheard = Close.timeout ∷ Close.timeout ∷ received 7 ∷ Close.timeout ∷ Close.timeout ∷ []

crossed_clean : (active_close crossed).locals.two_msl ≡ 0
unfolding active_close active_loop active_step
crossed_clean = refl

active_close-done_example : (active_close unheard).done ≡ true
active_close-done_example = active_close-done unheard (omega arith)

abbrev noise : List Event
noise = received 7 ∷ Close.timeout ∷ []

abbrev both_heard : List Event
both_heard = received ack_request ∷ received fin_request ∷ Close.timeout ∷ Close.timeout ∷ []

answered : AreFrom (active_close both_heard).sent (received ack_request ∷ [])
unfolding active_close active_loop active_step
answered = (Memᴰ.tail (Memᴰ.head refl), tt)

passive_ends : (passive_close fin_request (received ack_request ∷ [])).1 ≡ acknowledged
unfolding passive_close passive_loop
passive_ends = refl

acknowledged-heard_example : (fin_request ≡ fin_request) × Memᴰ (received fin_request) both_heard
acknowledged-heard_example =
    acknowledged-heard fin_request both_heard (received ack_request ∷ []) answered passive_ends
