-- ===== src/Close.antt =====
-- The closing handshake: `ActiveClose` of client.c and `PassiveClose` of server.c.
-- A message is its `currentRequest` in host order: `ntohl` undoes the other side's `htonl`.
pub mod Active
pub mod Passive
pub mod Agreement
mod Tests
use tcp_implementation_over.Common.{
  ℕ, zero, suc, ◌+◌, ◌-◌, Bool, true, false, List, [], ◌∷◌, ◌++◌, ◌==◌, if◌then◌else◌,
}
use tcp_implementation_over.Wire.{fin_request, ack_request}

-- `ActiveCloseStates`
pub data ActiveCloseState : Type 0 where
  fin_wait1 fin_wait2 closing time_wait : ActiveCloseState

-- What `Select` and `Read` give: the timer ran out, or a message.
pub data Event : Type 0 where
  timeout : Event
  received : ℕ → Event

-- The local variables of `ActiveClose`.
pub record Locals : Type 0 where
  pub current_state : ActiveCloseState
  pub num_retry : ℕ
  pub two_msl : ℕ

-- Where control goes: round the inner loop, round the outer loop (which sends the FIN again), out.
pub data Control : Type 0 where
  inner outer finished : Control

abbrev pub on_ack : ActiveCloseState → ActiveCloseState
on_ack fin_wait1 = fin_wait2
on_ack closing = time_wait
on_ack fin_wait2 = fin_wait2
on_ack time_wait = time_wait

abbrev pub on_fin : ActiveCloseState → ActiveCloseState
on_fin fin_wait1 = closing
on_fin fin_wait2 = time_wait
on_fin closing = closing
on_fin time_wait = time_wait

-- The tests behind the inner loop.
abbrev pub after_inner : Locals → Control
after_inner s = if s.two_msl == 0 then finished else if s.num_retry == 0 then finished else outer

abbrev pub on_timeout : ActiveCloseState → Locals → Locals × Control
on_timeout time_wait s =
    let s' : Locals = record s { two_msl = s.two_msl - 1 } in
    (s', if s'.two_msl == 0 then after_inner s' else inner)
on_timeout _ s = let s' : Locals = record s { num_retry = s.num_retry - 1 } in (s', after_inner s')

-- One round of the inner loop: the new locals, the messages sent, and where control goes.
pub active_step : Locals → Event → Locals × List ℕ × Control
active_step s timeout = let (s', c) = on_timeout s.current_state s in (s', [], c)
active_step s (received request) =
    if request == ack_request
    then (record s { current_state = on_ack s.current_state }, [], inner)
    else if request == fin_request
    then (record s { current_state = on_fin s.current_state }, ack_request ∷ [], inner)
    else (s, [], after_inner s)

-- How far the handshake is when the events are used up.
pub record Outcome : Type 0 where
  pub locals : Locals
  pub sent : List ℕ
  pub done : Bool

abbrev pub add_sent : List ℕ → Outcome → Outcome
add_sent ms o = record o { sent = ms ++ o.sent }

-- What follows a round: another one, with the FIN sent again or not, or the end.
abbrev pub follow : Locals × List ℕ × Control → (Locals → Outcome) → Outcome
follow (s, ms, inner) rest = add_sent ms (rest s)
follow (s, ms, outer) rest = add_sent (ms ++ fin_request ∷ []) (rest s)
follow (s, ms, finished) rest = record { locals = s; sent = ms; done = true }

pub active_loop : Locals → List Event → Outcome
unfolding active_step
active_loop s [] = record { locals = s; sent = []; done = false }
active_loop s (e ∷ es) = follow (active_step s e) (λ s'. active_loop s' es)

abbrev pub start : Locals
start = record { current_state = fin_wait1; num_retry = 3; two_msl = 2 }

pub active_close : List Event → Outcome
unfolding active_loop
active_close es = add_sent (fin_request ∷ []) (active_loop start es)

-- How `PassiveClose` ends: the first message is no FIN, the client's ACK came, the retries are used
-- up, or the events are.
pub data PassiveEnd : Type 0 where
  ignored acknowledged failed waiting : PassiveEnd

-- Each round sends the ACK and the FIN, then waits for 3 seconds.
pub passive_loop : ℕ → List Event → List ℕ × PassiveEnd
passive_loop zero es = ([], failed)
passive_loop (suc num_retry) [] = (ack_request ∷ fin_request ∷ [], waiting)
passive_loop (suc num_retry) (timeout ∷ es) =
    let (sent, end) = passive_loop num_retry es in (ack_request ∷ fin_request ∷ sent, end)
passive_loop (suc num_retry) (received request ∷ es) =
    let (sent, end) = passive_loop (suc num_retry) es in
    if request == ack_request
    then (ack_request ∷ fin_request ∷ [], acknowledged)
    else (ack_request ∷ fin_request ∷ sent, end)

-- `first` is the message that the blocking `Read` at the start gives.
pub passive_close : ℕ → List Event → List ℕ × PassiveEnd
unfolding passive_loop
passive_close first es = if first == fin_request then passive_loop 2 es else ([], ignored)
