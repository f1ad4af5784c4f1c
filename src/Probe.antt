-- ===== src/Probe.antt =====
-- `clientWindowProbe` of server.c: the sender asks again while the client's window is 0.
-- Sending a segment is a parameter; `none` from it is undefined behaviour in C.
pub mod Limits
mod Tests
use tcp_implementation_over.Common.{
  ℕ, ◌+◌, ◌*◌, ◌%◌, ◌^◌, Bool, Option, none, some, List, [], ◌∷◌, ◌&&◌, ◌==◌, if◌then◌else◌, leb,
  ltb,
}
use tcp_implementation_over.Wire.{ClientAck}

-- The local variables. `initial_wait` is an `int` and is kept as its 32-bit pattern.
pub record Probe : Type 0 where
  pub initial_wait : ℕ
  pub timeout_sec : ℕ
  pub network_timeout : ℕ

-- What `Select` gives: nothing in time, an error, or a message, which `Read` puts into `*ack`.
pub data Event : Type 0 where
  timeout : Event
  select_error : Event
  reply : ClientAck → Event

unfoldable pub start : Probe
start = record { initial_wait = 6; timeout_sec = 6; network_timeout = 0 }

-- The next wait: doubled, and cut to 60 seconds once twice as much would reach it.
unfoldable pub lengthen : Probe → Probe
lengthen p =
    let wait = p.initial_wait * 2 % 2 ^ 32 in
    let double = wait * 2 % 2 ^ 32 in
    record p {
      initial_wait = wait;
      timeout_sec = if leb 60 double && ltb double (2 ^ 31) then 60 else wait;
    }

-- Whether the loop gives the client up instead of sending once more.
unfoldable pub is_dead : Probe → Bool
is_dead p = p.network_timeout == 11

-- One wait: `leave` hands the caller the acknowledgement, `stay` goes round the loop.
pub data Wait : Type 0 where
  leave : ClientAck → Wait
  stay : Probe → ClientAck → Wait

unfoldable pub on_wait : Probe → ClientAck → Event → Wait
unfolding lengthen
on_wait p ack timeout = stay (lengthen (record p { network_timeout = p.network_timeout + 1 })) ack
on_wait p ack select_error = leave ack
on_wait p ack (reply a) = if a.advt_window == 0 then stay (lengthen p) a else leave a

-- How a probe ends: the client answered with a window, the process exits, or it waits on.
pub data Result (S : Type 0) : Type 0 where
  answered : ClientAck → S → Result S
  exited : S → Result S
  waiting : Probe → ClientAck → S → Result S
  undefined_access : Result S

abbrev pub on_sent : {S : Type 0} → Option S → (S → Result S) → Result S
on_sent none rest = undefined_access
on_sent (some s) rest = rest s

unfoldable pub proceed : {S : Type 0} → Wait → S → (Probe → ClientAck → S → Result S) → Result S
proceed (leave ack) s loop = answered ack s
proceed (stay p ack) s loop = loop p ack s

module _ {S : Type 0} (send : S → ℕ → Option S) where
  -- The head of the loop: the test and the send. What follows is handed the state behind it.
  unfoldable pub attempt : Probe → ClientAck → S → (S → Result S) → Result S
  unfolding is_dead
  attempt p ack s rest = if is_dead p then exited s else on_sent (send s ack.current_request) rest

  -- The loop, one wait for each event.
  unfoldable pub probe_loop : List Event → Probe → ClientAck → S → Result S
  unfolding attempt on_wait proceed
  probe_loop [] p ack s = attempt p ack s (λ s'. waiting p ack s')
  probe_loop (e ∷ es) p ack s =
      attempt p ack s (λ s'. proceed (on_wait p ack e) s' (λ q a t. probe_loop es q a t))

  unfoldable pub client_window_probe : ClientAck → S → List Event → Result S
  unfolding probe_loop start
  client_window_probe ack s es = probe_loop es start ack s
