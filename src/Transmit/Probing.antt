-- ===== src/Transmit/Probing.antt =====
-- An invariant along a probe, `clientWindowProbe`.
use tcp_implementation_over.Common.{
  ℕ, Bool, true, false, Option, none, some, List, [], ◌∷◌, ◌==◌, if◌then◌else◌,
}
use tcp_implementation_over.Wire.{ClientAck}
use tcp_implementation_over.Probe
use tcp_implementation_over.Probe.{
  Probe, Wait, leave, stay, Result, answered, exited, waiting, undefined_access, is_dead, on_sent,
  attempt, proceed, on_wait, probe_loop,
}
use tcp_implementation_over.Transmit.Invariant.{Maybe}

-- All that the messages of a probe give is allowed.
abbrev pub MayProbe : (ClientAck → Type 0) → List Probe.Event → Type 0
MayProbe Allowed [] = Unit
MayProbe Allowed (Probe.reply a ∷ es) = Allowed a × MayProbe Allowed es
MayProbe Allowed (Probe.timeout ∷ es) = MayProbe Allowed es
MayProbe Allowed (Probe.select_error ∷ es) = MayProbe Allowed es

-- A property of the state of a probe, however it ends, and of the acknowledgement that it ends with.
abbrev pub Ends : {S : Type 0} → (S → Type 0) → (ClientAck → Type 0) → Result S → Type 0
Ends P Allowed (answered a s) = Allowed a × P s
Ends P Allowed (exited s) = P s
Ends P Allowed (waiting p a s) = Allowed a × P s
Ends P Allowed undefined_access = Unit

module _ {S : Type 0} (P : S → Type 0) (Allowed : ClientAck → Type 0) (out : S → ℕ → Option S)
    (sends : (s : S) (k : ℕ) → P s → Maybe P (out s k)) where
  attempt-Ends :
      (p : Probe) (ack : ClientAck) (s : S) (rest : S → Result S)
      → ((t : S) → P t → Ends P Allowed (rest t))
      → P s
      → Ends P Allowed (attempt out p ack s rest)
  unfolding attempt
  attempt-Ends p ack s rest k h =
      dead_or (is_dead p) (exited s) (on_sent (out s ack.current_request) rest) h
        (sent-Ends (out s ack.current_request) (sends s ack.current_request h))
    where
      dead_or :
          (b : Bool) (x y : Result S)
          → Ends P Allowed x
          → Ends P Allowed y
          → Ends P Allowed (if b then x else y)
      dead_or true x y hx hy = hx
      dead_or false x y hx hy = hy

      sent-Ends : (o : Option S) → Maybe P o → Ends P Allowed (on_sent o rest)
      sent-Ends none m = tt
      sent-Ends (some t) m = k t m

  -- What a wait goes on with is allowed.
  abbrev OnWait : Wait → Type 0
  OnWait (leave a) = Allowed a
  OnWait (stay p a) = Allowed a

  on_wait-Allowed :
      (p : Probe) (ack : ClientAck) (e : Probe.Event)
      → Allowed ack
      → MayProbe Allowed (e ∷ [])
      → OnWait (on_wait p ack e)
  unfolding on_wait
  on_wait-Allowed p ack Probe.timeout h m = h
  on_wait-Allowed p ack Probe.select_error h m = h
  on_wait-Allowed p ack (Probe.reply a) h m = by_window (a.advt_window == 0)
    where
      by_window : (b : Bool) → OnWait (if b then stay (Probe.lengthen p) a else leave a)
      by_window true = m.0
      by_window false = m.0

  proceed-Ends :
      (w : Wait) (s : S) (loop : Probe → ClientAck → S → Result S)
      → ((p : Probe) (a : ClientAck) (t : S) → Allowed a → P t → Ends P Allowed (loop p a t))
      → OnWait w
      → P s
      → Ends P Allowed (proceed w s loop)
  unfolding proceed
  proceed-Ends (leave a) s loop k m h = (m, h)
  proceed-Ends (stay p a) s loop k m h = k p a s m h

  head_and_tail :
      (e : Probe.Event) (es : List Probe.Event)
      → MayProbe Allowed (e ∷ es)
      → MayProbe Allowed (e ∷ []) × MayProbe Allowed es
  head_and_tail Probe.timeout es m = (tt, m)
  head_and_tail Probe.select_error es m = (tt, m)
  head_and_tail (Probe.reply a) es m = ((m.0, tt), m.1)

  pub probe_loop-Ends :
      (es : List Probe.Event) (p : Probe) (ack : ClientAck) (s : S)
      → MayProbe Allowed es
      → Allowed ack
      → P s
      → Ends P Allowed (probe_loop out es p ack s)
  unfolding probe_loop attempt proceed
  probe_loop-Ends [] p ack s m a h = attempt-Ends p ack s (λ t. waiting p ack t) (λ t h'. (a, h')) h
  probe_loop-Ends (e ∷ es) p ack s m a h =
      let (now, later) = head_and_tail e es m in
      attempt-Ends p ack s (λ t. proceed (on_wait p ack e) t (λ q b u. probe_loop out es q b u))
        (λ t h'.
          proceed-Ends (on_wait p ack e) t (λ q b u. probe_loop out es q b u)
            (λ q b u c k. probe_loop-Ends es q b u later c k) (on_wait-Allowed p ack e a now) h')
        h
