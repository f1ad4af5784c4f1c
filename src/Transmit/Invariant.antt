-- ===== src/Transmit/Invariant.antt =====
-- An invariant of the sender: what each step of the inner loop keeps.
use tcp_implementation_over.Common.{
  ℕ, zero, suc, ◌+◌, ◌≡◌, refl, Bool, true, false, Option, none, some, List, arith, ◌==◌,
  if◌then◌else◌,
}
use tcp_implementation_over.Wire.{ClientAck}
use tcp_implementation_over.Rtt.{rtt_timeout}
use tcp_implementation_over.Common.Int.{pos, ltb_ℤ}
use tcp_implementation_over.Transmit.{
  Sender, rounds, allotted, stamp, Control, again, round_over, probe_window, take_sample, receive,
  on_new_ack, halve, inflate, collapse, send, burst, begin_round, on_alarm, fast_retransmit,
  after_ack, on_read, ◌>>=◌,
}

abbrev pub Maybe : {A : Type 0} → (A → Type 0) → Option A → Type 0
Maybe P none = Unit
Maybe P (some a) = P a

bind-Maybe :
    {A B : Type 0} (P : A → Type 0) (Q : B → Type 0) (m : Option A) (f : A → Option B)
    → Maybe P m
    → ((a : A) → P a → Maybe Q (f a))
    → Maybe Q (m >>= f)
bind-Maybe P Q none f h k = tt
bind-Maybe P Q (some a) f h k = k a h

either : {A : Type 0} (P : A → Type 0) (b : Bool) (x y : A) → P x → P y → P (if b then x else y)
either P true x y p q = p
either P false x y p q = q

-- `P` looks at the table, the output and the acknowledgement only, is kept by a send, and holds with
-- each acknowledgement that is allowed.
pub record IsInvariant (file stale : List ℕ) (P : Sender → Type 0) (Allowed : ClientAck → Type 0)
    : Type 0 where
  pub sends : (s : Sender) (k : ℕ) → P s → Maybe P (send file stale s k)
  pub keep : (s t : Sender) → t.table ≡ s.table → t.sent ≡ s.sent → t.ack ≡ s.ack → P s → P t
  pub hear : (s t : Sender) → t.table ≡ s.table → t.sent ≡ s.sent → Allowed t.ack → P s → P t
  pub heard : (s : Sender) → P s → Allowed s.ack

-- What a read gives is allowed.
abbrev pub MayRead : (ClientAck → Type 0) → Option ClientAck → Type 0
MayRead Allowed none = Unit
MayRead Allowed (some a) = Allowed a

module _ (file stale : List ℕ) (P : Sender → Type 0) (Allowed : ClientAck → Type 0)
    (inv : IsInvariant file stale P Allowed) where
  open inv use {sends, keep, hear}

  abbrev counted : Sender → Sender
  counted t = record t { index = t.index + 1 }

  burst-keeps : (n : ℕ) (s : Sender) → P s → Maybe P (burst file stale n s)
  unfolding burst
  burst-keeps zero s g = g
  burst-keeps (suc n) s g =
      bind-Maybe P P (send file stale s s.index) (λ t. burst file stale n (counted t))
        (sends s s.index g) (λ t h. burst-keeps n (counted t) (keep t (counted t) refl refl refl h))

  pub begin_round-keeps : (s : Sender) → P s → Maybe P (begin_round file stale s)
  unfolding begin_round
  begin_round-keeps s g =
      bind-Maybe P P (burst file stale (rounds s) (allotted s)) (λ t. some (stamp t))
        (burst-keeps (rounds s) (allotted s) (keep s (allotted s) refl refl refl g))
        (λ t h. keep t (stamp t) refl refl refl h)

  abbrev pub First : {B : Type 0} → Sender × B → Type 0
  First (s, b) = P s

  pub on_alarm-keeps : (s : Sender) → P s → Maybe First (on_alarm file stale s)
  unfolding on_alarm collapse
  on_alarm-keeps s g =
      let t : Sender = record s { rttinfo = (rtt_timeout s.rttinfo).0 } in
      let h = keep s t refl refl refl g in
      either (Maybe First) (ltb_ℤ (rtt_timeout s.rttinfo).1 (pos 0)) (some (t, true))
        (send file stale t t.ack.current_request >>= λ u. some (collapse u, false)) h
        (bind-Maybe P First (send file stale t t.ack.current_request)
          (λ u. some (collapse u, false)) (sends t t.ack.current_request h)
          (λ u k. keep u (collapse u) refl refl refl k))

  fast_retransmit-keeps : (s : Sender) → P s → Maybe P (fast_retransmit file stale s)
  unfolding fast_retransmit halve inflate take_sample
  fast_retransmit-keeps s g =
      bind-Maybe P P (send file stale (halve s) s.last_ack_received) (λ t. some (inflate t))
        (sends (halve s) s.last_ack_received (keep s (halve s) refl refl refl g))
        (λ t h. keep t (inflate t) refl refl refl h)

  after_ack-keeps : (s : Sender) → P s → Maybe First (after_ack file stale s)
  unfolding after_ack
  after_ack-keeps s g =
      either (Maybe First) (s.duplicate_ack == 2)
        (fast_retransmit file stale s >>= λ t. some (t, again)) (some (s, again))
        (bind-Maybe P First (fast_retransmit file stale s) (λ t. some (t, again))
          (fast_retransmit-keeps s g) (λ t h. h))
        g

  receive-keeps :
      (got : Option ClientAck) (s : Sender) → MayRead Allowed got → P s → P (receive got s)
  unfolding receive
  receive-keeps none s a g = g
  receive-keeps (some a) s allowed g = hear s _ refl refl allowed g

  on_new_ack-keeps : (s : Sender) → P s → P (on_new_ack s)
  unfolding on_new_ack take_sample
  on_new_ack-keeps s g = keep s (on_new_ack s) (ground arith) (ground arith) (ground arith) g

  pub on_read-keeps :
      (got : Option ClientAck) (s : Sender)
      → MayRead Allowed got
      → P s
      → Maybe First (on_read file stale got s)
  unfolding on_read
  on_read-keeps got s0 allowed g0 =
      let s = receive got s0 in
      let g = receive-keeps got s0 allowed g0 in
      let t = on_new_ack s in
      let h = on_new_ack-keeps s g in
      let d : Sender = record s { duplicate_ack = s.duplicate_ack + 1 } in
      let over : Sender = record t { last_advt_window = t.ack.advt_window } in
      let fresh : Option (Sender × Control) =
        if t.total_to_recv == t.total_to_send
        then some (over, round_over)
        else after_ack file stale t in
      let repeated : Option (Sender × Control) =
        if s.last_ack_received == s.ack.current_request then after_ack file stale d else fresh in
      let probed : Option (Sender × Control) =
        if s.ack.advt_window == 0 then some (s, probe_window) else repeated in
      either (Maybe First) (s.ack.lastack_sent == 1) (some (s, round_over)) probed g (
        either (Maybe First) (s.ack.advt_window == 0) (some (s, probe_window)) repeated g (
          either (Maybe First) (s.last_ack_received == s.ack.current_request)
            (after_ack file stale d) fresh (after_ack-keeps d (keep s d refl refl refl g))
            (either (Maybe First) (t.total_to_recv == t.total_to_send) (some (over, round_over))
              (after_ack file stale t) (keep t over refl refl refl h) (after_ack-keeps t h))))
