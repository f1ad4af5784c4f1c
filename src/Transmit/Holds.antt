-- ===== src/Transmit/Holds.antt =====
-- An invariant of the sender along the whole transmission.
use tcp_implementation_over.Common.{
  ℕ, ◌≡◌, refl, Bool, true, false, Option, none, some, List, [], ◌∷◌, arith, length, ◌==◌,
  if◌then◌else◌, ltb, inl, inr, Bool-cases,
}
use tcp_implementation_over.Wire.{ClientAck}
use tcp_implementation_over.Segments.{get_segment_count}
use tcp_implementation_over.Rtt.{RttInfo, Timeval}
use tcp_implementation_over.Probe
use tcp_implementation_over.Probe.{
  Result, answered, exited, waiting, undefined_access, client_window_probe,
}
use tcp_implementation_over.Transmit.{
  Sender, start, Control, again, round_over, probe_window, take_sample, open_window, next_round,
  send, begin_round, on_alarm, on_read,
}
use tcp_implementation_over.Transmit.Invariant.{
  Maybe, IsInvariant, MayRead, First, begin_round-keeps, on_alarm-keeps, on_read-keeps,
}
use tcp_implementation_over.Transmit.Probing.{MayProbe, Ends, probe_loop-Ends}
use tcp_implementation_over.Transmit.Loop.{
  Event, reads, alarm, Progress, running, probing, sent_all, closing, gave_up, dead, undefined,
  begun, outer, end_round, after_probe, after_read, after_alarm, step, resume, run,
  handle_file_transmission,
}

-- All acknowledgements that the sender reads are allowed.
abbrev pub MayMeet : (ClientAck → Type 0) → List Event → Type 0
MayMeet Allowed [] = Unit
MayMeet Allowed (reads got ps now ∷ es) =
    MayRead Allowed got × MayProbe Allowed ps × MayMeet Allowed es
MayMeet Allowed (alarm now ∷ es) = MayMeet Allowed es

-- The property of the sender wherever the transmission stands; where it closes, its acknowledgement is
-- marked as the last.
abbrev pub Holds : (Sender → Type 0) → Progress → Type 0
Holds P (running s) = P s
Holds P (probing s) = P s
Holds P (sent_all s) = P s
Holds P (closing s) = P s × ((s.ack.lastack_sent == 1) ≡ true)
Holds P (gave_up s) = P s
Holds P (dead s) = P s
Holds P undefined = Unit

module _ (file stale : List ℕ) (P : Sender → Type 0) (Allowed : ClientAck → Type 0)
    (inv : IsInvariant file stale P Allowed) where
  open inv use {sends, keep, hear, heard}

  begun-Holds : (o : Option Sender) → Maybe P o → Holds P (begun o)
  unfolding begun
  begun-Holds none h = tt
  begun-Holds (some s) h = h

  branch : (b : Bool) (x y : Progress) → Holds P x → Holds P y → Holds P (if b then x else y)
  branch true x y hx hy = hx
  branch false x y hx hy = hy

  outer-Holds : (total : ℕ) (s : Sender) → P s → Holds P (outer file stale total s)
  unfolding outer
  outer-Holds total s g =
      branch (ltb s.index total) (begun (begin_round file stale s)) (sent_all s)
        (begun-Holds (begin_round file stale s) (begin_round-keeps file stale P Allowed inv s g)) g

  open_window-keeps : (s : Sender) → P s → P (open_window s)
  unfolding open_window
  open_window-keeps s g = keep s (open_window s) (ground arith) (ground arith) (ground arith) g

  closing_or :
      (s : Sender) (y : Progress)
      → P s
      → Holds P y
      → Holds P (if s.ack.lastack_sent == 1 then closing s else y)
  closing_or s y h k = elim (Bool-cases (s.ack.lastack_sent == 1)) [
    | inl last ↦ rw last (h, last)
    | inr more ↦ rw more k
  ]

  end_round-Holds : (total : ℕ) (s : Sender) → P s → Holds P (end_round file stale total s)
  unfolding end_round next_round take_sample
  end_round-Holds total s g =
      let t = open_window s in
      let h = open_window-keeps s g in
      closing_or t (outer file stale total (next_round t)) h
        (outer-Holds total (next_round t) (keep t (next_round t) refl refl refl h))

  after_probe-Holds :
      (total : ℕ) (r : Result Sender) → Ends P Allowed r → Holds P (after_probe file stale total r)
  unfolding after_probe
  after_probe-Holds total (answered a s) h =
      let t : Sender = record s { ack = a; current_window = a.advt_window } in
      end_round-Holds total t (hear s t refl refl h.0 h.1)
  after_probe-Holds total (exited s) h = h
  after_probe-Holds total (waiting p a s) h =
      let t : Sender = record s { ack = a } in hear s t refl refl h.0 h.1
  after_probe-Holds total undefined_access h = tt

  after_read-Holds :
      (total : ℕ) (ps : List Probe.Event) (o : Option (Sender × Control))
      → MayProbe Allowed ps
      → Maybe (First file stale P Allowed inv) o
      → Holds P (after_read file stale total ps o)
  unfolding after_read client_window_probe
  after_read-Holds total ps none m h = tt
  after_read-Holds total ps (some (s, again)) m h = h
  after_read-Holds total ps (some (s, round_over)) m h = end_round-Holds total s h
  after_read-Holds total ps (some (s, probe_window)) m h =
      after_probe-Holds total (client_window_probe (send file stale) s.ack s ps)
        (probe_loop-Ends P Allowed (send file stale) sends ps Probe.start s.ack s m (heard s h) h)

  after_alarm-Holds :
      (o : Option (Sender × Bool))
      → Maybe (First file stale P Allowed inv) o
      → Holds P (after_alarm o)
  unfolding after_alarm
  after_alarm-Holds none h = tt
  after_alarm-Holds (some (s, true)) h = h
  after_alarm-Holds (some (s, false)) h = h

  step-Holds :
      (total : ℕ) (s : Sender) (e : Event)
      → MayMeet Allowed (e ∷ [])
      → P s
      → Holds P (step file stale total s e)
  unfolding step
  step-Holds total s (reads got ps now) m g =
      let t : Sender = record s { now = now } in
      after_read-Holds total ps (on_read file stale got t) m.1
        (on_read-keeps file stale P Allowed inv got t m.0 (keep s t refl refl refl g))
  step-Holds total s (alarm now) m g =
      let t : Sender = record s { now = now } in
      after_alarm-Holds (on_alarm file stale t)
        (on_alarm-keeps file stale P Allowed inv t (keep s t refl refl refl g))

  resume-Holds :
      (p : Progress) (rest : Sender → Progress)
      → ((s : Sender) → P s → Holds P (rest s))
      → Holds P p
      → Holds P (resume p rest)
  unfolding resume
  resume-Holds (running s) rest k h = k s h
  resume-Holds (probing s) rest k h = h
  resume-Holds (sent_all s) rest k h = h
  resume-Holds (closing s) rest k h = h
  resume-Holds (gave_up s) rest k h = h
  resume-Holds (dead s) rest k h = h
  resume-Holds undefined rest k h = tt

  first_and_rest :
      (e : Event) (es : List Event)
      → MayMeet Allowed (e ∷ es)
      → MayMeet Allowed (e ∷ []) × MayMeet Allowed es
  first_and_rest (reads got ps now) es m = ((m.0, m.1, tt), m.2)
  first_and_rest (alarm now) es m = (tt, m)

  run-Holds :
      (total : ℕ) (es : List Event) (s : Sender)
      → MayMeet Allowed es
      → P s
      → Holds P (run file stale total s es)
  unfolding run
  run-Holds total [] s m g = g
  run-Holds total (e ∷ es) s m g =
      let (now, later) = first_and_rest e es m in
      resume-Holds (step file stale total s e) (λ t. run file stale total t es)
        (λ t h. run-Holds total es t later h) (step-Holds total s e now g)

  -- An invariant that holds at the start holds wherever the transmission stands.
  pub transmission-Holds :
      (client_original_window : ℕ) (ack : ClientAck) (info : RttInfo) (now : Timeval)
      (es : List Event)
      → MayMeet Allowed es
      → P (start (length file) client_original_window ack info now)
      → Holds P
          (handle_file_transmission file stale (length file) client_original_window ack info now es)
  unfolding handle_file_transmission
  transmission-Holds w ack info now es m g =
      let total = get_segment_count (length file) in
      let s = start (length file) w ack info now in
      resume-Holds (outer file stale total s) (λ t. run file stale total t es)
        (λ t h. run-Holds total es t m h) (outer-Holds total s g)
