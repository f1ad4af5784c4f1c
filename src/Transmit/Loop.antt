-- ===== src/Transmit/Loop.antt =====
-- The loops of `HandleFileTransmission` around its events.
use tcp_implementation_over.Common.{
  ℕ, Bool, true, false, Option, none, some, List, [], ◌∷◌, ◌==◌, if◌then◌else◌, ltb,
}
use tcp_implementation_over.Wire.{ClientAck}
use tcp_implementation_over.Segments.{get_segment_count}
use tcp_implementation_over.Rtt.{RttInfo, Timeval}
use tcp_implementation_over.Probe
use tcp_implementation_over.Probe.{
  Result, answered, exited, waiting, undefined_access, client_window_probe,
}
use tcp_implementation_over.Transmit.{
  Sender, start, Control, again, round_over, probe_window, take_sample, open_window, next_round,
  send, begin_round, on_alarm, on_read,
}

-- What the sender meets: a return of `read` (with what a window probe will meet, should this start
-- one), or the signal of its timer.
pub data Event : Type 0 where
  reads : Option ClientAck → List Probe.Event → Timeval → Event
  alarm : Timeval → Event

-- Where the transmission stands: in the inner loop, past the loops, in a probe, or ended: by the
-- client's last acknowledgement, by too many timeouts, by a silent probe.
pub data Progress : Type 0 where
  running probing sent_all closing gave_up dead : Sender → Progress
  undefined : Progress

unfoldable pub begun : Option Sender → Progress
begun none = undefined
begun (some s) = running s

unfoldable pub after_alarm : Option (Sender × Bool) → Progress
after_alarm none = undefined
after_alarm (some (s, true)) = gave_up s
after_alarm (some (s, false)) = running s

unfoldable pub resume : Progress → (Sender → Progress) → Progress
resume (running s) rest = rest s
resume p rest = p

module _ (file stale : List ℕ) where
  -- The test of the outer loop.
  unfoldable pub outer : ℕ → Sender → Progress
  unfolding begun
  outer total s = if ltb s.index total then begun (begin_round file stale s) else sent_all s

  -- Behind the inner loop.
  unfoldable pub end_round : ℕ → Sender → Progress
  unfolding outer
  end_round total s =
      let t = open_window s in
      if t.ack.lastack_sent == 1 then closing t else outer total (next_round t)

  unfoldable pub after_probe : ℕ → Result Sender → Progress
  unfolding end_round
  after_probe total (answered a s) =
      end_round total (record s { ack = a; current_window = a.advt_window })
  after_probe total (exited s) = dead s
  after_probe total (waiting p a s) = probing (record s { ack = a })
  after_probe total undefined_access = undefined

  unfoldable pub after_read : ℕ → List Probe.Event → Option (Sender × Control) → Progress
  unfolding after_probe
  after_read total ps none = undefined
  after_read total ps (some (s, again)) = running s
  after_read total ps (some (s, round_over)) = end_round total s
  after_read total ps (some (s, probe_window)) =
      after_probe total (client_window_probe (send file stale) s.ack s ps)

  unfoldable pub step : ℕ → Sender → Event → Progress
  unfolding after_read after_alarm
  step total s (reads got ps now) =
      after_read total ps (on_read file stale got (record s { now = now }))
  step total s (alarm now) = after_alarm (on_alarm file stale (record s { now = now }))

  unfoldable pub run : ℕ → Sender → List Event → Progress
  unfolding step resume
  run total s [] = running s
  run total s (e ∷ es) = resume (step total s e) (λ t. run total t es)

  -- The whole function, up to the code that follows the loops.
  unfoldable pub handle_file_transmission :
      ℕ → ℕ → ClientAck → RttInfo → Timeval → List Event → Progress
  unfolding outer run start
  handle_file_transmission file_length client_original_window ack info now es =
      let total = get_segment_count file_length in
      resume (outer total (start file_length client_original_window ack info now))
        (λ s. run total s es)

-- The code behind the loops: a last sample, and the table is freed.
unfoldable pub finish : Sender → Sender
unfolding take_sample
finish s = record (take_sample s) { table = [] }
