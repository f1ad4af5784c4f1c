-- ===== src/Probe/Tests.antt =====
-- Probes of a silent client, and of one that keeps its window shut.
use tcp_implementation_over.Common.{◌+◌, ◌≡◌, refl, List, [], ◌∷◌, ◌++◌, length, replicate}
use tcp_implementation_over.Wire.{ClientAck}
use tcp_implementation_over.Probe
use tcp_implementation_over.Probe.{
  Probe, Event, reply, start, lengthen, is_dead, on_wait, waiting, exited, answered, proceed,
  attempt, probe_loop, client_window_probe,
}
use tcp_implementation_over.Probe.Limits.{tally, probe-exited}

abbrev shut : ClientAck
shut = record { current_request = 7; advt_window = 0; lastack_sent = 0 }

abbrev reopened : ClientAck
reopened = record { current_request = 7; advt_window = 2; lastack_sent = 0 }

abbrev ten_timeouts : List Event
ten_timeouts = reply shut ∷ replicate 10 Probe.timeout

-- The client answers the second probe with a window.
answered_probe :
    client_window_probe tally shut 0 (Probe.timeout ∷ reply reopened ∷ []) ≡ answered reopened 2
unfolding client_window_probe probe_loop attempt is_dead on_wait lengthen proceed start
answered_probe = refl

probe-exited_example :
    client_window_probe tally shut 0 (ten_timeouts ++ Probe.timeout ∷ [])
    ≡ exited (length ten_timeouts + 1)
probe-exited_example = probe-exited ten_timeouts shut (refl, tt) refl
