-- ===== src/Transfer/Unheard.antt =====
-- The client's last acknowledgement is sent once. What the server does if it is lost.
use tcp_implementation_over.Common.{
  ℕ, ◌+◌, ◌<◌, ◌≡◌, refl, sym, ap, subst, ◌∙◌, true, false, some, List, [], ◌∷◌, ◌++◌, arith,
  length, inl, inr,
}
use tcp_implementation_over.Wire.{ClientAck}
use tcp_implementation_over.Segments.{get_segment_count}
use tcp_implementation_over.Rtt.{Timeval, rtt_maxnrexmt}
use tcp_implementation_over.Transmit.{Sender}
use tcp_implementation_over.Transmit.Loop
use tcp_implementation_over.Transmit.Loop.{
  Event, Progress, running, sent_all, undefined, alarm, reads, resume, after_alarm, run,
}
use tcp_implementation_over.Transmit.Congestion.{segment}
use tcp_implementation_over.Transmit.Repair.{on_alarm-past}
use tcp_implementation_over.Transmit.Waiting.{IsWaiting, alarm-IsWaiting, reads-IsWaiting}
use tcp_implementation_over.Client.{Client, Config, produce}
use tcp_implementation_over.Client.Asking.{plain_ack}
use tcp_implementation_over.Client.Fed.{produce-IsFed}
use tcp_implementation_over.Window.{get_next_ack_index}
use tcp_implementation_over.Transfer.Joint.{IsStuck, to_int-low}

some-injective : {m n : ℕ} → some m ≡ some n → m ≡ n
some-injective e = ground (arith, e)

module _ (file stale : List ℕ) (env : Config) where
  abbrev total : ℕ
  total = get_segment_count (length file)

  alarm-undefined :
      (s : Sender) (now : Timeval)
      → IsWaiting file stale s total
      → s.rttinfo.rtt_nrexmt < rtt_maxnrexmt
      → Loop.step file stale total s (alarm now) ≡ undefined
  unfolding Loop.step after_alarm
  alarm-undefined s now w left =
      ap after_alarm
        (on_alarm-past file stale (record s { now = now }) w.entries left (omega (arith, w.asked)))

  run_undefined :
      (s t u : Sender) (a : ClientAck) (now : Timeval)
      → Loop.step file stale total s (alarm now) ≡ running t
      → Loop.step file stale total t (reads (some a) [] now) ≡ running u
      → Loop.step file stale total u (alarm now) ≡ undefined
      → run file stale total s (alarm now ∷ reads (some a) [] now ∷ alarm now ∷ []) ≡ undefined
  unfolding run resume
  run_undefined s t u a now e e' e'' = rw (e, e', e'') refl

  -- Let the byte order functions change nothing, and let the server, its table that of the file's
  -- segments and all of them sent once, wait for the segment that the client asks for, the only one that
  -- is missing, with at least one acknowledgement still expected in its round, retransmissions left, and
  -- the acknowledgement remembered asking for none behind it up to the end of the file; let the client's
  -- producer run, and its valid window reach past the end of the file, and end below 2 ^ 31. If this
  -- segment comes, and the acknowledgement marked as the last is lost, then all that the client sends is
  -- one acknowledgement behind the end of the file; its producer has returned; and if the round expects
  -- more acknowledgements than this one, the server's next timeout reads an entry behind the table of
  -- segments.
  pub lost_last_ack :
      (s : Sender) (c : Client) (k : ℕ) (now : Timeval)
      → ((n : ℕ) → env.htonl n ≡ n)
      → IsStuck file stale s c k k
      → let c' = (produce env total c (segment file stale k) false false true).0 in
        let a = plain_ack c'.window total 0 in
        get_next_ack_index c'.window ≡ some total
        → s.total_to_recv + 1 < s.total_to_send
        → (c'.acks ≡ c.acks ++ a ∷ [])
          × (c'.lastack ≡ 1)
          × (run file stale total s (alarm now ∷ reads (some a) [] now ∷ alarm now ∷ [])
              ≡ undefined)
  lost_last_ack s c k now same x all more =
      let low = x.missing in
      let (t, e, sent, w, recv, send) = alarm-IsWaiting file stale s k now x.waits low x.left in
      let (k', fed) =
        produce-IsFed env total true c (segment file stale k) k k same x.asks (omega arith) low
          (to_int-low k (omega (arith, low, x.asks.past, x.small))) x.runs x.small in
      let c' = (produce env total c (segment file stale k) false false true).0 in
      let done : k' ≡ total = some-injective (sym fed.asks.shown ∙ all) in
      elim fed.said [
        | inl (early, last, acks) ↦ absurd (omega (arith, early, done))
        | inr (same', last, acks) ↦
            let a = plain_ack c'.window total 0 in
            elim (reads-IsWaiting file stale t a k now w (omega (arith, low)) (omega arith)
              (ground (arith, fed.asks.past)) refl) [
                | inl (u, e', w', r) ↦ (
                  subst (λ (j : ℕ). c'.acks ≡ c.acks ++ plain_ack c'.window j 0 ∷ []) done acks,
                  last,
                  run_undefined s t u a now e e' (alarm-undefined u now w' (omega (arith, r))),
                )
                | inr (u, e', over, m) ↦ absurd (omega (arith, m, recv, send, more))
              ]
      ]
