-- ===== src/Transfer/Repair.antt =====
-- The two programs at the end of a file: as many timeouts as segments are missing repair all losses.
use tcp_implementation_over.Common.{
  ℕ, zero, suc, ◌+◌, ◌^◌, ◌≤◌, ◌<◌, ◌≡◌, refl, sym, ap, subst, ◌∙◌, false, some, List, [], ◌∷◌,
  ◌++◌, arith, ◌==◌, ◌⊎◌, inl, inr,
}
use tcp_implementation_over.Wire.{Segment, ClientAck}
use tcp_implementation_over.Rtt.{Timeval}
use tcp_implementation_over.Transmit.{Sender}
use tcp_implementation_over.Transmit.Loop
use tcp_implementation_over.Transmit.Loop.{
  Progress, running, probing, sent_all, closing, gave_up, dead, undefined, alarm, reads, resume,
}
use tcp_implementation_over.Transmit.Congestion.{segment}
use tcp_implementation_over.Transmit.Waiting.{
  IsWaiting, alarm-IsWaiting, reads-IsWaiting, last-closing,
}
use tcp_implementation_over.Client.{Client, Config, produce}
use tcp_implementation_over.Client.Asking.{plain_ack}
use tcp_implementation_over.Client.Fed.{IsFed, produce-IsFed}
use tcp_implementation_over.Transfer.Joint
use tcp_implementation_over.Transfer.Joint.{
  Joint, total, behind, behind-append, to_int-low, IsStuck, IsOver, repair-over, repair-fed,
}

module _ (file stale : List ℕ) (env : Config) (size : ℕ) (zeroed : Segment) (now : Timeval) where
  abbrev repair : Joint → Joint
  repair = Joint.repair file stale env size zeroed now

  abbrev repairs : ℕ → Joint → Joint
  repairs = Joint.repairs file stale env size zeroed now

  abbrev hear : Progress → List ClientAck → Progress
  hear = Joint.hear file stale env size zeroed now

  -- The client's acknowledgement, heard.
  abbrev heard : Sender → Client → Client → Joint
  heard t c c' = record { server = hear (running t) (behind c.acks c'.acks); client = c' }

  -- The two programs go on where they did, with fewer segments missing.
  abbrev GoesOn : Joint → ℕ → Type 0
  GoesOn j k =
      (s : Sender) × (k' : ℕ) × (j.server ≡ running s)
      × (k < k')
      × IsStuck file stale s j.client k' k'

  heard-early :
      (t : Sender) (c c' : Client) (k k' : ℕ)
      → IsWaiting file stale t k
      → IsFed env (total file) false c c' k k'
      → (c.lastack == 1) ≡ false
      → c.window.current_index + c.window.receiving_window_size < 2 ^ 31
      → k' < (total file)
      → c'.lastack ≡ c.lastack
      → c'.acks ≡ c.acks ++ plain_ack c'.window k' 0 ∷ []
      → GoesOn (heard t c c') k
  unfolding resume
  heard-early t c c' k k' w fed runs small early last acks =
      let a = plain_ack c'.window k' 0 in
      let new : behind c.acks c'.acks ≡ a ∷ [] =
        ap (behind c.acks) acks ∙ behind-append c.acks (a ∷ []) in
      elim (reads-IsWaiting file stale t a k now w fed.up fed.in_file
        (ground (arith, fed.asks.past, early)) refl) [
          | inl (s', e, w', r) ↦ (
            s',
            k',
            ap (hear (running t)) new ∙ e,
            fed.up,
            record {
              waits = w';
              behind_client = omega arith;
              missing = early;
              left = omega (arith, r);
              asks = fed.asks;
              runs = ground (arith, last, runs);
              small = omega (arith, fed.base, fed.size, small);
            },
          )
          | inr (u, e, done, m) ↦ absurd (omega (arith, early, done))
        ]

  heard-last :
      (t : Sender) (c c' : Client) (k k' : ℕ)
      → IsWaiting file stale t k
      → IsFed env (total file) false c c' k k'
      → k' ≡ (total file)
      → c'.lastack ≡ 1
      → c'.acks ≡ c.acks ++ plain_ack c'.window k' 0 ∷ plain_ack c'.window k' 1 ∷ []
      → IsOver file (heard t c c')
  unfolding resume
  heard-last t c c' k k' w fed done last acks =
      let a = plain_ack c'.window k' 0 in
      let b = plain_ack c'.window k' 1 in
      let new : behind c.acks c'.acks ≡ a ∷ b ∷ [] =
        ap (behind c.acks) acks ∙ behind-append c.acks (a ∷ b ∷ []) in
      let goes = λ (p : Progress).
        resume p (λ s. Loop.step file stale (total file) s (reads (some b) [] now)) in
      record {
        left =
            elim (reads-IsWaiting file stale t a k now w fed.up fed.in_file
              (ground (arith, fed.asks.past, done)) refl) [
                | inl (s', e, w', r) ↦
                    let (t', e') = last-closing file stale s' b now refl in
                    (t', inr (ap (hear (running t)) new ∙ ap goes e ∙ e'))
                | inr (u, e, all, m) ↦ (u, inl (ap (hear (running t)) new ∙ ap goes e))
              ];
        returned = last;
        complete = fed.asks.shown ∙ ap some done;
      }

  -- One round, with what the timeout brings.
  repair-stuck :
      (s : Sender) (c : Client) (i k : ℕ)
      → ((n : ℕ) → env.htonl n ≡ n)
      → IsStuck file stale s c i k
      → let j = repair (record { server = running s; client = c }) in IsOver file j ⊎ GoesOn j i
  repair-stuck s c i k same x =
      let low : i < total file = omega (arith, x.behind_client, x.missing) in
      let (t, e, sent, w, u, v) = alarm-IsWaiting file stale s i now x.waits low x.left in
      let (k', fed) =
        produce-IsFed env (total file) false c (segment file stale i) i k same x.asks
          x.behind_client x.missing (to_int-low i (omega (arith, low, x.asks.past, x.small))) x.runs
          x.small in
      let c' = (produce env (total file) c (segment file stale i) false false false).0 in
      subst (λ (j : Joint). IsOver file j ⊎ GoesOn j i)
        (sym (repair-fed file stale env size zeroed now s t c i x.runs e sent))
        (elim fed.said [
          | inl (early, last, acks) ↦
              inr (heard-early t c c' i k' w fed x.runs x.small early last acks)
          | inr (done, last, acks) ↦ inl (heard-last t c c' i k' w fed done last acks)
        ])

  ends_stay : (n : ℕ) (j : Joint) → IsOver file j → IsOver file (repairs n j)
  unfolding Joint.repairs
  ends_stay zero j o = o
  ends_stay (suc n) j o =
      ends_stay n (repair j)
        (subst (IsOver file) (sym (repair-over file stale env size zeroed now j o)) o)

  -- Let the byte order functions change nothing, and let the server wait, its table that of the file's
  -- segments and all of them sent once, for the segment `i`, with at least as many acknowledgements
  -- still expected in its round as there are segments from this on, retransmissions left, and the
  -- acknowledgement remembered asking for none behind it up to the end of the file; let the client's
  -- producer run, ask for this segment or a later one of the file, and its valid window reach past the
  -- end of the file, and end below 2 ^ 31. If from now on what the server's timeouts send and what the
  -- client answers gets through, then as many timeouts as there are segments from `i` on end the
  -- transmission, by the client's last acknowledgement or with the last one of the round; the producer
  -- has returned, and the window acknowledges the end of the file.
  pub repairs-IsOver :
      (n : ℕ) (s : Sender) (c : Client) (i k : ℕ)
      → ((m : ℕ) → env.htonl m ≡ m)
      → IsStuck file stale s c i k
      → (total file) ≤ i + n
      → IsOver file (repairs n (record { server = running s; client = c }))
  unfolding Joint.repairs
  repairs-IsOver zero s c i k same x far = absurd (omega (arith, x.behind_client, x.missing, far))
  repairs-IsOver (suc n) s c i k same x far =
      let j = repair (record { server = running s; client = c }) in
      elim (repair-stuck s c i k same x) [
        | inl over ↦ ends_stay n j over
        | inr (s', k', e, up, x') ↦
            subst
              (λ (p : Progress). IsOver file (repairs n (record { server = p; client = j.client })))
              (sym e) (repairs-IsOver n s' j.client k' k' same x' (omega (arith, up, far)))
      ]
