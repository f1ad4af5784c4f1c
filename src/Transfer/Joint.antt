-- ===== src/Transfer/Joint.antt =====
-- The two programs joined: rounds of a timeout of the server, the segment that it sends, and what the
-- client answers.
use tcp_implementation_over.Common.{
  ◌≤◌, ℕ, zero, suc, ◌+◌, ◌^◌, ◌<◌, ◌≡◌, refl, sym, ap, ◌∙◌, false, some, List, [], ◌∷◌, ◌++◌,
  arith, length, ◌==◌, ◌⊎◌, inl, inr,
}
use tcp_implementation_over.Common.Int.{pos, to_int}
use tcp_implementation_over.Wire.{Segment, ClientAck}
use tcp_implementation_over.Segments.{get_segment_count}
use tcp_implementation_over.Rtt.{Timeval, rtt_maxnrexmt}
use tcp_implementation_over.Transmit.{Sender}
use tcp_implementation_over.Transmit.Loop
use tcp_implementation_over.Transmit.Loop.{
  Progress, running, probing, sent_all, closing, gave_up, dead, undefined, alarm, reads, resume,
}
use tcp_implementation_over.Transmit.Congestion.{segment}
use tcp_implementation_over.Transmit.Waiting.{IsWaiting}
use tcp_implementation_over.Client.{Client, Config, produce}
use tcp_implementation_over.Client.Runs
use tcp_implementation_over.Client.Runs.{datagram}
use tcp_implementation_over.Client.Asking.{AsksFor}
use tcp_implementation_over.Window.{get_next_ack_index}
use tcp_implementation_over.Transfer.{output}

module _ {A : Type 0} where
  -- What `new` has behind `old`.
  abbrev pub behind : List A → List A → List A
  behind [] new = new
  behind (x ∷ old) [] = []
  behind (x ∷ old) (y ∷ new) = behind old new

  pub behind-append : (old more : List A) → behind old (old ++ more) ≡ more
  behind-append [] more = refl
  behind-append (x ∷ old) more = behind-append old more

  behind-same : (old : List A) → behind old old ≡ []
  behind-same [] = refl
  behind-same (x ∷ old) = behind-same old

pub to_int-low : (k : ℕ) → k < 2 ^ 31 → to_int k ≡ pos k
unfolding to_int
to_int-low k low = ground (arith, low)

-- The two ends of a transfer.
pub record Joint : Type 0 where
  pub server : Progress
  pub client : Client

module _ (file : List ℕ) where
  abbrev pub total : ℕ
  total = get_segment_count (length file)

  -- The transmission has left its loops, the producer has returned, and the window asks for no segment of
  -- the file.
  pub record IsOver (j : Joint) : Type 0 where
    pub left : (s : Sender) × ((j.server ≡ sent_all s) ⊎ (j.server ≡ closing s))
    pub returned : j.client.lastack ≡ 1
    pub complete : get_next_ack_index j.client.window ≡ some total

module _ (file stale : List ℕ) where
  -- The server waits for the segment `j`, and the client asks for this one or, where the server has not
  -- heard of it, for a later one.
  pub record IsStuck (s : Sender) (c : Client) (j k : ℕ) : Type 0 where
    pub waits : IsWaiting file stale s j
    pub behind_client : j ≤ k
    pub missing : k < total file
    pub left : s.rttinfo.rtt_nrexmt < rtt_maxnrexmt
    pub asks : AsksFor (total file) c.window k
    pub runs : (c.lastack == 1) ≡ false
    pub small : c.window.current_index + c.window.receiving_window_size < 2 ^ 31

module _ (file stale : List ℕ) (env : Config) (size : ℕ) (zeroed : Segment) (now : Timeval) where
  -- The segments reach the client, and so do its acknowledgements the server.
  abbrev pub arrive : Client → List Segment → Client
  arrive c [] = c
  arrive c (s ∷ ss) =
      arrive (Runs.step env file size zeroed (length file) c (datagram s false false false)) ss

  abbrev pub hear : Progress → List ClientAck → Progress
  hear p [] = p
  hear p (a ∷ acks) =
      hear (resume p (λ s. Loop.step file stale (total file) s (reads (some a) [] now))) acks

  -- The server's timer runs out; what is new on either socket reaches the other side.
  unfoldable pub repair : Joint → Joint
  repair j =
      let server = resume j.server (λ s. Loop.step file stale (total file) s (alarm now)) in
      let client = arrive j.client (behind (output j.server) (output server)) in
      record { server = hear server (behind j.client.acks client.acks); client = client }

  unfoldable pub repairs : ℕ → Joint → Joint
  unfolding repair
  repairs zero j = j
  repairs (suc n) j = repairs n (repair j)

  -- The rest of a round, behind the timer.
  abbrev delivered : Joint → Progress → Joint
  delivered j p =
      let client = arrive j.client (behind (output j.server) (output p)) in
      record { server = hear p (behind j.client.acks client.acks); client = client }

  delivered-nothing : (j : Joint) → delivered j j.server ≡ j
  delivered-nothing j =
      ap
        (λ (ss : List Segment).
          let client = arrive j.client ss in
          let next : Joint = record {
            server = hear j.server (behind j.client.acks client.acks);
            client = client;
          } in
          next)
        (behind-same (output j.server))
      ∙ ap
          (λ (acks : List ClientAck).
            let next : Joint = record { server = hear j.server acks; client = j.client } in next)
          (behind-same j.client.acks)

  stays_over :
      (p : Progress) (f : Sender → Progress)
      → ((s : Sender) × ((p ≡ sent_all s) ⊎ (p ≡ closing s)))
      → resume p f ≡ p
  unfolding resume
  stays_over p f (s, inl e) = ap (λ (q : Progress). resume q f) e ∙ sym e
  stays_over p f (s, inr e) = ap (λ (q : Progress). resume q f) e ∙ sym e

  pub repair-over : (j : Joint) → IsOver file j → repair j ≡ j
  unfolding repair
  repair-over j o = ap (delivered j) (stays_over j.server _ o.left) ∙ delivered-nothing j

  -- One round, up to what the server hears.
  pub repair-fed :
      (s t : Sender) (c : Client) (k : ℕ)
      → (c.lastack == 1) ≡ false
      → Loop.step file stale (total file) s (alarm now) ≡ running t
      → t.sent ≡ s.sent ++ segment file stale k ∷ []
      → let c' = (produce env (total file) c (segment file stale k) false false false).0 in
        repair (record { server = running s; client = c })
        ≡ record { server = hear (running t) (behind c.acks c'.acks); client = c' }
  unfolding repair resume
  repair-fed s t c k runs e sent =
      let j : Joint = record { server = running s; client = c } in
      let came : arrive c (behind s.sent t.sent)
          ≡ (produce env (total file) c (segment file stale k) false false false).0 =
        ap (arrive c) (ap (behind s.sent) sent ∙ behind-append s.sent (segment file stale k ∷ []))
        ∙ (unfold Runs.step in rw runs refl) in
      ap (delivered j) e
      ∙ ap
          (λ (d : Client).
            let next : Joint = record {
              server = hear (running t) (behind c.acks d.acks);
              client = d;
            } in
            next)
          came
