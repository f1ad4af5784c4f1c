-- ===== src/Client/Recovers.antt =====
-- What the client has handed to `write` once the segments that it lacked have been sent again.
use tcp_implementation_over.Common.{
  ℕ, zero, suc, ◌+◌, ◌-◌, ◌%◌, ◌≤◌, ◌<◌, ◌≡◌, sym, subst, ◌∙◌, Bool, List, [], ◌∷◌, ◌++◌, arith,
  ◌==◌, if◌then◌else◌, take, length, ltb, ◌⊎◌, inl, inr, Bool-cases,
}
use tcp_implementation_over.Common.Int.{pos, to_int}
use tcp_implementation_over.Wire.{Segment, segment_data_size}
use tcp_implementation_over.Segments.{get_segment_count}
use tcp_implementation_over.Segments.Reassemble.{IsCopy}
use tcp_implementation_over.Window.Delivery.{InOrder}
use tcp_implementation_over.Client.{Client, Config}
use tcp_implementation_over.Client.Runs
use tcp_implementation_over.Client.Runs.{Event, datagram, pass, start}
use tcp_implementation_over.Client.Explain
use tcp_implementation_over.Client.Writes.{outs-InOrder, Explained-writes}
use tcp_implementation_over.Client.Rounds
use tcp_implementation_over.Client.Resent.{resendings-count}

pos-injective : (i k : ℕ) → pos i ≡ pos k → i ≡ k
pos-injective i k e = ground (arith, e)

-- No more than the known indices are delivered in order.
InOrder-bound :
    {A : Type 0} (R : ℕ → A → Type 0) (total : ℕ)
    → ((k : ℕ) (x : A) → R k x → k < total)
    → (b : ℕ) (outs : List (A × ℕ)) → InOrder R b outs
    → b ≤ total
    → b + length outs ≤ total
InOrder-bound R total low b [] h le = omega (arith, le)
InOrder-bound R total low b ((x, k) ∷ outs) h le =
    omega (arith, InOrder-bound R total low (b + 1) outs h.2 (omega (arith, low b x h.1)))

module _ (env : Config) (file : List ℕ) (size : ℕ) (zeroed : Segment) where
  abbrev total : ℕ
  total = get_segment_count (length file)

  -- A segment of the file, under its index.
  abbrev pub OfFile : ℕ → Segment → Type 0
  OfFile k s = (k < total) × IsCopy file k s.segment_data

  abbrev pub reached : List Event → Client
  reached = Rounds.reached env file size zeroed

  -- Every datagram that is marked with an index is that segment of the file.
  abbrev pub AllGenuine : List Event → Type 0
  AllGenuine = Explain.AllGenuine env file size zeroed OfFile

  AllGenuine-append : (xs ys : List Event) → AllGenuine xs → AllGenuine ys → AllGenuine (xs ++ ys)
  AllGenuine-append [] ys p q = q
  AllGenuine-append (datagram s a b d ∷ xs) ys p q = (p.0, AllGenuine-append xs ys p.1 q)
  AllGenuine-append (pass a ∷ xs) ys p q = AllGenuine-append xs ys p q

  complete-writes :
      (es : List Event)
      → 0 < size
      → AllGenuine es
      → total ≤ (reached es).count
      → let len = length file in
        ((reached es).count ≡ total)
        × ((reached es).written
            ≡ take (if len % segment_data_size == 0 then len - segment_data_size else len) file)
  complete-writes es room g all =
      let x =
        Explain.run_client-Explained env file size zeroed OfFile (start env file size zeroed) es g
          (Explain.start-Explained env file size zeroed OfFile) in
      let order = outs-InOrder env file size zeroed OfFile (reached es) x room in
      let bound = InOrder-bound OfFile total (λ k s h. h.0) 0 x.outs order.0 (omega arith) in
      let count : (reached es).count ≡ total = omega (arith, bound, x.counted, all) in
      (count, Explained-writes env file size zeroed OfFile (λ k s h. h.1) (reached es) x room count)

  module _ (segment : ℕ → Segment) (draws : ℕ → ℕ → Bool) where
    abbrev pub resendings : ℕ → Client → List Event
    resendings = Rounds.resendings env file size zeroed (length file) segment draws

    same-OfFile :
        (i k : ℕ)
        → i < total
        → to_int (segment i).segment_num ≡ pos i
        → to_int (segment i).segment_num ≡ pos k
        → IsCopy file i (segment i).segment_data
        → OfFile k (segment i)
    same-OfFile i k low e e' copy =
        let same : i ≡ k = pos-injective i k (sym e ∙ e') in
        subst (λ (j : ℕ). OfFile j (segment i)) same (low, copy)

    resendings-AllGenuine :
        (n : ℕ) (c : Client)
        → ((k : ℕ) → k < total → to_int (segment k).segment_num ≡ pos k)
        → ((k : ℕ) → k < total → IsCopy file k (segment k).segment_data)
        → AllGenuine (resendings n c)
    unfolding Rounds.resendings
    resendings-AllGenuine zero c number copy = tt
    resendings-AllGenuine (suc n) c number copy = elim (Bool-cases (ltb c.count total)) [
      | inl more ↦
          let low : c.count < total = ground (arith, more) in
          rw more (
            (λ k e. same-OfFile c.count k low (number c.count low) e (copy c.count low)),
            resendings-AllGenuine n _ number copy,
          )
      | inr done ↦ rw done tt
    ]

    -- The same, of the length that the producer has.
    abbrev Finishes : ℕ → List Event → ℕ → Type 0
    Finishes sent_length es n =
        let c = Runs.reached env file size zeroed sent_length es in
        let after = es ++ Rounds.resendings env file size zeroed sent_length segment draws n c in
        let len = length file in
        total ≤ c.count + n
        → (((Runs.reached env file size zeroed sent_length after).count ≡ total)
            × ((Runs.reached env file size zeroed sent_length after).written
                ≡ take (if len % segment_data_size == 0 then len - segment_data_size else len)
                    file))
          ⊎ Runs.WasFull env file size zeroed sent_length after

    known-Finishes :
        (es : List Event) (n : ℕ)
        → 0 < size
        → AllGenuine es
        → ((k : ℕ) → k < total → to_int (segment k).segment_num ≡ pos k)
        → ((k : ℕ) → k < total → IsCopy file k (segment k).segment_data)
        → Finishes (length file) es n
    known-Finishes es n room g number copy far =
        let after = es ++ resendings n (reached es) in
        let genuine =
          AllGenuine-append es (resendings n (reached es)) g
            (resendings-AllGenuine n (reached es) number copy) in
        elim (resendings-count env file size zeroed segment draws n es room number far) [
          | inl all ↦ inl (complete-writes after room genuine all)
          | inr full ↦ inr full
        ]

    -- Let the byte order function change nothing of the file's length, let the window have room, and let
    -- every datagram that is marked with an index be that segment of the file. Then whatever has come,
    -- been lost, repeated and reordered before: if from now on the segment behind those counted comes each
    -- time before the consumer's turn, then as many rounds as segments are missing end with all segments
    -- counted, and the bytes handed to `write` for the file's descriptor, which nothing has set, are those
    -- of the file, but for the last full segment of a file whose length is a multiple of the segment's; or
    -- the window was full at some moment.
    pub resent_writes_file :
        (es : List Event) (n : ℕ)
        → env.htonl (length file) ≡ length file
        → 0 < size
        → AllGenuine es
        → ((k : ℕ) → k < total → to_int (segment k).segment_num ≡ pos k)
        → ((k : ℕ) → k < total → IsCopy file k (segment k).segment_data)
        → total ≤ (Runs.reached env file size zeroed (env.htonl (length file)) es).count + n
        → let sent_length = env.htonl (length file) in
          let c = Runs.reached env file size zeroed sent_length es in
          let after = es ++ Rounds.resendings env file size zeroed sent_length segment draws n c in
          let len = length file in
          (((Runs.reached env file size zeroed sent_length after).count ≡ total)
            × ((Runs.reached env file size zeroed sent_length after).written
                ≡ take
                    (if len % segment_data_size == 0 then len - segment_data_size else len)
                    file))
          ⊎ Runs.WasFull env file size zeroed sent_length after
    resent_writes_file es n same room g number copy =
        subst (λ (sent_length : ℕ). Finishes sent_length es n) (sym same)
          (known-Finishes es n room g number copy)
