-- ===== src/Client/Resent.antt =====
-- Retransmissions finish the client's work: a round brings it on, and enough rounds write the file.
use mathlib.Core.List.{append-nil, append_assoc}
use tcp_implementation_over.Common.{
  ℕ, zero, suc, ◌+◌, ◌≤◌, ◌<◌, ◌≡◌, sym, ap, subst, ◌∙◌, Bool, true, false, List, [], ◌∷◌, ◌++◌,
  arith, ◌==◌, ltb, length, ◌⊎◌, inl, inr, Bool-cases, dec_le,
}
use tcp_implementation_over.Common.Int.{pos, to_int}
use tcp_implementation_over.Wire.{Segment}
use tcp_implementation_over.Segments.{get_segment_count}
use tcp_implementation_over.Window.{Window}
use tcp_implementation_over.Window.Bounds.{in_use_at}
use tcp_implementation_over.Window.Progress.{in_use-add_segment}
use tcp_implementation_over.Client.{Client, Config}
use tcp_implementation_over.Client.Runs.{Event, datagram, pass, step}
use tcp_implementation_over.Client.Complete.{WasFull-append}
use tcp_implementation_over.Client.Returned.{returned-HoldsRest}
use tcp_implementation_over.Client.Rounds

module _ (env : Config) (file : List ℕ) (size : ℕ) (zeroed : Segment) where
  abbrev total : ℕ
  total = get_segment_count (length file)

  abbrev reached : List Event → Client
  reached = Rounds.reached env file size zeroed

  abbrev WasFull : List Event → Type 0
  WasFull = Rounds.WasFull env file size zeroed

  -- The turn of the consumer once the producer has returned.
  returned-counts :
      (es : List Event) (lost : Bool)
      → 0 < size
      → (reached es).count < total
      → (reached es).lastack ≡ 1
      → (total ≤ (reached (es ++ pass lost ∷ [])).count) ⊎ WasFull (es ++ pass lost ∷ [])
  returned-counts es lost room low last =
      elim (returned-HoldsRest env file size zeroed es room last) [
        | inl held ↦
            inl (Rounds.pass-counts env file size zeroed es lost total room low held.0 held.1)
        | inr full ↦ inr (WasFull-append env file size zeroed es (pass lost ∷ []) full)
      ]

  -- The turn of the consumer once the segment that it lacks has come.
  stored-counts :
      (es : List Event) (s : Segment) (a l lost : Bool)
      → 0 < size
      → to_int s.segment_num ≡ pos (reached es).count
      → ((reached es).lastack == 1) ≡ false
      → let mid = es ++ datagram s false a l ∷ [] in
        (reached mid).count < total → (reached es).count < (reached (mid ++ pass lost ∷ [])).count
  stored-counts es s a l lost room number more low =
      let mid = es ++ datagram s false a l ∷ [] in
      let c = reached es in
      let v = Rounds.window-IsValid env file size zeroed es room in
      let v' = Rounds.window-IsValid env file size zeroed mid room in
      let here = Rounds.count-index env file size zeroed es room in
      let here' = Rounds.count-index env file size zeroed mid room in
      let up = Rounds.count-monotone env file size zeroed es (datagram s false a l) room in
      let held : in_use_at (reached mid).window c.count ≡ true =
        subst (λ (w : Window Segment). in_use_at w c.count ≡ true)
          (sym (Rounds.produced-window env file size zeroed es s a l c.count more number))
          (in_use-add_segment c.window s c.count v (omega (arith, here))
            (omega (arith, here, v.some_room))) in
      Rounds.pass-counts env file size zeroed mid lost (suc c.count) room low
        (omega (arith, here', up, v'.some_room))
        (λ j lo hi.
          let same : c.count ≡ j = omega (arith, here', up, lo, hi) in
          subst (λ (i : ℕ). in_use_at (reached mid).window i ≡ true) same held)

  -- One round brings the count on, unless the window was full.
  round-counts :
      (es : List Event) (s : Segment) (a l lost : Bool)
      → 0 < size
      → to_int s.segment_num ≡ pos (reached es).count
      → (reached es).count < total
      → let after = (es ++ datagram s false a l ∷ []) ++ pass lost ∷ [] in
        ((reached es).count < (reached after).count) ⊎ WasFull after
  round-counts es s a l lost room number low =
      let mid = es ++ datagram s false a l ∷ [] in
      let later = Rounds.count-monotone env file size zeroed mid (pass lost) room in
      elim (dec_le total (reached mid).count) [
        | yes enough ↦ inl (omega (arith, low, enough, later))
        | no short ↦
            let below : (reached mid).count < total = omega (arith, short) in
            elim (Bool-cases ((reached es).lastack == 1)) [
              | inr more ↦ inl (stored-counts es s a l lost room number more below)
              | inl done ↦
                  elim (returned-counts mid lost room below
                    (Rounds.returned-stays env file size zeroed es s false a l done)) [
                      | inl all ↦ inl (omega (arith, low, all))
                      | inr full ↦ inr full
                    ]
            ]
      ]

  module _ (segment : ℕ → Segment) (draws : ℕ → ℕ → Bool) where
    abbrev pub resendings : ℕ → Client → List Event
    resendings = Rounds.resendings env file size zeroed (length file) segment draws

    -- The list behind one round.
    resendings-suc :
        (es : List Event) (n : ℕ)
        → (reached es).count < total
        → let came = datagram (segment (reached es).count) false (draws n 0) (draws n 1) in
          let after = (es ++ came ∷ []) ++ pass (draws n 2) ∷ [] in
          after ++ resendings n (reached after) ≡ es ++ resendings (suc n) (reached es)
    unfolding Rounds.resendings
    resendings-suc es n low =
        let came = datagram (segment (reached es).count) false (draws n 0) (draws n 1) in
        let turn = pass (draws n 2) in
        let mid = es ++ came ∷ [] in
        let here : reached (mid ++ turn ∷ [])
            ≡ step env file size zeroed (length file)
                (step env file size zeroed (length file) (reached es) came) turn =
          Rounds.reached-snoc env file size zeroed mid turn
          ∙ ap (λ (c : Client). step env file size zeroed (length file) c turn)
              (Rounds.reached-snoc env file size zeroed es came) in
        let more : ltb (reached es).count total ≡ true = ground (arith, low) in
        rw more (
          append_assoc mid (turn ∷ []) _
          ∙ append_assoc es (came ∷ []) _
          ∙ ap (λ (c : Client). es ++ came ∷ turn ∷ resendings n c) here)

    resendings-done :
        (es : List Event) (n : ℕ)
        → total ≤ (reached es).count
        → es ++ resendings n (reached es) ≡ es
    unfolding Rounds.resendings
    resendings-done es zero enough = append-nil es
    resendings-done es (suc n) enough =
        let stop : ltb (reached es).count total ≡ false = ground (arith, enough) in
        rw stop (append-nil es)

    abbrev pub Numbered : Type 0
    Numbered = (k : ℕ) → k < total → to_int (segment k).segment_num ≡ pos k

    -- All segments are counted behind the events, or the window was full.
    abbrev Counted : List Event → Type 0
    Counted es = (total ≤ (reached es).count) ⊎ WasFull es

    first-round :
        (n : ℕ) (es : List Event)
        → 0 < size
        → Numbered
        → (reached es).count < total
        → ((after : List Event)
            → (reached es).count < (reached after).count
            → Counted (after ++ resendings n (reached after)))
        → Counted (es ++ resendings (suc n) (reached es))
    first-round n es room number low others =
        let s = segment (reached es).count in
        let after =
          (es ++ datagram s false (draws n 0) (draws n 1) ∷ []) ++ pass (draws n 2) ∷ [] in
        let here : Counted (after ++ resendings n (reached after)) =
          elim (round-counts es s (draws n 0) (draws n 1) (draws n 2) room
            (number (reached es).count low) low) [
              | inl up ↦ others after up
              | inr full ↦
                  inr
                    (WasFull-append env file size zeroed after (resendings n (reached after)) full)
            ] in
        subst Counted (resendings-suc es n low) here

    done-Counted :
        (n : ℕ) (es : List Event)
        → total ≤ (reached es).count
        → Counted (es ++ resendings n (reached es))
    done-Counted n es enough = subst Counted (sym (resendings-done es n enough)) (inl enough)

    -- As many rounds as segments are missing count them all, unless the window was full.
    pub resendings-count :
        (n : ℕ) (es : List Event)
        → 0 < size
        → Numbered
        → total ≤ (reached es).count + n
        → (total ≤ (reached (es ++ resendings n (reached es))).count)
          ⊎ WasFull (es ++ resendings n (reached es))
    resendings-count zero es room number far = done-Counted 0 es (omega (arith, far))
    resendings-count (suc n) es room number far = elim (dec_le total (reached es).count) [
      | yes enough ↦ done-Counted (suc n) es enough
      | no short ↦
          first-round n es room number (omega (arith, short))
            (λ after up. resendings-count n after room number (omega (arith, far, up)))
    ]
