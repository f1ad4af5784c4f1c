-- ===== src/Client/Returned.antt =====
-- What the client's window holds once the producer has returned, until the consumer has written it.
use mathlib.Core.List.{append-nil, append_assoc}
use tcp_implementation_over.Common.{
  ℕ, ◌+◌, ◌≤◌, ◌<◌, ◌≡◌, refl, sym, ap, subst, ◌∙◌, Bool, true, false, List, [], ◌∷◌, ◌++◌, arith,
  ◌==◌, ltb, length, ◌⊎◌, inl, inr, Bool-cases, Option-cases,
}
use tcp_implementation_over.Wire.{Segment}
use tcp_implementation_over.Segments.{get_segment_count}
use tcp_implementation_over.Window.{Window, get_next_ack_index}
use tcp_implementation_over.Window.Bounds.{in_use_at, IsFirstVacant, next_ack-IsFirstVacant}
use tcp_implementation_over.Client.{Client, Config, produce}
use tcp_implementation_over.Client.Runs.{Event, datagram, pass, step, run_client, start}
use tcp_implementation_over.Client.Finish.{IsLater, consume_pass-IsLater}
use tcp_implementation_over.Client.LastAck.{produce-returned}
use tcp_implementation_over.Client.Marked.{pass-Marked, produce-Marked}
use tcp_implementation_over.Client.Complete

module _ (env : Config) (file : List ℕ) (size : ℕ) (zeroed : Segment) where
  abbrev total : ℕ
  total = get_segment_count (length file)

  abbrev pub reached : List Event → Client
  reached = Complete.reached env file size zeroed

  abbrev pub WasFull : List Event → Type 0
  WasFull = Complete.WasFull env file size zeroed

  -- The file's segments that are not handed out yet are in the window.
  abbrev pub HoldsRest : Window Segment → Type 0
  HoldsRest w =
      (total ≤ w.current_index + w.receiving_window_size)
      × ((j : ℕ) → w.current_index ≤ j → j < total → in_use_at w j ≡ true)

  first_vacant-HoldsRest :
      (w : Window Segment) (k : ℕ) → IsFirstVacant w k → total ≤ k → HoldsRest w
  first_vacant-HoldsRest w k h far = (omega (arith, h.1), λ j lo hi. h.3 j lo (omega arith))

  later-HoldsRest :
      (w : Window Segment) (c : Client) → IsLater w c → HoldsRest w → HoldsRest c.window
  later-HoldsRest w c l h = (
    omega (arith, h.0, l.size, l.kept.0),
    λ j lo hi. l.kept.1 j lo (omega (arith, h.0)) (h.1 j (omega (arith, l.kept.0)) hi),
  )

  -- What is known behind the events, of the client that `c` is then.
  abbrev Ended : List Event → Client → Type 0
  Ended es c = c.lastack ≡ 1 → HoldsRest c.window ⊎ WasFull es

  same-Ended :
      (es : List Event) (e : Event) → Ended es (reached es) → Ended (es ++ e ∷ []) (reached es)
  same-Ended es e x h = elim (x h) [
    | inl held ↦ inl held
    | inr full ↦ inr (Complete.WasFull-append env file size zeroed es (e ∷ []) full)
  ]

  passed-Ended :
      (es : List Event) (lost : Bool)
      → ltb (reached es).count total ≡ true
      → Complete.IsKnown env file size zeroed es
      → Ended es (reached es)
      → Ended
          (es ++ pass lost ∷ [])
          (step env file size zeroed (length file) (reached es) (pass lost))
  unfolding step
  passed-Ended es lost more known x =
      let c = reached es in
      let m = pass-Marked env (length file) total c lost known.marked in
      let later =
        consume_pass-IsLater c.window (length file) total env c lost
          (record { size = refl; kept = (omega arith, λ j lo hi h. h) }) in
      rw more (λ h. elim (x (sym m.1 ∙ h)) [
        | inl held ↦ inl (later-HoldsRest c.window _ later held)
        | inr full ↦ inr (Complete.WasFull-append env file size zeroed es (pass lost ∷ []) full)
      ])

  produced-Ended :
      (es : List Event) (s : Segment) (a b d : Bool)
      → ((reached es).lastack == 1) ≡ false
      → reached (es ++ datagram s a b d ∷ []) ≡ (produce env total (reached es) s a b d).0
      → Complete.IsKnown env file size zeroed es
      → Ended (es ++ datagram s a b d ∷ []) (produce env total (reached es) s a b d).0
  produced-Ended es s a b d more here known h =
      let c' = (produce env total (reached es) s a b d).0 in
      let m = produce-Marked env total (reached es) s a b d more known.marked in
      elim (Option-cases (get_next_ack_index c'.window)) [
        | inl full ↦ inr (
          es ++ datagram s a b d ∷ [],
          [],
          sym (append-nil _),
          ap (λ (c : Client). get_next_ack_index c.window) here ∙ full,
        )
        | inr (k, shown) ↦ inl (
            first_vacant-HoldsRest c'.window k (next_ack-IsFirstVacant c'.window k shown)
              (produce-returned env total (reached es) s a b d k (m.1 h) shown))
      ]

  stepped-Ended :
      (es : List Event) (e : Event)
      → Complete.IsKnown env file size zeroed es
      → Ended es (reached es)
      → Ended (es ++ e ∷ []) (step env file size zeroed (length file) (reached es) e)
  stepped-Ended es (pass lost) known x = elim (Bool-cases (ltb (reached es).count total)) [
    | inl more ↦ passed-Ended es lost more known x
    | inr done ↦ unfold step in rw done (same-Ended es (pass lost) x)
  ]
  stepped-Ended es (datagram s a b d) known x = elim (Bool-cases ((reached es).lastack == 1)) [
    | inl done ↦ unfold step in rw done (same-Ended es (datagram s a b d) x)
    | inr more ↦
        let here : reached (es ++ datagram s a b d ∷ [])
            ≡ (produce env total (reached es) s a b d).0 =
          Complete.run-snoc env file size zeroed (start env file size zeroed) es (datagram s a b d)
          ∙ (unfold step in rw more refl) in
        unfold step in rw more (produced-Ended es s a b d more here known)
  ]

  Ended-append :
      (done es : List Event)
      → 0 < size
      → Ended done (reached done)
      → Ended (done ++ es) (reached (done ++ es))
  Ended-append done [] room x =
      subst (λ (l : List Event). Ended l (reached l)) (sym (append-nil done)) x
  Ended-append done (e ∷ es) room x =
      let known = Complete.always_known env file size zeroed done room in
      let y =
        subst (Ended (done ++ e ∷ []))
          (sym (Complete.run-snoc env file size zeroed (start env file size zeroed) done e))
          (stepped-Ended done e known x) in
      subst (λ (l : List Event). Ended l (reached l)) (append_assoc done (e ∷ []) es)
        (Ended-append (done ++ e ∷ []) es room y)

  nothing-Ended : Ended [] (reached [])
  unfolding run_client start
  nothing-Ended h = absurd (omega (arith, h))

  -- Let the client's window have room. Once the producer has returned, the window holds the segments
  -- of the file that are not handed out yet, or it was full at some moment.
  pub returned-HoldsRest :
      (es : List Event)
      → 0 < size
      → (reached es).lastack ≡ 1
      → HoldsRest (reached es).window ⊎ WasFull es
  returned-HoldsRest es room h = Ended-append [] es room nothing-Ended h
