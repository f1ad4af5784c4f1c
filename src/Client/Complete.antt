-- ===== src/Client/Complete.antt =====
-- What the last acknowledgement says of the client that has sent it.
use mathlib.Core.List.{append-nil, append_assoc}
use mathlib.Core.List.Memᴰ.{append_left, append_right}
use tcp_implementation_over.Common.{
  ℕ, ◌<◌, ◌≡◌, refl, sym, ap, subst, ◌∙◌, Bool, false, List, [], ◌∷◌, ◌++◌, Memᴰ, arith, ◌==◌, ltb,
  length, ◌⊎◌, inl, inr, Bool-cases, Option-cases,
}
use tcp_implementation_over.Common.Int.{pos, to_int}
use tcp_implementation_over.Wire.{Segment, ClientAck}
use tcp_implementation_over.Segments.{get_segment_count}
use tcp_implementation_over.Window.{get_next_ack_index}
use tcp_implementation_over.Client.{Client, Config, produce}
use tcp_implementation_over.Client.Runs
use tcp_implementation_over.Client.Runs.{Event, datagram, pass, step, run_client, start}
use tcp_implementation_over.Client.LastAck.{datagrams, produce-returns_complete}
use tcp_implementation_over.Client.Marked.{Marked, pass-Marked, produce-Marked}

module _ (env : Config) (file : List ℕ) (size : ℕ) (zeroed : Segment) where
  abbrev total : ℕ
  total = get_segment_count (length file)

  abbrev pub reached : List Event → Client
  reached = Runs.reached env file size zeroed (length file)

  abbrev pub WasFull : List Event → Type 0
  WasFull = Runs.WasFull env file size zeroed (length file)

  -- The segment has come.
  abbrev pub Came : List Event → ℕ → Type 0
  Came es j = (t : Segment) × Memᴰ t (datagrams es) × (to_int t.segment_num ≡ pos j)

  pub record IsKnown (es : List Event) : Type 0 where
    pub marked : Marked (reached es)
    pub complete : (j : ℕ) → (reached es).lastack ≡ 1 → j < total → Came es j ⊎ WasFull es

  pub run-snoc :
      (c : Client) (es : List Event) (e : Event)
      → run_client env file size zeroed (length file) c (es ++ e ∷ [])
        ≡ step env file size zeroed
            (length file)
            (run_client env file size zeroed (length file) c es)
            e
  unfolding run_client
  run-snoc c [] e = refl
  run-snoc c (x ∷ es) e = run-snoc (step env file size zeroed (length file) c x) es e

  datagrams-append : (xs ys : List Event) → datagrams (xs ++ ys) ≡ datagrams xs ++ datagrams ys
  datagrams-append [] ys = refl
  datagrams-append (datagram s a b d ∷ xs) ys =
      ap (λ (l : List Segment). s ∷ l) (datagrams-append xs ys)
  datagrams-append (pass a ∷ xs) ys = datagrams-append xs ys

  pub WasFull-append : (es more : List Event) → WasFull es → WasFull (es ++ more)
  WasFull-append es more f =
      (f.0, f.1 ++ more, ap (λ (l : List Event). l ++ more) f.2 ∙ append_assoc f.0 f.1 more, f.3)

  later :
      (es : List Event) (e : Event) (j : ℕ)
      → Came es j ⊎ WasFull es
      → Came (es ++ e ∷ []) j ⊎ WasFull (es ++ e ∷ [])
  later es e j (inl c) = inl (
    c.0,
    subst (Memᴰ c.0) (sym (datagrams-append es (e ∷ []))) (append_left (datagrams (e ∷ [])) c.1),
    c.2,
  )
  later es e j (inr f) = inr (WasFull-append es (e ∷ []) f)

  at_end :
      (es : List Event) (s t : Segment) (a b d : Bool)
      → Memᴰ t (s ∷ datagrams es)
      → Memᴰ t (datagrams (es ++ datagram s a b d ∷ []))
  at_end es s t a b d (Memᴰ.head e) =
      subst (Memᴰ t) (sym (datagrams-append es (datagram s a b d ∷ [])))
        (append_right (datagrams es) (Memᴰ.head e))
  at_end es s t a b d (Memᴰ.tail m) =
      subst (Memᴰ t) (sym (datagrams-append es (datagram s a b d ∷ []))) (append_left (s ∷ []) m)

  -- What is known behind one more event, of the client that `c` is then.
  abbrev KnownOf : List Event → Client → Type 0
  KnownOf es c = Marked c × ((j : ℕ) → c.lastack ≡ 1 → j < total → Came es j ⊎ WasFull es)

  unchanged : (es : List Event) (e : Event) → IsKnown es → KnownOf (es ++ e ∷ []) (reached es)
  unchanged es e x = (x.marked, λ j h lt. later es e j (x.complete j h lt))

  produced :
      (es : List Event) (s : Segment) (a b d : Bool)
      → 0 < size
      → ((reached es).lastack == 1) ≡ false
      → reached (es ++ datagram s a b d ∷ []) ≡ (produce env total (reached es) s a b d).0
      → IsKnown es
      → KnownOf (es ++ datagram s a b d ∷ []) (produce env total (reached es) s a b d).0
  produced es s a b d room more here x =
      let m = produce-Marked env total (reached es) s a b d more x.marked in
      (
        m.0,
        λ j h lt.
            elim (Option-cases
              (get_next_ack_index (produce env total (reached es) s a b d).0.window)) [
                | inl full ↦ inr (
                  es ++ datagram s a b d ∷ [],
                  [],
                  sym (append-nil _),
                  ap (λ (c : Client). get_next_ack_index c.window) here ∙ full,
                )
                | inr (k, shown) ↦
                    let came =
                      produce-returns_complete env file size zeroed es s a b d k j room (m.1 h)
                        shown lt in
                    inl (came.0, at_end es s came.0 a b d came.1, came.2)
              ],
      )

  stepped :
      (es : List Event) (e : Event)
      → 0 < size
      → IsKnown es
      → KnownOf (es ++ e ∷ []) (step env file size zeroed (length file) (reached es) e)
  unfolding step
  stepped es (pass lost) room x = elim (Bool-cases (ltb (reached es).count total)) [
    | inl more ↦
        let m = pass-Marked env (length file) total (reached es) lost x.marked in
        rw more (m.0, λ j h lt. later es (pass lost) j (x.complete j (sym m.1 ∙ h) lt))
    | inr done ↦ rw done (unchanged es (pass lost) x)
  ]
  stepped es (datagram s a b d) room x = elim (Bool-cases ((reached es).lastack == 1)) [
    | inl done ↦ rw done (unchanged es (datagram s a b d) x)
    | inr more ↦
        let here : reached (es ++ datagram s a b d ∷ [])
            ≡ (produce env total (reached es) s a b d).0 =
          run-snoc (start env file size zeroed) es (datagram s a b d) ∙ rw more refl in
        rw more (produced es s a b d room more here x)
  ]

  next : (es : List Event) (e : Event) → 0 < size → IsKnown es → IsKnown (es ++ e ∷ [])
  next es e room x =
      let k =
        subst (KnownOf (es ++ e ∷ [])) (sym (run-snoc (start env file size zeroed) es e))
          (stepped es e room x) in
      record { marked = k.0; complete = k.1 }

  known_from : (done es : List Event) → 0 < size → IsKnown done → IsKnown (done ++ es)
  known_from done [] room x = subst IsKnown (sym (append-nil done)) x
  known_from done (e ∷ es) room x =
      subst IsKnown (append_assoc done (e ∷ []) es)
        (known_from (done ++ e ∷ []) es room (next done e room x))

  nothing-IsKnown : IsKnown []
  unfolding run_client start
  nothing-IsKnown = record {
    marked = λ a m e. absurd (not_in m);
    complete = λ j h lt. absurd (omega (arith, h));
  }
    where
      not_in : {a : ClientAck} → Memᴰ a [] → ⊥
      not_in m = elim m [ ]

  pub always_known : (es : List Event) → 0 < size → IsKnown es
  always_known es room = known_from [] es room nothing-IsKnown

  -- Let the client's window have room. If an acknowledgement that the client has sent is marked as the
  -- last, then each segment of the file has come to it, or its window was full at some moment.
  pub last_ack-IsComplete :
      (es : List Event) (a : ClientAck) (j : ℕ)
      → 0 < size
      → Memᴰ a (reached es).acks
      → a.lastack_sent ≡ 1
      → j < get_segment_count (length file)
      → ((t : Segment) × Memᴰ t (datagrams es) × (to_int t.segment_num ≡ pos j)) ⊎ WasFull es
  last_ack-IsComplete es a j room sent last low =
      let x = always_known es room in x.complete j (x.marked a sent last) low
