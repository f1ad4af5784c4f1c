-- ===== src/Client/LastAck.antt =====
-- What the client knows when its producer returns, which sends the last acknowledgement.
use tcp_implementation_over.Common.{
  ℕ, ◌≤◌, ◌<◌, ◌≡◌, refl, sym, ap, subst, ◌∙◌, Bool, true, false, some, List, [], ◌∷◌, Memᴰ, arith,
  length, inl, inr, Bool-cases,
}
use tcp_implementation_over.Common.Int.{pos, negsuc, to_int, leb_ℤ}
use tcp_implementation_over.Wire.{Segment}
use tcp_implementation_over.Segments.{get_segment_count}
use tcp_implementation_over.Window
use tcp_implementation_over.Window.{Window, init, add_segment, get_next_ack_index}
use tcp_implementation_over.Window.Ops.{Op, arrive, consume}
use tcp_implementation_over.Window.Delivery.{IsFromFile, arrivals, next_ack_sound}
use tcp_implementation_over.Client.{Client, Config, next_ack, send_client_ack_with_loss, produce}
use tcp_implementation_over.Client.Runs.{Event, datagram, pass, start, run_client}
use tcp_implementation_over.Client.Explain

-- The segments that came.
abbrev pub datagrams : List Event → List Segment
datagrams [] = []
datagrams (datagram s a b d ∷ es) = s ∷ datagrams es
datagrams (pass a ∷ es) = datagrams es

arrived-IsSegmentOf :
    (R : ℕ → Segment → Type 0) (ops : List (Op Segment)) (j : ℕ)
    → IsFromFile R ops
    → Memᴰ (pos j) (arrivals ops)
    → (t : Segment) × R j t
arrived-IsSegmentOf R [] j g m = elim m [ ]
arrived-IsSegmentOf R (arrive s (pos k) ∷ ops) j g (Memᴰ.head e) =
    (s, subst (λ (i : ℕ). R i s) (sym (number e)) g.0)
  where
    number : pos j ≡ pos k → j ≡ k
    number x = ground (arith, x)
arrived-IsSegmentOf R (arrive s (pos k) ∷ ops) j g (Memᴰ.tail m) = arrived-IsSegmentOf R ops j g.1 m
arrived-IsSegmentOf R (arrive s (negsuc k) ∷ ops) j g (Memᴰ.head e) = absurd (cc e)
arrived-IsSegmentOf R (arrive s (negsuc k) ∷ ops) j g (Memᴰ.tail m) =
    arrived-IsSegmentOf R ops j g m
arrived-IsSegmentOf R (consume ∷ ops) j g m = arrived-IsSegmentOf R ops j g m

module _ (env : Config) where
  pub ack-window :
      (c : Client) (lost : Bool) → (send_client_ack_with_loss env c lost).window ≡ c.window
  unfolding send_client_ack_with_loss
  ack-window c true = refl
  ack-window c false = refl

  pub next_ack-some :
      (w : Window Segment) (k : ℕ) → get_next_ack_index w ≡ some k → next_ack env w ≡ pos k
  unfolding next_ack
  next_ack-some w k e = rw (next_ack, e) refl

  -- The producer returns only when the index acknowledged next is at least the number of segments.
  pub produce-returned :
      (total : ℕ) (c : Client) (s : Segment) (lost a l : Bool) (k : ℕ)
      → (produce env total c s lost a l).1 ≡ true
      → get_next_ack_index (produce env total c s lost a l).0.window ≡ some k
      → total ≤ k
  unfolding produce
  produce-returned total c s true a l k r e = absurd (cc r)
  produce-returned total c s false a l k r e =
      let stored : Client = record c { window = add_segment c.window s (to_int s.segment_num) } in
      let acked = send_client_ack_with_loss env stored a in
      let last = send_client_ack_with_loss env (record acked { lastack = 1 }) l in
      elim (Bool-cases (leb_ℤ (pos total) (next_ack env acked.window))) [
        | inl enough ↦
            let d : produce env total c s false a l ≡ (last, true) = rw enough refl in
            let shut : get_next_ack_index acked.window ≡ some k =
              ap get_next_ack_index (sym (ack-window (record acked { lastack = 1 }) l))
              ∙ sym (ap (λ (p : Client × Bool). get_next_ack_index p.0.window) d)
              ∙ e in
            let far : leb_ℤ (pos total) (pos k) ≡ true =
              ap (leb_ℤ (pos total)) (sym (next_ack-some acked.window k shut)) ∙ enough in
            ground (arith, far)
        | inr early ↦
            let d : produce env total c s false a l ≡ (acked, false) = rw early refl in
            absurd (cc (sym r ∙ ap (λ (p : Client × Bool). p.1) d))
      ]

module _ (env : Config) (file : List ℕ) (size : ℕ) (zeroed : Segment) where
  abbrev CameIn : List Segment → ℕ → Segment → Type 0
  CameIn all k t = Memᴰ t all × (to_int t.segment_num ≡ pos k)

  all_came :
      (all : List Segment) (es : List Event)
      → ((t : Segment) → Memᴰ t (datagrams es) → Memᴰ t all)
      → Explain.AllGenuine env file size zeroed (CameIn all) es
  all_came all [] f = tt
  all_came all (datagram s a b d ∷ es) f =
      ((λ k e. (f s (Memᴰ.head refl), e)), all_came all es (λ t m. f t (Memᴰ.tail m)))
  all_came all (pass a ∷ es) f = all_came all es f

  -- Let the client's window have room. If a datagram makes the producer return, and the window is not
  -- full, then each segment of the file has come to the client, as this datagram or before.
  pub produce-returns_complete :
      (es : List Event) (s : Segment) (lost a l : Bool) (k j : ℕ)
      → 0 < size
      → let total = get_segment_count (length file) in
        let c = run_client env file size zeroed (length file) (start env file size zeroed) es in
        (produce env total c s lost a l).1 ≡ true
        → get_next_ack_index (produce env total c s lost a l).0.window ≡ some k
        → j < total
        → (t : Segment) × Memᴰ t (s ∷ datagrams es) × (to_int t.segment_num ≡ pos j)
  produce-returns_complete es s lost a l k j room returned open_window low =
      let total = get_segment_count (length file) in
      let all = s ∷ datagrams es in
      let R = CameIn all in
      let c = run_client env file size zeroed (length file) (start env file size zeroed) es in
      let before =
        Explain.run_client-Explained env file size zeroed R (start env file size zeroed) es
          (all_came all es (λ t m. Memᴰ.tail m)) (Explain.start-Explained env file size zeroed R) in
      let x =
        Explain.produce-Explained env file size zeroed R total c s lost a l
          (λ i e. (Memᴰ.head refl, e)) before in
      let enough = produce-returned env total c s lost a l k returned open_window in
      let acknowledged : get_next_ack_index (Window.run (init size zeroed) x.ops).1 ≡ some k =
        ap (λ (p : List (Segment × ℕ) × Window Segment). get_next_ack_index p.1) x.reached
        ∙ open_window in
      let came =
        arrived-IsSegmentOf R x.ops j x.genuine
          (next_ack_sound size zeroed x.ops k j room acknowledged (omega (arith, low, enough))) in
      (came.0, came.1.0, came.1.1)
