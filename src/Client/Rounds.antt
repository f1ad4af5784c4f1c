-- ===== src/Client/Rounds.antt =====
-- The client at the pace of the server's retransmissions: each time the segment that it lacks.
use tcp_implementation_over.Common.{
  ℕ, zero, suc, ◌+◌, ◌≤◌, ◌<◌, ◌≡◌, refl, sym, ap, subst, ◌∙◌, Bool, true, false, List, [], ◌∷◌,
  ◌++◌, arith, ◌==◌, if◌then◌else◌, ltb, length,
}
use tcp_implementation_over.Common.Int.{pos, to_int, leb_ℤ}
use tcp_implementation_over.Wire.{Segment}
use tcp_implementation_over.Segments.{get_segment_count}
use tcp_implementation_over.Window.{Window, init, add_segment}
use tcp_implementation_over.Window.Bounds.{IsValid, init-IsValid, run-IsValid, in_use_at}
use tcp_implementation_over.Window.Progress.{add_segment-IsKept}
use tcp_implementation_over.Client.{
  Client, Config, next_ack, produce, consume_pass, send_client_ack_with_loss,
}
use tcp_implementation_over.Client.Runs.{Event, datagram, pass, step, start}
use tcp_implementation_over.Client.Explain
use tcp_implementation_over.Client.Finish.{consume_pass-reaches, consume_pass-IsLater}
use tcp_implementation_over.Client.Marked.{either}
use tcp_implementation_over.Client.LastAck.{ack-window}
use tcp_implementation_over.Client.Writes.{outs-InOrder}
use tcp_implementation_over.Client.Complete.{run-snoc}
use tcp_implementation_over.Client.Returned

module _ (env : Config) (file : List ℕ) (size : ℕ) (zeroed : Segment) (sent_length : ℕ) where
  -- At most `n` rounds: while segments are missing, the one behind those written comes, then the
  -- consumer has its turn. The draws of each round are free, but for that of the segment.
  unfoldable pub resendings : (ℕ → Segment) → (ℕ → ℕ → Bool) → ℕ → Client → List Event
  resendings segment draws zero c = []
  resendings segment draws (suc n) c =
      let came = datagram (segment c.count) false (draws n 0) (draws n 1) in
      let turn = pass (draws n 2) in
      let rest = resendings segment draws n (
        step env file size zeroed sent_length (step env file size zeroed sent_length c came)
          turn) in
      if ltb c.count (get_segment_count (length file)) then came ∷ turn ∷ rest else []

module _ (env : Config) (file : List ℕ) (size : ℕ) (zeroed : Segment) where
  abbrev total : ℕ
  total = get_segment_count (length file)

  abbrev pub reached : List Event → Client
  reached = Returned.reached env file size zeroed

  abbrev pub WasFull : List Event → Type 0
  WasFull = Returned.WasFull env file size zeroed

  abbrev Known : ℕ → Segment → Type 0
  Known k s = Unit

  all-genuine : (es : List Event) → Explain.AllGenuine env file size zeroed Known es
  all-genuine [] = tt
  all-genuine (datagram s a b d ∷ es) = ((λ k e. tt), all-genuine es)
  all-genuine (pass a ∷ es) = all-genuine es

  reached-Explained : (es : List Event) → Explain.Explained env file size zeroed Known (reached es)
  reached-Explained es =
      Explain.run_client-Explained env file size zeroed Known (start env file size zeroed) es
        (all-genuine es) (Explain.start-Explained env file size zeroed Known)

  pub window-IsValid : (es : List Event) → 0 < size → IsValid (reached es).window
  window-IsValid es room =
      let x = reached-Explained es in
      subst IsValid (ap (λ (r : List (Segment × ℕ) × Window Segment). r.1) x.reached)
        (run-IsValid (init size zeroed) x.ops (init-IsValid size zeroed room))

  pub count-index :
      (es : List Event) → 0 < size → (reached es).count ≡ (reached es).window.current_index
  count-index es room =
      let x = reached-Explained es in
      x.counted ∙ sym (outs-InOrder env file size zeroed Known (reached es) x room).1

  -- What a datagram that is not lost makes of the window.
  produce-window :
      (c : Client) (s : Segment) (a l : Bool)
      → (produce env total c s false a l).0.window ≡ add_segment c.window s (to_int s.segment_num)
  unfolding produce
  produce-window c s a l =
      let stored : Client = record c { window = add_segment c.window s (to_int s.segment_num) } in
      let acked = send_client_ack_with_loss env stored a in
      either (λ (r : Client × Bool). r.0.window ≡ stored.window)
        (leb_ℤ (pos total) (next_ack env acked.window)) _ (acked, false)
        (ack-window env (record acked { lastack = 1 }) l ∙ ack-window env stored a)
        (ack-window env stored a)

  step-index :
      (c : Client) (e : Event)
      → IsValid c.window
      → c.window.current_index ≤ (step env file size zeroed (length file) c e).window.current_index
  unfolding step
  step-index c (pass lost) v =
      let later =
        consume_pass-IsLater c.window (length file) total env c lost
          (record { size = refl; kept = (omega arith, λ j lo hi h. h) }) in
      either (λ (d : Client). c.window.current_index ≤ d.window.current_index) (ltb c.count total) _
        c later.kept.0 (omega arith)
  step-index c (datagram s true a l) v =
      either (λ (d : Client). c.window.current_index ≤ d.window.current_index) (c.lastack == 1) c _
        (omega arith) (unfold produce in omega arith)
  step-index c (datagram s false a l) v =
      either (λ (d : Client). c.window.current_index ≤ d.window.current_index) (c.lastack == 1) c _
        (omega arith)
        (subst (λ (w : Window Segment). c.window.current_index ≤ w.current_index)
          (sym (produce-window c s a l)) (add_segment-IsKept c.window s (to_int s.segment_num) v).0)

  pub reached-snoc :
      (es : List Event) (e : Event)
      → reached (es ++ e ∷ []) ≡ step env file size zeroed (length file) (reached es) e
  reached-snoc es e = run-snoc env file size zeroed (start env file size zeroed) es e

  pub count-monotone :
      (es : List Event) (e : Event) → 0 < size → (reached es).count ≤ (reached (es ++ e ∷ [])).count
  count-monotone es e room =
      let up =
        subst (λ (c : Client). (reached es).window.current_index ≤ c.window.current_index)
          (sym (reached-snoc es e)) (step-index (reached es) e (window-IsValid es room)) in
      omega (arith, up, count-index es room, count-index (es ++ e ∷ []) room)

  -- The consumer's turn, if the window holds the indices below `k` from its base on.
  pub pass-counts :
      (es : List Event) (lost : Bool) (k : ℕ)
      → 0 < size
      → (reached es).count < total
      → k ≤ (reached es).window.current_index + (reached es).window.receiving_window_size
      → ((j : ℕ)
          → (reached es).window.current_index ≤ j
          → j < k
          → in_use_at (reached es).window j ≡ true)
      → k ≤ (reached (es ++ pass lost ∷ [])).count
  pass-counts es lost k room low inside busy =
      let c = reached es in
      let far =
        consume_pass-reaches env (length file) total c lost k (window-IsValid es room) inside
          busy in
      let turn : step env file size zeroed (length file) c (pass lost)
          ≡ consume_pass env (length file) total c lost =
        unfold step in ground (arith, low) in
      let here =
        subst (λ (d : Client). k ≤ d.window.current_index)
          (sym (reached-snoc es (pass lost) ∙ turn)) far in
      omega (arith, here, count-index (es ++ pass lost ∷ []) room)

  -- A datagram while the producer runs.
  pub produced-window :
      (es : List Event) (s : Segment) (a l : Bool) (k : ℕ)
      → ((reached es).lastack == 1) ≡ false
      → to_int s.segment_num ≡ pos k
      → (reached (es ++ datagram s false a l ∷ [])).window
        ≡ add_segment (reached es).window s (pos k)
  produced-window es s a l k more number =
      let c = reached es in
      let went : step env file size zeroed (length file) c (datagram s false a l)
          ≡ (produce env total c s false a l).0 =
        unfold step in rw more refl in
      ap (λ (d : Client). d.window) (reached-snoc es (datagram s false a l) ∙ went)
      ∙ produce-window c s a l
      ∙ ap (add_segment c.window s) number

  -- A producer that has returned reads no datagram.
  pub returned-stays :
      (es : List Event) (s : Segment) (lost a l : Bool)
      → ((reached es).lastack == 1) ≡ true
      → (reached (es ++ datagram s lost a l ∷ [])).lastack ≡ 1
  returned-stays es s lost a l done =
      let c = reached es in
      let went : step env file size zeroed (length file) c (datagram s lost a l) ≡ c =
        unfold step in rw done refl in
      ap (λ (d : Client). d.lastack) (reached-snoc es (datagram s lost a l) ∙ went)
      ∙ ground (arith, done)
