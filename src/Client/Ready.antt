-- ===== src/Client/Ready.antt =====
-- The client stays ready for the rest of a file, whatever comes of the file and whenever its consumer runs.
use tcp_implementation_over.Common.{
  ℕ, zero, suc, ◌+◌, ◌≤◌, ◌<◌, ◌≡◌, refl, sym, ap, subst, ◌∙◌, Bool, true, false, Option, none,
  some, List, [], ◌∷◌, ◌&&◌, ◌==◌, ◌⊎◌, inl, inr, arith, if◌then◌else◌, length, ltb,
}
use tcp_implementation_over.Common.Int.{pos, to_int, leb_ℤ, ltb_ℤ}
use tcp_implementation_over.Wire.{Segment}
use tcp_implementation_over.Segments.{get_segment_count}
use tcp_implementation_over.Window.{Window, add_segment, fetch_and_remove}
use tcp_implementation_over.Client.{
  Client, Config, next_ack, available, send_client_ack_with_loss, write_segment, on_fetched, drain,
  produce, consume_pass,
}
use tcp_implementation_over.Client.Runs.{Event, datagram, pass, step, run_client}
use tcp_implementation_over.Client.LastAck.{next_ack-some}
use tcp_implementation_over.Client.Marked.{either, send-lastack, pass-lastack}
use tcp_implementation_over.Client.Asking.{AsksFor, add_segment-AsksFor}
use tcp_implementation_over.Client.Fetched.{fetch-base, fetch-AsksFor}

-- Each branch under its test.
branches :
    {A : Type 0} (P : A → Type 0) (b : Bool) (x y : A)
    → (b ≡ true → P x)
    → (b ≡ false → P y)
    → P (if b then x else y)
branches P true x y p q = p refl
branches P false x y p q = q refl

-- The window asks for the index `k`, and has the size `n`.
abbrev Asks : ℕ → ℕ → ℕ → Window Segment → Type 0
Asks total n k w = AsksFor total w k × (w.receiving_window_size ≡ n)

fetched-Asks :
    (len total n k : ℕ) (c : Client) (r : Option (Segment × ℕ) × Window Segment)
    (rest : Client → Client)
    → Asks total n k c.window
    → Asks total n k r.1
    → ((d : Client) → Asks total n k d.window → Asks total n k (rest d).window)
    → Asks total n k (on_fetched len total c r rest).window
unfolding write_segment
fetched-Asks len total n k c (none, w) rest old h go = old
fetched-Asks len total n k c (some (s, i), w) rest old h go =
    go (write_segment len total (record c { window = w }) s) h

drain-Asks :
    (len total n k m : ℕ) (c : Client)
    → k ≤ total
    → Asks total n k c.window
    → Asks total n k (drain len total m c).window
unfolding drain
drain-Asks len total n k zero c le h = h
drain-Asks len total n k (suc m) c le h =
    fetched-Asks len total n k c (fetch_and_remove c.window) (λ d. drain len total m d) h
      (fetch-AsksFor total c.window k h.0 le, (fetch-base c.window).1 ∙ h.1)
      (λ d. drain-Asks len total n k m d le)

module _ (env : Config) where
  send-window :
      (c : Client) (lost : Bool) → (send_client_ack_with_loss env c lost).window ≡ c.window
  unfolding send_client_ack_with_loss
  send-window c true = refl
  send-window c false = refl

  pass-Asks :
      (len total n k : ℕ) (c : Client) (lost : Bool)
      → k ≤ total
      → Asks total n k c.window
      → Asks total n k (consume_pass env len total c lost).window
  unfolding consume_pass
  pass-Asks len total n k c lost le h =
      let drained = drain len total (c.window.receiving_window_size + 1) c in
      let h' : Asks total n k drained.window =
        drain-Asks len total n k (c.window.receiving_window_size + 1) c le h in
      let IsAsked = λ (d : Client). Asks total n k d.window in
      either IsAsked
        (leb_ℤ (available env c.window) (pos 0) && leb_ℤ (pos 0) (available env c.window)) _ drained
        (either IsAsked (ltb_ℤ (next_ack env drained.window) (pos total)) _ drained
          (subst (Asks total n k) (sym (send-window drained lost)) h') h')
        h'

  -- The producer has returned, or it runs and the window asks for the segment `i` of the file or a later
  -- one.
  abbrev pub Ready : ℕ → ℕ → ℕ → Client → Type 0
  Ready total n i c =
      (c.lastack ≡ 1)
      ⊎ ((k : ℕ) × ((c.lastack == 1) ≡ false) × Asks total n k c.window × (i ≤ k) × (k < total))

  produce-Ready :
      (total n i : ℕ) (c : Client) (s : Segment) (lost a l : Bool) (j k : ℕ)
      → (c.lastack == 1) ≡ false
      → Asks total n k c.window
      → i ≤ k
      → k < total
      → to_int s.segment_num ≡ pos j
      → j < total
      → Ready total n i (produce env total c s lost a l).0
  unfolding produce
  produce-Ready total n i c s true a l j k runs h lo hi e low = inr (k, runs, h, lo, hi)
  produce-Ready total n i c s false a l j k runs h lo hi e low =
      let stored : Client = record c { window = add_segment c.window s (to_int s.segment_num) } in
      let acked = send_client_ack_with_loss env stored a in
      let flagged : Client = record acked { lastack = 1 } in
      let (k', asks, up, past, le, base, size) =
        add_segment-AsksFor total c.window s j k h.0 low (omega (arith, hi)) in
      let asks' : Asks total n k' acked.window =
        subst (Asks total n k') (ap (add_segment c.window s) (sym e) ∙ sym (send-window stored a))
          (asks, size ∙ h.1) in
      branches (λ (r : Client × Bool). Ready total n i r.0)
        (leb_ℤ (pos total) (next_ack env acked.window)) _ (acked, false)
        (λ done. inl (send-lastack env flagged l))
        (λ more.
          let early : leb_ℤ (pos total) (pos k') ≡ false =
            ap (leb_ℤ (pos total)) (sym (next_ack-some env acked.window k' asks'.0.shown)) ∙ more in
          inr (
            k',
            ap (λ (m : ℕ). m == 1) (send-lastack env stored a) ∙ runs,
            asks',
            omega (arith, lo, up),
            ground (arith, early),
          ))

  pass-Ready :
      (len total n i : ℕ) (c : Client) (lost : Bool)
      → Ready total n i c
      → Ready total n i (consume_pass env len total c lost)
  pass-Ready len total n i c lost (inl last) = inl (pass-lastack env len total c lost ∙ last)
  pass-Ready len total n i c lost (inr (k, runs, h, lo, hi)) = inr (
    k,
    ap (λ (m : ℕ). m == 1) (pass-lastack env len total c lost) ∙ runs,
    pass-Asks len total n k c lost (omega (arith, hi)) h,
    lo,
    hi,
  )

-- Every datagram brings a segment of the file.
abbrev pub OfFile : ℕ → List Event → Type 0
OfFile total [] = Unit
OfFile total (datagram s a b d ∷ es) =
    ((j : ℕ) × (to_int s.segment_num ≡ pos j) × (j < total)) × OfFile total es
OfFile total (pass a ∷ es) = OfFile total es

module _ (env : Config) (file : List ℕ) (size : ℕ) (zeroed : Segment) where
  abbrev total : ℕ
  total = get_segment_count (length file)

  abbrev IsReady : ℕ → ℕ → Client → Type 0
  IsReady n i c = Ready env total n i c

  datagram-Ready :
      (n i : ℕ) (c : Client) (s : Segment) (lost a l : Bool) (j : ℕ)
      → to_int s.segment_num ≡ pos j
      → j < total
      → IsReady n i c
      → IsReady n i (step env file size zeroed (length file) c (datagram s lost a l))
  unfolding step
  datagram-Ready n i c s lost a l j e low r =
      branches (IsReady n i) (c.lastack == 1) c (produce env total c s lost a l).0 (λ done. r)
        (λ more. elim r [
          | inl last ↦ absurd (ground (arith, more, last))
          | inr (k, runs, h, lo, hi) ↦
              produce-Ready env total n i c s lost a l j k runs h lo hi e low
        ])

  pub run_client-Ready :
      (n i : ℕ) (es : List Event) (c : Client)
      → OfFile total es
      → IsReady n i c
      → IsReady n i (run_client env file size zeroed (length file) c es)
  unfolding run_client
  run_client-Ready n i [] c of r = r
  run_client-Ready n i (datagram s lost a l ∷ es) c ((j, e, low), of) r =
      run_client-Ready n i es (step env file size zeroed (length file) c (datagram s lost a l)) of
        (datagram-Ready n i c s lost a l j e low r)
  run_client-Ready n i (pass lost ∷ es) c of r =
      run_client-Ready n i es (step env file size zeroed (length file) c (pass lost)) of (
        unfold step in
        either (IsReady n i) (ltb c.count total) (consume_pass env (length file) total c lost) c
          (pass-Ready env (length file) total n i c lost r) r)
