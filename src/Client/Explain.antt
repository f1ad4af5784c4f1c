-- ===== src/Client/Explain.antt =====
-- What the client has written is explained by calls on its window: an invariant of its two threads.
use tcp_implementation_over.Common.{
  ℕ, zero, suc, ◌≡◌, refl, sym, ap, ap₂, ◌∙◌, Bool, true, false, Option, none, some, List, [], ◌∷◌,
  ◌++◌, arith, if◌then◌else◌, take, length, length-map, map, length-append, ◌+◌, ◌==◌, ◌&&◌, ltb,
}
use mathlib.Core.List.{append-nil, map-append}
use tcp_implementation_over.Common.Int.{ℤ, pos, negsuc, to_int, leb_ℤ, ltb_ℤ}
use tcp_implementation_over.Wire.{Segment}
use tcp_implementation_over.Segments.{get_segment_count, write_length, write_segments}
use tcp_implementation_over.Window
use tcp_implementation_over.Window.{Window, init, add_segment, fetch_and_remove}
use tcp_implementation_over.Window.Ops.{Op, arrive, consume, emit}
use tcp_implementation_over.Window.Delivery.{IsFromFile}
use tcp_implementation_over.Client.{
  Client, Config, next_ack, send_client_ack_with_loss, produce, write_segment, on_fetched, drain,
  available, consume_pass,
}
use tcp_implementation_over.Client.Runs.{Event, datagram, pass, step, run_client, start}
use tcp_implementation_over.Client.Calls.{run-more, IsFromFile-append, write_segments-last, data_of}

-- `IsSegmentOf k s` says what is known of a segment `s` that is marked with the index `k`.
module _ (env : Config) (file : List ℕ) (size : ℕ) (zeroed : Segment)
    (IsSegmentOf : ℕ → Segment → Type 0) where
  abbrev pub total : ℕ
  total = get_segment_count (length file)

  -- It is known of a datagram under the index that it is marked with.
  abbrev pub IsGenuine : Segment → Type 0
  IsGenuine s = (k : ℕ) → to_int s.segment_num ≡ pos k → IsSegmentOf k s

  -- The calls on the window so far, and that the file holds what they fetched.
  pub record Explained (c : Client) : Type 0 where
    pub ops : List (Op Segment)
    pub outs : List (Segment × ℕ)
    pub genuine : IsFromFile IsSegmentOf ops
    pub reached : Window.run (init size zeroed) ops ≡ (outs, c.window)
    pub counted : c.count ≡ length outs
    pub wrote : c.written ≡ write_segments (length file) total 0 (map data_of outs)

  genuine-op :
      (s : Segment) (k : ℤ)
      → IsGenuine s
      → to_int s.segment_num ≡ k
      → IsFromFile IsSegmentOf (arrive s k ∷ [])
  genuine-op s (pos k) g e = (g k e, tt)
  genuine-op s (negsuc k) g e = tt

  store-Explained :
      (c : Client) (s : Segment)
      → IsGenuine s
      → Explained c
      → Explained (record c { window = add_segment c.window s (to_int s.segment_num) })
  unfolding Window.run
  store-Explained c s g x = record {
    ops = x.ops ++ arrive s (to_int s.segment_num) ∷ [];
    outs = x.outs;
    genuine = IsFromFile-append IsSegmentOf x.ops _ x.genuine (genuine-op s _ g refl);
    reached =
        run-more (init size zeroed) c.window x.ops (arrive s (to_int s.segment_num) ∷ []) x.outs
          x.reached
        ∙ ap (λ (l : List (Segment × ℕ)). (l, add_segment c.window s (to_int s.segment_num)))
            (append-nil x.outs);
    counted = x.counted;
    wrote = x.wrote;
  }

  fetch-Explained :
      (c : Client) (s : Segment) (i : ℕ) (w : Window Segment)
      → fetch_and_remove c.window ≡ (some (s, i), w)
      → Explained c
      → Explained (write_segment (length file) total (record c { window = w }) s)
  unfolding write_segment Window.run
  fetch-Explained c s i w e x = record {
    ops = x.ops ++ consume ∷ [];
    outs = x.outs ++ (s, i) ∷ [];
    genuine = IsFromFile-append IsSegmentOf x.ops _ x.genuine tt;
    reached =
        run-more (init size zeroed) c.window x.ops (consume ∷ []) x.outs x.reached
        ∙ ap (λ (r : Option (Segment × ℕ) × Window Segment). (x.outs ++ emit r.0 [], r.1)) e;
    counted = omega (arith, x.counted, length-append x.outs ((s, i) ∷ []));
    wrote =
        ap₂ (λ (l : List ℕ) (n : ℕ). l ++ take (write_length (length file) total n) s.segment_data)
          x.wrote (x.counted ∙ sym (length-map x.outs data_of))
        ∙ sym (write_segments-last (length file) total (map data_of x.outs) s.segment_data)
        ∙ ap (write_segments (length file) total 0) (sym (map-append data_of x.outs ((s, i) ∷ [])));
  }

  branch-Explained :
      (b : Bool) (p q : Client × Bool)
      → Explained p.0
      → Explained q.0
      → Explained (if◌then◌else◌ {A = Client × Bool} b p q).0
  branch-Explained true p q hp hq = hp
  branch-Explained false p q hp hq = hq

  -- An acknowledgement touches none of this.
  same-Explained :
      (c c' : Client)
      → c'.window ≡ c.window
      → c'.count ≡ c.count
      → c'.written ≡ c.written
      → Explained c
      → Explained c'
  same-Explained c c' p q r x = record {
    ops = x.ops;
    outs = x.outs;
    genuine = x.genuine;
    reached = x.reached ∙ ap (λ (w : Window Segment). (x.outs, w)) (sym p);
    counted = q ∙ x.counted;
    wrote = r ∙ x.wrote;
  }

  pub ack-Explained :
      (c : Client) (lost : Bool) → Explained c → Explained (send_client_ack_with_loss env c lost)
  unfolding send_client_ack_with_loss
  ack-Explained c true x = x
  ack-Explained c false x = same-Explained c _ refl refl refl x

  pub produce-Explained :
      (n : ℕ) (c : Client) (s : Segment) (lost ack_lost last_ack_lost : Bool)
      → IsGenuine s
      → Explained c
      → Explained (produce env n c s lost ack_lost last_ack_lost).0
  unfolding produce
  produce-Explained n c s true a l g x = x
  produce-Explained n c s false a l g x =
      let stored : Client = record c { window = add_segment c.window s (to_int s.segment_num) } in
      let acked = send_client_ack_with_loss env stored a in
      let y = ack-Explained stored a (store-Explained c s g x) in
      branch-Explained (leb_ℤ (pos n) (next_ack env acked.window))
        (send_client_ack_with_loss env (record acked { lastack = 1 }) l, true) (acked, false)
        (ack-Explained (record acked { lastack = 1 }) l (same-Explained acked _ refl refl refl y)) y

  fetched-Explained :
      (c : Client) (out : Option (Segment × ℕ)) (w : Window Segment) (rest : Client → Client)
      → fetch_and_remove c.window ≡ (out, w)
      → ((c' : Client) → Explained c' → Explained (rest c'))
      → Explained c
      → Explained (on_fetched (length file) total c (out, w) rest)
  fetched-Explained c none w rest e keep x = x
  fetched-Explained c (some (s, i)) w rest e keep x = keep _ (fetch-Explained c s i w e x)

  pub drain-Explained :
      (n : ℕ) (c : Client) → Explained c → Explained (drain (length file) total n c)
  unfolding drain
  drain-Explained zero c x = x
  drain-Explained (suc n) c x =
      fetched-Explained c (fetch_and_remove c.window).0 (fetch_and_remove c.window).1 _ refl
        (λ c' x'. drain-Explained n c' x') x

  pub either-Explained :
      (b : Bool) (p q : Client) → Explained p → Explained q → Explained (if b then p else q)
  either-Explained true p q hp hq = hp
  either-Explained false p q hp hq = hq

  consume_pass-Explained :
      (c : Client) (lost : Bool)
      → Explained c
      → Explained (consume_pass env (length file) total c lost)
  unfolding consume_pass
  consume_pass-Explained c lost x =
      let drained = drain (length file) total (c.window.receiving_window_size + 1) c in
      let y = drain-Explained (c.window.receiving_window_size + 1) c x in
      either-Explained
        (leb_ℤ (available env c.window) (pos 0) && leb_ℤ (pos 0) (available env c.window)) _ drained
        (either-Explained (ltb_ℤ (next_ack env drained.window) (pos total))
          (send_client_ack_with_loss env drained lost) drained (ack-Explained drained lost y) y)
        y

  abbrev pub AllGenuine : List Event → Type 0
  AllGenuine [] = Unit
  AllGenuine (datagram s a b d ∷ es) = IsGenuine s × AllGenuine es
  AllGenuine (pass a ∷ es) = AllGenuine es

  pub run_client-Explained :
      (c : Client) (es : List Event)
      → AllGenuine es
      → Explained c
      → Explained ((run_client env file size zeroed (length file)) c es)
  unfolding run_client step
  run_client-Explained c [] g x = x
  run_client-Explained c (datagram s a b d ∷ es) g x =
      run_client-Explained ((step env file size zeroed (length file)) c (datagram s a b d)) es g.1 (
        either-Explained (c.lastack == 1) c (produce env total c s a b d).0 x
          (produce-Explained total c s a b d g.0 x))
  run_client-Explained c (pass a ∷ es) g x =
      run_client-Explained ((step env file size zeroed (length file)) c (pass a)) es g (
        either-Explained (ltb c.count total) (consume_pass env (length file) total c a) c
          (consume_pass-Explained c a x) x)

  pub start-Explained : Explained (start env file size zeroed)
  unfolding start Window.run write_segments
  start-Explained = record {
    ops = [];
    outs = [];
    genuine = tt;
    reached = refl;
    counted = refl;
    wrote = refl;
  }
