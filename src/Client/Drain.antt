-- ===== src/Client/Drain.antt =====
-- The inner loop of `ConsumerThread`: its rounds in the model are enough.
use tcp_implementation_over.Common.{
  ℕ, zero, suc, ◌+◌, ◌≤◌, ◌<◌, ◌≡◌, refl, ap, Bool, true, false, Option, none, some, List, [], ◌∷◌,
  ◌&&◌, arith, if◌then◌else◌, length, get_elem?, set,
}
use tcp_implementation_over.Common.Int.{pos, leb_ℤ, ltb_ℤ}
use tcp_implementation_over.Wire.{Segment}
use tcp_implementation_over.Window.{Slot, Window, fetch_and_remove, take_slot, vacate}
use tcp_implementation_over.Window.Bounds.{IsValid}
use tcp_implementation_over.Client.{
  Client, Config, next_ack, available, send_client_ack_with_loss, write_segment, on_fetched, drain,
  consume_pass,
}

module _ {A : Type 0} where
  -- How many slots are in use.
  abbrev used : List (Slot A) → ℕ
  used [] = 0
  used (s ∷ l) = if s.in_use then suc (used l) else used l

  used-length : (l : List (Slot A)) → used l ≤ length l
  used-length [] = omega arith
  used-length (s ∷ l) = ground (arith, used-length l)

  used-set :
      (l : List (Slot A)) (i : ℕ) (s : Slot A)
      → get_elem? l i ≡ some s
      → s.in_use ≡ true
      → used (set l i (record s { in_use = false })) + 1 ≡ used l
  used-set [] i s e b = ground (arith, e)
  used-set (t ∷ l) zero s e b = ground (arith, e, b)
  used-set (t ∷ l) (suc i) s e b = ground (arith, used-set l i s e b)

  -- What a fetch that hands something out does to that number.
  abbrev Spent : Window A → Option (A × ℕ) × Window A → Type 0
  Spent w (none, w') = Unit
  Spent w (some x, w') = used w'.slots + 1 ≡ used w.slots

  either-Spent :
      (w : Window A) (b : Bool) (p q : Option (A × ℕ) × Window A)
      → (b ≡ true → Spent w p)
      → Spent w q
      → Spent w (if b then p else q)
  either-Spent w true p q h k = h refl
  either-Spent w false p q h k = k

  take_slot-Spent :
      (w : Window A) (i : ℕ) (o : Option (Slot A))
      → get_elem? w.slots i ≡ o
      → Spent w (take_slot w i o)
  unfolding take_slot vacate
  take_slot-Spent w i none e = tt
  take_slot-Spent w i (some s) e =
      either-Spent w s.in_use (some (s.segment_data, w.current_index), vacate w i s) (none, w)
        (λ b. used-set w.slots i s e b) tt

  fetch_and_remove-Spent : (w : Window A) → Spent w (fetch_and_remove w)
  unfolding fetch_and_remove
  fetch_and_remove-Spent w = take_slot-Spent w _ _ refl

module _ (file_length total : ℕ) where
  abbrev IsDrained : Client → Type 0
  IsDrained c = (fetch_and_remove c.window).0 ≡ none

  fetched-IsDrained :
      (c : Client) (out : Option (Segment × ℕ)) (w : Window Segment) (n : ℕ)
      → fetch_and_remove c.window ≡ (out, w)
      → Spent c.window (out, w)
      → used c.window.slots ≤ n
      → ((c' : Client) → used c'.window.slots < n → IsDrained (drain file_length total n c'))
      → IsDrained (on_fetched file_length total c (out, w) (λ c'. drain file_length total n c'))
  unfolding write_segment
  fetched-IsDrained c none w n e spent h rest =
      ap (λ (r : Option (Segment × ℕ) × Window Segment). r.0) e
  fetched-IsDrained c (some (s, i)) w n e spent h rest =
      rest (write_segment file_length total (record c { window = w }) s) (omega (arith, spent))

  drain-IsDrained :
      (n : ℕ) (c : Client) → used c.window.slots < n → IsDrained (drain file_length total n c)
  unfolding drain
  drain-IsDrained zero c h = absurd (omega arith)
  drain-IsDrained (suc n) c h =
      fetched-IsDrained c (fetch_and_remove c.window).0 (fetch_and_remove c.window).1 n refl
        (fetch_and_remove-Spent c.window) (omega arith) (λ c' h'. drain-IsDrained n c' h')

  either-IsDrained :
      (b : Bool) (p q : Client) → IsDrained p → IsDrained q → IsDrained (if b then p else q)
  either-IsDrained true p q hp hq = hp
  either-IsDrained false p q hp hq = hq

  ack-IsDrained :
      (env : Config) (c : Client) (lost : Bool)
      → IsDrained c
      → IsDrained (send_client_ack_with_loss env c lost)
  unfolding send_client_ack_with_loss
  ack-IsDrained env c true h = h
  ack-IsDrained env c false h = h

  -- On a valid window the rounds of the consumer's inner loop are enough: a pass ends with nothing left
  -- to fetch, whichever acknowledgement it sends.
  pub consume_pass-fetches_all :
      (env : Config) (c : Client) (lost : Bool)
      → IsValid c.window
      → (fetch_and_remove (consume_pass env file_length total c lost).window).0 ≡ none
  unfolding consume_pass
  consume_pass-fetches_all env c lost valid =
      let drained = drain file_length total (c.window.receiving_window_size + 1) c in
      let h : IsDrained drained =
        drain-IsDrained (c.window.receiving_window_size + 1) c
          (omega (arith, used-length c.window.slots, valid.ring)) in
      either-IsDrained
        (leb_ℤ (available env c.window) (pos 0) && leb_ℤ (pos 0) (available env c.window)) _ drained
        (either-IsDrained (ltb_ℤ (next_ack env drained.window) (pos total))
          (send_client_ack_with_loss env drained lost) drained (ack-IsDrained env drained lost h) h)
        h
