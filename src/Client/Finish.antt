-- ===== src/Client/Finish.antt =====
-- The end of `ConsumerThread`: once the producer has seen all segments, one pass writes what is left.
use tcp_implementation_over.Common.{
  ℕ, zero, suc, ◌+◌, ◌≤◌, ◌<◌, ◌≡◌, refl, ap, subst, ◌∙◌, Bool, true, false, Option, none, some,
  ◌&&◌, arith, if◌then◌else◌, dec_le,
}
use tcp_implementation_over.Common.Int.{pos, leb_ℤ, ltb_ℤ}
use tcp_implementation_over.Wire.{Segment}
use tcp_implementation_over.Window.{Window, get_next_ack_index, fetch_and_remove, take_slot, vacate}
use tcp_implementation_over.Window.Bounds.{IsValid, next_ack-IsFirstVacant, in_use_at}
use tcp_implementation_over.Window.Progress.{
  IsKept, fetch_and_remove-IsKept, IsKept-trans, fetched_none-vacant,
}
use tcp_implementation_over.Client.{
  Client, Config, next_ack, available, send_client_ack_with_loss, write_segment, on_fetched, drain,
  consume_pass,
}
use tcp_implementation_over.Client.Drain.{consume_pass-fetches_all}

-- The window after some fetches: what the others held is still there.
pub record IsLater (w : Window Segment) (c : Client) : Type 0 where
  pub size : c.window.receiving_window_size ≡ w.receiving_window_size
  pub kept : IsKept w c.window

module _ (w : Window Segment) (file_length total : ℕ) where
  fetch-size :
      (u : Window Segment) → (fetch_and_remove u).1.receiving_window_size ≡ u.receiving_window_size
  unfolding fetch_and_remove take_slot vacate
  fetch-size u = ground arith

  fetched-IsLater :
      (c : Client) (out : Option (Segment × ℕ)) (u : Window Segment) (rest : Client → Client)
      → fetch_and_remove c.window ≡ (out, u)
      → ((c' : Client) → IsLater w c' → IsLater w (rest c'))
      → IsLater w c
      → IsLater w (on_fetched file_length total c (out, u) rest)
  unfolding write_segment
  fetched-IsLater c none u rest e keep h = h
  fetched-IsLater c (some (s, i)) u rest e keep h =
      let same : (fetch_and_remove c.window).1 ≡ u =
        ap (λ (r : Option (Segment × ℕ) × Window Segment). r.1) e in
      let kept : IsKept c.window u =
        subst (IsKept c.window) same (fetch_and_remove-IsKept c.window) in
      let size : u.receiving_window_size ≡ c.window.receiving_window_size =
        subst (λ (v : Window Segment). v.receiving_window_size ≡ c.window.receiving_window_size)
          same (fetch-size c.window) in
      keep (write_segment file_length total (record c { window = u }) s)
        (record { size = size ∙ h.size; kept = IsKept-trans w c.window u h.size h.kept kept })

  drain-IsLater : (n : ℕ) (c : Client) → IsLater w c → IsLater w (drain file_length total n c)
  unfolding drain
  drain-IsLater zero c h = h
  drain-IsLater (suc n) c h =
      fetched-IsLater c (fetch_and_remove c.window).0 (fetch_and_remove c.window).1
        (λ c'. drain file_length total n c') refl (λ c' h'. drain-IsLater n c' h') h

  either-IsLater :
      (b : Bool) (p q : Client) → IsLater w p → IsLater w q → IsLater w (if b then p else q)
  either-IsLater true p q hp hq = hp
  either-IsLater false p q hp hq = hq

  ack-IsLater :
      (env : Config) (c : Client) (lost : Bool)
      → IsLater w c
      → IsLater w (send_client_ack_with_loss env c lost)
  unfolding send_client_ack_with_loss
  ack-IsLater env c true h = h
  ack-IsLater env c false h = record { size = h.size; kept = h.kept }

  pub consume_pass-IsLater :
      (env : Config) (c : Client) (lost : Bool)
      → IsLater w c
      → IsLater w (consume_pass env file_length total c lost)
  unfolding consume_pass
  consume_pass-IsLater env c lost h =
      let drained = drain file_length total (c.window.receiving_window_size + 1) c in
      let y = drain-IsLater (c.window.receiving_window_size + 1) c h in
      either-IsLater
        (leb_ℤ (available env c.window) (pos 0) && leb_ℤ (pos 0) (available env c.window)) _ drained
        (either-IsLater (ltb_ℤ (next_ack env drained.window) (pos total))
          (send_client_ack_with_loss env drained lost) drained (ack-IsLater env drained lost y) y)
        y

-- A pass on a valid window fetches the segments from its base on that are in use.
pub consume_pass-reaches :
    (env : Config) (file_length total : ℕ) (c : Client) (lost : Bool) (k : ℕ)
    → IsValid c.window
    → k ≤ c.window.current_index + c.window.receiving_window_size
    → ((j : ℕ) → c.window.current_index ≤ j → j < k → in_use_at c.window j ≡ true)
    → k ≤ (consume_pass env file_length total c lost).window.current_index
consume_pass-reaches env file_length total c lost k valid inside busy =
    let c' = consume_pass env file_length total c lost in
    let i = c'.window.current_index in
    let later =
      consume_pass-IsLater c.window file_length total env c lost
        (record { size = refl; kept = (omega arith, λ j lo hi h. h) }) in
    elim (dec_le k i) [
      | yes done ↦ done
      | no short ↦
          let still =
            later.kept.1 i (omega arith) (omega arith)
              (busy i (omega (arith, later.kept.0)) (omega arith)) in
          let vacant =
            fetched_none-vacant c'.window
              (consume_pass-fetches_all file_length total env c lost valid) in
          absurd (cc (still, vacant))
    ]

-- A pass of the consumer on a valid window fetches every segment below the index that the window
-- acknowledges next.
pub consume_pass-reaches_ack :
    (env : Config) (file_length total : ℕ) (c : Client) (lost : Bool) (k : ℕ)
    → IsValid c.window
    → get_next_ack_index c.window ≡ some k
    → k ≤ (consume_pass env file_length total c lost).window.current_index
consume_pass-reaches_ack env file_length total c lost k valid e =
    let ack = next_ack-IsFirstVacant c.window k e in
    consume_pass-reaches env file_length total c lost k valid (omega (arith, ack.1)) ack.3
