-- ===== src/Client/Marked.antt =====
-- Which acknowledgements the client marks as the last.
use mathlib.Core.List.Memᴰ.{append_cases}
use tcp_implementation_over.Common.{
  ℕ, zero, suc, ◌+◌, ◌≡◌, refl, sym, ap, subst, ◌∙◌, Bool, true, false, Option, none, some, [], ◌∷◌,
  ◌&&◌, Memᴰ, arith, ◌==◌, if◌then◌else◌, inl, inr,
}
use tcp_implementation_over.Common.Int.{pos, to_int, leb_ℤ, ltb_ℤ}
use tcp_implementation_over.Wire.{Segment, ClientAck}
use tcp_implementation_over.Window.{Window, add_segment, fetch_and_remove}
use tcp_implementation_over.Client.{
  Client, Config, write_segment, on_fetched, drain, next_ack, available, send_client_ack_with_loss,
  produce, consume_pass,
}

-- An acknowledgement is marked as the last only once the producer has returned.
abbrev pub Marked : Client → Type 0
Marked c = (a : ClientAck) → Memᴰ a c.acks → a.lastack_sent ≡ 1 → c.lastack ≡ 1

-- What touches neither keeps this.
abbrev Same : Client → Client → Type 0
Same c d = (d.acks ≡ c.acks) × (d.lastack ≡ c.lastack)

fetched-Same :
    (len total : ℕ) (c : Client) (r : Option (Segment × ℕ) × Window Segment)
    (rest : Client → Client)
    → ((d : Client) → Same d (rest d))
    → Same c (on_fetched len total c r rest)
unfolding write_segment
fetched-Same len total c (none, w) rest k = (refl, refl)
fetched-Same len total c (some (s, i), w) rest k =
    k (write_segment len total (record c { window = w }) s)

drain-Same : (len total n : ℕ) (c : Client) → Same c (drain len total n c)
unfolding drain
drain-Same len total zero c = (refl, refl)
drain-Same len total (suc n) c =
    fetched-Same len total c (fetch_and_remove c.window) (λ d. drain len total n d)
      (λ d. drain-Same len total n d)

-- A predicate of both branches holds of the choice.
pub either : {A : Type 0} (P : A → Type 0) (b : Bool) (x y : A) → P x → P y → P (if b then x else y)
either P true x y p q = p
either P false x y p q = q

module _ (env : Config) where
  pub send-lastack :
      (c : Client) (lost : Bool) → (send_client_ack_with_loss env c lost).lastack ≡ c.lastack
  unfolding send_client_ack_with_loss
  send-lastack c true = refl
  send-lastack c false = refl

  new-Marked :
      (c : Client) (a b : ClientAck)
      → b.lastack_sent ≡ (if c.lastack == 1 then 1 else 0)
      → Memᴰ a (b ∷ [])
      → a.lastack_sent ≡ 1
      → c.lastack ≡ 1
  new-Marked c a b sent (Memᴰ.head same) e =
      let here : b.lastack_sent ≡ 1 = sym (ap (λ (x : ClientAck). x.lastack_sent) same) ∙ e in
      ground (arith, here, sent)
  new-Marked c a b sent (Memᴰ.tail i) e = elim i [ ]

  send-Marked :
      (c : Client) (lost : Bool) → Marked c → Marked (send_client_ack_with_loss env c lost)
  unfolding send_client_ack_with_loss
  send-Marked c true m a i e = m a i e
  send-Marked c false m a i e = elim (append_cases c.acks i) [
    | inl old ↦ m a old e
    | inr new ↦ new-Marked c a _ refl new e
  ]

  pub pass-lastack :
      (len total : ℕ) (c : Client) (lost : Bool)
      → (consume_pass env len total c lost).lastack ≡ c.lastack
  unfolding consume_pass
  pass-lastack len total c lost =
      let drained = drain len total (c.window.receiving_window_size + 1) c in
      let same = (drain-Same len total (c.window.receiving_window_size + 1) c).1 in
      let IsSame = λ (d : Client). d.lastack ≡ c.lastack in
      either IsSame
        (leb_ℤ (available env c.window) (pos 0) && leb_ℤ (pos 0) (available env c.window)) _ drained
        (either IsSame (ltb_ℤ (next_ack env drained.window) (pos total)) _ drained
          (send-lastack drained lost ∙ same) same)
        same

  -- The consumer's pass: the producer's flag stays, and its acknowledgement is marked rightly.
  pub pass-Marked :
      (len total : ℕ) (c : Client) (lost : Bool)
      → Marked c
      → Marked (consume_pass env len total c lost)
        × ((consume_pass env len total c lost).lastack ≡ c.lastack)
  unfolding consume_pass
  pass-Marked len total c lost m =
      let drained = drain len total (c.window.receiving_window_size + 1) c in
      let same = drain-Same len total (c.window.receiving_window_size + 1) c in
      let IsKept = λ (d : Client). Marked d × (d.lastack ≡ c.lastack) in
      let h : IsKept drained = ((λ a i e. same.1 ∙ m a (subst (Memᴰ a) same.0 i) e), same.1) in
      let sent : IsKept (send_client_ack_with_loss env drained lost) =
        (send-Marked drained lost h.0, send-lastack drained lost ∙ h.1) in
      either IsKept
        (leb_ℤ (available env c.window) (pos 0) && leb_ℤ (pos 0) (available env c.window)) _ drained
        (either IsKept (ltb_ℤ (next_ack env drained.window) (pos total)) _ drained sent h) h

  -- A datagram: the acknowledgements are marked rightly, and the flag is set only if the producer
  -- returns.
  pub produce-Marked :
      (total : ℕ) (c : Client) (s : Segment) (lost a l : Bool)
      → (c.lastack == 1) ≡ false
      → Marked c
      → let (d, returned) = produce env total c s lost a l in
        Marked d × (d.lastack ≡ 1 → returned ≡ true)
  unfolding produce
  produce-Marked total c s true a l more m = (m, λ e. absurd (ground (arith, e, more)))
  produce-Marked total c s false a l more m =
      let stored : Client = record c { window = add_segment c.window s (to_int s.segment_num) } in
      let acked = send_client_ack_with_loss env stored a in
      let flagged : Client = record acked { lastack = 1 } in
      either (λ (r : Client × Bool). Marked r.0 × (r.0.lastack ≡ 1 → r.1 ≡ true))
        (leb_ℤ (pos total) (next_ack env acked.window)) _ (acked, false)
        (send-Marked flagged l (λ x i e. refl), λ e. refl)
        (
          send-Marked stored a m,
          λ e.
              let early : c.lastack ≡ 1 = sym (send-lastack stored a) ∙ e in
              absurd (ground (arith, early, more)),
        )
