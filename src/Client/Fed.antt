-- ===== src/Client/Fed.antt =====
-- What the client does with the segment that it asks for, or one that it has.
use mathlib.Core.List.{append_assoc, append-nil}
use tcp_implementation_over.Common.{
  ℕ, ◌+◌, ◌^◌, ◌≤◌, ◌<◌, ◌≡◌, refl, sym, ap, subst, ◌∙◌, Bool, true, false, some, List, [], ◌∷◌,
  ◌++◌, arith, ◌==◌, ◌⊎◌, inl, inr, dec_lt, if◌then◌else◌,
}
use tcp_implementation_over.Common.Int.{ℤ, pos, to_int, leb_ℤ}
use tcp_implementation_over.Wire.{Segment, ClientAck}
use tcp_implementation_over.Window.{Window, add_segment, get_next_ack_index}
use tcp_implementation_over.Client.LastAck.{next_ack-some}
use tcp_implementation_over.Client.Asking.{AsksFor, add_segment-AsksFor, plain_ack, sends-plain_ack}
use tcp_implementation_over.Client.{Client, Config, next_ack, send_client_ack_with_loss, produce}

-- What goes out of the last acknowledgement.
abbrev pub last_acks : Window Segment → ℕ → Bool → List ClientAck
last_acks w k true = []
last_acks w k false = plain_ack w k 1 ∷ []

module _ (env : Config) where
  sends-last :
      (lost : Bool) (c : Client) (k : ℕ)
      → ((n : ℕ) → env.htonl n ≡ n)
      → get_next_ack_index c.window ≡ some k
      → c.lastack ≡ 1
      → c.window.current_index + c.window.receiving_window_size < 2 ^ 31
      → send_client_ack_with_loss env c lost
        ≡ record c { acks = c.acks ++ last_acks c.window k lost }
  sends-last true c k same shown last small =
      let nothing : send_client_ack_with_loss env c true ≡ c =
        unfold send_client_ack_with_loss in refl in
      nothing ∙ ap (λ (acks : List ClientAck). record c { acks = acks }) (sym (append-nil c.acks))
  sends-last false c k same shown last small =
      let marked : (c.lastack == 1) ≡ true = ground (arith, last) in
      sends-plain_ack env c k same shown small ∙ rw marked refl

  -- The client behind one more datagram: it asks for more and says so once, or it asks for no more, says
  -- so, and, unless this is lost, says so again for the last time.
  pub record IsFed (total : ℕ) (lost : Bool) (c c' : Client) (j k' : ℕ) : Type 0 where
    pub asks : AsksFor total c'.window k'
    pub up : j < k'
    pub in_file : k' ≤ total
    pub base : c'.window.current_index ≡ c.window.current_index
    pub size : c'.window.receiving_window_size ≡ c.window.receiving_window_size
    pub said :
        ((k' < total)
          × (c'.lastack ≡ c.lastack)
          × (c'.acks ≡ c.acks ++ plain_ack c'.window k' 0 ∷ []))
        ⊎ ((k' ≡ total)
            × (c'.lastack ≡ 1)
            × (c'.acks ≡ c.acks ++ plain_ack c'.window k' 0 ∷ last_acks c'.window k' lost))

  -- The producer behind its acknowledgement.
  abbrev answered : ℕ → Bool → Client → Client × Bool
  answered total lost acked =
      if leb_ℤ (pos total) (next_ack env acked.window)
      then (send_client_ack_with_loss env (record acked { lastack = 1 }) lost, true)
      else (acked, false)

  produce-answered :
      (total : ℕ) (lost : Bool) (c : Client) (s : Segment)
      → produce env total c s false false lost
        ≡ answered total lost (
            send_client_ack_with_loss env
              (record c { window = add_segment c.window s (to_int s.segment_num) })
              false)
  unfolding produce
  produce-answered total lost c s = refl

  pub produce-IsFed :
      (total : ℕ) (lost : Bool) (c : Client) (s : Segment) (j k : ℕ)
      → ((n : ℕ) → env.htonl n ≡ n)
      → AsksFor total c.window k
      → j ≤ k
      → k < total
      → to_int s.segment_num ≡ pos j
      → (c.lastack == 1) ≡ false
      → c.window.current_index + c.window.receiving_window_size < 2 ^ 31
      → (k' : ℕ) × IsFed total lost c (produce env total c s false false lost).0 j k'
  produce-IsFed total lost c s j k same h le low number more small =
      let w = add_segment c.window s (pos j) in
      let (k', asks, later, up, in_file, base, size) =
        add_segment-AsksFor total c.window s j k h (omega (arith, le, low)) (omega (arith, low)) in
      let stored : Client = record c { window = w } in
      let acked : Client = record stored { acks = c.acks ++ plain_ack w k' 0 ∷ [] } in
      let flagged : Client = record acked { lastack = 1 } in
      let last : Client = record flagged { acks = acked.acks ++ last_acks w k' lost } in
      let small' : w.current_index + w.receiving_window_size < 2 ^ 31 =
        omega (arith, base, size, small) in
      let said : send_client_ack_with_loss env stored false ≡ acked =
        sends-plain_ack env stored k' same asks.shown small' ∙ rw more refl in
      let said_last = sends-last lost flagged k' same asks.shown refl small' in
      let went : produce env total c s false false lost ≡ answered total lost acked =
        produce-answered total lost c s
        ∙ ap
            (λ (i : ℤ). answered total lost (
              send_client_ack_with_loss env (record c { window = add_segment c.window s i }) false))
            number
        ∙ ap (answered total lost) said in
      (
        k',
        elim (dec_lt k' total) [
          | yes early ↦
              let test : leb_ℤ (pos total) (next_ack env w) ≡ false =
                ap (leb_ℤ (pos total)) (next_ack-some env w k' asks.shown)
                ∙ ground (arith, early) in
              let here : produce env total c s false false lost ≡ (acked, false) =
                went ∙ rw test refl in
              fed (ap (λ (r : Client × Bool). r.0) here) (record {
                asks = asks;
                up = up le;
                in_file = in_file;
                base = base;
                size = size;
                said = inl (early, refl, refl);
              })
          | no late ↦
              let test : leb_ℤ (pos total) (next_ack env w) ≡ true =
                ap (leb_ℤ (pos total)) (next_ack-some env w k' asks.shown) ∙ ground (arith, late) in
              let here : produce env total c s false false lost ≡ (last, true) =
                went ∙ rw test (ap (λ (d : Client). (d, true)) said_last) in
              fed (ap (λ (r : Client × Bool). r.0) here) (record {
                asks = asks;
                up = up le;
                in_file = in_file;
                base = base;
                size = size;
                said = inr (omega (arith, in_file, late), refl, append_assoc c.acks _ _);
              })
        ],
      )
    where
      fed : {i : ℕ} {d d' : Client} → d' ≡ d → IsFed total lost c d j i → IsFed total lost c d' j i
      fed {i} e x = subst (λ (d : Client). IsFed total lost c d j i) (sym e) x
