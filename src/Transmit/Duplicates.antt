-- ===== src/Transmit/Duplicates.antt =====
-- The duplicate acknowledgements of `HandleFileTransmission`, and its fast retransmit.
use tcp_implementation_over.Common.{
  ℕ, zero, suc, ◌+◌, ◌/◌, ◌≤◌, ◌<◌, ◌≡◌, refl, ap, ◌∙◌, Bool, true, false, Option, none, some, List,
  [], ◌∷◌, ◌++◌, arith, length, ◌==◌, if◌then◌else◌,
}
use tcp_implementation_over.Wire.{Segment, ClientAck}
use tcp_implementation_over.Segments.{get_segment_count}
use tcp_implementation_over.Segments.Table.{IsTable}
use tcp_implementation_over.Segments.Reassemble.{payload}
use tcp_implementation_over.Transmit.{
  Sender, Control, again, round_over, probe_window, take_sample, receive, halve, inflate, send,
  fast_retransmit, after_ack, on_read, ◌>>=◌,
}
use tcp_implementation_over.Transmit.Bursts.{bind-some, send_lem}

-- The acknowledgement asks for the segment that the last one asked for, and neither closes the
-- transmission nor the window.
pub record IsRepeat (a : ClientAck) (s : Sender) : Type 0 where
  pub same : s.last_ack_received ≡ a.current_request
  pub is_open : (a.advt_window == 0) ≡ false
  pub more : (a.lastack_sent == 1) ≡ false

abbrev carry : (Sender → Option Sender) → Sender × Control → Option Sender
carry rest (s, again) = rest s
carry rest (s, round_over) = none
carry rest (s, probe_window) = none

abbrev noted : ClientAck → Sender → Sender
noted a s = record s {
  ack = a;
  current_window = a.advt_window;
  duplicate_ack = s.duplicate_ack + 1;
}

module _ (file stale : List ℕ) where
  abbrev pub total : ℕ
  total = get_segment_count (length file)

  abbrev pub segment : ℕ → Segment
  segment k = record { segment_num = k; segment_data = payload file stale k }

  -- The inner loop on `n` copies of one acknowledgement; `none` when it ends or is undefined.
  pub repeats : ClientAck → ℕ → Sender → Option Sender
  repeats a zero s = some s
  repeats a (suc n) s = on_read file stale (some a) s >>= carry (repeats a n)

  on_read-repeat :
      (a : ClientAck) (s : Sender)
      → IsRepeat a s
      → on_read file stale (some a) s ≡ after_ack file stale (noted a s)
  unfolding on_read receive
  on_read-repeat a s r =
      let e : (s.last_ack_received == a.current_request) ≡ true = ground (arith, r.same) in
      simp (r.more, r.is_open, e)

  pub after_ack-silent :
      (s : Sender) → (s.duplicate_ack == 2) ≡ false → after_ack file stale s ≡ some (s, again)
  unfolding after_ack
  after_ack-silent s e = simp e

  quiet :
      (a : ClientAck) (n : ℕ) (s : Sender)
      → IsRepeat a s
      → 2 ≤ s.duplicate_ack
      → (t : Sender) × (repeats a n s ≡ some t)
        × (t.sent ≡ s.sent)
        × (t.cwindow ≡ s.cwindow)
        × (t.index ≡ s.index)
  unfolding repeats
  quiet a zero s r two = (s, refl, refl, refl, refl)
  quiet a (suc n) s r two =
      let s' = noted a s in
      let e : (s'.duplicate_ack == 2) ≡ false = ground arith in
      let r' : IsRepeat a s' = record { same = r.same; is_open = r.is_open; more = r.more } in
      let (t, go, out, window, i) = quiet a n s' r' (omega arith) in
      (
        t,
        bind-some (on_read file stale (some a) s) (carry (repeats a n))
              (on_read-repeat a s r ∙ after_ack-silent s' e)
            ∙ go,
        out,
        window,
        i,
      )

  fast_retransmit_lem :
      (s : Sender)
      → IsTable (length file) s.table
      → s.last_ack_received < total
      → s.duplicate_ack ≡ 2
      → (t : Sender) × (after_ack file stale s ≡ some (t, again))
        × (t.sent ≡ s.sent ++ segment s.last_ack_received ∷ [])
        × (t.cwindow ≡ s.cwindow / 2 + 3)
        × (t.index ≡ s.index)
        × (t.duplicate_ack ≡ 2)
        × (t.last_ack_received ≡ s.last_ack_received)
  unfolding after_ack fast_retransmit halve inflate take_sample
  fast_retransmit_lem s t inside two =
      let k = s.last_ack_received in
      let (table, e, t') = send_lem file stale (halve s) k t inside in
      let u : Sender = record (halve s) { table = table; sent = s.sent ++ segment k ∷ [] } in
      let hit : (s.duplicate_ack == 2) ≡ true = ground (arith, two) in
      let sent_again =
        bind-some (fast_retransmit file stale s) (λ v. some (v, again))
          (bind-some (send file stale (halve s) k) (λ v. some (inflate v)) e) in
      (
        inflate u,
        ap
              (λ (b : Bool).
                if b
                then (fast_retransmit file stale s >>= λ v. some (v, again))
                else some (s, again))
              hit
            ∙ sent_again,
        refl,
        refl,
        refl,
        two,
        refl,
      )

  -- Let an acknowledgement that asks for a segment of the file, leaves the window open and is not marked as
  -- the last be the one remembered, with no repetition counted. However often the client repeats it, twice
  -- or more: the segment goes out once more, exactly once, nothing else goes out, and the congestion window
  -- becomes half of what it was and three segments more.
  pub retransmitted_once :
      (a : ClientAck) (s : Sender) (n : ℕ)
      → IsRepeat a s
      → IsTable (length file) s.table
      → s.last_ack_received < total
      → s.duplicate_ack ≡ 0
      → (t : Sender) × (repeats a (suc (suc n)) s ≡ some t)
        × (t.sent ≡ s.sent ++ segment s.last_ack_received ∷ [])
        × (t.cwindow ≡ s.cwindow / 2 + 3)
        × (t.index ≡ s.index)
  unfolding repeats
  retransmitted_once a s n r table inside none_yet =
      let s1 = noted a s in
      let s2 = noted a s1 in
      let r1 : IsRepeat a s1 = record { same = r.same; is_open = r.is_open; more = r.more } in
      let e1 : (s1.duplicate_ack == 2) ≡ false = ground (arith, none_yet) in
      let (u, e2, sent, window, index, two, last) =
        fast_retransmit_lem s2 table inside (omega (arith, none_yet)) in
      let r2 : IsRepeat a u = record { same = last ∙ r.same; is_open = r.is_open; more = r.more } in
      let (t, e3, sent', window', index') = quiet a n u r2 (omega (arith, two)) in
      (
        t,
        bind-some (on_read file stale (some a) s) (carry (repeats a (suc n)))
              (on_read-repeat a s r ∙ after_ack-silent s1 e1)
            ∙ bind-some (on_read file stale (some a) s1) (carry (repeats a n))
                (on_read-repeat a s1 r1 ∙ e2)
            ∙ e3,
        sent' ∙ sent,
        window' ∙ window,
        index' ∙ index,
      )
