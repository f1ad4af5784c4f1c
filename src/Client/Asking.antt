-- ===== src/Client/Asking.antt =====
-- The client whose window reaches past the end of the file, and the segment that it asks for.
use tcp_implementation_over.Common.{
  ap, Bool-cases, dec_lt, refl, ℕ, ◌+◌, ◌-◌, ◌%◌, ◌^◌, ◌≤◌, ◌<◌, ◌≡◌, sym, ap₂, ◌∙◌, true, false,
  some, [], ◌∷◌, ◌++◌, arith, ◌==◌, inl, inr, Option-cases, dec_le, mod-ne, get_elem?-set_ne,
  if◌then◌else◌,
}
use tcp_implementation_over.Common.Int.{pos, to_unsigned, ◌-ℤ◌}
use tcp_implementation_over.Wire.{Segment, ClientAck}
use tcp_implementation_over.Window.{Window, Slot, add_segment, fill, get_next_ack_index}
use tcp_implementation_over.Window.Spec.{in_window}
use tcp_implementation_over.Window.Bounds.{
  IsValid, in_use_at, add_segment-IsValid, add_segment-inside, add_segment-outside,
  next_ack-IsFirstVacant, next_ack-none_iff_full,
}
use tcp_implementation_over.Window.Progress.{step, next_ack_monotone, next_ack_advances}
use tcp_implementation_over.Window.Ops.{arrive}
use tcp_implementation_over.Client.LastAck.{next_ack-some}
use tcp_implementation_over.Client.{Client, Config, next_ack, available, send_client_ack_with_loss}

module _ {A : Type 0} where
  -- The index `k` is the first vacant one, and the one behind the file is vacant and in the window.
  pub record AsksFor (total : ℕ) (w : Window A) (k : ℕ) : Type 0 where
    pub valid : IsValid w
    pub shown : get_next_ack_index w ≡ some k
    pub past : total < w.current_index + w.receiving_window_size
    pub vacant : in_use_at w total ≡ false

  vacant-fill :
      (w : Window A) (x : A) (k j : ℕ)
      → w.current_index ≤ k
      → k < j
      → j < w.current_index + w.receiving_window_size
      → in_use_at (fill w x (k % w.receiving_window_size)) j ≡ in_use_at w j
  unfolding fill
  vacant-fill w x k j lo up hi =
      let n = w.receiving_window_size in
      let s : Slot A = record { in_use = true; segment_data = x } in
      ground (arith, get_elem?-set_ne w.slots (k % n) (j % n) s, mod-ne k j n up (omega arith))

  fill-same :
      (w : Window A) (x : A) (i : ℕ)
      → ((fill w x i).current_index ≡ w.current_index)
        × ((fill w x i).receiving_window_size ≡ w.receiving_window_size)
  unfolding fill
  fill-same w x i = (ground arith, ground arith)

  -- The index asked for does not lie behind the end of the file.
  pub AsksFor-le :
      (total : ℕ) (w : Window A) (k : ℕ) → AsksFor total w k → w.current_index ≤ total → k ≤ total
  AsksFor-le total w k h lo = elim (dec_le k total) [
    | yes le ↦ le
    | no gt ↦
        absurd
          (cc (sym h.vacant ∙ (next_ack-IsFirstVacant w k h.shown).3 total lo (omega (arith, gt))))
  ]

  -- A window in which the index behind the file is vacant asks for some index.
  pub some_asked :
      (total : ℕ) (w : Window A)
      → IsValid w
      → w.current_index ≤ total
      → total < w.current_index + w.receiving_window_size
      → in_use_at w total ≡ false
      → (k : ℕ) × AsksFor total w k × (k ≤ total)
  some_asked total w valid lo past vacant = elim (Option-cases (get_next_ack_index w)) [
    | inl full ↦ absurd (cc (sym vacant ∙ (next_ack-none_iff_full w).0 full total lo past))
    | inr (k, shown) ↦
        let h : AsksFor total w k = record {
          valid = valid;
          shown = shown;
          past = past;
          vacant = vacant;
        } in
        (k, h, AsksFor-le total w k h lo)
  ]

  -- A segment of the file leaves the place behind the file as it is.
  add_segment-vacant :
      (total : ℕ) (w : Window A) (x : A) (j : ℕ)
      → j < total
      → total < w.current_index + w.receiving_window_size
      → let w' = add_segment w x (pos j) in
        (in_use_at w' total ≡ in_use_at w total)
        × (w'.current_index ≡ w.current_index)
        × (w'.receiving_window_size ≡ w.receiving_window_size)
  add_segment-vacant total w x j low past =
      elim (Bool-cases (in_window w.receiving_window_size w.current_index j)) [
        | inr outside ↦ rw (add_segment-outside w x j outside) (refl, refl, refl)
        | inl inside ↦
            let same = fill-same w x (j % w.receiving_window_size) in
            rw (add_segment-inside w x j inside)
              (vacant-fill w x j total (ground (arith, inside)) low past, same.0, same.1)
      ]

  -- When a segment of the file comes, the window asks for the same or a later one, at most for the one
  -- behind the file; and for a later one than this, if it was at most the one asked for.
  pub add_segment-AsksFor :
      (total : ℕ) (w : Window A) (x : A) (j k : ℕ)
      → AsksFor total w k
      → j < total
      → k ≤ total
      → let w' = add_segment w x (pos j) in
        (k' : ℕ) × AsksFor total w' k'
        × (k ≤ k')
        × (j ≤ k → j < k')
        × (k' ≤ total)
        × (w'.current_index ≡ w.current_index)
        × (w'.receiving_window_size ≡ w.receiving_window_size)
  add_segment-AsksFor total w x j k h low le =
      let w' = add_segment w x (pos j) in
      let first = next_ack-IsFirstVacant w k h.shown in
      let (free, base, size) = add_segment-vacant total w x j low h.past in
      let (k', h', le') =
        some_asked total w' (add_segment-IsValid w x (pos j) h.valid)
          (omega (arith, first.0, le, base)) (omega (arith, h.past, base, size))
          (free ∙ h.vacant) in
      let up : k ≤ k' =
        next_ack_monotone w (arrive x (pos j)) k k' h.valid h.shown (unfold step in h'.shown) in
      (
        k',
        h',
        up,
        λ below. elim (dec_lt j k) [
          | yes known ↦ omega (arith, known, up)
          | no here ↦
              let same : k ≡ j = omega (arith, below, here) in
              next_ack_advances w x j k' h.valid (h.shown ∙ ap some same) h'.shown
        ],
        le',
        base,
        size,
      )

-- What the client says of its window when it asks for `k`.
abbrev pub plain_ack : Window Segment → ℕ → ℕ → ClientAck
plain_ack w k last = record {
  current_request = k;
  advt_window = w.receiving_window_size + w.current_index - k;
  lastack_sent = last;
}

module _ (env : Config) where
  available-pos :
      (w : Window Segment) (k : ℕ)
      → get_next_ack_index w ≡ some k
      → available env w ≡ pos (w.receiving_window_size + w.current_index - k)
  unfolding available ◌-ℤ◌
  available-pos w k shown =
      let first = next_ack-IsFirstVacant w k shown in
      rw (next_ack-some env w k shown) (ground (arith, first.1))

  pub sends-plain_ack :
      (c : Client) (k : ℕ)
      → ((n : ℕ) → env.htonl n ≡ n)
      → get_next_ack_index c.window ≡ some k
      → c.window.current_index + c.window.receiving_window_size < 2 ^ 31
      → send_client_ack_with_loss env c false
        ≡ record c { acks = c.acks ++ plain_ack c.window k (if c.lastack == 1 then 1 else 0) ∷ [] }
  unfolding send_client_ack_with_loss to_unsigned
  sends-plain_ack c k same shown small =
      let w = c.window in
      let first = next_ack-IsFirstVacant w k shown in
      let asked : env.htonl (to_unsigned (next_ack env w)) ≡ k =
        same _ ∙ rw (next_ack-some env w k shown) (omega (arith, first.1, small)) in
      let room : env.htonl (to_unsigned (available env w))
          ≡ w.receiving_window_size + w.current_index - k =
        same _ ∙ rw (available-pos w k shown) (omega (arith, small)) in
      ap₂
        (λ (m n : ℕ). record c {
          acks =
              c.acks
              ++ record {
                current_request = m;
                advt_window = n;
                lastack_sent = if c.lastack == 1 then 1 else 0;
              }
                ∷ [];
        })
        asked room
