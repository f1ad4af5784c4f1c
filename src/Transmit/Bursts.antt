-- ===== src/Transmit/Bursts.antt =====
-- What a round of the sender puts out, and when it runs past the file.
use tcp_implementation_over.Common.{
  ◌⊎◌, ℕ, zero, suc, ◌+◌, ◌^◌, ◌≤◌, ◌<◌, ◌≡◌, refl, sym, ap, ap₂, dec_lt, ◌∙◌, Option, none, some,
  List, [], ◌∷◌, ◌++◌, arith, length, ltb, if◌then◌else◌,
}
use mathlib.Core.List.{append-nil, append_assoc}
use tcp_implementation_over.Wire.{Segment}
use tcp_implementation_over.Segments.{FileSegment, get_segment_count}
use tcp_implementation_over.Segments.Table.{IsTable}
use tcp_implementation_over.Segments.Reassemble.{payload, send_segment-payload, send_segment-past}
use tcp_implementation_over.Transmit.{
  Sender, quota, allotted, stamp, send, burst, begin_round, ◌>>=◌,
}

as_int : (n : ℕ) → n < 2 ^ 31 → (if ltb n (2 ^ 31) then n else 0) ≡ n
as_int n h = ground arith

pub bind-some :
    {A B : Type 0} (m : Option A) (f : A → Option B) {a : A} → m ≡ some a → (m >>= f) ≡ f a
bind-some m f e = ap (λ (o : Option _). o >>= f) e

pub bind-none : {A B : Type 0} (m : Option A) (f : A → Option B) → m ≡ none → (m >>= f) ≡ none
bind-none m f e = ap (λ (o : Option _). o >>= f) e

module _ (file stale : List ℕ) where
  abbrev pub total : ℕ
  total = get_segment_count (length file)

  -- The segments `k, k + 1, …` of the file as they go out, `n` of them.
  abbrev pub segments_from : ℕ → ℕ → List Segment
  segments_from k zero = []
  segments_from k (suc n) =
      record { segment_num = k; segment_data = payload file stale k } ∷ segments_from (k + 1) n

  pub send_lem :
      (s : Sender) (k : ℕ)
      → IsTable (length file) s.table
      → k < total
      → (table : List FileSegment) × (send file stale s k
          ≡ some (record s {
            table = table;
            sent = s.sent ++ record { segment_num = k; segment_data = payload file stale k } ∷ [];
          }))
        × IsTable (length file) table
  unfolding send
  send_lem s k t h =
      let (table, e, t') = send_segment-payload file stale s.table k t h in
      (table, bind-some _ _ e, t')

  pub send-past :
      (s : Sender) (k : ℕ) → IsTable (length file) s.table → total ≤ k → send file stale s k ≡ none
  unfolding send
  send-past s k t h = bind-none _ _ (send_segment-past file stale s.table k t h)

  -- The sender after `n` more segments.
  abbrev pub advanced : Sender → ℕ → List FileSegment → Sender
  advanced s n table = record s {
    index = s.index + n;
    table = table;
    sent = s.sent ++ segments_from s.index n;
  }

  pub burst_lem :
      (n : ℕ) (s : Sender)
      → IsTable (length file) s.table
      → s.index + n ≤ total
      → (table : List FileSegment) × (burst file stale n s ≡ some (advanced s n table))
        × IsTable (length file) table
  unfolding burst
  burst_lem zero s t h = (
    s.table,
    ap₂ (λ (i : ℕ) (l : List Segment). some (record s { index = i; sent = l })) (omega arith)
        (sym (append-nil s.sent)),
    t,
  )
  burst_lem (suc n) s t h =
      let (table, e, t') = send_lem s s.index t (omega arith) in
      let s' : Sender = record s {
        index = s.index + 1;
        table = table;
        sent =
            s.sent
            ++ record { segment_num = s.index; segment_data = payload file stale s.index } ∷ [];
      } in
      let (table', e', t'') = burst_lem n s' t' (omega arith) in
      (
        table',
        bind-some _ _ e
            ∙ e'
            ∙ ap₂
                (λ (i : ℕ) (l : List Segment).
                  some (record s { index = i; table = table'; sent = l }))
                (omega arith) (append_assoc s.sent _ _),
        t'',
      )

  -- A burst that is longer than what is left of the file leaves the table.
  pub burst-past :
      (n : ℕ) (s : Sender)
      → IsTable (length file) s.table
      → s.index ≤ total
      → total < s.index + n
      → burst file stale n s ≡ none
  unfolding burst
  burst-past zero s t low h = absurd (omega arith)
  burst-past (suc n) s t low h = elim (dec_lt s.index total) [
    | yes inside ↦
        let (table, e, t') = send_lem s s.index t inside in
        let s' : Sender = record s {
          index = s.index + 1;
          table = table;
          sent =
              s.sent
              ++ record { segment_num = s.index; segment_data = payload file stale s.index } ∷ [];
        } in
        bind-some _ _ e ∙ burst-past n s' t' (omega arith) (omega arith)
    | no outside ↦ bind-none _ _ (send-past s s.index t (omega arith))
  ]

  -- A round that fits into the file.
  pub begin_round-sent :
      (s : Sender)
      → IsTable (length file) s.table
      → quota s < 2 ^ 31
      → s.index + quota s ≤ total
      → (table : List FileSegment) × (begin_round file stale s
          ≡ some (stamp (advanced (allotted s) (quota s) table)))
        × IsTable (length file) table
  unfolding begin_round
  begin_round-sent s t small h =
      let n = quota s in
      let s' = allotted s in
      let (table, e, t') = burst_lem n s' t h in
      (table, bind-some _ _ (ap (λ (m : ℕ). burst file stale m s') (as_int n small) ∙ e), t')

  -- The smaller of the client's last advertised window and the congestion window.
  abbrev pub IsSmaller : ℕ → Sender → Type 0
  IsSmaller n s =
      (n ≤ s.last_advt_window) × (n ≤ s.cwindow) × ((n ≡ s.last_advt_window) ⊎ (n ≡ s.cwindow))

  quota-IsSmaller : (n : ℕ) (s : Sender) → IsSmaller n s → quota s ≡ n
  quota-IsSmaller n s (below, below', h) = ground (arith, below, below', h)

  -- A round that fits into the file sends exactly as many segments as the smaller of the client's last
  -- advertised window and the congestion window says, if this is below 2 ^ 31: the next ones in order; and
  -- it counts them.
  pub begin_round_lem :
      (n : ℕ) (s : Sender)
      → IsSmaller n s
      → IsTable (length file) s.table
      → n < 2 ^ 31
      → s.index + n ≤ total
      → (t : Sender) × (begin_round file stale s ≡ some t)
        × (t.sent ≡ s.sent ++ segments_from s.index n)
        × (t.index ≡ s.index + n)
        × (t.total_to_send ≡ n)
        × (t.total_to_recv ≡ 0)
        × IsTable (length file) t.table
  begin_round_lem n s smaller t small h =
      let same = quota-IsSmaller n s smaller in
      let (table, e, t') =
        begin_round-sent s t (omega (arith, same, small)) (omega (arith, same, h)) in
      (
        stamp (advanced (allotted s) (quota s) table),
        e,
        ap (λ (m : ℕ). s.sent ++ segments_from s.index m) same,
        omega (arith, same),
        same,
        refl,
        t',
      )

  -- A round whose windows both allow more than is left of the file, the smaller one less than 2 ^ 31, reads
  -- outside the table.
  pub begin_round-past :
      (s : Sender)
      → IsTable (length file) s.table
      → s.index ≤ total
      → quota s < 2 ^ 31
      → total < s.index + quota s
      → begin_round file stale s ≡ none
  unfolding begin_round
  begin_round-past s t low small h =
      let n = quota s in
      let s' = allotted s in
      bind-none _ _
        (ap (λ (m : ℕ). burst file stale m s') (as_int n small) ∙ burst-past n s' t low h)
