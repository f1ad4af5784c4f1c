-- ===== src/Transmit/Genuine.antt =====
-- Every segment that the sender puts out, in a burst, after a timeout, as a fast retransmit or as a
-- probe, is a segment of the file under its own number.
use tcp_implementation_over.Common.{
  ℕ, ◌<◌, ◌≡◌, refl, sym, subst, List, [], ◌∷◌, ◌++◌, arith, length, dec_lt,
}
use tcp_implementation_over.Wire.{Segment, ClientAck}
use tcp_implementation_over.Segments.{get_segment_count}
use tcp_implementation_over.Segments.Table.{IsTable}
use tcp_implementation_over.Segments.Reassemble.{payload}
use tcp_implementation_over.Transmit.{Sender, send}
use tcp_implementation_over.Transmit.Invariant.{Maybe, IsInvariant}
use tcp_implementation_over.Transmit.Bursts.{send_lem, send-past}

abbrev pub All : (Segment → Type 0) → List Segment → Type 0
All P [] = Unit
All P (x ∷ xs) = P x × All P xs

All-snoc :
    (P : Segment → Type 0) (xs : List Segment) (x : Segment) → All P xs → P x → All P (xs ++ x ∷ [])
All-snoc P [] x h p = (p, tt)
All-snoc P (y ∷ ys) x h p = (h.0, All-snoc P ys x h.1 p)

-- Whatever the client acknowledges.
abbrev pub AnyAck : ClientAck → Type 0
AnyAck a = Unit

module _ (file stale : List ℕ) where
  abbrev total : ℕ
  total = get_segment_count (length file)

  abbrev pub IsOfFile : Segment → Type 0
  IsOfFile s = (s.segment_num < total) × (s.segment_data ≡ payload file stale s.segment_num)

  pub record IsGenuine (s : Sender) : Type 0 where
    pub table : IsTable (length file) s.table
    pub sent : All IsOfFile s.sent

  pub send-IsGenuine : (s : Sender) (k : ℕ) → IsGenuine s → Maybe IsGenuine (send file stale s k)
  send-IsGenuine s k g = elim (dec_lt k total) [
    | yes inside ↦
        let (table, e, t) = send_lem file stale s k g.table inside in
        subst (Maybe IsGenuine) (sym e)
          (record { table = t; sent = All-snoc IsOfFile s.sent _ g.sent (inside, refl) })
    | no outside ↦ subst (Maybe IsGenuine) (sym (send-past file stale s k g.table (omega arith))) tt
  ]

  pub IsGenuine-IsInvariant : IsInvariant file stale IsGenuine AnyAck
  IsGenuine-IsInvariant = record {
    sends = send-IsGenuine;
    keep = λ s t p q r g. moved s t p q g;
    hear = λ s t p q a g. moved s t p q g;
    heard = λ s g. tt;
  }
    where
      moved : (s t : Sender) → t.table ≡ s.table → t.sent ≡ s.sent → IsGenuine s → IsGenuine t
      moved s t p q g = record {
        table = subst (IsTable (length file)) (sym p) g.table;
        sent = subst (All IsOfFile) (sym q) g.sent;
      }
