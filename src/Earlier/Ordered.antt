-- ===== src/Earlier/Ordered.antt =====
-- What the earlier server has sent, whatever comes back.
use tcp_implementation_over.Common.{
  ℕ, ◌+◌, ◌≤◌, ◌<◌, ◌≡◌, Option, none, some, List, [], ◌∷◌, ◌++◌, length,
}
use tcp_implementation_over.Segments.{FileSegment, get_segment_count}
use tcp_implementation_over.Segments.Table.{IsTable}
use tcp_implementation_over.Transmit.Bursts.{segments_from}
use tcp_implementation_over.Transmit.Congestion.{segment}
use tcp_implementation_over.Earlier.{Transmission, Stage, reading, sent_all, spinning, undefined}

module _ (file stale : List ℕ) where
  abbrev total : ℕ
  total = get_segment_count (length file)

  -- The segments below `index` have been sent in order and once each, and no others.
  pub record IsInOrder (t : Transmission) : Type 0 where
    pub entries : IsTable (length file) t.table
    pub inside : t.index ≤ total
    pub order : t.sent ≡ segments_from file stale 0 t.index

  abbrev OrUndefined : Option Transmission → Type 0
  OrUndefined none = Unit
  OrUndefined (some t) = IsInOrder t

  -- The transmission behind one more segment.
  abbrev sent_next : Transmission → List FileSegment → Transmission
  sent_next t table = record t {
    index = t.index + 1;
    table = table;
    sent = t.sent ++ segment file stale t.index ∷ [];
  }

  -- What has been sent: the segments in order and once each; at the end of the loops all of them. In an
  -- endless loop some are missing.
  abbrev pub HasSentInOrder : Stage → Type 0
  HasSentInOrder (reading t n) = t.sent ≡ segments_from file stale 0 t.index
  HasSentInOrder (sent_all t) = t.sent ≡ segments_from file stale 0 total
  HasSentInOrder (spinning t) = (t.sent ≡ segments_from file stale 0 t.index) × (t.index < total)
  HasSentInOrder undefined = Unit

  abbrev Holds : Stage → Type 0
  Holds (reading t n) = IsInOrder t
  Holds (sent_all t) = IsInOrder t × (t.index ≡ total)
  Holds (spinning t) = IsInOrder t × (t.index < total)
  Holds undefined = Unit
