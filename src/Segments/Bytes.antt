-- ===== src/Segments/Bytes.antt =====
-- Which bytes go out under the number of a segment, byte by byte.
use tcp_implementation_over.Common.{
  ℕ, zero, suc, ◌+◌, ◌*◌, ◌%◌, ◌<◌, ◌≡◌, ◌≢◌, refl, ap, ◌∙◌, some, List, [], ◌∷◌, ◌++◌, arith, ◌⊎◌,
  get_elem?, take, drop, length,
}
use tcp_implementation_over.Wire.{Segment, segment_data_size}
use tcp_implementation_over.Segments.{FileSegment, get_segment_count, read_into, send_segment}
use tcp_implementation_over.Segments.Table.{IsTable}
use tcp_implementation_over.Segments.Reassemble.{bytes_of, payload, send_segment-payload}

-- The bytes that go out as the segment `k`, from a buffer that holds `stale` before: the one at `j` is
-- the byte of the file at `k` segments and `j`. But the last segment of a file whose length is a multiple
-- of the segment's carries no byte of the file.
pub record CarriesSegment (file stale : List ℕ) (k : ℕ) (sent : List ℕ) : Type 0 where
  pub bytes :
      (j : ℕ)
      → j < segment_data_size
      → k * segment_data_size + j < length file
      → (k + 1 < get_segment_count (length file)) ⊎ (length file % segment_data_size ≢ 0)
      → get_elem? sent j ≡ get_elem? file (k * segment_data_size + j)
  pub nothing :
      k + 1 ≡ get_segment_count (length file) → length file % segment_data_size ≡ 0 → sent ≡ stale

module _ {A : Type 0} where
  get_elem?-take_append :
      (n j : ℕ) (xs ys : List A)
      → j < n
      → j < length xs
      → get_elem? (take n xs ++ ys) j ≡ get_elem? xs j
  get_elem?-take_append zero j xs ys h low = absurd (omega (arith, h))
  get_elem?-take_append (suc n) j [] ys h low = absurd (omega (arith, low))
  get_elem?-take_append (suc n) zero (x ∷ xs) ys h low = refl
  get_elem?-take_append (suc n) (suc j) (x ∷ xs) ys h low =
      get_elem?-take_append n j xs ys (omega (arith, h)) (omega (arith, low))

  -- A part of a list that stands in front of another one.
  get_elem?-part :
      (o n j i : ℕ) (xs ys : List A)
      → i ≡ o + j
      → j < n
      → i < length xs
      → get_elem? (take n (drop o xs) ++ ys) j ≡ get_elem? xs i
  get_elem?-part zero n j i xs ys e h low =
      get_elem?-take_append n j xs ys h (omega (arith, e, low))
      ∙ ap (get_elem? xs) {x = j} (omega (arith, e))
  get_elem?-part (suc o) n j i [] ys e h low = absurd (omega (arith, low))
  get_elem?-part (suc o) n j zero (x ∷ xs) ys e h low = absurd (omega (arith, e))
  get_elem?-part (suc o) n j (suc i) (x ∷ xs) ys e h low =
      get_elem?-part o n j i xs ys (omega (arith, e)) h (omega (arith, low))

-- A segment with all its bytes, or the shorter last one.
inside_bytes :
    (len k j : ℕ)
    → j < segment_data_size
    → k * segment_data_size + j < len
    → (k + 1 < get_segment_count len) ⊎ (len % segment_data_size ≢ 0)
    → j < bytes_of len k
unfolding get_segment_count
inside_bytes len k j h low part = ground (arith, h, low, part)

no_bytes :
    (len k : ℕ) → k + 1 ≡ get_segment_count len → len % segment_data_size ≡ 0 → bytes_of len k ≡ 0
no_bytes len k last whole = ground (arith, last, whole)

pub payload-CarriesSegment :
    (file stale : List ℕ) (k : ℕ) → CarriesSegment file stale k (payload file stale k)
unfolding read_into
payload-CarriesSegment file stale k = record {
  bytes = λ j h low part.
      get_elem?-part (k * segment_data_size) (bytes_of (length file) k) j
        (k * segment_data_size + j) file _ refl (inside_bytes (length file) k j h low part) low;
  nothing = λ last whole. rw (no_bytes (length file) k last whole) refl;
}

-- Sending a segment of the file, for the first time or again, puts out its number and, byte by byte, what
-- the file holds from that many segments on, but no byte of the file for the last segment of a file whose
-- length is a multiple of the segment's; and the table stays the file's.
pub send_segment-CarriesSegment :
    (file stale : List ℕ) (table : List FileSegment) (k : ℕ)
    → IsTable (length file) table
    → k < get_segment_count (length file)
    → (s : Segment) × (table' : List FileSegment) × (send_segment file stale table k
        ≡ some (s, table'))
      × (s.segment_num ≡ k)
      × CarriesSegment file stale k s.segment_data
      × IsTable (length file) table'
send_segment-CarriesSegment file stale table k t h =
    let (table', e, t') = send_segment-payload file stale table k t h in
    (
      record { segment_num = k; segment_data = payload file stale k },
      table',
      e,
      refl,
      payload-CarriesSegment file stale k,
      t',
    )
