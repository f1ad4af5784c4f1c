-- ===== src/Segments/Reassemble.antt =====
-- What the consumer writes of the segments that the server sends is the file.
use tcp_implementation_over.Common.{
  ℕ, zero, suc, ◌+◌, ◌-◌, ◌*◌, ◌%◌, ◌≤◌, ◌<◌, ◌≡◌, refl, sym, ap, ap₂, ◌∙◌, none, some, List, [],
  ◌∷◌, ◌++◌, arith, get_elem?, set, take, drop, length, if◌then◌else◌, ◌==◌, length-set,
  get_elem?-set_self, get_elem?-set_ne, take-append_length, length-take-drop, take-append-drop,
  ℕ_discrete,
}
use mathlib.Core.List.{append-nil, append_assoc, append_cancel_right}
use tcp_implementation_over.Wire.{segment_data_size}
use tcp_implementation_over.Segments.{
  FileSegment, get_segment_count, segment_info, read_into, send_segment, write_segments,
}
use tcp_implementation_over.Segments.Table.{IsTable}

-- How many bytes of the segment `k` of a file belong to the file.
abbrev pub bytes_of : ℕ → ℕ → ℕ
bytes_of len k =
    if k == get_segment_count len - 1 then len % segment_data_size else segment_data_size

-- The data that goes out as the segment `k`, behind which `stale` bytes may stand.
abbrev pub payload : List ℕ → List ℕ → ℕ → List ℕ
payload file stale k = read_into file stale (k * segment_data_size) (bytes_of (length file) k)

get_elem?-of_ge {ℓ} : {A : Type ℓ} (xs : List A) (k : ℕ) → length xs ≤ k → get_elem? xs k ≡ none
get_elem?-of_ge [] k h = refl
get_elem?-of_ge (x ∷ xs) zero h = absurd (omega arith)
get_elem?-of_ge (x ∷ xs) (suc k) h = get_elem?-of_ge xs k (omega arith)

-- The table with one more transmission counted for the segment `k`.
abbrev counted : List FileSegment → ℕ → ℕ → ℕ → List FileSegment
counted table len k sent =
    set table k
      (record (segment_info len (get_segment_count len) k) { total_transmission_count = sent })

counted-IsTable :
    (len k sent : ℕ) (table : List FileSegment)
    → k < get_segment_count len
    → IsTable len table
    → IsTable len (counted table len k sent)
counted-IsTable len k sent table h t = record {
  size = length-set table k _ ∙ t.size;
  entry = λ j hj. elim (ℕ_discrete k j) [
    | yes same ↦ (
      sent,
      ap (get_elem? (counted table len k sent)) (sym same)
          ∙ get_elem?-set_self table k _ (omega (arith, t.size))
          ∙ ap
              (λ (i : ℕ). some (record (segment_info len (get_segment_count len) i) {
                total_transmission_count = sent;
              }))
              same,
    )
    | no other ↦ ((t.entry j hj).0, get_elem?-set_ne table k j _ other ∙ (t.entry j hj).1)
  ];
}

-- Sending a segment of the file, for the first time or again, puts out its number and its bytes,
-- and the table stays the file's.
pub send_segment-payload :
    (file stale : List ℕ) (table : List FileSegment) (k : ℕ)
    → IsTable (length file) table
    → k < get_segment_count (length file)
    → (table' : List FileSegment) × (send_segment file stale table k
        ≡ some (record { segment_num = k; segment_data = payload file stale k }, table'))
      × IsTable (length file) table'
unfolding send_segment segment_info
send_segment-payload file stale table k t h =
    let (sent, here) = t.entry k h in
    (
      counted table (length file) k (sent + 1),
      ground (arith, here),
      counted-IsTable (length file) k (sent + 1) table h t,
    )

-- A number past the last segment is outside the table.
pub send_segment-past :
    (file stale : List ℕ) (table : List FileSegment) (k : ℕ)
    → IsTable (length file) table
    → get_segment_count (length file) ≤ k
    → send_segment file stale table k ≡ none
unfolding send_segment
send_segment-past file stale table k t h =
    rw (get_elem?-of_ge table k (omega (arith, t.size)), send_segment)

-- `s` starts with the bytes of the segment `k`.
abbrev pub IsCopy : List ℕ → ℕ → List ℕ → Type 0
IsCopy file k s =
    take (bytes_of (length file) k) s
    ≡ take (bytes_of (length file) k) (drop (k * segment_data_size) file)

bytes_in_file :
    (len k : ℕ) → k < get_segment_count len → k * segment_data_size + bytes_of len k ≤ len
unfolding get_segment_count
bytes_in_file len k h = ground arith

-- What is sent as the segment `k` is a copy of it, whatever the buffer held before.
pub payload-IsCopy :
    (file stale : List ℕ) (k : ℕ)
    → k < get_segment_count (length file)
    → IsCopy file k (payload file stale k)
unfolding read_into
payload-IsCopy file stale k h =
    let o = k * segment_data_size in
    let n = bytes_of (length file) k in
    take-append_length (take n (drop o file)) _ n
      (length-take-drop file o n (bytes_in_file (length file) k h))

-- Copies of the segments `i, i + 1, …` of the file.
abbrev pub Copies : List ℕ → ℕ → List (List ℕ) → Type 0
Copies file i [] = Unit
Copies file i (s ∷ segs) = IsCopy file i s × Copies file (i + 1) segs

-- Where the bytes of the segments before `i + n` end, if `n` is at least 1.
abbrev end_of : ℕ → ℕ → List (List ℕ) → ℕ
end_of len i [] = i * segment_data_size
end_of len i (s ∷ []) = i * segment_data_size + bytes_of len i
end_of len i (s ∷ t ∷ segs) = end_of len (i + 1) (t ∷ segs)

write_segments-rest :
    (file : List ℕ) (i : ℕ) (segs : List (List ℕ))
    → i + length segs ≤ get_segment_count (length file)
    → Copies file i segs
    → write_segments (length file) (get_segment_count (length file)) i segs
        ++ drop (end_of (length file) i segs) file
      ≡ drop (i * segment_data_size) file
unfolding write_segments
write_segments-rest file i [] h c = refl
write_segments-rest file i (s ∷ []) h c =
    let o = i * segment_data_size in
    let n = bytes_of (length file) i in
    rw (append-nil (take n s), c.0) (take-append-drop file o n (o + n) refl)
write_segments-rest file i (s ∷ t ∷ segs) h c =
    let o = i * segment_data_size in
    let n = bytes_of (length file) i in
    let rest = write_segments-rest file (i + 1) (t ∷ segs) (omega arith) c.1 in
    append_assoc (take n s) _ _
    ∙ ap₂ ◌++◌ c.0 rest
    ∙ take-append-drop file o n ((i + 1) * segment_data_size) (ground arith)

-- The end of the last segment's bytes.
end_of-last :
    (len i : ℕ) (s : List ℕ) (segs : List (List ℕ))
    → i + length (s ∷ segs) ≡ get_segment_count len
    → end_of len i (s ∷ segs)
      ≡ (if len % segment_data_size == 0 then len - segment_data_size else len)
end_of-last len i s [] h = unfold get_segment_count in ground (arith, h)
end_of-last len i s (t ∷ segs) h = end_of-last len (i + 1) t segs (omega arith)

-- Copies of all segments of a file, written in order, are the file; of a file whose length is a
-- multiple of the segment's, the last full segment is missing.
pub write_segments-eq-take :
    (file : List ℕ) (segs : List (List ℕ))
    → length segs ≡ get_segment_count (length file)
    → Copies file 0 segs
    → let len = length file in
      write_segments len (get_segment_count len) 0 segs
      ≡ take (if len % segment_data_size == 0 then len - segment_data_size else len) file
unfolding get_segment_count write_segments
write_segments-eq-take [] [] h c = refl
write_segments-eq-take (x ∷ file) [] h c = absurd (ground arith)
write_segments-eq-take file (s ∷ segs) h c =
    let whole = write_segments-rest file 0 (s ∷ segs) (omega (arith, h)) c in
    let e = end_of (length file) 0 (s ∷ segs) in
    append_cancel_right _ _ (drop e file) (whole ∙ sym (take-append-drop file 0 e e (omega arith)))
    ∙ ap (λ (n : ℕ). take n file) (end_of-last (length file) 0 s segs (omega (arith, h)))
