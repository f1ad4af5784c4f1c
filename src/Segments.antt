-- ===== src/Segments.antt =====
-- How server.c cuts a file into segments, and what client.c writes of each.
-- An `int` length is held as its 32-bit pattern: `SEGMENTDATASIZE` is unsigned, so the C arithmetic
-- on it is unsigned too.
pub mod Table
pub mod Reassemble
pub mod Bytes
mod Tests
use tcp_implementation_over.Common.{
  ℕ, zero, suc, ◌+◌, ◌-◌, ◌*◌, ◌/◌, ◌%◌, Option, none, some, List, [], ◌∷◌, ◌++◌, ◌==◌,
  if◌then◌else◌, get_elem?, set, take, drop, length,
}
use tcp_implementation_over.Wire.{Segment, segment_data_size}

-- `FileSegment`
pub record FileSegment : Type 0 where
  pub segment_num : ℕ
  pub segment_offset : ℕ
  pub total_bytes_in_segment : ℕ
  pub total_transmission_count : ℕ

unfoldable pub get_segment_count : ℕ → ℕ
get_segment_count file_length =
    let total_num_segments = file_length / segment_data_size in
    if file_length % segment_data_size == 0 then total_num_segments else total_num_segments + 1

-- The entry that the loop body writes for `i`.
unfoldable pub segment_info : ℕ → ℕ → ℕ → FileSegment
segment_info file_length total i = record {
  segment_num = i;
  segment_offset = i * segment_data_size;
  total_bytes_in_segment =
      if i == total - 1 then file_length % segment_data_size else segment_data_size;
  total_transmission_count = 0;
}

-- `n` rounds of the loop from `i` on.
unfoldable pub fill_table : ℕ → ℕ → ℕ → ℕ → List FileSegment
fill_table file_length total i zero = []
fill_table file_length total i (suc n) =
    segment_info file_length total i ∷ fill_table file_length total (i + 1) n

unfoldable pub initialize_file_segment_info : ℕ → List FileSegment
unfolding get_segment_count fill_table segment_info
initialize_file_segment_info file_length =
    let total = get_segment_count file_length in fill_table file_length total 0 total

-- What `lseek` and `Read` put into a local buffer that held `stale` before.
unfoldable pub read_into : List ℕ → List ℕ → ℕ → ℕ → List ℕ
read_into file stale offset n =
    let bytes = take n (drop offset file) in bytes ++ drop (length bytes) stale

-- The segment that goes out, and the table with its count raised. `none`: the number is outside the
-- table, and C leaves the read of `fileSegment` undefined.
unfoldable pub send_segment :
    List ℕ → List ℕ → List FileSegment → ℕ → Option (Segment × List FileSegment)
unfolding read_into
send_segment file stale table segment_num = elim (get_elem? table segment_num) [
  | none ↦ none
  | some s ↦ some (
    record {
      segment_num = segment_num;
      segment_data = read_into file stale s.segment_offset s.total_bytes_in_segment;
    },
    set table segment_num (record s { total_transmission_count = s.total_transmission_count + 1 }),
  )
]

-- How many bytes of the segment that it takes as number `count` the consumer hands to `write`.
unfoldable pub write_length : ℕ → ℕ → ℕ → ℕ
write_length file_length total count =
    if count == total - 1 then file_length % segment_data_size else segment_data_size

-- The consumer's writes of the segments that it fetches, the first as number `count`.
unfoldable pub write_segments : ℕ → ℕ → ℕ → List (List ℕ) → List ℕ
unfolding write_length
write_segments file_length total count [] = []
write_segments file_length total count (s ∷ segs) =
    take (write_length file_length total count) s
    ++ write_segments file_length total (count + 1) segs
