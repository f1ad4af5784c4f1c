-- ===== src/Segments/Tests.antt =====
-- Files of one, two and three segments.
use tcp_implementation_over.Common.{
  ℕ, ◌<◌, ◌≡◌, refl, some, List, [], ◌∷◌, length, take, get_elem?, replicate, arith,
}
use tcp_implementation_over.Segments.{
  FileSegment, get_segment_count, segment_info, fill_table, initialize_file_segment_info,
  send_segment, write_segments,
}
use tcp_implementation_over.Wire.{Segment}
use tcp_implementation_over.Segments.Bytes.{CarriesSegment, send_segment-CarriesSegment}
use tcp_implementation_over.Segments.Table.{IsTable, initialize-IsTable, sum_bytes}
use tcp_implementation_over.Segments.Reassemble.{payload, payload-IsCopy, write_segments-eq-take}

abbrev small_file : List ℕ
small_file = 72 ∷ 105 ∷ 33 ∷ []

abbrev stale : List ℕ
stale = replicate 5 0

counts : (get_segment_count 507 ≡ 1) × (get_segment_count 508 ≡ 1) × (get_segment_count 509 ≡ 2)
unfolding get_segment_count
counts = (refl, refl, refl)

-- A whole segment is recorded with no bytes.
whole_segment : sum_bytes (initialize_file_segment_info 508) ≡ 0
unfolding initialize_file_segment_info fill_table segment_info get_segment_count
whole_segment = refl

abbrev second : FileSegment
second = record {
  segment_num = 1;
  segment_offset = 508;
  total_bytes_in_segment = 92;
  total_transmission_count = 0;
}

second_entry : get_elem? (initialize_file_segment_info 600) 1 ≡ some second
unfolding initialize_file_segment_info fill_table segment_info get_segment_count
second_entry = refl

one_segment : 0 < get_segment_count (length small_file)
unfolding get_segment_count
one_segment = omega arith

send_segment-CarriesSegment_example :
    (s : Segment) × (table' : List FileSegment) × (send_segment small_file stale
        (initialize_file_segment_info 3)
        0
      ≡ some (s, table'))
    × (s.segment_num ≡ 0)
    × CarriesSegment small_file stale 0 s.segment_data
    × IsTable 3 table'
send_segment-CarriesSegment_example =
    send_segment-CarriesSegment small_file stale (initialize_file_segment_info 3) 0
      (initialize-IsTable 3) one_segment

small_count : 1 ≡ get_segment_count (length small_file)
unfolding get_segment_count
small_count = refl

write_segments-eq-take_example :
    write_segments 3 (get_segment_count 3) 0 (payload small_file stale 0 ∷ []) ≡ take 3 small_file
write_segments-eq-take_example =
    write_segments-eq-take small_file (payload small_file stale 0 ∷ []) small_count
      (payload-IsCopy small_file stale 0 one_segment, tt)
