-- ===== src/Segments/Table.antt =====
-- The table of a file's segments: how many there are, where each starts, how long it is.
use tcp_implementation_over.Common.{
  ℕ, zero, suc, ◌+◌, ◌-◌, ◌*◌, ◌%◌, ◌≤◌, ◌<◌, ◌≡◌, refl, ap, ◌∙◌, some, List, [], ◌∷◌, arith,
  get_elem?, length, if◌then◌else◌, ◌==◌,
}
use tcp_implementation_over.Wire.{segment_data_size}
use tcp_implementation_over.Segments.{
  FileSegment, get_segment_count, segment_info, fill_table, initialize_file_segment_info,
}

-- The segments of a file hold all its bytes, and less than one segment more.
pub segment_count_bounds :
    (n : ℕ)
    → (n ≤ get_segment_count n * segment_data_size)
      × (get_segment_count n * segment_data_size < n + segment_data_size)
unfolding get_segment_count
segment_count_bounds n = ground arith

get_elem?-fill_table :
    (len total i n k : ℕ)
    → k < n
    → get_elem? (fill_table len total i n) k ≡ some (segment_info len total (i + k))
unfolding fill_table
get_elem?-fill_table len total i zero k h = absurd (omega arith)
get_elem?-fill_table len total i (suc n) zero h =
    ap (λ (j : ℕ). some (segment_info len total j)) (omega arith)
get_elem?-fill_table len total i (suc n) (suc k) h =
    get_elem?-fill_table len total (i + 1) n k (omega arith)
    ∙ ap (λ (j : ℕ). some (segment_info len total j)) (omega arith)

length-fill_table : (len total i n : ℕ) → length (fill_table len total i n) ≡ n
unfolding fill_table
length-fill_table len total i zero = refl
length-fill_table len total i (suc n) = omega (arith, length-fill_table len total (i + 1) n)

abbrev pub sum_bytes : List FileSegment → ℕ
sum_bytes [] = 0
sum_bytes (s ∷ ss) = s.total_bytes_in_segment + sum_bytes ss

-- The rounds from `i` to the last one.
sum_bytes-fill_table :
    (len total i n : ℕ)
    → i + suc n ≡ total
    → sum_bytes (fill_table len total i (suc n)) ≡ n * segment_data_size + len % segment_data_size
unfolding fill_table segment_info
sum_bytes-fill_table len total i zero h = ground arith
sum_bytes-fill_table len total i (suc n) h =
    ground (arith, sum_bytes-fill_table len total (i + 1) n)

-- The entries of the table, for any counts of transmissions.
pub record IsTable (len : ℕ) (table : List FileSegment) : Type 0 where
  pub size : length table ≡ get_segment_count len
  pub entry :
      (k : ℕ)
      → k < get_segment_count len
      → (sent : ℕ) × (get_elem? table k
          ≡ some (record (segment_info len (get_segment_count len) k) {
            total_transmission_count = sent;
          }))

pub initialize-IsTable : (len : ℕ) → IsTable len (initialize_file_segment_info len)
unfolding initialize_file_segment_info segment_info
initialize-IsTable len =
    let total = get_segment_count len in
    record {
      size = length-fill_table len total 0 total;
      entry = λ k h. (
        0,
        get_elem?-fill_table len total 0 total k h
            ∙ ap (λ (j : ℕ). some (segment_info len total j)) (omega arith),
      );
    }

last_bytes :
    (len k : ℕ)
    → k < get_segment_count len
    → k * segment_data_size
        + (if k == get_segment_count len - 1 then len % segment_data_size else segment_data_size)
      ≤ len
unfolding get_segment_count
last_bytes len k h = ground arith

-- Each entry of the table lies inside the file.
pub entry_in_file :
    (len k : ℕ) {s : FileSegment}
    → get_elem? (initialize_file_segment_info len) k ≡ some s
    → k < get_segment_count len
    → (s.segment_num ≡ k)
      × (s.segment_offset ≡ k * segment_data_size)
      × (s.segment_offset + s.total_bytes_in_segment ≤ len)
unfolding segment_info
entry_in_file len k e h = ground (arith, (initialize-IsTable len).entry k h, last_bytes len k)

sum_bytes-total :
    (len total : ℕ)
    → total ≡ get_segment_count len
    → sum_bytes (fill_table len total 0 total)
      ≡ (if len % segment_data_size == 0 then len - segment_data_size else len)
unfolding get_segment_count fill_table
sum_bytes-total len zero h = ground arith
sum_bytes-total len (suc m) h = ground (arith, sum_bytes-fill_table len (suc m) 0 m (omega arith))

-- The bytes of all segments: those of the file, but for the last full segment of a file whose
-- length is a multiple of the segment's.
pub sum_bytes_lem :
    (len : ℕ)
    → sum_bytes (initialize_file_segment_info len)
      ≡ (if len % segment_data_size == 0 then len - segment_data_size else len)
unfolding initialize_file_segment_info
sum_bytes_lem len = sum_bytes-total len (get_segment_count len) refl
