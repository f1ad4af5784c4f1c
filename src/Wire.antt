-- ===== src/Wire.antt =====
-- The messages and constants that server and client share, utility.h.
use tcp_implementation_over.Common.{ℕ, ◌-◌, ◌^◌, List}

-- Bytes of a segment on the wire, and of its data behind the `unsigned int` number.
abbrev pub segment_size : ℕ
segment_size = 512

abbrev pub segment_data_size : ℕ
segment_data_size = segment_size - 4

-- `~0` and `~0 - 1`, as the `unsigned int` values that they are compared with.
abbrev pub fin_request : ℕ
fin_request = 2 ^ 32 - 1

abbrev pub ack_request : ℕ
ack_request = 2 ^ 32 - 2

-- `Segment`: its number and its bytes.
pub record Segment : Type 0 where
  pub segment_num : ℕ
  pub segment_data : List ℕ

-- `ClientAck`. The fields are `unsigned int`.
pub record ClientAck : Type 0 where
  pub current_request : ℕ
  pub advt_window : ℕ
  pub lastack_sent : ℕ

-- `ServerAck`, the answer to the request for a file and its confirmation.
pub record ServerAck : Type 0 where
  pub server_port : ℕ
  pub sent_file_length : ℕ
  pub original_recv_window : ℕ
