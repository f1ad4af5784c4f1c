-- ===== src/Handshake/Tests.antt =====
-- The request after some lost answers.
use tcp_implementation_over.Common.{
  ℕ, ◌*◌, ◌/◌, ◌%◌, ◌+◌, ◌≡◌, refl, some, [], ◌∷◌, ◌++◌, ltb, if◌then◌else◌, replicate,
}
use tcp_implementation_over.Wire.{ServerAck}
use tcp_implementation_over.Handshake
use tcp_implementation_over.Handshake.{
  confirm, thread_lengths, server_info, confirmed, Reply, answer, responded, no_response,
  request_file, late, short_read, await_confirmation,
}
use tcp_implementation_over.Handshake.Agreement.{handshake_lem}

abbrev empty_ack : ServerAck
empty_ack = record { server_port = 0; sent_file_length = 0; original_recv_window = 0 }

abbrev port_ack : ServerAck
port_ack = record { server_port = 4000; sent_file_length = 600; original_recv_window = 0 }

-- After a short read the transmission starts with whatever window the child had.
short : await_confirmation 7 0 short_read ≡ some (7, 1)
unfolding await_confirmation
short = refl

-- The bytes of a number of 32 bits in the other order.
abbrev swapped : ℕ → ℕ
swapped n = n % 256 * 16777216 + n / 256 % 256 * 65536 + n / 65536 % 256 * 256 + n / 16777216

handshake_lem_example :
    let a = server_info swapped swapped 4000 600 in
    (request_file empty_ack 0 0 (replicate 3 Handshake.timeout ++ answer a ∷ [])
      ≡ (if ltb 3 12 then responded a (3 + 1) else no_response 12))
    × (thread_lengths swapped (confirm 7 a) ≡ (600, swapped 600))
    × (await_confirmation 9 0 (confirmed (confirm 7 a)) ≡ some (7, 0))
handshake_lem_example = handshake_lem swapped swapped swapped empty_ack 4000 600 7 9 0 3 [] refl
