-- ===== src/Handshake/Agreement.antt =====
-- The handshake of both sides: the request of the client, the answer of the server's child, and the
-- client's confirmation.
use tcp_implementation_over.Common.{
  ℕ, ◌+◌, ◌≡◌, refl, some, List, ◌∷◌, ◌++◌, ltb, if◌then◌else◌, replicate,
}
use tcp_implementation_over.Wire.{ServerAck}
use tcp_implementation_over.Handshake
use tcp_implementation_over.Handshake.{
  Reply, answer, no_response, responded, request_file, confirm, thread_lengths, server_info,
  confirmed, await_confirmation,
}
use tcp_implementation_over.Handshake.Request.{request_file-retries}

module _ (htons htonl ntohl : ℕ → ℕ) where
  -- Let `ntohl` turn `htonl` of the file's length back, and let `n` timeouts come before the child's
  -- answer. If `n` is below 12 the client takes that answer, having asked `n + 1` times, else it exits,
  -- having asked 12 times. With that answer its consumer is given the length of the file and its producer
  -- the length after `htonl`, and on the client's confirmation the transmission starts with the client's
  -- window, with no short reads counted.
  pub handshake_lem :
      (old : ServerAck) (port len window own reads n : ℕ) (rs : List Reply)
      → ntohl (htonl len) ≡ len
      → let a = server_info htons htonl port len in
        (request_file old 0 0 (replicate n Handshake.timeout ++ answer a ∷ rs)
          ≡ (if ltb n 12 then responded a (n + 1) else no_response 12))
        × (thread_lengths ntohl (confirm window a) ≡ (len, htonl len))
        × (await_confirmation own reads (confirmed (confirm window a)) ≡ some (window, 0))
  unfolding server_info thread_lengths confirm await_confirmation
  handshake_lem old port len window own reads n rs turned =
      (request_file-retries old (server_info htons htonl port len) n rs, rw turned refl, refl)
