-- ===== src/Handshake/Request.antt =====
-- How often the client asks for its file.
use tcp_implementation_over.Common.{
  ℕ, zero, suc, ◌+◌, ◌-◌, ◌≤◌, ◌≡◌, List, ◌∷◌, ◌++◌, arith, ltb, if◌then◌else◌, replicate, dec_lt,
}
use tcp_implementation_over.Wire.{ServerAck}
use tcp_implementation_over.Handshake
use tcp_implementation_over.Handshake.{Reply, answer, no_response, responded, request_file}

request_after :
    (old a : ServerAck) (n k sent : ℕ) (rs : List Reply)
    → k ≤ 12
    → request_file old k sent (replicate n Handshake.timeout ++ answer a ∷ rs)
      ≡ (if ltb (k + n) 12 then responded a (sent + n + 1) else no_response (sent + (12 - k)))
unfolding request_file
request_after old a zero k sent rs h = ground arith
request_after old a (suc n) k sent rs h = elim (dec_lt k 12) [
  | yes more ↦ ground (arith, request_after old a n (k + 1) (sent + 1) rs (omega arith))
  | no done ↦ ground arith
]

-- If the server answers behind `n` timeouts, the client takes the answer exactly if `n` is below 12,
-- and has asked `n + 1` times; otherwise it exits, having asked 12 times.
pub request_file-retries :
    (old a : ServerAck) (n : ℕ) (rs : List Reply)
    → request_file old 0 0 (replicate n Handshake.timeout ++ answer a ∷ rs)
      ≡ (if ltb n 12 then responded a (n + 1) else no_response 12)
request_file-retries old a n rs = ground (arith, request_after old a n 0 0 rs (omega arith))
