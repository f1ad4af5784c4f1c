-- ===== src/Clients/Laws.antt =====
-- Each operation on the known clients, and what it does to the answer of the others.
use Prim.Native.String.{String}
use text.Mathlib.Text.{◌==◌ as str_eq}
use text.Mathlib.TextEquality.{eq_iff}
use tcp_implementation_over.Common.{
  ℕ, ◌≡◌, refl, Bool, true, false, List, [], ◌∷◌, ◌&&◌, ◌||◌, ◌==◌, if◌then◌else◌, arith,
}
use tcp_implementation_over.Clients.{
  ClientInfo, chk_request_retransmitted, add_client, remove_client,
}

-- Whether an entry is empty.
abbrev pub has_room : List ClientInfo → Bool
has_room [] = false
has_room (c ∷ cs) = if c.in_use then has_room cs else true

abbrev pub same_client : String → ℕ → String → ℕ → Bool
same_client ip port ip' port' = str_eq ip ip' && port' == port

-- After an addition a client is known exactly if it was before, or is the one added and an entry
-- was empty.
pub chk-add_client :
    (ip ip' : String) (port port' : ℕ) (cs : List ClientInfo)
    → chk_request_retransmitted ip' port' (add_client ip port cs)
      ≡ (chk_request_retransmitted ip' port' cs || (has_room cs && same_client ip port ip' port'))
unfolding chk_request_retransmitted add_client
chk-add_client ip ip' port port' [] = refl
chk-add_client ip ip' port port' (c ∷ cs) = ground (arith, chk-add_client ip ip' port port' cs)

-- A removed client is unknown; every other client is known as before.
pub chk-remove_client :
    (ip ip' : String) (port port' : ℕ) (cs : List ClientInfo)
    → chk_request_retransmitted ip' port' (remove_client ip port cs)
      ≡ (if same_client ip port ip' port' then false else chk_request_retransmitted ip' port' cs)
unfolding chk_request_retransmitted remove_client
chk-remove_client ip ip' port port' [] = ground arith
chk-remove_client ip ip' port port' (c ∷ cs) = ground (
  arith,
  eq_iff ip ip',
  eq_iff c.client_ip ip,
  eq_iff c.client_ip ip',
  chk-remove_client ip ip' port port' cs,
)
