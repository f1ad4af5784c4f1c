-- ===== src/Clients/Tests.antt =====
-- The list of known clients with one client, and with no empty entry.
use Prim.Native.String.{String}
use tcp_implementation_over.Common.{ℕ, ◌≡◌, refl, true, false, List, [], ◌∷◌, length, replicate}
use tcp_implementation_over.Clients.{
  ClientInfo, cleared, no_clients, is_client, chk_request_retransmitted, add_client,
}
use tcp_implementation_over.Clients.Full.{serve, serve-full}

abbrev home : String
home = "192.168.1.2"

abbrev away : String
away = "192.168.1.3"

abbrev one_client : List ClientInfo
one_client = add_client home 4000 no_clients

abbrev full : List ClientInfo
full = replicate 20 (record cleared { client_ip = home; client_port = 4000; in_use = true })

stranger : chk_request_retransmitted away 4000 full ≡ false
unfolding chk_request_retransmitted is_client
stranger = refl

abbrev knocks : List (String × ℕ)
knocks = (away, 4000) ∷ (away, 4000) ∷ []

serve-full_example : serve full knocks ≡ (full, length knocks)
serve-full_example = serve-full full knocks refl (stranger, (stranger, tt))
