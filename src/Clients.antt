-- ===== src/Clients.antt =====
-- The list of known clients, `cInfo` of server.c, by which a repeated request is told from a new one.
pub mod Laws
pub mod Full
mod Tests
use Prim.Native.String.{String}
use text.Mathlib.Text.{◌==◌ as str_eq}
use tcp_implementation_over.Common.{
  ℕ, ◌+◌, Bool, true, false, List, [], ◌∷◌, ◌&&◌, ◌==◌, if◌then◌else◌, replicate,
}

-- `clientInfo`
pub record ClientInfo : Type 0 where
  pub client_ip : String
  pub client_port : ℕ
  pub in_use : Bool
  pub file_length : ℕ
  pub pid : ℕ

abbrev pub max_clients : ℕ
max_clients = 20

-- What `memset` leaves, and what the static array starts with.
abbrev pub cleared : ClientInfo
cleared = record { client_ip = ""; client_port = 0; in_use = false; file_length = 0; pid = 0 }

abbrev pub no_clients : List ClientInfo
no_clients = replicate max_clients cleared

-- `inUse && (strcmp(clientIp, ipOfClient) == 0) && (portNo == clientPort)`
unfoldable pub is_client : String → ℕ → ClientInfo → Bool
is_client ip port c = c.in_use && str_eq c.client_ip ip && port == c.client_port

-- `true` is the result 1: the first match ends the loop.
unfoldable pub chk_request_retransmitted : String → ℕ → List ClientInfo → Bool
unfolding is_client
chk_request_retransmitted ip port [] = false
chk_request_retransmitted ip port (c ∷ cs) =
    if is_client ip port c then true else chk_request_retransmitted ip port cs

-- The first empty place is taken; without one nothing happens. `fileLength` and `pid` stay.
unfoldable pub add_client : String → ℕ → List ClientInfo → List ClientInfo
add_client ip port [] = []
add_client ip port (c ∷ cs) =
    if c.in_use
    then c ∷ add_client ip port cs
    else record c { client_ip = ip; client_port = port; in_use = true } ∷ cs

-- The three loops that change every entry of the client.
pub remove_client : String → ℕ → List ClientInfo → List ClientInfo
unfolding is_client
remove_client ip port [] = []
remove_client ip port (c ∷ cs) =
    (if is_client ip port c then cleared else c) ∷ remove_client ip port cs

pub add_file_length : String → ℕ → ℕ → List ClientInfo → List ClientInfo
unfolding is_client
add_file_length ip port file_length [] = []
add_file_length ip port file_length (c ∷ cs) =
    (if is_client ip port c then record c { file_length = file_length } else c)
    ∷ add_file_length ip port file_length cs

pub add_child_pid : String → ℕ → ℕ → List ClientInfo → List ClientInfo
unfolding is_client
add_child_pid ip port pid [] = []
add_child_pid ip port pid (c ∷ cs) =
    (if is_client ip port c then record c { pid = pid } else c) ∷ add_child_pid ip port pid cs

-- What `main` does with a request: the new list, and whether a child is forked.
unfoldable pub on_request : String → ℕ → List ClientInfo → List ClientInfo × Bool
on_request ip port cs =
    if chk_request_retransmitted ip port cs then (cs, false) else (add_client ip port cs, true)
