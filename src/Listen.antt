-- ===== src/Listen.antt =====
-- The server before a transfer: `BindServerToUnicastInterfaces` of server.c, the loop of its `main` over
-- the sockets, and the socket that its child sets up.
-- `to_text` is `Sock_ntop_host`, whose text `inet_pton` turns back, and `htons` the byte order function.
pub mod Serve
pub mod Sockets
pub mod Locate
pub mod Children
pub mod Answered
mod Tests
use Prim.Native.String.{String}
use tcp_implementation_over.Common.{
  ℕ, zero, suc, ◌+◌, Bool, true, false, not, Option, none, some, List, [], ◌∷◌, ◌||◌, ◌&&◌, ◌==◌,
  if◌then◌else◌, ltb, get_elem?, bit_and,
}
use mathlib.Core.Option
use tcp_implementation_over.Interface.{Interface}
use tcp_implementation_over.Handshake.{ServerInterface, Location}
use tcp_implementation_over.Clients.{ClientInfo, on_request}

-- The room in `servIpInfo`.
abbrev pub max_interfaces : ℕ
max_interfaces = 20

-- The entries of `servIpInfo`, with the addresses and ports that their sockets are bound to.
pub record Bound : Type 0 where
  pub entries : List ServerInterface
  pub addresses : List (ℕ × ℕ)

-- How the binding of the sockets ends: with the entries, by the exit of a wrapper whose call fails, or by
-- a write behind the array.
pub data Binding : Type 0 where
  complete : Bound → Binding
  exits out_of_bounds : Binding

-- The calls for an interface: `Socket`, `Setsockopt` and `Bind`, which exit on an error.
pub data SocketCall : Type 0 where
  open_socket reuse_address bind_socket : SocketCall

-- `succeeds` answers the calls, by the number of the interface.
module _ (to_text : ℕ → String) (htons : ℕ → ℕ) (server_port : ℕ)
    (succeeds : ℕ → SocketCall → Bool) where
  unfoldable pub bind_interface : Interface → ServerInterface
  bind_interface x = record {
    server_ip = to_text x.interface_address;
    net_mask = x.network_mask;
    subnet_addr = bit_and x.interface_address x.network_mask;
  }

  abbrev pub add_bound : Interface → Binding → Binding
  add_bound x exits = exits
  add_bound x out_of_bounds = out_of_bounds
  add_bound x (complete b) = complete (record {
    entries = bind_interface x ∷ b.entries;
    addresses = (x.interface_address, htons server_port) ∷ b.addresses;
  })

  -- The loop from `i` on.
  unfoldable pub bind_from : ℕ → List Interface → Binding
  unfolding bind_interface
  bind_from i [] = complete (record { entries = []; addresses = [] })
  bind_from i (x ∷ xs) =
      let rest = bind_from (i + 1) xs in
      if ltb i max_interfaces
      then if succeeds i open_socket && succeeds i reuse_address && succeeds i bind_socket
        then add_bound x rest
        else exits
      else out_of_bounds

  unfoldable pub bind_server_to_unicast_interfaces : List Interface → Binding
  unfolding bind_from
  bind_server_to_unicast_interfaces xs = bind_from 0 xs

-- What `select` and `recvfrom` say of a socket: nothing to read, an error, or a request.
pub data Ready : Type 0 where
  idle receive_error : Ready
  request : String → ℕ → Ready

-- The loop over the sockets ends at the first request: its `count`, and who asks.
unfoldable pub first_request : ℕ → List Ready → Option (ℕ × String × ℕ)
first_request count [] = none
first_request count (idle ∷ rs) = first_request (count + 1) rs
first_request count (receive_error ∷ rs) = first_request (count + 1) rs
first_request count (request ip port ∷ rs) = some (count, ip, port)

abbrev pub on_first : List ClientInfo → Option (ℕ × String × ℕ) → List ClientInfo × Option ℕ
on_first cs none = (cs, none)
on_first cs (some (count, ip, port)) =
    let (cs', forked) = on_request ip port cs in (cs', if forked then some count else none)

-- One round of the endless loop: the known clients, and the `count` with which a child is forked.
unfoldable pub serve_round : List ClientInfo → List Ready → List ClientInfo × Option ℕ
unfolding first_request
serve_round cs rs = on_first cs (first_request 0 rs)

-- The sockets that the child closes, from number `i` on.
unfoldable pub close_others : ℕ → ℕ → ℕ → List ℕ
close_others count i zero = []
close_others count i (suc n) =
    let rest = close_others count (i + 1) n in if i == count then rest else i ∷ rest

-- The address that the child's socket is bound to; `none` reads an entry that was not filled.
unfoldable pub child_address : List ServerInterface → Location → Option String
child_address xs l = Option.map (λ x. ServerInterface.server_ip x) (get_elem? xs l.interface_count)

-- What SO_DONTROUTE is set to; `val` is 0.
unfoldable pub dont_route : Location → Option ℕ
dont_route l = if not l.is_local || not l.is_same_host then some 0 else none

-- What `select` returns: a signal interrupts it, or it says what it knows of the sockets.
pub data Selected : Type 0 where
  interrupted : Selected
  ready : List Ready → Selected

-- The child of a round, if it forks one, in front of the later ones.
abbrev pub child_of :
    Option (ℕ × String × ℕ) → Option ℕ → List (ℕ × String × ℕ) → List (ℕ × String × ℕ)
child_of none forked rest = rest
child_of (some x) none rest = rest
child_of (some x) (some count) rest = x ∷ rest

-- The endless loop over what `select` returns: the known clients, and the children that are forked,
-- each with its `count` and its client.
unfoldable pub server_loop :
    List ClientInfo → List Selected → List ClientInfo × List (ℕ × String × ℕ)
server_loop cs [] = (cs, [])
server_loop cs (interrupted ∷ ss) = server_loop cs ss
server_loop cs (ready rs ∷ ss) =
    let (cs', forked) = serve_round cs rs in
    let (cs'', children) = server_loop cs' ss in
    (cs'', child_of (first_request 0 rs) forked children)
