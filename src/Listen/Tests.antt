-- ===== src/Listen/Tests.antt =====
-- A server with two interfaces, on the addresses of a little-endian machine.
use Prim.Native.String.{String}
use tcp_implementation_over.Common.{
  Bool, true, ℕ, ◌+◌, ◌*◌, ◌/◌, ◌%◌, ◌≡◌, ◌≤◌, refl, sym, subst, none, some, List, [], ◌∷◌, ◌++◌,
  ◌==◌, if◌then◌else◌, length, arith,
}
use text.Mathlib.Text.{◌==◌ as str_eq}
use tcp_implementation_over.Interface.{Interface}
use tcp_implementation_over.Handshake.{ServerInterface, locate}
use tcp_implementation_over.Clients.{
  no_clients, on_request, chk_request_retransmitted, is_client, add_client,
}
use tcp_implementation_over.Listen.{
  SocketCall, bind_socket, complete, bind_from, bind_interface, bind_server_to_unicast_interfaces,
  idle, request, serve_round, close_others, child_address, Selected, interrupted, ready,
  server_loop, first_request,
}
use tcp_implementation_over.Listen.Sockets.{Ends, bind_server_to_unicast_interfaces-Ends}
use tcp_implementation_over.Listen.Children.{Children, AreDistinct}
use tcp_implementation_over.Listen.Answered.{HaveChildren, server_loop-one_child}
use tcp_implementation_over.Listen.Locate.{found, locate-IsNear, child_address-far}

-- Only these two addresses have a text here.
abbrev to_text : ℕ → String
to_text a = if a == 0x0502010a then "10.1.2.5" else "127.0.0.1"

-- The bytes of a port, swapped.
abbrev swapped : ℕ → ℕ
swapped n = n % 256 * 256 + n / 256

abbrev interfaces : List Interface
interfaces =
    record { interface_address = 0x0100007f; network_mask = 0x000000ff }
    ∷ record { interface_address = 0x0502010a; network_mask = 0x00ffffff }
    ∷ []

abbrev local : ServerInterface
local = record { server_ip = "127.0.0.1"; net_mask = 0x000000ff; subnet_addr = 0x0000007f }

abbrev lan : ServerInterface
lan = record { server_ip = "10.1.2.5"; net_mask = 0x00ffffff; subnet_addr = 0x0002010a }

-- The child of the second of three sockets closes the first and the third.
closed : close_others 1 0 3 ≡ 0 ∷ 2 ∷ []
unfolding close_others
closed = refl

-- The socket of the second interface cannot be bound.
abbrev one_bind_fails : ℕ → SocketCall → Bool
one_bind_fails i bind_socket = i == 0
one_bind_fails i c = true

bind_server_to_unicast_interfaces-Ends_example :
    Ends to_text swapped 5000 one_bind_fails 0 interfaces
      (bind_server_to_unicast_interfaces to_text swapped 5000 one_bind_fails interfaces)
bind_server_to_unicast_interfaces-Ends_example =
    bind_server_to_unicast_interfaces-Ends to_text swapped 5000 one_bind_fails interfaces

-- Both sockets are bound.
two_bound :
    bind_server_to_unicast_interfaces to_text swapped 5000 (λ i c. true) interfaces
    ≡ complete (record {
      entries = local ∷ lan ∷ [];
      addresses = (0x0100007f, swapped 5000) ∷ (0x0502010a, swapped 5000) ∷ [];
    })
unfolding bind_server_to_unicast_interfaces bind_from bind_interface
two_bound = refl

-- A client asks on the second socket, and again on the first while another asks on the second.
abbrev selected : List Selected
selected =
    ready (idle ∷ request "10.1.2.9" 4000 ∷ [])
    ∷ interrupted
    ∷ ready (request "10.1.2.9" 4000 ∷ request "10.1.2.8" 4000 ∷ [])
    ∷ ready (idle ∷ request "10.1.2.8" 4000 ∷ [])
    ∷ []

two_children :
    (server_loop no_clients selected).1 ≡ (1, "10.1.2.9", 4000) ∷ (1, "10.1.2.8", 4000) ∷ []
unfolding server_loop serve_round first_request on_request chk_request_retransmitted is_client
    add_client
two_children = refl

server_loop-one_child_example :
    HaveChildren (server_loop no_clients selected).1 selected
    × AreDistinct (server_loop no_clients selected).1
server_loop-one_child_example =
    server_loop-one_child selected
      (subst (λ (l : Children). length l ≤ 20) (sym two_children) (omega arith))

locate-IsNear_example :
    (locate "10.1.2.9" 0x0902010a 0 ((local ∷ []) ++ lan ∷ [])
      ≡ found 1 (str_eq lan.server_ip "10.1.2.9"))
    × (child_address
          ((local ∷ []) ++ lan ∷ [])
          (locate "10.1.2.9" 0x0902010a 0 ((local ∷ []) ++ lan ∷ []))
        ≡ some "10.1.2.5")
locate-IsNear_example = locate-IsNear "10.1.2.9" 0x0902010a (local ∷ []) lan [] (refl, tt) refl

child_address-far_example :
    child_address (local ∷ lan ∷ []) (locate "192.168.0.7" 0x0700a8c0 0 (local ∷ lan ∷ [])) ≡ none
child_address-far_example =
    child_address-far "192.168.0.7" 0x0700a8c0 (local ∷ lan ∷ []) (refl, (refl, tt))
