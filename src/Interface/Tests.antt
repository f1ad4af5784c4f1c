-- ===== src/Interface/Tests.antt =====
-- A host with a loopback interface and two networks, of which one lies in the other.
use tcp_implementation_over.Common.{ℕ, ◌≡◌, refl, List, [], ◌∷◌}
use tcp_implementation_over.Interface.{
  Interface, preselect, check_same_host, check_local, visit, visit_all, get_client_ip_address,
}
use tcp_implementation_over.Interface.Chosen.{IsElsewhere, IsChosen, get_client_ip_address-IsChosen}

-- 127.0.0.1, as `inet_addr` gives it on a little-endian machine.
abbrev loopback : ℕ
loopback = 0x0100007f

-- 10.1.0.5 in 10.1.0.0/16, and 10.1.2.5 in 10.1.2.0/24.
abbrev interfaces : List Interface
interfaces =
    record { interface_address = loopback; network_mask = 0x000000ff }
    ∷ record { interface_address = 0x0500010a; network_mask = 0x0000ffff }
    ∷ record { interface_address = 0x0502010a; network_mask = 0x00ffffff }
    ∷ []

-- The server 10.1.2.9 is reached from the narrower network.
narrower : (get_client_ip_address loopback 0x0902010a 0 interfaces).client_addr ≡ 0x0502010a
unfolding get_client_ip_address visit_all visit preselect check_same_host check_local
narrower = refl

get_client_ip_address-IsChosen_example :
    let c = get_client_ip_address loopback 0x0902010a 0 interfaces in
    IsElsewhere loopback 0x0902010a 0 interfaces c × IsChosen loopback 0x0902010a interfaces c
get_client_ip_address-IsChosen_example =
    get_client_ip_address-IsChosen loopback 0x0902010a 0 interfaces refl
