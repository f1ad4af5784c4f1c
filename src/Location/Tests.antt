-- ===== src/Location/Tests.antt =====
-- Three interfaces of the client, with the addresses of a little-endian machine.
use tcp_implementation_over.Common.{ℕ, ◌/◌, ◌%◌, ◌^◌, ◌≡◌, refl, some, [], ◌∷◌, ◌++◌}
use tcp_implementation_over.Location.{
  ClientIpInfo, compare_octets, get_sub_addr_longest, consider, find_local, find_same_host, choose,
  continue_search, get_server_location,
}

abbrev octet : ℕ → ℕ → ℕ
octet a i = a / 256 ^ i % 256

abbrev loopback : ℕ
loopback = 0x0100007f

abbrev interface : ℕ → ℕ → ℕ → ClientIpInfo
interface a m n = record { client_ip = a; net_mask_ip = m; subnet_addr = n }

-- 127.0.0.1/8, then 10.1.0.5/16, 10.1.2.5/24 and 192.168.0.5/24.
abbrev local : ClientIpInfo
local = interface loopback 0x000000ff 0x0000007f

abbrev wide : ClientIpInfo
wide = interface 0x0500010a 0x0000ffff 0x0000010a

abbrev narrow : ClientIpInfo
narrow = interface 0x0502010a 0x00ffffff 0x0002010a

abbrev apart : ClientIpInfo
apart = interface 0x0500a8c0 0x00ffffff 0x0000a8c0

-- The server 10.1.2.9 is reached from the narrower network.
narrower :
    get_server_location octet loopback 0x0902010a ((local ∷ wide ∷ narrow ∷ []) ++ apart ∷ [])
    ≡ some (0x0902010a, 0x0502010a)
unfolding get_server_location continue_search find_same_host find_local consider
    get_sub_addr_longest compare_octets choose
narrower = refl
