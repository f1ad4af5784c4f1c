-- ===== src/Location.antt =====
-- `getServerLocation` and `getSubAddrLongest` of client.c, which compare the server's address with the
-- client's interfaces. An address is its 32-bit number `s_addr`: `Sock_ntop_host` and `inet_pton` turn it
-- into text and back. `octet a i` is the number before the dot `i` in the text of `a`, and `loopback` the
-- address 127.0.0.1.
pub mod Ignored
pub mod Longest
mod Tests
use tcp_implementation_over.Common.{
  ℕ, zero, suc, ◌+◌, Bool, true, false, Option, none, some, List, [], ◌∷◌, ◌==◌, if◌then◌else◌, ltb,
  bit_and,
}

-- `ClientIpInfo`, the list of which is linked by `next`.
pub record ClientIpInfo : Type 0 where
  pub client_ip : ℕ
  pub net_mask_ip : ℕ
  pub subnet_addr : ℕ

-- How the search for the server's own address ends; `null` reads through a null pointer.
pub data Search : Type 0 where
  same_host other_host null : Search

-- The first loop: the pointer moves on before `start->next` is read.
pub find_same_host : ℕ → List ClientIpInfo → Search
find_same_host server [] = null
find_same_host server (x ∷ []) = if x.client_ip == server then same_host else null
find_same_host server (x ∷ y ∷ []) = if x.client_ip == server then same_host else other_host
find_same_host server (x ∷ y ∷ z ∷ xs) =
    if x.client_ip == server then same_host else find_same_host server (y ∷ z ∷ xs)

-- `prevMax` and `flag`
pub record Best : Type 0 where
  pub prev_max : ClientIpInfo
  pub flag : ℕ

abbrev pub is_on_network : ℕ → ClientIpInfo → Bool
is_on_network server x = bit_and x.client_ip x.net_mask_ip == bit_and server x.net_mask_ip

module _ (octet : ℕ → ℕ → ℕ) where
  -- The loops over the octets from `i` on, `n` of them left: the first that differs decides.
  pub compare_octets : ℕ → ℕ → ℕ → ClientIpInfo → ClientIpInfo → ClientIpInfo
  compare_octets zero i subnet prev_max cur = cur
  compare_octets (suc n) i subnet prev_max cur =
      let rest = compare_octets n (i + 1) subnet prev_max cur in
      if octet subnet i == octet prev_max.subnet_addr i
      then rest
      else if ltb (octet prev_max.subnet_addr i) (octet subnet i)
      then cur
      else prev_max

  pub get_sub_addr_longest : ClientIpInfo → ClientIpInfo → ℕ → ClientIpInfo
  unfolding compare_octets
  get_sub_addr_longest prev_max cur server =
      compare_octets 4 0 (bit_and server cur.net_mask_ip) prev_max cur

  -- The body of the second loop.
  pub consider : ℕ → Best → ClientIpInfo → Best
  unfolding get_sub_addr_longest
  consider server b x =
      let first : Best = if b.flag == 0 then record { prev_max = x; flag = b.flag + 1 } else b in
      if is_on_network server x
      then record first { prev_max = get_sub_addr_longest first.prev_max x server }
      else b

  -- The second loop; `none` reads through a null pointer.
  pub find_local : ℕ → Best → List ClientIpInfo → Option Best
  unfolding consider
  find_local server b [] = none
  find_local server b (x ∷ []) = none
  find_local server b (x ∷ y ∷ []) = some (consider server b x)
  find_local server b (x ∷ y ∷ z ∷ xs) = find_local server (consider server b x) (y ∷ z ∷ xs)

  -- Behind the loops: the addresses of the server and of the client.
  pub choose : ℕ → List ClientIpInfo → Best → Option (ℕ × ℕ)
  choose server [] b = if b.flag == 1 then some (server, b.prev_max.client_ip) else none
  choose server (x ∷ []) b = if b.flag == 1 then some (server, b.prev_max.client_ip) else none
  choose server (x ∷ y ∷ xs) b =
      some (server, if b.flag == 1 then b.prev_max.client_ip else y.client_ip)

  abbrev pub on_other_host : ℕ → List ClientIpInfo → Option Best → Option (ℕ × ℕ)
  on_other_host server xs none = none
  on_other_host server xs (some b) = choose server xs b

  pub continue_search : ℕ → ℕ → List ClientIpInfo → Search → Option (ℕ × ℕ)
  unfolding find_local choose
  continue_search loopback server xs null = none
  continue_search loopback server xs same_host = some (loopback, loopback)
  continue_search loopback server [] other_host = none
  continue_search loopback server (x ∷ xs) other_host =
      on_other_host server (x ∷ xs) (find_local server (record { prev_max = x; flag = 0 }) (x ∷ xs))

  -- `servIpToUse` and `clientIpToUse`; `none` reads through a null pointer.
  pub get_server_location : ℕ → ℕ → List ClientIpInfo → Option (ℕ × ℕ)
  unfolding find_same_host continue_search
  get_server_location loopback server xs =
      continue_search loopback server xs (find_same_host server xs)
