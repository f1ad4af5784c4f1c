-- ===== src/Interface.antt =====
-- `GetClientIPAddress` of client.c: which of its addresses the client uses to reach the server.
-- `loopback` is what `inet_addr` gives for 127.0.0.1; an address is its 32-bit number `s_addr`.
pub mod Chosen
mod Tests
use tcp_implementation_over.Common.{
  ℕ, zero, suc, ◌+◌, ◌*◌, ◌/◌, ◌%◌, Bool, true, false, List, [], ◌∷◌, ◌&&◌, ◌==◌, if◌then◌else◌,
  ltb,
}
use mathlib.Core.Bool.{not}
use Prim.Native.Nat.{bit_and}

-- An entry of the list that `Get_ifi_info_plus` returns.
pub record Interface : Type 0 where
  pub interface_address : ℕ
  pub network_mask : ℕ

-- What the loop changes.
pub record Choice : Type 0 where
  pub server_addr : ℕ
  pub client_addr : ℕ
  pub is_same_host : Bool
  pub is_local : Bool
  pub longest_prefix_match : ℕ

-- Whether the interface is on the server's network.
abbrev pub matches : ℕ → Interface → Bool
matches server x = bit_and x.interface_address x.network_mask == bit_and server x.network_mask

module _ (loopback : ℕ) where
  -- The first interface is taken; a later one replaces a loopback address.
  pub preselect : Bool → Choice → Interface → Choice
  preselect first c x =
      if first
      then record c { client_addr = x.interface_address }
      else if not c.is_local && not c.is_same_host && c.client_addr == loopback
      then record c { client_addr = x.interface_address }
      else c

  -- The server's own address is among the client's.
  pub check_same_host : Choice → Interface → Choice
  check_same_host c x =
      if x.interface_address == c.server_addr
      then record c {
        is_local = true;
        is_same_host = true;
        client_addr = loopback;
        server_addr = loopback;
      }
      else c

  pub check_local : Choice → Interface → Choice
  check_local c x =
      if not c.is_same_host && matches c.server_addr x && ltb c.longest_prefix_match x.network_mask
      then record c {
        is_local = true;
        client_addr = x.interface_address;
        longest_prefix_match = x.network_mask;
      }
      else c

  -- The body of the loop; `first` says that `i` is 0.
  pub visit : Bool → Choice → Interface → Choice
  unfolding preselect check_same_host check_local
  visit first c x = check_local (check_same_host (preselect first c x) x) x

  pub visit_all : Bool → Choice → List Interface → Choice
  unfolding visit
  visit_all first c [] = c
  visit_all first c (x ∷ xs) = visit_all false (visit first c x) xs

  -- `clientAddr` keeps what it held when there is no interface.
  pub get_client_ip_address : ℕ → ℕ → List Interface → Choice
  unfolding visit_all
  get_client_ip_address server client xs =
      visit_all true
        (record {
          server_addr = server;
          client_addr = client;
          is_same_host = false;
          is_local = false;
          longest_prefix_match = 0;
        })
        xs
