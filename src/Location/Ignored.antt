-- ===== src/Location/Ignored.antt =====
-- What the two loops of `getServerLocation` look at: all interfaces but the last.
use tcp_implementation_over.Common.{
  ℕ, ◌≡◌, refl, sym, ◌∙◌, Bool, false, Option, none, some, List, [], ◌∷◌, ◌++◌, ◌||◌, arith, ◌==◌,
  if◌then◌else◌, inl, inr, Bool-cases,
}
use tcp_implementation_over.Location.{
  ClientIpInfo, same_host, other_host, find_same_host, Best, consider, find_local, choose,
  continue_search, get_server_location,
}

abbrev pub has_address : ℕ → List ClientIpInfo → Bool
has_address a [] = false
has_address a (x ∷ xs) = x.client_ip == a || has_address a xs

find_same_host-snoc :
    (server : ℕ) (x : ClientIpInfo) (xs : List ClientIpInfo) (z : ClientIpInfo)
    → find_same_host server ((x ∷ xs) ++ z ∷ [])
      ≡ (if has_address server (x ∷ xs) then same_host else other_host)
unfolding find_same_host
find_same_host-snoc server x [] z = ground arith
find_same_host-snoc server x (y ∷ []) z = ground (arith, find_same_host-snoc server y [] z)
find_same_host-snoc server x (y ∷ w ∷ xs) z =
    ground (arith, find_same_host-snoc server y (w ∷ xs) z)

-- The second interface is taken when none is on the server's network.
abbrev second : ClientIpInfo → List ClientIpInfo → ClientIpInfo
second z [] = z
second z (y ∷ xs) = y

module _ (octet : ℕ → ℕ → ℕ) where
  abbrev pub best_of : ℕ → Best → List ClientIpInfo → Best
  best_of server b [] = b
  best_of server b (x ∷ xs) = best_of server (consider octet server b x) xs

  find_local-snoc :
      (server : ℕ) (b : Best) (x : ClientIpInfo) (xs : List ClientIpInfo) (z : ClientIpInfo)
      → find_local octet server b ((x ∷ xs) ++ z ∷ []) ≡ some (best_of server b (x ∷ xs))
  unfolding find_local
  find_local-snoc server b x [] z = refl
  find_local-snoc server b x (y ∷ []) z = find_local-snoc server (consider octet server b x) y [] z
  find_local-snoc server b x (y ∷ w ∷ xs) z =
      find_local-snoc server (consider octet server b x) y (w ∷ xs) z

  abbrev pub initial : ClientIpInfo → Best
  initial x = record { prev_max = x; flag = 0 }

  abbrev pub located : ℕ → ℕ → ClientIpInfo → ClientIpInfo → List ClientIpInfo → Option (ℕ × ℕ)
  located loopback server x y xs =
      let b = best_of server (initial x) (x ∷ y ∷ xs) in
      if has_address server (x ∷ y ∷ xs)
      then some (loopback, loopback)
      else some (server, if b.flag == 1 then b.prev_max.client_ip else y.client_ip)

  pub get_server_location-snoc :
      (loopback server : ℕ) (x y : ClientIpInfo) (xs : List ClientIpInfo) (z : ClientIpInfo)
      → get_server_location octet loopback server ((x ∷ y ∷ xs) ++ z ∷ [])
        ≡ located loopback server x y xs
  unfolding get_server_location continue_search choose
  get_server_location-snoc loopback server x y xs z =
      elim (Bool-cases (has_address server (x ∷ y ∷ xs))) [
        | inl here ↦ rw (find_same_host-snoc server x (y ∷ xs) z, here) refl
        | inr away ↦
            rw
              (
                find_same_host-snoc server x (y ∷ xs) z,
                away,
                find_local-snoc server (initial x) x (y ∷ xs) z,
              )
              refl
      ]

  -- With three interfaces or more, the last one makes no difference, whether the server has its address or
  -- is on its network.
  pub last_ignored :
      (loopback server : ℕ) (x y : ClientIpInfo) (xs : List ClientIpInfo) (z z' : ClientIpInfo)
      → get_server_location octet loopback server ((x ∷ y ∷ xs) ++ z ∷ [])
        ≡ get_server_location octet loopback server ((x ∷ y ∷ xs) ++ z' ∷ [])
  last_ignored loopback server x y xs z z' =
      get_server_location-snoc loopback server x y xs z
      ∙ sym (get_server_location-snoc loopback server x y xs z')

  -- With a single interface the search reads through a null pointer, unless that interface has the
  -- server's address.
  pub single_null :
      (loopback server : ℕ) (x : ClientIpInfo)
      → get_server_location octet loopback server (x ∷ [])
        ≡ (if x.client_ip == server then some (loopback, loopback) else none)
  unfolding get_server_location find_same_host continue_search
  single_null loopback server x = ground arith
