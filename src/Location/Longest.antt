-- ===== src/Location/Longest.antt =====
-- Which interface on the server's network is chosen.
use tcp_implementation_over.Common.{
  ℕ, zero, suc, ◌+◌, ◌≡◌, refl, sym, subst, ◌∙◌, Bool, true, false, some, List, [], ◌∷◌, ◌++◌, ◌||◌,
  arith, ◌==◌, if◌then◌else◌, inl, inr, Bool-cases, Memᴰ, bit_and,
}
use tcp_implementation_over.Location.{
  ClientIpInfo, Best, is_on_network, compare_octets, get_sub_addr_longest, consider,
  get_server_location,
}
use tcp_implementation_over.Location.Ignored.{
  has_address, best_of, initial, get_server_location-snoc,
}

abbrev pub any_on_network : ℕ → List ClientIpInfo → Bool
any_on_network server [] = false
any_on_network server (x ∷ xs) = is_on_network server x || any_on_network server xs

module _ (octet : ℕ → ℕ → ℕ) where
  -- A comparison gives one of the two.
  compare_octets-either :
      (P : ClientIpInfo → Type 0) (n i subnet : ℕ) (p c : ClientIpInfo)
      → P p
      → P c
      → P (compare_octets octet n i subnet p c)
  unfolding compare_octets
  compare_octets-either P zero i subnet p c hp hc = hc
  compare_octets-either P (suc n) i subnet p c hp hc =
      either (octet subnet i == octet p.subnet_addr i) _ _
        (compare_octets-either P n (i + 1) subnet p c hp hc) (either _ c p hc hp)
    where
      either : (b : Bool) (x y : ClientIpInfo) → P x → P y → P (if b then x else y)
      either true x y hx hy = hx
      either false x y hx hy = hy

  abbrev IsLocal : ℕ → List ClientIpInfo → ClientIpInfo → Type 0
  IsLocal server all x = Memᴰ x all × (is_on_network server x ≡ true)

  record IsBest (server : ℕ) (all : List ClientIpInfo) (seen : Bool) (b : Best) : Type 0 where
    pub flagged : b.flag ≡ (if seen then 1 else 0)
    pub local : seen ≡ true → IsLocal server all b.prev_max

  longest-IsLocal :
      (server : ℕ) (all : List ClientIpInfo) (p x : ClientIpInfo)
      → IsLocal server all p
      → IsLocal server all x
      → IsLocal server all (get_sub_addr_longest octet p x server)
  unfolding get_sub_addr_longest
  longest-IsLocal server all p x hp hx =
      compare_octets-either (IsLocal server all) 4 0 (bit_and server x.net_mask_ip) p x hp hx

  consider-off :
      (server : ℕ) (b : Best) (x : ClientIpInfo)
      → is_on_network server x ≡ false
      → consider octet server b x ≡ b
  unfolding consider
  consider-off server b x off = rw off refl

  consider-on :
      (server : ℕ) (b : Best) (x : ClientIpInfo)
      → is_on_network server x ≡ true
      → ((b.flag == 0) ≡ true
          → consider octet server b x
            ≡ record { prev_max = get_sub_addr_longest octet x x server; flag = b.flag + 1 })
        × ((b.flag == 0) ≡ false
            → consider octet server b x
              ≡ record { prev_max = get_sub_addr_longest octet b.prev_max x server; flag = b.flag })
  unfolding consider
  consider-on server b x on = (λ new. rw (on, new) refl, λ old. rw (on, old) refl)

  consider-IsBest :
      (server : ℕ) (all : List ClientIpInfo) (seen : Bool) (b : Best) (x : ClientIpInfo)
      → Memᴰ x all
      → IsBest server all seen b
      → IsBest server all (is_on_network server x || seen) (consider octet server b x)
  consider-IsBest server all seen b x m h = elim (Bool-cases (is_on_network server x)) [
    | inl on ↦ rw on (on_network seen h on)
    | inr off ↦ rw (off, consider-off server b x off) h
  ]
    where
      on_network :
          (seen : Bool)
          → IsBest server all seen b
          → is_on_network server x ≡ true
          → IsBest server all true (consider octet server b x)
      on_network false h on =
          let e = (consider-on server b x on).0 (ground (arith, h.flagged)) in
          subst (IsBest server all true) (sym e) (record {
            flagged = omega (arith, h.flagged);
            local = λ t. longest-IsLocal server all x x (m, on) (m, on);
          })
      on_network true h on =
          let e = (consider-on server b x on).1 (ground (arith, h.flagged)) in
          subst (IsBest server all true) (sym e) (record {
            flagged = h.flagged;
            local = λ t. longest-IsLocal server all b.prev_max x (h.local refl) (m, on);
          })

  best_of-IsBest :
      (server : ℕ) (all : List ClientIpInfo) (seen : Bool) (b : Best) (xs : List ClientIpInfo)
      → ((x : ClientIpInfo) → Memᴰ x xs → Memᴰ x all)
      → IsBest server all seen b
      → IsBest server all (any_on_network server xs || seen) (best_of octet server b xs)
  best_of-IsBest server all seen b [] sub h = h
  best_of-IsBest server all seen b (x ∷ xs) sub h =
      let r =
        best_of-IsBest server all (is_on_network server x || seen) (consider octet server b x) xs
          (λ y m. sub y (Memᴰ.tail m))
          (consider-IsBest server all seen b x (sub x (Memᴰ.head refl)) h) in
      let e : (any_on_network server xs || (is_on_network server x || seen))
          ≡ ((is_on_network server x || any_on_network server xs) || seen) =
        ground arith in
      subst
        (λ (s : Bool). IsBest server all s (best_of octet server (consider octet server b x) xs)) e
        r

  -- With three interfaces or more, if the server's address is none of them but the last one's, and one
  -- but the last is on its network, the client takes the address of such an interface, and the server's
  -- address stays.
  pub get_server_location-IsLocal :
      (loopback server : ℕ) (x y : ClientIpInfo) (xs : List ClientIpInfo) (z : ClientIpInfo)
      → has_address server (x ∷ y ∷ xs) ≡ false
      → any_on_network server (x ∷ y ∷ xs) ≡ true
      → (m : ClientIpInfo) × (get_server_location octet loopback server ((x ∷ y ∷ xs) ++ z ∷ [])
          ≡ some (server, m.client_ip))
        × Memᴰ m (x ∷ y ∷ xs)
        × (is_on_network server m ≡ true)
  get_server_location-IsLocal loopback server x y xs z away some_local =
      let all = x ∷ y ∷ xs in
      let b = best_of octet server (initial octet x) all in
      let start : IsBest server all false (initial octet x) = record {
        flagged = refl;
        local = λ t. absurd (cc t);
      } in
      let h = best_of-IsBest server all false (initial octet x) all (λ w m. m) start in
      let seen : (any_on_network server all || false) ≡ true = ground (arith, some_local) in
      let one : (b.flag == 1) ≡ true = ground (arith, h.flagged, seen) in
      let best = h.local seen in
      (
        b.prev_max,
        get_server_location-snoc octet loopback server x y xs z ∙ rw (away, one) refl,
        best.0,
        best.1,
      )
