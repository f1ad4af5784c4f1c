-- ===== src/Interface/Chosen.antt =====
-- Which address the loop over the interfaces ends with.
use tcp_implementation_over.Common.{
  ℕ, ◌≤◌, ◌≡◌, refl, sym, ap, ◌∙◌, Bool, true, false, List, [], ◌∷◌, ◌==◌, ◌||◌, ◌&&◌, ltb, arith,
  Bool-cases, inl, inr, Memᴰ, subst,
}
use tcp_implementation_over.Interface.{
  Interface, Choice, matches, preselect, check_same_host, check_local, visit, visit_all,
  get_client_ip_address,
}

-- Whether one of the interfaces has the address.
abbrev pub has_address : ℕ → List Interface → Bool
has_address a [] = false
has_address a (x ∷ xs) = x.interface_address == a || has_address a xs

-- No mask of an interface on the server's network is longer.
abbrev pub AllWithin : ℕ → ℕ → List Interface → Type 0
AllWithin server n [] = Unit
AllWithin server n (x ∷ xs) = (matches server x ≡ true → x.network_mask ≤ n) × AllWithin server n xs

module _ (loopback : ℕ) where
  -- The server is on this host, and the loopback addresses are chosen.
  record IsLoopback (c : Choice) : Type 0 where
    pub same_host : c.is_same_host ≡ true
    pub local : c.is_local ≡ true
    pub client : c.client_addr ≡ loopback
    pub server : c.server_addr ≡ loopback

  visit-kept : (c : Choice) (x : Interface) → IsLoopback c → IsLoopback (visit loopback false c x)
  unfolding visit preselect check_same_host check_local
  visit-kept c x h = record {
    same_host = ground (arith, h.same_host, h.local);
    local = ground (arith, h.same_host, h.local);
    client = ground (arith, h.same_host, h.local, h.client);
    server = ground (arith, h.same_host, h.local, h.server);
  }

  visit_all-kept :
      (c : Choice) (xs : List Interface) → IsLoopback c → IsLoopback (visit_all loopback false c xs)
  unfolding visit_all
  visit_all-kept c [] h = h
  visit_all-kept c (x ∷ xs) h = visit_all-kept (visit loopback false c x) xs (visit-kept c x h)

  visit-hit :
      (first : Bool) (c : Choice) (x : Interface)
      → (x.interface_address == c.server_addr) ≡ true
      → IsLoopback (visit loopback first c x)
  unfolding visit preselect check_same_host check_local
  visit-hit first c x e = record {
    same_host = ground (arith, e);
    local = ground (arith, e);
    client = ground (arith, e);
    server = ground (arith, e);
  }

  visit-miss :
      (first : Bool) (c : Choice) (x : Interface)
      → (x.interface_address == c.server_addr) ≡ false
      → ((visit loopback first c x).server_addr ≡ c.server_addr)
        × ((visit loopback first c x).is_same_host ≡ c.is_same_host)
        × (c.longest_prefix_match ≤ (visit loopback first c x).longest_prefix_match)
        × (c.is_same_host ≡ false
            → matches c.server_addr x ≡ true
            → x.network_mask ≤ (visit loopback first c x).longest_prefix_match)
  unfolding visit preselect check_same_host check_local
  visit-miss first c x e =
      (ground (arith, e), ground (arith, e), ground (arith, e), λ s m. ground (arith, e, s, m))

  visit_all-hit :
      (first : Bool) (c : Choice) (xs : List Interface)
      → has_address c.server_addr xs ≡ true
      → IsLoopback (visit_all loopback first c xs)
  unfolding visit_all
  visit_all-hit first c [] h = absurd (ground arith)
  visit_all-hit first c (x ∷ xs) h = elim (Bool-cases (x.interface_address == c.server_addr)) [
    | inl hit ↦ visit_all-kept (visit loopback first c x) xs (visit-hit first c x hit)
    | inr miss ↦
        let same = (visit-miss first c x miss).0 in
        let later : has_address c.server_addr xs ≡ true = ground (arith, miss, h) in
        visit_all-hit false (visit loopback first c x) xs
          (ap (λ (a : ℕ). has_address a xs) same ∙ later)
  ]

  -- The server is elsewhere, and the longest mask is that of an interface on its network, if any.
  pub record IsElsewhere (server low : ℕ) (xs : List Interface) (c : Choice) : Type 0 where
    pub other_host : c.is_same_host ≡ false
    pub server_kept : c.server_addr ≡ server
    pub grown : low ≤ c.longest_prefix_match
    pub within : AllWithin server c.longest_prefix_match xs

  visit_all-miss :
      (first : Bool) (c : Choice) (xs : List Interface)
      → c.is_same_host ≡ false
      → has_address c.server_addr xs ≡ false
      → IsElsewhere c.server_addr c.longest_prefix_match xs (visit_all loopback first c xs)
  unfolding visit_all
  visit_all-miss first c [] s h = record {
    other_host = s;
    server_kept = refl;
    grown = omega arith;
    within = tt;
  }
  visit_all-miss first c (x ∷ xs) s h =
      let miss : (x.interface_address == c.server_addr) ≡ false = ground (arith, h) in
      let later : has_address c.server_addr xs ≡ false = ground (arith, h) in
      let (same, host, more, mask) = visit-miss first c x miss in
      let c' = visit loopback first c x in
      let r =
        visit_all-miss false c' xs (host ∙ s) (ap (λ (a : ℕ). has_address a xs) same ∙ later) in
      record {
        other_host = r.other_host;
        server_kept = r.server_kept ∙ same;
        grown = omega (arith, more, r.grown);
        within = (
          λ m. omega (arith, mask s m, r.grown),
          subst (λ (a : ℕ). AllWithin a (visit_all loopback false c' xs).longest_prefix_match xs)
              same r.within,
        );
      }

  -- A local choice is the address of an interface on the server's network, with its mask.
  abbrev pub IsChosen : ℕ → List Interface → Choice → Type 0
  IsChosen server all c =
      c.is_local ≡ true
      → (x : Interface) × Memᴰ x all
        × (matches server x ≡ true)
        × (c.client_addr ≡ x.interface_address)
        × (c.longest_prefix_match ≡ x.network_mask)

  visit-IsChosen :
      (all : List Interface) (first : Bool) (c : Choice) (x : Interface)
      → Memᴰ x all
      → c.is_same_host ≡ false
      → (first && c.is_local) ≡ false
      → (x.interface_address == c.server_addr) ≡ false
      → IsChosen c.server_addr all c
      → IsChosen c.server_addr all (visit loopback first c x)
  unfolding visit preselect check_same_host check_local
  visit-IsChosen all first c x m s f e h =
      elim (Bool-cases (matches c.server_addr x && ltb c.longest_prefix_match x.network_mask)) [
        | inl better ↦ λ l. (
          x,
          m,
          ground (arith, better),
          ground (arith, better, s, e),
          ground (arith, better, s, e),
        )
        | inr worse ↦ λ l.
            let before : c.is_local ≡ true = ground (arith, worse, s, e, l) in
            let (y, my, match, client, mask) = h before in
            (
              y,
              my,
              match,
              ground (arith, worse, s, e, before, f, client),
              ground (arith, worse, s, e, before, f, mask),
            )
      ]

  visit_all-IsChosen :
      (all : List Interface) (first : Bool) (c : Choice) (xs : List Interface)
      → ((x : Interface) → Memᴰ x xs → Memᴰ x all)
      → c.is_same_host ≡ false
      → (first && c.is_local) ≡ false
      → has_address c.server_addr xs ≡ false
      → IsChosen c.server_addr all c
      → IsChosen c.server_addr all (visit_all loopback first c xs)
  unfolding visit_all
  visit_all-IsChosen all first c [] sub s f n h = h
  visit_all-IsChosen all first c (x ∷ xs) sub s f n h =
      let miss : (x.interface_address == c.server_addr) ≡ false = ground (arith, n) in
      let later : has_address c.server_addr xs ≡ false = ground (arith, n) in
      let (same, host, more, mask) = visit-miss first c x miss in
      let c' = visit loopback first c x in
      let h' = visit-IsChosen all first c x (sub x (Memᴰ.head refl)) s f miss h in
      let moved : IsChosen c'.server_addr all c' =
        subst (λ (a : ℕ). IsChosen a all c') (sym same) h' in
      subst (λ (a : ℕ). IsChosen a all (visit_all loopback false c' xs)) same
        (visit_all-IsChosen all false c' xs (λ y p. sub y (Memᴰ.tail p)) (host ∙ s) refl
          (ap (λ (a : ℕ). has_address a xs) same ∙ later) moved)

  -- If the server's address is one of the client's, both sides use the loopback address, and the
  -- result says that they are on the same host and local.
  get_client_ip_address-IsLoopback :
      (server client : ℕ) (xs : List Interface)
      → has_address server xs ≡ true
      → IsLoopback (get_client_ip_address loopback server client xs)
  unfolding get_client_ip_address
  get_client_ip_address-IsLoopback server client xs h = visit_all-hit true _ xs h

  -- If it is not, the server's address stays, the longest mask is at least that of every interface on
  -- the server's network, and a choice that is called local is the address of such an interface, with
  -- just this mask.
  pub get_client_ip_address-IsChosen :
      (server client : ℕ) (xs : List Interface)
      → has_address server xs ≡ false
      → let c = get_client_ip_address loopback server client xs in
        IsElsewhere server 0 xs c × IsChosen server xs c
  unfolding get_client_ip_address
  get_client_ip_address-IsChosen server client xs h =
      let c : Choice = record {
        server_addr = server;
        client_addr = client;
        is_same_host = false;
        is_local = false;
        longest_prefix_match = 0;
      } in
      (
        visit_all-miss true c xs refl h,
        visit_all-IsChosen xs true c xs (λ x m. m) refl refl h (λ l. absurd (ground (arith, l))),
      )
