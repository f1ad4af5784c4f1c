-- ===== src/Listen/Sockets.antt =====
-- What the server binds: an entry and a socket for each interface.
use Prim.Native.String.{String}
use tcp_implementation_over.Common.{
  ℕ, subst, ◌+◌, ◌≤◌, ◌<◌, ◌≡◌, refl, ap, Bool, true, false, List, [], ◌∷◌, ◌⊎◌, inl, inr, ◌&&◌,
  arith, length, ltb, dec_lt, dec_le, Bool-cases, bit_and,
}
use tcp_implementation_over.Interface.{Interface}
use tcp_implementation_over.Handshake.{ServerInterface}
use tcp_implementation_over.Listen.{
  Bound, Binding, complete, exits, out_of_bounds, SocketCall, open_socket, reuse_address,
  bind_socket, bind_interface, add_bound, bind_from, bind_server_to_unicast_interfaces,
}

-- The calls for the interface `i` succeed, or one of them fails.
abbrev pub Works : (ℕ → SocketCall → Bool) → ℕ → Type 0
Works succeeds i = (c : SocketCall) → succeeds i c ≡ true

abbrev pub Fails : (ℕ → SocketCall → Bool) → ℕ → Type 0
Fails succeeds i = (c : SocketCall) × (succeeds i c ≡ false)

checked_calls : (succeeds : ℕ → SocketCall → Bool) (i : ℕ) → Works succeeds i ⊎ Fails succeeds i
checked_calls succeeds i = elim (Bool-cases (succeeds i open_socket)) [
  | inr bad ↦ inr (open_socket, bad)
  | inl a ↦ elim (Bool-cases (succeeds i reuse_address)) [
    | inr bad ↦ inr (reuse_address, bad)
    | inl b ↦ elim (Bool-cases (succeeds i bind_socket)) [
      | inr bad ↦ inr (bind_socket, bad)
      | inl d ↦ inl (all a b d)
    ]
  ]
]
  where
    all :
        succeeds i open_socket ≡ true
        → succeeds i reuse_address ≡ true
        → succeeds i bind_socket ≡ true
        → Works succeeds i
    all a b d open_socket = a
    all a b d reuse_address = b
    all a b d bind_socket = d

module _ (to_text : ℕ → String) (htons : ℕ → ℕ) (server_port : ℕ) where
  -- The entry of an interface, and the address and port of its socket.
  abbrev pub IsBound : Interface → ServerInterface → ℕ × ℕ → Type 0
  IsBound x e a =
      (e.server_ip ≡ to_text x.interface_address)
      × (e.net_mask ≡ x.network_mask)
      × (e.subnet_addr ≡ bit_and x.interface_address x.network_mask)
      × (a ≡ (x.interface_address, htons server_port))

  abbrev pub AreBound : List Interface → List ServerInterface → List (ℕ × ℕ) → Type 0
  AreBound [] [] [] = Unit
  AreBound (x ∷ xs) (e ∷ es) (a ∷ as') = IsBound x e a × AreBound xs es as'
  AreBound _ _ _ = ⊥

  module _ (succeeds : ℕ → SocketCall → Bool) where
    -- How the loop over these interfaces ends, the first of which has the number `i`.
    abbrev pub Ends : ℕ → List Interface → Binding → Type 0
    Ends i xs r =
        ((b : Bound) × (r ≡ complete b)
          × (i + length xs ≤ 20)
          × ((j : ℕ) → i ≤ j → j < i + length xs → Works succeeds j)
          × AreBound xs b.entries b.addresses)
        ⊎ ((k : ℕ) × (r ≡ exits)
            × (i ≤ k)
            × (k < 20)
            × (k < i + length xs)
            × Fails succeeds k
            × ((j : ℕ) → i ≤ j → j < k → Works succeeds j))
        ⊎ ((r ≡ out_of_bounds)
            × (20 < i + length xs)
            × ((j : ℕ) → i ≤ j → j < 20 → Works succeeds j))

    from_next :
        (i : ℕ) (P : ℕ → Type 0)
        → P i
        → (n : ℕ) → ((j : ℕ) → i + 1 ≤ j → j < n → P j)
        → (j : ℕ) → i ≤ j
        → j < n
        → P j
    from_next i P here n next j lo hi = elim (dec_le (i + 1) j) [
      | yes up ↦ next j up hi
      | no low ↦ let same : i ≡ j = omega (arith, lo, low) in subst P same here
    ]

    abbrev calls_succeed : ℕ → Bool
    calls_succeed i = succeeds i open_socket && succeeds i reuse_address && succeeds i bind_socket

    calls_succeed-Works : (i : ℕ) → Works succeeds i → calls_succeed i ≡ true
    calls_succeed-Works i w = rw (w open_socket, w reuse_address, w bind_socket) refl

    calls_succeed-Fails : (i : ℕ) → Fails succeeds i → calls_succeed i ≡ false
    calls_succeed-Fails i (open_socket, bad) = rw bad refl
    calls_succeed-Fails i (reuse_address, bad) = ground (arith, bad)
    calls_succeed-Fails i (bind_socket, bad) = ground (arith, bad)

    next-Ends :
        (i : ℕ) (x : Interface) (xs : List Interface) (r : Binding)
        → i < 20
        → Works succeeds i
        → Ends (i + 1) xs r
        → Ends i (x ∷ xs) (add_bound to_text htons server_port succeeds x r)
    unfolding bind_interface
    next-Ends i x xs r low here (inl (b, e, fits, all, bound)) = inl (
      _,
      ap (add_bound to_text htons server_port succeeds x) e,
      omega (arith, fits),
      (λ j lo hi. from_next i (Works succeeds) here _ all j lo (omega (arith, hi))),
      ((refl, refl, refl, refl), bound),
    )
    next-Ends i x xs r low here (inr (inl (k, e, lo, hi, inside, bad, before))) = inr (
        inl (
          k,
          ap (add_bound to_text htons server_port succeeds x) e,
          omega (arith, lo),
          hi,
          omega (arith, inside),
          bad,
          from_next i (Works succeeds) here k before,
        ))
    next-Ends i x xs r low here (inr (inr (e, past, before))) = inr (
        inr (
          ap (add_bound to_text htons server_port succeeds x) e,
          omega (arith, past),
          from_next i (Works succeeds) here 20 before,
        ))

    bind_from-Ends :
        (i : ℕ) (xs : List Interface)
        → i ≤ 20
        → Ends i xs (bind_from to_text htons server_port succeeds i xs)
    unfolding bind_from
    bind_from-Ends i [] h = inl (
      record { entries = []; addresses = [] },
      refl,
      omega (arith, h),
      (λ j lo hi. absurd (omega (arith, lo, hi))),
      tt,
    )
    bind_from-Ends i (x ∷ xs) h = elim (dec_lt i 20) [
      | no full ↦
          let test : ltb i 20 ≡ false = ground (arith, full) in
          rw test
            (inr (inr (refl, omega (arith, full), λ j lo hi. absurd (omega (arith, full, lo, hi)))))
      | yes room ↦
          let test : ltb i 20 ≡ true = ground (arith, room) in
          elim (checked_calls succeeds i) [
            | inl here ↦
                rw (test, calls_succeed-Works i here)
                  (next-Ends i x xs (bind_from to_text htons server_port succeeds (i + 1) xs) room
                    here (bind_from-Ends (i + 1) xs (omega (arith, room))))
            | inr bad ↦
                rw (test, calls_succeed-Fails i bad)
                  (inr (
                    inl (
                      i,
                      refl,
                      omega arith,
                      room,
                      omega arith,
                      bad,
                      λ j lo hi. absurd (omega (arith, lo, hi)),
                    )))
          ]
    ]

    -- The server has bound its sockets if there are up to twenty interfaces and all calls for them succeed:
    -- each interface then has its entry, with its address, its mask and its subnet, and a socket on its
    -- address and the port of the server, in order. It exits at the first of the first twenty interfaces
    -- for which a call fails; and if there are more than twenty and no call for the first twenty fails, it
    -- writes behind the array.
    pub bind_server_to_unicast_interfaces-Ends :
        (xs : List Interface)
        → Ends 0 xs (bind_server_to_unicast_interfaces to_text htons server_port succeeds xs)
    unfolding bind_server_to_unicast_interfaces
    bind_server_to_unicast_interfaces-Ends xs = bind_from-Ends 0 xs (omega arith)
