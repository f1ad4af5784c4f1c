-- ===== src/Earlier/Forks.antt =====
-- The children of the earlier server, and those of server.c.
use Prim.Native.String.{String}
use tcp_implementation_over.Common.{
  ℕ, ◌≤◌, ◌≡◌, refl, ap, ◌∙◌, Option, none, some, List, [], ◌∷◌, arith, length, Bool-cases, inl,
  inr,
}
use tcp_implementation_over.Clients.{
  ClientInfo, no_clients, is_client, chk_request_retransmitted, on_request,
}
use tcp_implementation_over.Clients.Full.{used}
use tcp_implementation_over.Listen.{
  Selected, interrupted, ready, first_request, on_first, serve_round, child_of, server_loop,
}
use tcp_implementation_over.Earlier.{add_to_each_empty, child_for, earlier_loop}

-- The requests that the rounds take.
abbrev take_first : Option (ℕ × String × ℕ) → List (ℕ × String × ℕ) → List (ℕ × String × ℕ)
take_first none rest = rest
take_first (some x) rest = x ∷ rest

abbrev taken : List Selected → List (ℕ × String × ℕ)
taken [] = []
taken (interrupted ∷ ss) = taken ss
taken (ready rs ∷ ss) = take_first (first_request 0 rs) (taken ss)

child_for-nobody :
    (o : Option (ℕ × String × ℕ)) (rest : List (ℕ × String × ℕ))
    → child_for no_clients o rest ≡ take_first o rest
unfolding chk_request_retransmitted is_client
child_for-nobody none rest = refl
child_for-nobody (some (count, ip, port)) rest = refl

earlier_loop-taken : (ss : List Selected) → earlier_loop no_clients ss ≡ taken ss
unfolding earlier_loop
earlier_loop-taken [] = refl
earlier_loop-taken (interrupted ∷ ss) = earlier_loop-taken ss
earlier_loop-taken (ready rs ∷ ss) =
    ap (child_for no_clients (first_request 0 rs)) (earlier_loop-taken ss)
    ∙ child_for-nobody (first_request 0 rs) (taken ss)

-- The children of server.c are among the requests taken.
length-child_of :
    (cs : List ClientInfo) (o : Option (ℕ × String × ℕ)) (a b : List (ℕ × String × ℕ))
    → length a ≤ length b
    → length (child_of o (on_first cs o).1 a) ≤ length (take_first o b)
unfolding on_request
length-child_of cs none a b h = h
length-child_of cs (some (count, ip, port)) a b h =
    elim (Bool-cases (chk_request_retransmitted ip port cs)) [
      | inl known ↦ rw known (omega (arith, h))
      | inr new ↦ rw new (omega (arith, h))
    ]

length-server_loop :
    (cs : List ClientInfo) (ss : List Selected) → length (server_loop cs ss).1 ≤ length (taken ss)
unfolding server_loop serve_round
length-server_loop cs [] = omega arith
length-server_loop cs (interrupted ∷ ss) = length-server_loop cs ss
length-server_loop cs (ready rs ∷ ss) =
    length-child_of cs (first_request 0 rs) _ (taken ss)
      (length-server_loop (serve_round cs rs).0 ss)

-- Whatever `select` returns: the earlier server forks a child for each request that a round takes,
-- repeated ones too, and so at least as many children as server.c.
earlier_loop-forks :
    (ss : List Selected)
    → (earlier_loop no_clients ss ≡ taken ss)
      × (length (server_loop no_clients ss).1 ≤ length (earlier_loop no_clients ss))
earlier_loop-forks ss = (
  earlier_loop-taken ss,
  omega (
    arith,
    length-server_loop no_clients ss,
    ap (λ (l : List (ℕ × String × ℕ)). length l) (earlier_loop-taken ss),
  ),
)

-- Once the earlier server puts a client into its list, no entry is empty.
add_to_each_empty-fills :
    (ip : String) (port : ℕ) (cs : List ClientInfo)
    → used (add_to_each_empty ip port cs) ≡ length cs
unfolding add_to_each_empty
add_to_each_empty-fills ip port [] = refl
add_to_each_empty-fills ip port (c ∷ cs) = ground (arith, add_to_each_empty-fills ip port cs)
