-- ===== src/Listen/Answered.antt =====
-- Each client that asks the server gets a child, and only one.
use Prim.Native.String.{String}
use text.Mathlib.TextEquality.{eq_iff}
use tcp_implementation_over.Common.{
  ℕ, ◌≤◌, ◌≡◌, refl, sym, subst, ap₂, ◌∙◌, true, false, Option, none, some, List, [], ◌∷◌, Memᴰ,
  arith, length, ◌⊎◌, inl, inr, Bool-cases,
}
use tcp_implementation_over.Clients.{
  ClientInfo, is_client, no_clients, max_clients, chk_request_retransmitted, add_client,
}
use tcp_implementation_over.Clients.Laws.{same_client, chk-add_client}
use tcp_implementation_over.Listen.{Selected, interrupted, ready, first_request, server_loop}
use tcp_implementation_over.Listen.Children.{
  Children, AreDistinct, IsAnswered, AreAnswered, round-cases, loop-none, loop-child,
  loop-AreDistinct,
}

added-or_before :
    (n : ℕ) (ip ip' : String) (port port' : ℕ) (cs : List ClientInfo) (rest : Children)
    → chk_request_retransmitted ip' port' (add_client ip port cs) ≡ true
    → (chk_request_retransmitted ip' port' cs ≡ true)
      ⊎ ((m : ℕ) × Memᴰ (m, ip', port') ((n, ip, port) ∷ rest))
added-or_before n ip ip' port port' cs rest h =
    elim (Bool-cases (chk_request_retransmitted ip' port' cs)) [
      | inl before ↦ inl before
      | inr new ↦
          let same : same_client ip port ip' port' ≡ true =
            ground (arith, chk-add_client ip ip' port port' cs, h, new) in
          let text : ip ≡ ip' = ground (arith, eq_iff ip ip', same) in
          let number : port ≡ port' = ground (arith, same) in
          inr (n, Memᴰ.head (sym (ap₂ (λ (i : String) (p : ℕ). (n, i, p)) text number)))
    ]

IsAnswered-child :
    (n : ℕ) (ip : String) (port : ℕ) (cs : List ClientInfo) (rest : Children)
    (o : Option (ℕ × String × ℕ))
    → IsAnswered (add_client ip port cs) rest o
    → IsAnswered cs ((n, ip, port) ∷ rest) o
IsAnswered-child n ip port cs rest none a = tt
IsAnswered-child n ip port cs rest (some (k, ip', port')) (inl known) =
    added-or_before n ip ip' port port' cs rest known
IsAnswered-child n ip port cs rest (some (k, ip', port')) (inr (m, i)) = inr (m, Memᴰ.tail i)

AreAnswered-child :
    (n : ℕ) (ip : String) (port : ℕ) (cs : List ClientInfo) (rest : Children) (ss : List Selected)
    → AreAnswered (add_client ip port cs) rest ss
    → AreAnswered cs ((n, ip, port) ∷ rest) ss
AreAnswered-child n ip port cs rest [] a = tt
AreAnswered-child n ip port cs rest (interrupted ∷ ss) a = AreAnswered-child n ip port cs rest ss a
AreAnswered-child n ip port cs rest (ready rs ∷ ss) a = (
  IsAnswered-child n ip port cs rest (first_request 0 rs) a.0,
  AreAnswered-child n ip port cs rest ss a.1,
)

loop-AreAnswered :
    (cs : List ClientInfo) (ss : List Selected) → AreAnswered cs (server_loop cs ss).1 ss
unfolding server_loop
loop-AreAnswered cs [] = tt
loop-AreAnswered cs (interrupted ∷ ss) = loop-AreAnswered cs ss
loop-AreAnswered cs (ready rs ∷ ss) = elim (round-cases cs rs) [
  | inl f ↦ (
    f.answered (server_loop cs (ready rs ∷ ss)).1,
    subst (λ (r : List ClientInfo × Children). AreAnswered cs r.1 ss) (sym (loop-none cs rs ss f))
        (loop-AreAnswered cs ss),
  )
  | inr (n, ip, port, f) ↦
      let cs' = add_client ip port cs in
      let rest = (server_loop cs' ss).1 in
      subst (λ (r : List ClientInfo × Children). AreAnswered cs r.1 (ready rs ∷ ss))
        (sym (loop-child cs rs ss n ip port f))
        (
          subst (IsAnswered cs ((n, ip, port) ∷ rest)) (sym f.took) (inr (n, Memᴰ.head refl)),
          AreAnswered-child n ip port cs rest ss (loop-AreAnswered cs' ss),
        )
]

-- The client of a request has a child.
abbrev HasChild : Children → Option (ℕ × String × ℕ) → Type 0
HasChild children none = Unit
HasChild children (some (n, ip, port)) = (m : ℕ) × Memᴰ (m, ip, port) children

-- So has the client of each request that the rounds take.
abbrev pub HaveChildren : Children → List Selected → Type 0
HaveChildren children [] = Unit
HaveChildren children (interrupted ∷ ss) = HaveChildren children ss
HaveChildren children (ready rs ∷ ss) =
    HasChild children (first_request 0 rs) × HaveChildren children ss

none_known : (ip : String) (port : ℕ) → chk_request_retransmitted ip port no_clients ≡ false
unfolding chk_request_retransmitted is_client
none_known ip port = refl

answered-HasChild :
    (children : Children) (o : Option (ℕ × String × ℕ))
    → IsAnswered no_clients children o
    → HasChild children o
answered-HasChild children none a = tt
answered-HasChild children (some (n, ip, port)) (inl known) =
    absurd (cc (sym known ∙ none_known ip port))
answered-HasChild children (some (n, ip, port)) (inr child) = child

answered-HaveChildren :
    (children : Children) (ss : List Selected)
    → AreAnswered no_clients children ss
    → HaveChildren children ss
answered-HaveChildren children [] a = tt
answered-HaveChildren children (interrupted ∷ ss) a = answered-HaveChildren children ss a
answered-HaveChildren children (ready rs ∷ ss) a =
    (answered-HasChild children (first_request 0 rs) a.0, answered-HaveChildren children ss a.1)

-- Whatever `select` returns, however often: if the server forks at most twenty children, each client of
-- a request that a round takes has a child, and no client has two.
pub server_loop-one_child :
    (ss : List Selected)
    → let children = (server_loop no_clients ss).1 in
      length children ≤ max_clients → HaveChildren children ss × AreDistinct children
server_loop-one_child ss few = (
  answered-HaveChildren (server_loop no_clients ss).1 ss (loop-AreAnswered no_clients ss),
  loop-AreDistinct no_clients ss (omega (arith, few)),
)
