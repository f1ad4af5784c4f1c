-- ===== src/Listen/Children.antt =====
-- The children that the server's loop forks, over any number of rounds.
use Prim.Native.String.{String}
use text.Mathlib.TextPositions.{eq_refl}
use tcp_implementation_over.Common.{
  ℕ, ◌+◌, ◌≤◌, ◌<◌, ◌≡◌, refl, sym, subst, ◌∙◌, true, false, Option, none, some, List, [], ◌∷◌,
  Memᴰ, arith, length, ◌⊎◌, inl, inr, Bool-cases, Option-cases,
}
use tcp_implementation_over.Clients.{ClientInfo, chk_request_retransmitted, add_client, on_request}
use tcp_implementation_over.Clients.Laws.{chk-add_client}
use tcp_implementation_over.Clients.Full.{used, has_room-ltb, used-add_client, length-add_client}
use tcp_implementation_over.Listen.{
  Ready, Selected, interrupted, ready, first_request, serve_round, child_of, server_loop,
}

abbrev pub Children : Type 0
Children = List (ℕ × String × ℕ)

-- No client has two children.
abbrev pub AreDistinct : Children → Type 0
AreDistinct [] = Unit
AreDistinct ((n, ip, port) ∷ xs) = ((m : ℕ) → ¬ Memᴰ (m, ip, port) xs) × AreDistinct xs

-- The client of a request is among the known ones, or has a child.
abbrev pub IsAnswered : List ClientInfo → Children → Option (ℕ × String × ℕ) → Type 0
IsAnswered cs children none = Unit
IsAnswered cs children (some (n, ip, port)) =
    (chk_request_retransmitted ip port cs ≡ true) ⊎ ((m : ℕ) × Memᴰ (m, ip, port) children)

-- So is each request that the rounds take.
abbrev pub AreAnswered : List ClientInfo → Children → List Selected → Type 0
AreAnswered cs children [] = Unit
AreAnswered cs children (interrupted ∷ ss) = AreAnswered cs children ss
AreAnswered cs children (ready rs ∷ ss) =
    IsAnswered cs children (first_request 0 rs) × AreAnswered cs children ss

-- What a round does: no child and the same clients, or a child for an unknown client.
pub record Forks (cs : List ClientInfo) (rs : List Ready) (n : ℕ) (ip : String) (port : ℕ)
    : Type 0 where
  pub took : first_request 0 rs ≡ some (n, ip, port)
  pub unknown : chk_request_retransmitted ip port cs ≡ false
  pub added : serve_round cs rs ≡ (add_client ip port cs, some n)

pub record ForksNone (cs : List ClientInfo) (rs : List Ready) : Type 0 where
  pub same : serve_round cs rs ≡ (cs, none)
  pub answered : (children : Children) → IsAnswered cs children (first_request 0 rs)

pub round-cases :
    (cs : List ClientInfo) (rs : List Ready)
    → ForksNone cs rs ⊎ ((n : ℕ) × (ip : String) × (port : ℕ) × Forks cs rs n ip port)
unfolding serve_round on_request
round-cases cs rs = elim (Option-cases (first_request 0 rs)) [
  | inl silent ↦ inl (record {
    same = rw silent refl;
    answered = λ children. subst (IsAnswered cs children) (sym silent) tt;
  })
  | inr ((n, ip, port), here) ↦ elim (Bool-cases (chk_request_retransmitted ip port cs)) [
    | inl old ↦ inl (record {
      same = rw (here, old) refl;
      answered = λ children. subst (IsAnswered cs children) (sym here) (inl old);
    })
    | inr new ↦
        inr (n, ip, port, record { took = here; unknown = new; added = rw (here, new) refl })
  ]
]

child_of-none : (o : Option (ℕ × String × ℕ)) (rest : Children) → child_of o none rest ≡ rest
child_of-none none rest = refl
child_of-none (some x) rest = refl

-- The loop behind such a round.
pub loop-none :
    (cs : List ClientInfo) (rs : List Ready) (ss : List Selected)
    → ForksNone cs rs
    → server_loop cs (ready rs ∷ ss) ≡ server_loop cs ss
unfolding server_loop
loop-none cs rs ss f = rw (f.same, child_of-none (first_request 0 rs) (server_loop cs ss).1) refl

pub loop-child :
    (cs : List ClientInfo) (rs : List Ready) (ss : List Selected) (n : ℕ) (ip : String) (port : ℕ)
    → Forks cs rs n ip port
    → server_loop cs (ready rs ∷ ss) ≡ (
        let (cs', children) = server_loop (add_client ip port cs) ss in
        (cs', (n, ip, port) ∷ children))
unfolding server_loop
loop-child cs rs ss n ip port f = rw (f.added, f.took) refl

known-stays :
    (ip ip' : String) (port port' : ℕ) (cs : List ClientInfo)
    → chk_request_retransmitted ip' port' cs ≡ true
    → chk_request_retransmitted ip' port' (add_client ip port cs) ≡ true
known-stays ip ip' port port' cs h = ground (arith, chk-add_client ip ip' port port' cs)

unknown-before :
    (ip ip' : String) (port port' : ℕ) (cs : List ClientInfo)
    → chk_request_retransmitted ip' port' (add_client ip port cs) ≡ false
    → chk_request_retransmitted ip' port' cs ≡ false
unknown-before ip ip' port port' cs h = ground (arith, chk-add_client ip ip' port port' cs)

added-known :
    (ip : String) (port : ℕ) (cs : List ClientInfo)
    → used cs < length cs
    → chk_request_retransmitted ip port (add_client ip port cs) ≡ true
added-known ip port cs room =
    ground (arith, chk-add_client ip ip port port cs, has_room-ltb cs, eq_refl ip, room)

uncons : (x y : ℕ × String × ℕ) (xs : Children) → Memᴰ x (y ∷ xs) → (x ≡ y) ⊎ Memᴰ x xs
uncons x y xs (Memᴰ.head e) = inl e
uncons x y xs (Memᴰ.tail i) = inr i

-- Only a client that is unknown gets a child.
child-unknown :
    (cs : List ClientInfo) (ss : List Selected) (m : ℕ) (ip : String) (port : ℕ)
    → Memᴰ (m, ip, port) (server_loop cs ss).1
    → chk_request_retransmitted ip port cs ≡ false
unfolding server_loop
child-unknown cs [] m ip port i = elim i [ ]
child-unknown cs (interrupted ∷ ss) m ip port i = child-unknown cs ss m ip port i
child-unknown cs (ready rs ∷ ss) m ip port i = elim (round-cases cs rs) [
  | inl f ↦
      child-unknown cs ss m ip port (
        subst (λ (r : List ClientInfo × Children). Memᴰ (m, ip, port) r.1) (loop-none cs rs ss f) i)
  | inr (n, ip', port', f) ↦
      elim (uncons (m, ip, port) (n, ip', port') (server_loop (add_client ip' port' cs) ss).1
        (subst (λ (r : List ClientInfo × Children). Memᴰ (m, ip, port) r.1)
          (loop-child cs rs ss n ip' port' f) i)) [
            | inl e ↦
                subst (λ (x : ℕ × String × ℕ). chk_request_retransmitted x.1 x.2 cs ≡ false) (sym e)
                  f.unknown
            | inr later ↦
                unknown-before ip' ip port' port cs
                  (child-unknown (add_client ip' port' cs) ss m ip port later)
          ]
]

pub loop-AreDistinct :
    (cs : List ClientInfo) (ss : List Selected)
    → used cs + length (server_loop cs ss).1 ≤ length cs
    → AreDistinct (server_loop cs ss).1
unfolding server_loop
loop-AreDistinct cs [] room = tt
loop-AreDistinct cs (interrupted ∷ ss) room = loop-AreDistinct cs ss room
loop-AreDistinct cs (ready rs ∷ ss) room = elim (round-cases cs rs) [
  | inl f ↦
      subst (λ (r : List ClientInfo × Children). AreDistinct r.1) (sym (loop-none cs rs ss f))
        (loop-AreDistinct cs ss (
          subst (λ (r : List ClientInfo × Children). used cs + length r.1 ≤ length cs)
            (loop-none cs rs ss f) room))
  | inr (n, ip, port, f) ↦
      let cs' = add_client ip port cs in
      let rest = (server_loop cs' ss).1 in
      let room' : used cs + length ((n, ip, port) ∷ rest) ≤ length cs =
        subst (λ (r : List ClientInfo × Children). used cs + length r.1 ≤ length cs)
          (loop-child cs rs ss n ip port f) room in
      let more =
        loop-AreDistinct cs' ss
          (ground (arith, room', used-add_client ip port cs, length-add_client ip port cs)) in
      subst (λ (r : List ClientInfo × Children). AreDistinct r.1)
        (sym (loop-child cs rs ss n ip port f))
        (
          λ m i. cc (sym (child-unknown cs' ss m ip port i) ∙ added-known ip port cs (omega arith)),
          more,
        )
]
