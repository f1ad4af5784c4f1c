-- ===== src/Clients/Full.antt =====
-- How the list of known clients fills up: `main` adds to it, and never removes.
use Prim.Native.String.{String}
use text.Mathlib.TextPositions.{eq_refl}
use tcp_implementation_over.Common.{
  ℕ, suc, ◌≤◌, ◌<◌, ◌≡◌, refl, false, List, [], ◌∷◌, arith, length, ltb, if◌then◌else◌,
}
use tcp_implementation_over.Clients.{ClientInfo, chk_request_retransmitted, add_client, on_request}
use tcp_implementation_over.Clients.Laws.{has_room, chk-add_client}

-- How many entries are taken.
abbrev pub used : List ClientInfo → ℕ
used [] = 0
used (c ∷ cs) = if c.in_use then suc (used cs) else used cs

used-le-length : (cs : List ClientInfo) → used cs ≤ length cs
used-le-length [] = omega arith
used-le-length (c ∷ cs) = ground (arith, used-le-length cs)

pub has_room-ltb : (cs : List ClientInfo) → has_room cs ≡ ltb (used cs) (length cs)
has_room-ltb [] = refl
has_room-ltb (c ∷ cs) = ground (arith, has_room-ltb cs, used-le-length cs)

add_client-full :
    (ip : String) (port : ℕ) (cs : List ClientInfo)
    → has_room cs ≡ false
    → add_client ip port cs ≡ cs
unfolding add_client
add_client-full ip port [] h = refl
add_client-full ip port (c ∷ cs) h = ground (arith, add_client-full ip port cs)

pub used-add_client :
    (ip : String) (port : ℕ) (cs : List ClientInfo)
    → used (add_client ip port cs) ≡ (if has_room cs then suc (used cs) else used cs)
unfolding add_client
used-add_client ip port [] = refl
used-add_client ip port (c ∷ cs) = ground (arith, used-add_client ip port cs)

pub length-add_client :
    (ip : String) (port : ℕ) (cs : List ClientInfo) → length (add_client ip port cs) ≡ length cs
unfolding add_client
length-add_client ip port [] = refl
length-add_client ip port (c ∷ cs) = ground (arith, length-add_client ip port cs)

-- While an entry is empty, a request of a new client forks one child, and takes one entry; the
-- same request again forks none, and changes nothing.
pub on_request-twice :
    (ip : String) (port : ℕ) (cs : List ClientInfo)
    → used cs < length cs
    → let (cs', forked) = on_request ip port cs in
      (on_request ip port cs' ≡ (cs', false))
      × (used cs' ≡ (if forked then suc (used cs) else used cs))
      × (length cs' ≡ length cs)
unfolding on_request
on_request-twice ip port cs h = ground (
  arith,
  has_room-ltb cs,
  eq_refl ip,
  chk-add_client ip ip port port cs,
  used-add_client ip port cs,
  length-add_client ip port cs,
)

-- Requests one behind the other, with how many children are forked.
unfoldable pub serve : List ClientInfo → List (String × ℕ) → List ClientInfo × ℕ
serve cs [] = (cs, 0)
serve cs ((ip, port) ∷ rs) =
    let (cs', forked) = on_request ip port cs in
    let (cs'', n) = serve cs' rs in (cs'', if forked then suc n else n)

abbrev pub AllUnknown : List ClientInfo → List (String × ℕ) → Type 0
AllUnknown cs [] = Unit
AllUnknown cs ((ip, port) ∷ rs) = (chk_request_retransmitted ip port cs ≡ false) × AllUnknown cs rs

-- Once all entries are taken, a client that is not among them is never learnt: each of its
-- requests forks one more child, repeated ones too.
pub serve-full :
    (cs : List ClientInfo) (rs : List (String × ℕ))
    → used cs ≡ length cs
    → AllUnknown cs rs
    → serve cs rs ≡ (cs, length rs)
unfolding serve on_request
serve-full cs [] h u = refl
serve-full cs ((ip, port) ∷ rs) h u =
    ground (arith, has_room-ltb cs, add_client-full ip port cs, serve-full cs rs h u.1)
