-- ===== src/Listen/Locate.antt =====
-- Where the child of the server finds its client.
use Prim.Native.String.{String}
use text.Mathlib.Text.{◌==◌ as str_eq}
use tcp_implementation_over.Common.{
  ℕ, ◌+◌, ◌≡◌, refl, sym, ap, ◌∙◌, Bool, true, false, not, none, some, List, [], ◌∷◌, ◌++◌, ◌||◌,
  ◌==◌, arith, length, get_elem?, bit_and, inl, inr, Bool-cases,
}
use mathlib.Core.List.{append-nil}
use tcp_implementation_over.Handshake.{ServerInterface, Location, locate}
use tcp_implementation_over.Listen.{child_address, dont_route}

-- The interface has the client's address, or the client is on its network.
abbrev pub is_near : String → ℕ → ServerInterface → Bool
is_near ip client x = str_eq x.server_ip ip || bit_and client x.net_mask == x.subnet_addr

abbrev pub AllFar : String → ℕ → List ServerInterface → Type 0
AllFar ip client [] = Unit
AllFar ip client (x ∷ xs) = (is_near ip client x ≡ false) × AllFar ip client xs

or-false₁ : (a b : Bool) → (a || b) ≡ false → a ≡ false
or-false₁ true b e = e
or-false₁ false b e = refl

or-false₂ : (a b : Bool) → (a || b) ≡ false → b ≡ false
or-false₂ true b e = ground (arith, e)
or-false₂ false b e = e

locate-far :
    (ip : String) (client k : ℕ) (before after : List ServerInterface)
    → AllFar ip client before
    → locate ip client k (before ++ after) ≡ locate ip client (k + length before) after
unfolding locate
locate-far ip client k [] after f = ap (λ (n : ℕ). locate ip client n after) (omega arith)
locate-far ip client k (x ∷ xs) after (is_far, f) =
    rw
      (
        or-false₁ (str_eq x.server_ip ip) (bit_and client x.net_mask == x.subnet_addr) is_far,
        or-false₂ (str_eq x.server_ip ip) (bit_and client x.net_mask == x.subnet_addr) is_far,
      )
      (locate-far ip client (k + 1) xs after f
        ∙ ap (λ (n : ℕ). locate ip client n after) (omega arith))

pub get_elem?-behind {ℓ} :
    {A : Type ℓ}
    → (before : List A) (x : A) (after : List A)
    → get_elem? (before ++ x ∷ after) (length before) ≡ some x
get_elem?-behind [] x after = refl
get_elem?-behind (y ∷ ys) x after = get_elem?-behind ys x after

get_elem?-length {ℓ} : {A : Type ℓ} → (xs : List A) → get_elem? xs (length xs) ≡ none
get_elem?-length [] = refl
get_elem?-length (x ∷ xs) = get_elem?-length xs

-- Where a client stands that is near to an interface.
abbrev pub found : ℕ → Bool → Location
found k same_host = record {
  interface_count = k;
  is_local = not same_host;
  is_same_host = same_host;
}

locate-here :
    (ip : String) (client k : ℕ) (x : ServerInterface) (after : List ServerInterface)
    → is_near ip client x ≡ true
    → locate ip client k (x ∷ after) ≡ found k (str_eq x.server_ip ip)
unfolding locate
locate-here ip client k x after near = elim (Bool-cases (str_eq x.server_ip ip)) [
  | inl same ↦ rw same refl
  | inr differ ↦
      let e : (bit_and client x.net_mask == x.subnet_addr) ≡ true =
        sym (ap (λ (b : Bool). b || (bit_and client x.net_mask == x.subnet_addr)) differ) ∙ near in
      rw (differ, e) refl
]

-- Behind interfaces that are far from the client, an interface that has its address or has it on its
-- network is the one found, with exactly one of the two flags set, and its address is the one that the
-- socket of the child is bound to.
pub locate-IsNear :
    (ip : String) (client : ℕ) (before : List ServerInterface) (x : ServerInterface)
    (after : List ServerInterface)
    → AllFar ip client before
    → is_near ip client x ≡ true
    → (locate ip client 0 (before ++ x ∷ after) ≡ found (length before) (str_eq x.server_ip ip))
      × (child_address (before ++ x ∷ after) (locate ip client 0 (before ++ x ∷ after))
          ≡ some x.server_ip)
unfolding child_address
locate-IsNear ip client before x after far near =
    let e : locate ip client 0 (before ++ x ∷ after)
        ≡ found (length before) (str_eq x.server_ip ip) =
      locate-far ip client 0 before (x ∷ after) far
      ∙ ap (λ (n : ℕ). locate ip client n (x ∷ after)) (omega arith)
      ∙ locate-here ip client (length before) x after near in
    (e, rw (e, get_elem?-behind before x after) refl)

-- For a client that is far from all interfaces, the child takes its address from an entry behind the
-- last one that is filled.
pub child_address-far :
    (ip : String) (client : ℕ) (xs : List ServerInterface)
    → AllFar ip client xs
    → child_address xs (locate ip client 0 xs) ≡ none
unfolding child_address locate
child_address-far ip client xs far =
    let e : locate ip client 0 xs ≡ locate ip client (length xs) [] =
      ap (locate ip client 0) (sym (append-nil xs))
      ∙ locate-far ip client 0 xs [] far
      ∙ ap (λ (n : ℕ). locate ip client n []) (omega arith) in
    rw (e, get_elem?-length xs) refl

-- Wherever the client is, the child sets SO_DONTROUTE to 0.
pub dont_route-locate :
    (ip : String) (client k : ℕ) (xs : List ServerInterface)
    → dont_route (locate ip client k xs) ≡ some 0
unfolding dont_route locate
dont_route-locate ip client k [] = refl
dont_route-locate ip client k (x ∷ xs) = elim (Bool-cases (str_eq x.server_ip ip)) [
  | inl same ↦ rw same refl
  | inr differ ↦ elim (Bool-cases (bit_and client x.net_mask == x.subnet_addr)) [
    | inl local ↦ rw (differ, local) refl
    | inr other ↦ rw (differ, other) (dont_route-locate ip client (k + 1) xs)
  ]
]
