-- ===== src/Address/Equal.antt =====
-- address.go: what equality of addresses means.
use netcode_go.Prelude.{ℕ, ◌≡◌, ◌⊎◌, refl, arith, true, false, List, [], ◌∷◌}
use netcode_go.Address.{Address, array_eq, equal, address_none, address_ipv4, address_ipv6}

pub array_eq_sound : (xs ys : List ℕ) → array_eq xs ys ≡ true → xs ≡ ys
unfolding array_eq
array_eq_sound [] [] h = refl
array_eq_sound [] (b ∷ ys) h = cc
array_eq_sound (a ∷ xs) [] h = cc
array_eq_sound (a ∷ xs) (b ∷ ys) h = ground (arith, array_eq_sound xs ys)

pub array_eq_refl : (xs : List ℕ) → array_eq xs xs ≡ true
unfolding array_eq
array_eq_refl [] = refl
array_eq_refl (a ∷ xs) = ground (arith, array_eq_refl xs)

-- The part of an address that its type makes meaningful.
abbrev pub SameHost : Address → Address → Type 0
SameHost a b =
    ((a.type ≡ address_ipv4) × (a.ipv4 ≡ b.ipv4)) ⊎ ((a.type ≡ address_ipv6) × (a.ipv6 ≡ b.ipv6))

pub equal_sound :
    (a b : Address) → equal a b ≡ true → (a.type ≡ b.type) × (a.port ≡ b.port) × SameHost a b
unfolding equal
equal_sound a b h = ground (arith, array_eq_sound a.ipv4 b.ipv4, array_eq_sound a.ipv6 b.ipv6)

pub equal_complete :
    (a b : Address) → a.type ≡ b.type → a.port ≡ b.port → SameHost a b → equal a b ≡ true
unfolding equal
equal_complete a b t p h = ground (arith, array_eq_refl b.ipv4, array_eq_refl b.ipv6)

pub equal_trans : (a b c : Address) → equal a b ≡ true → equal b c ≡ true → equal a c ≡ true
equal_trans a b c h k = ground (arith, equal_sound a b, equal_sound b c, equal_complete a c)

pub equal_sym_true : (a b : Address) → equal a b ≡ true → equal b a ≡ true
equal_sym_true a b h = ground (arith, equal_sound a b, equal_complete b a)

-- An address of no type equals nothing, itself included.
pub equal_none : (a b : Address) → a.type ≡ address_none → equal a b ≡ false
unfolding equal
equal_none a b h = ground arith

-- An address of the other two types equals itself.
pub equal_self :
    (a : Address) → (a.type ≡ address_ipv4) ⊎ (a.type ≡ address_ipv6) → equal a a ≡ true
equal_self a h = ground (arith, equal_complete a a)
