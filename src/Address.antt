-- ===== src/Address.antt =====
-- address.go: addresses and their equality.
pub mod Equal
pub mod Parse
pub mod Ports
pub mod Conversion
use netcode_go.Prelude.{
  ℕ, Bool, true, false, not, ◌&&◌, List, [], ◌∷◌, Bytes, replicate, ◌==◌, if◌then◌else◌,
}

abbrev pub address_none : ℕ
address_none = 0

abbrev pub address_ipv4 : ℕ
address_ipv4 = 1

abbrev pub address_ipv6 : ℕ
address_ipv6 = 2

-- `Address`: four bytes, eight 16-bit groups.
pub record Address : Type 0 where
  pub type : ℕ
  pub ipv4 : Bytes
  pub ipv6 : List ℕ
  pub port : ℕ

-- `Address{}`
abbrev pub no_address : Address
no_address = record {
  type = address_none;
  ipv4 = 0 ∷ 0 ∷ 0 ∷ 0 ∷ [];
  ipv6 = 0 ∷ 0 ∷ 0 ∷ 0 ∷ 0 ∷ 0 ∷ 0 ∷ 0 ∷ [];
  port = 0;
}

-- Equality of arrays of bytes or words.
unfoldable pub array_eq : List ℕ → List ℕ → Bool
array_eq [] [] = true
array_eq (a ∷ xs) (b ∷ ys) = a == b && array_eq xs ys
array_eq _ _ = false

-- `Address.Equal`
unfoldable pub equal : Address → Address → Bool
equal a b =
    if not (a.type == b.type)
    then false
    else if not (a.port == b.port)
    then false
    else if a.type == address_ipv4
    then array_eq a.ipv4 b.ipv4
    else if a.type == address_ipv6
    then array_eq a.ipv6 b.ipv6
    else false
