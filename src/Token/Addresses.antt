-- ===== src/Token/Addresses.antt =====
-- token.go: the bytes of addresses, against `writeAddress` and `readAddress`.
use netcode_go.Prelude.{
  ℕ, ◌^◌, ◌<◌, ◌≤◌, ◌≡◌, ◌∙◌, refl, sym, ap, subst, arith, List, [], ◌∷◌, ◌++◌, length, Bytes, ok,
  Bool, true, false, ◌⊎◌, inl, inr, if◌then◌else◌, ◌==◌, append-nil, append_assoc, drop,
}
use netcode_go.Address.{Address, no_address, address_ipv4, address_ipv6}
use netcode_go.Buffer.{le_bytes}
use netcode_go.Buffer.Writer
use netcode_go.Buffer.Writer.{W, ◌>>◌}
use netcode_go.Buffer.Emits.{Emits, store-Emits, bytes-Emits, >>-Emits}
use netcode_go.Buffer.Reader.{R, ◌>>=◌, pure, bytes, uint8, uint16}
use netcode_go.Buffer.Parses.{
  Parses, word-Parses, uint8-Parses, bytes-Parses, >>=-Parses, pure-Parses,
}
use netcode_go.Packet.Sequence.{skip-Emits}
use netcode_go.Token.{
  write_groups, write_address, write_addresses, read_groups, read_address_onto, read_address,
  read_addresses,
}

-- A last step that only computes reads no bytes.
pub map-Parses :
    {A B : Type 0} (f : R A) (h : A → B) (cs : Bytes) (a : A)
    → Parses f cs a
    → Parses (f >>= (λ x. pure (h x))) cs (h a)
map-Parses f h cs a hf out rest = rw (hf out rest, ◌>>=◌) refl

abbrev pub groups_bytes : List ℕ → Bytes
groups_bytes [] = []
groups_bytes (g ∷ gs) = le_bytes 2 g ++ groups_bytes gs

abbrev pub AllWords : List ℕ → Type 0
AllWords [] = Unit {0}
AllWords (g ∷ gs) = (g < 2 ^ 16) × AllWords gs

abbrev pub address_bytes : Address → Bytes
address_bytes a =
    if a.type == address_ipv4
    then (1 ∷ []) ++ (a.ipv4 ++ le_bytes 2 a.port)
    else (2 ∷ []) ++ (groups_bytes a.ipv6 ++ le_bytes 2 a.port)

-- An address of a type, with nothing but zeros in the other type's field.
abbrev pub IsAddress : Address → Type 0
IsAddress a =
    (a.port < 2 ^ 16)
    × (((a.type ≡ address_ipv4) × (length a.ipv4 ≡ 4) × (a.ipv6 ≡ no_address.ipv6))
        ⊎ ((a.type ≡ address_ipv6)
            × (length a.ipv6 ≡ 8)
            × AllWords a.ipv6
            × (a.ipv4 ≡ no_address.ipv4)))

write_groups-Emits : (gs : List ℕ) → Emits (write_groups gs) (groups_bytes gs)
unfolding write_groups
write_groups-Emits [] = skip-Emits
write_groups-Emits (g ∷ gs) =
    >>-Emits (Writer.uint16 g) (write_groups gs) (le_bytes 2 g) (groups_bytes gs)
      (store-Emits (le_bytes 2 g)) (write_groups-Emits gs)

read_groups-Parses :
    (gs : List ℕ) → AllWords gs → Parses (read_groups (length gs)) (groups_bytes gs) gs
unfolding read_groups
read_groups-Parses [] v = pure-Parses []
read_groups-Parses (g ∷ gs) v =
    >>=-Parses uint16 (λ x. read_groups (length gs) >>= (λ xs. pure (x ∷ xs))) (le_bytes 2 g)
      (groups_bytes gs) g (g ∷ gs) (word-Parses 2 g (omega (arith, v.0)))
      (map-Parses (read_groups (length gs)) (λ xs. g ∷ xs) (groups_bytes gs) gs
        (read_groups-Parses gs v.1))

if_then {ℓ} : {A : Type ℓ} (x y : A) (b : Bool) → b ≡ true → x ≡ (if b then x else y)
if_then x y true h = refl
if_then x y false h = cc

if_else {ℓ} : {A : Type ℓ} (x y : A) (b : Bool) → b ≡ false → y ≡ (if b then x else y)
if_else x y true h = cc
if_else x y false h = refl

pub write_address-Emits : (a : Address) → IsAddress a → Emits (write_address a) (address_bytes a)
unfolding write_address
write_address-Emits a (p, inl (t, l, z)) =
    let four_bytes = (1 ∷ []) ++ (a.ipv4 ++ le_bytes 2 a.port) in
    let four = Writer.uint8 1 >> Writer.bytes a.ipv4 >> Writer.uint16 a.port in
    let h : (a.type == address_ipv4) ≡ true = ap (λ x. x == address_ipv4) t in
    let emits : Emits four four_bytes =
      >>-Emits (Writer.uint8 1 >> Writer.bytes a.ipv4) (Writer.uint16 a.port) ((1 ∷ []) ++ a.ipv4)
        (le_bytes 2 a.port)
        (>>-Emits (Writer.uint8 1) (Writer.bytes a.ipv4) (1 ∷ []) a.ipv4 (store-Emits (1 ∷ []))
          (bytes-Emits a.ipv4))
        (store-Emits (le_bytes 2 a.port)) in
    subst (λ f. Emits f (address_bytes a)) (if_then four _ (a.type == address_ipv4) h)
      (subst (λ bs. Emits four bs) (if_then four_bytes _ (a.type == address_ipv4) h) emits)
write_address-Emits a (p, inr (t, l, w, z)) =
    let six_bytes = (2 ∷ []) ++ (groups_bytes a.ipv6 ++ le_bytes 2 a.port) in
    let six = Writer.uint8 2 >> write_groups a.ipv6 >> Writer.uint16 a.port in
    let h : (a.type == address_ipv4) ≡ false = ap (λ x. x == address_ipv4) t in
    let k : (a.type == address_ipv6) ≡ true = ap (λ x. x == address_ipv6) t in
    let emits : Emits six six_bytes =
      >>-Emits (Writer.uint8 2 >> write_groups a.ipv6) (Writer.uint16 a.port)
        ((2 ∷ []) ++ groups_bytes a.ipv6) (le_bytes 2 a.port)
        (>>-Emits (Writer.uint8 2) (write_groups a.ipv6) (2 ∷ []) (groups_bytes a.ipv6)
          (store-Emits (2 ∷ [])) (write_groups-Emits a.ipv6))
        (store-Emits (le_bytes 2 a.port)) in
    subst (λ f. Emits f (address_bytes a))
      (if_then six _ (a.type == address_ipv6) k ∙ if_else _ _ (a.type == address_ipv4) h)
      (subst (λ bs. Emits six bs) (if_else _ six_bytes (a.type == address_ipv4) h) emits)

pub read_address_onto-Parses :
    (a : Address) → IsAddress a → Parses (read_address_onto no_address) (address_bytes a) (a, true)
unfolding read_address_onto
read_address_onto-Parses a (p, inl (t, l, z)) =
    let four_bytes = (1 ∷ []) ++ (a.ipv4 ++ le_bytes 2 a.port) in
    let h : (a.type == address_ipv4) ≡ true = ap (λ x. x == address_ipv4) t in
    let found = λ (q : ℕ). record no_address { type = address_ipv4; ipv4 = a.ipv4; port = q } in
    let same : found a.port ≡ a =
      ap (λ x. record no_address { type = x; ipv4 = a.ipv4; port = a.port }) (sym t)
      ∙ ap (λ x. record a { ipv6 = x }) (sym z) in
    subst (λ b. Parses (read_address_onto no_address) (address_bytes a) (b, true)) same
      (subst (λ bs. Parses (read_address_onto no_address) bs (found a.port, true))
        (if_then four_bytes _ (a.type == address_ipv4) h)
        (>>=-Parses uint8 _ (1 ∷ []) (a.ipv4 ++ le_bytes 2 a.port) 1 _
          (uint8-Parses 1 (omega arith))
          (>>=-Parses (bytes 4) _ a.ipv4 (le_bytes 2 a.port) a.ipv4 _
            (bytes-Parses 4 a.ipv4 (sym l))
            (map-Parses uint16 (λ q. (found q, true)) (le_bytes 2 a.port) a.port
              (word-Parses 2 a.port (omega arith))))))
read_address_onto-Parses a (p, inr (t, l, w, z)) =
    let six_bytes = (2 ∷ []) ++ (groups_bytes a.ipv6 ++ le_bytes 2 a.port) in
    let h : (a.type == address_ipv4) ≡ false = ap (λ x. x == address_ipv4) t in
    let groups =
      subst (λ n. Parses (read_groups n) (groups_bytes a.ipv6) a.ipv6) l
        (read_groups-Parses a.ipv6 w) in
    let found = λ (q : ℕ). record no_address { type = address_ipv6; ipv6 = a.ipv6; port = q } in
    let same : found a.port ≡ a =
      ap (λ x. record no_address { type = x; ipv6 = a.ipv6; port = a.port }) (sym t)
      ∙ ap (λ x. record a { ipv4 = x }) (sym z) in
    subst (λ b. Parses (read_address_onto no_address) (address_bytes a) (b, true)) same
      (subst (λ bs. Parses (read_address_onto no_address) bs (found a.port, true))
        (if_else _ six_bytes (a.type == address_ipv4) h)
        (>>=-Parses uint8 _ (2 ∷ []) (groups_bytes a.ipv6 ++ le_bytes 2 a.port) 2 _
          (uint8-Parses 2 (omega arith))
          (>>=-Parses (read_groups 8) _ (groups_bytes a.ipv6) (le_bytes 2 a.port) a.ipv6 _ groups (
            map-Parses uint16 (λ q. (found q, true)) (le_bytes 2 a.port) a.port
              (word-Parses 2 a.port (omega arith))))))

-- A step that reads nothing more.
pub last-Parses :
    {A B : Type 0} (f : R A) (g : A → R B) (cs : Bytes) (a : A) (b : B)
    → Parses f cs a
    → Parses (g a) [] b
    → Parses (f >>= g) cs b
last-Parses f g cs a b hf hg =
    subst (λ bs. Parses (f >>= g) bs b) (append-nil cs) (>>=-Parses f g cs [] a b hf hg)

pub read_address-Parses : (a : Address) → IsAddress a → Parses read_address (address_bytes a) a
unfolding read_address
read_address-Parses a v =
    last-Parses (read_address_onto no_address) _ (address_bytes a) (a, true) a
      (read_address_onto-Parses a v) (pure-Parses a)

-- The same for a list of addresses.
abbrev pub addresses_bytes : List Address → Bytes
addresses_bytes [] = []
addresses_bytes (a ∷ rest) = address_bytes a ++ addresses_bytes rest

abbrev pub AllAddresses : List Address → Type 0
AllAddresses [] = Unit {0}
AllAddresses (a ∷ rest) = IsAddress a × AllAddresses rest

pub write_addresses-Emits :
    (xs : List Address) → AllAddresses xs → Emits (write_addresses xs) (addresses_bytes xs)
unfolding write_addresses
write_addresses-Emits [] v = skip-Emits
write_addresses-Emits (a ∷ rest) v =
    >>-Emits (write_address a) (write_addresses rest) (address_bytes a) (addresses_bytes rest)
      (write_address-Emits a v.0) (write_addresses-Emits rest v.1)

pub read_addresses-Parses :
    (xs : List Address)
    → AllAddresses xs
    → Parses (read_addresses (length xs)) (addresses_bytes xs) xs
unfolding read_addresses
read_addresses-Parses [] v = pure-Parses []
read_addresses-Parses (a ∷ rest) v =
    >>=-Parses read_address (λ x. read_addresses (length rest) >>= (λ xs. pure (x ∷ xs)))
      (address_bytes a) (addresses_bytes rest) a (a ∷ rest) (read_address-Parses a v.0)
      (map-Parses (read_addresses (length rest)) (λ xs. a ∷ xs) (addresses_bytes rest) rest
        (read_addresses-Parses rest v.1))

-- Addresses that are written wherever there is room, by `writeAddress` in a loop, are read back
-- from behind the bytes before them by as many calls of `readAddress`, if each is an IPv4 or IPv6
-- address with a port and groups of 16 bits and zeros in the field of the other type.
pub addresses_round_trip :
    (xs : List Address) (out rest : Bytes)
    → AllAddresses xs
    → length (addresses_bytes xs) ≤ length rest
    → (written : Bytes) × (write_addresses xs (record { buffer = out ++ rest; pos = length out })
        ≡ ok (record { buffer = written; pos = length (out ++ addresses_bytes xs) }))
      × (read_addresses (length xs) (record { buffer = written; pos = length out })
          ≡ ok (xs, record { buffer = written; pos = length (out ++ addresses_bytes xs) }))
addresses_round_trip xs out rest v room =
    let left = drop (length (addresses_bytes xs)) rest in
    (
      (out ++ addresses_bytes xs) ++ left,
      write_addresses-Emits xs v out rest room,
      subst
          (λ b.
            read_addresses (length xs) (record { buffer = b; pos = length out })
            ≡ ok (
              xs,
              record {
                buffer = (out ++ addresses_bytes xs) ++ left;
                pos = length (out ++ addresses_bytes xs);
              },
            ))
          (sym (append_assoc out (addresses_bytes xs) left)) (read_addresses-Parses xs v out left),
    )
