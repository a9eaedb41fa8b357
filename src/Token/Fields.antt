-- ===== src/Token/Fields.antt =====
-- token.go: what the two connect tokens share: the array of server addresses, and the zeros that
-- fill the buffer.
use netcode_go.Prelude.{
  take_whole, ℕ, suc, ◌+◌, ◌*◌, ◌-◌, ◌≤◌, ◌≡◌, refl, sym, ap, arith, List, [], ◌∷◌, ◌++◌, length,
  Bytes, ok, true, false, not, inl, inr, if◌then◌else◌, append-nil, drop, replicate, length-append,
  length-drop, take-append, drop_all,
}
use netcode_go.Address.{Address, no_address}
use netcode_go.Buffer.{le_bytes}
use netcode_go.Buffer.Words.{length-le_bytes}
use netcode_go.Buffer.Writer.{W, ◌>>◌}
use netcode_go.Buffer.Emits.{Emits}
use netcode_go.Buffer.Reader.{◌>>=◌, pure}
use netcode_go.Buffer.Parses.{Parses, >>=-Parses, pure-Parses}
use netcode_go.Token.{clear_to, read_address_onto}
use netcode_go.Token.Connect.{read_addresses_onto}
use netcode_go.Token.Generate.{padded}
use netcode_go.Token.Addresses.{
  groups_bytes, address_bytes, addresses_bytes, IsAddress, AllAddresses, read_address_onto-Parses,
  map-Parses,
}

length-groups_bytes : (gs : List ℕ) → length (groups_bytes gs) ≡ length gs * 2
length-groups_bytes [] = refl
length-groups_bytes (g ∷ gs) = omega (
  arith,
  length-append (le_bytes 2 g) (groups_bytes gs),
  length-le_bytes 2 g,
  length-groups_bytes gs,
)

length-address_bytes : (a : Address) → IsAddress a → length (address_bytes a) ≤ 19
length-address_bytes a (p, inl (t, l, z)) =
    ground (arith, t, l, length-append a.ipv4 (le_bytes 2 a.port), length-le_bytes 2 a.port)
length-address_bytes a (p, inr (t, l, w, z)) = ground (
  arith,
  t,
  l,
  length-append (groups_bytes a.ipv6) (le_bytes 2 a.port),
  length-le_bytes 2 a.port,
  length-groups_bytes a.ipv6,
)

pub length-addresses_bytes :
    (xs : List Address) → AllAddresses xs → length (addresses_bytes xs) ≤ length xs * 19
length-addresses_bytes [] v = omega arith
length-addresses_bytes (a ∷ xs) v = omega (
  arith,
  length-append (address_bytes a) (addresses_bytes xs),
  length-address_bytes a v.0,
  length-addresses_bytes xs v.1,
)

-- Room for the addresses, and for `m` more.
abbrev pub room : List Address → ℕ → List Address
room [] m = replicate m no_address
room (x ∷ xs) m = no_address ∷ room xs m

pub replicate_room : (xs : List Address) (m : ℕ) → room xs m ≡ replicate (length xs + m) no_address
unfolding replicate
replicate_room [] m = let e : 0 + m ≡ m = omega arith in ap (λ k. replicate k no_address) (sym e)
replicate_room (x ∷ xs) m =
    let e : suc (length xs) + m ≡ suc (length xs + m) = omega arith in
    rw e (ap (λ r. no_address ∷ r) (replicate_room xs m))

-- Addresses that are read onto zero ones.
pub read_addresses_onto-Parses :
    (xs : List Address) (m : ℕ)
    → AllAddresses xs
    → Parses
        (read_addresses_onto (length xs) (room xs m))
        (addresses_bytes xs)
        (xs ++ replicate m no_address, true)
unfolding read_addresses_onto
read_addresses_onto-Parses [] m v = pure-Parses (replicate m no_address, true)
read_addresses_onto-Parses (a ∷ xs) m v =
    >>=-Parses (read_address_onto no_address)
      (λ p.
        if not p.1
        then pure (p.0 ∷ room xs m, false)
        else read_addresses_onto (length xs) (room xs m) >>= λ q. pure (p.0 ∷ q.0, q.1))
      (address_bytes a) (addresses_bytes xs) (a, true) _ (read_address_onto-Parses a v.0)
      (map-Parses (read_addresses_onto (length xs) (room xs m)) (λ q. (a ∷ q.0, q.1))
        (addresses_bytes xs) (xs ++ replicate m no_address, true)
        (read_addresses_onto-Parses xs m v.1))

pub padded_whole :
    {A : Type 0} (n : ℕ) (d : A) (xs : List A)
    → length xs ≤ n
    → padded n d xs ≡ xs ++ replicate (n - length xs) d
unfolding padded
padded_whole n d xs h = ap (λ ys. ys ++ replicate (n - length xs) d) (take_whole xs n h)

-- What is written to a buffer of `n` bytes and followed by zeros.
pub filled_with_zeros :
    (f : W) (bs : Bytes) (n : ℕ) (buffer : Bytes)
    → Emits f bs
    → length buffer ≡ n
    → length bs ≤ n
    → (f >> clear_to n) (record { buffer = buffer; pos = 0 })
      ≡ ok (record { buffer = bs ++ replicate (n - length bs) 0; pos = length bs })
unfolding clear_to
filled_with_zeros f bs n buffer hf size space =
    let left = drop (length bs) buffer in
    let total : length (bs ++ left) ≡ n =
      omega (arith, length-append bs left, length-drop (length bs) buffer, size) in
    rw (hf [] buffer (omega (arith, size)), ◌>>◌)
      (ground (
        arith,
        total,
        take-append bs left (length bs) refl,
        drop_all n (bs ++ left) (omega (arith, total)),
        append-nil (replicate {A = ℕ} (n - length bs) 0),
      ))
