-- ===== src/Tests/Toy.antt =====
-- A cipher and a float unit to evaluate with.
use netcode_go.Prelude.{
  ℕ, [], ◌∷◌, ◌+◌, ◌-◌, ◌==◌, not, none, some, Bytes, ◌++◌, take, length, replicate, ltb, leb, ◌≡◌,
  arith, if◌then◌else◌, length-append, length-replicate, take-append, length-take,
}
use netcode_go.Crypto.{Aead, IsAead, Crypto}
use netcode_go.Float.{FloatOps}
use netcode_go.Address.{Address, address_ipv4}
use netcode_go.Server.{Env}

abbrev pub tail : Bytes
tail = replicate 16 0

abbrev pub toy : Aead
toy = record {
  new_error = λ key. not (length key == 32);
  seal = λ key nonce plain extra. plain ++ tail;
  unseal = λ key nonce sealed extra.
      if ltb (length sealed) 16 then none else some (take (length sealed - 16) sealed);
}

length-sealed : (plain : Bytes) → length (plain ++ tail) ≡ length plain + 16
length-sealed plain = omega (arith, length-append plain tail, length-replicate {A = ℕ} 16 0)

toy_unseal-seal : (plain : Bytes) → toy.unseal [] [] (plain ++ tail) [] ≡ some plain
toy_unseal-seal plain = ground (
  arith,
  length-sealed plain,
  take-append plain tail (length (plain ++ tail) - 16) (omega (arith, length-sealed plain)),
)

toy_length-unseal :
    (sealed plain : Bytes)
    → toy.unseal [] [] sealed [] ≡ some plain
    → length sealed ≡ length plain + 16
toy_length-unseal sealed plain h = ground (arith, length-take (length sealed - 16) sealed)

pub toy-IsAead : IsAead toy
toy-IsAead = record {
  new_ok = λ key h. ground arith;
  length-seal = λ key nonce plain extra. length-sealed plain;
  unseal-seal = λ key nonce plain extra. toy_unseal-seal plain;
  length-unseal = λ key nonce sealed extra plain h. toy_length-unseal sealed plain h;
}

abbrev pub toy_crypto : Crypto
toy_crypto = record { chacha = toy; xchacha = toy }

abbrev pub nat_floats : FloatOps
nat_floats = record {
  add = λ a b. a + b;
  sub = λ a b. a - b;
  lt = ltb;
  le = leb;
  from_int32 = λ a. a;
  from_uint64 = λ a. a;
}

abbrev pub toy_env : Env
toy_env = record { fl = nat_floats; crypto = toy_crypto }

abbrev pub key : Bytes
key = replicate 32 7

abbrev pub localhost : ℕ → Address
localhost port = record {
  type = address_ipv4;
  ipv4 = 127 ∷ 0 ∷ 0 ∷ 1 ∷ [];
  ipv6 = replicate 8 0;
  port = port;
}
