-- ===== src/Crypto/Laws.antt =====
-- crypto.go: nonces, and encryption in place.
use netcode_go.Prelude.{
  true, leb, ℕ, ◌+◌, ◌^◌, ◌<◌, ◌≤◌, ◌≡◌, ◌≢◌, ◌∙◌, refl, sym, ap, arith, false, ◌++◌, length, drop,
  length-append, take-append, drop-append, ok, Bytes,
}
use netcode_go.Buffer.{le_bytes, from_le_bytes}
use netcode_go.Buffer.Writer.{◌>>◌, uint32, uint64}
use netcode_go.Buffer.Words.{length-le_bytes, from_le_bytes-le_bytes}
use netcode_go.Buffer.Emits.{store-Emits, >>-Emits, filled_exactly, take_all, drop_behind}
use netcode_go.Crypto.{Aead, IsAead, encrypt_aead, decrypt_aead, packet_nonce, mac_bytes}

-- Four zero bytes, then the sequence number.
abbrev pub nonce_bytes : ℕ → Bytes
nonce_bytes sequence = le_bytes 4 0 ++ le_bytes 8 sequence

pub packet_nonce_lem : (sequence : ℕ) → packet_nonce sequence ≡ ok (nonce_bytes sequence)
unfolding packet_nonce
packet_nonce_lem s =
    filled_exactly 12 (uint32 0 >> uint64 s) (nonce_bytes s)
      (>>-Emits (uint32 0) (uint64 s) (le_bytes 4 0) (le_bytes 8 s) (store-Emits (le_bytes 4 0))
        (store-Emits (le_bytes 8 s)))
      length_nonce
  where
    length_nonce : length (nonce_bytes s) ≡ 12
    length_nonce = omega (
      arith,
      length-append (le_bytes 4 0) (le_bytes 8 s),
      length-le_bytes 4 0,
      length-le_bytes 8 s,
    )

packet_nonce-injective :
    (a b : ℕ) → a < 2 ^ 64 → b < 2 ^ 64 → packet_nonce a ≡ packet_nonce b → a ≡ b
packet_nonce-injective a b ha hb e =
    sym (from_le_bytes-le_bytes 8 a ha) ∙ ap from_le_bytes same ∙ from_le_bytes-le_bytes 8 b hb
  where
    bytes_eq : nonce_bytes a ≡ nonce_bytes b
    bytes_eq = cc (packet_nonce_lem a, packet_nonce_lem b)

    same : le_bytes 8 a ≡ le_bytes 8 b
    same =
        sym (drop-append (le_bytes 4 0) (le_bytes 8 a) 4 (sym (length-le_bytes 4 0)))
        ∙ ap (drop 4) bytes_eq
        ∙ drop-append (le_bytes 4 0) (le_bytes 8 b) 4 (sym (length-le_bytes 4 0))

-- Two packets encrypted under different sequence numbers, both below 2^64, have different nonces.
pub packet_nonce_distinct :
    (a b : ℕ) → a < 2 ^ 64 → b < 2 ^ 64 → a ≢ b → packet_nonce a ≢ packet_nonce b
packet_nonce_distinct a b ha hb ne e = ne (packet_nonce-injective a b ha hb e)

-- Encryption in place, of a plaintext with room behind it.
pub encrypt_aead_lem :
    (c : Aead) (plain rest extra nonce key : Bytes)
    → c.new_error key ≡ false
    → mac_bytes ≤ length rest
    → encrypt_aead c (plain ++ rest) (length plain) extra nonce key
      ≡ ok (c.seal key nonce plain extra ++ drop mac_bytes rest)
unfolding encrypt_aead
encrypt_aead_lem c plain rest extra nonce key e h = ground (
  arith,
  length-append plain rest,
  take-append plain rest (length plain) refl,
  drop_behind plain rest mac_bytes,
)

-- Decryption in place of what encryption made gives the plaintext back at the front.
pub decrypt_aead_lem :
    (c : Aead) (plain extra nonce key : Bytes)
    → IsAead c
    → c.new_error key ≡ false
    → (n : ℕ) → n ≡ length plain + mac_bytes
    → decrypt_aead c (c.seal key nonce plain extra) n extra nonce key
      ≡ ok (plain ++ drop (length plain) (c.seal key nonce plain extra))
unfolding decrypt_aead
decrypt_aead_lem c plain extra nonce key laws e n h =
    let sizes = laws.length-seal key nonce plain extra in
    let fits : leb n (length (c.seal key nonce plain extra)) ≡ true = ground (arith, sizes) in
    rw
      (
        e,
        fits,
        take_all (c.seal key nonce plain extra) n (omega (arith, sizes)),
        laws.unseal-seal key nonce plain extra,
      )
      refl
