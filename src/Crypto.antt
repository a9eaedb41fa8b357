-- ===== src/Crypto.antt =====
-- crypto.go: authenticated encryption in place. The ciphers of golang.org/x/crypto are parameters.
pub mod Laws
use netcode_go.Prelude.{
  ℕ, ◌+◌, ◌-◌, ◌≡◌, false, Bool, Option, none, some, List, ◌++◌, length, take, drop, Result, ok,
  err, panics, Bytes, leb, ltb, if◌then◌else◌,
}
use netcode_go.Buffer.Writer.{◌>>◌, uint32, uint64, filled}

abbrev pub mac_bytes : ℕ
mac_bytes = 16

abbrev pub key_bytes : ℕ
key_bytes = 32

-- A cipher of chacha20poly1305: whether New(key) returns an error, Seal(key, nonce, plaintext,
-- additional data) and Open(key, nonce, ciphertext, additional data), `none` for its error.
pub record Aead : Type 0 where
  pub new_error : Bytes → Bool
  pub seal : Bytes → Bytes → Bytes → Bytes → Bytes
  pub unseal : Bytes → Bytes → Bytes → Bytes → Option Bytes

-- The documented behaviour of such a cipher that the program relies on.
pub record IsAead (c : Aead) : Type 0 where
  pub new_ok : (key : Bytes) → length key ≡ key_bytes → c.new_error key ≡ false
  pub length-seal :
      (key nonce plain extra : Bytes)
      → length (c.seal key nonce plain extra) ≡ length plain + mac_bytes
  pub unseal-seal :
      (key nonce plain extra : Bytes)
      → c.unseal key nonce (c.seal key nonce plain extra) extra ≡ some plain
  pub length-unseal :
      (key nonce sealed extra plain : Bytes)
      → c.unseal key nonce sealed extra ≡ some plain
      → length sealed ≡ length plain + mac_bytes

-- `chacha20poly1305.New` and `chacha20poly1305.NewX`.
pub record Crypto : Type 0 where
  pub chacha : Aead
  pub xchacha : Aead

-- `encryptAEAD` with New, `encryptAEADBigNonce` with NewX: the message buffer afterwards. A message
-- that is longer than its buffer panics; without room for the MAC, Seal appends to a copy and the
-- buffer stays.
unfoldable pub encrypt_aead : Aead → Bytes → ℕ → Bytes → Bytes → Bytes → Result Bytes
encrypt_aead c message message_length additional nonce key =
    if c.new_error key
    then err
    else if leb (message_length + mac_bytes) (length message)
    then ok (
        c.seal key nonce (take message_length message) additional
        ++ drop (message_length + mac_bytes) message)
    else if leb message_length (length message)
    then ok message
    else panics

-- `decryptAEAD` with New, `decryptAEADBigNonce` with NewX. The plaintext is written over the front
-- of the buffer, the rest stays. A message that is longer than its buffer panics.
unfoldable pub decrypt_aead : Aead → Bytes → ℕ → Bytes → Bytes → Bytes → Result Bytes
decrypt_aead c message message_length additional nonce key =
    if c.new_error key
    then err
    else if leb message_length (length message)
    then elim (c.unseal key nonce (take message_length message) additional) [
      | none ↦ err
      | some plain ↦ ok (plain ++ drop (length plain) message)
    ]
    else panics

-- `packetNonce`: an array of 12 bytes, through a writer.
unfoldable pub packet_nonce : ℕ → Result Bytes
packet_nonce sequence = filled 12 (uint32 0 >> uint64 sequence)
