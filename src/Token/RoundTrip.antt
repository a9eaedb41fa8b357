-- ===== src/Token/RoundTrip.antt =====
-- token.go: challenge tokens, from writing to reading.
use netcode_go.Prelude.{
  ℕ, ◌-◌, ◌^◌, ◌≤◌, ◌<◌, ◌≡◌, ◌∙◌, sym, ap, subst, arith, [], ◌++◌, append-nil, append_assoc,
  length, drop, length-append, length-drop, drop_all, length-replicate, replicate, drop-replicate,
  ok, Bytes,
}
use netcode_go.Buffer.{le_bytes}
use netcode_go.Buffer.Words.{length-le_bytes}
use netcode_go.Buffer.Writer
use netcode_go.Buffer.Writer.{W, ◌>>◌}
use netcode_go.Buffer.Reader.{uint64, bytes}
use netcode_go.Buffer.Emits.{store-Emits, bytes-Emits, >>-Emits}
use netcode_go.Buffer.Parses.{word-Parses, bytes-Parses}
use netcode_go.Crypto.{Aead, IsAead, mac_bytes}
use netcode_go.Crypto.Laws.{nonce_bytes, packet_nonce_lem, encrypt_aead_lem, decrypt_aead_lem}
use netcode_go.Packet.RoundTrip.{two_reads}
use netcode_go.Token.{
  ChallengeToken, write_challenge_token, read_challenge_token, read_challenge_fields,
  encrypt_challenge_token, decrypt_challenge_token,
}

pub record IsChallengeToken (t : ChallengeToken) : Type 0 where
  pub id : t.client_id < 2 ^ 64
  pub data_size : length t.user_data ≡ 256

abbrev pub challenge_bytes : ChallengeToken → Bytes
challenge_bytes t = le_bytes 8 t.client_id ++ t.user_data

length-challenge_bytes :
    (t : ChallengeToken) → IsChallengeToken t → length (challenge_bytes t) ≡ 264
length-challenge_bytes t v = omega (
  arith,
  v.data_size,
  length-append (le_bytes 8 t.client_id) t.user_data,
  length-le_bytes 8 t.client_id,
)

-- A challenge token fills its buffer of 300 bytes with the client id, the user data, and zeros.
pub write_challenge_token_lem :
    (t : ChallengeToken) (buffer : Bytes)
    → IsChallengeToken t
    → length buffer ≡ 300
    → write_challenge_token t buffer ≡ ok (challenge_bytes t ++ replicate 36 0)
unfolding write_challenge_token
write_challenge_token_lem t buffer v e =
    let size = length-challenge_bytes t v in
    let zeros : Bytes = replicate 300 0 in
    let start : zeros ++ drop 300 buffer ≡ zeros =
      ap (λ r. zeros ++ r) (drop_all 300 buffer (omega arith)) ∙ append-nil zeros in
    let written =
      >>-Emits (Writer.uint64 t.client_id) (Writer.bytes t.user_data) (le_bytes 8 t.client_id)
        t.user_data (store-Emits (le_bytes 8 t.client_id)) (bytes-Emits t.user_data) [] zeros
        (omega (arith, size, length-replicate {A = ℕ} 300 0)) in
    let left : 300 - length (challenge_bytes t) ≡ 36 = omega (arith, size) in
    let rest : drop (length (challenge_bytes t)) zeros ≡ replicate 36 0 =
      drop-replicate (length (challenge_bytes t)) 300 0 ∙ ap (λ m. replicate m 0) left in
    ground (arith, start, written, rest)

pub read_challenge_token_lem :
    (t : ChallengeToken) (rest : Bytes)
    → IsChallengeToken t
    → 36 ≤ length rest
    → read_challenge_token (challenge_bytes t ++ rest) ≡ ok t
unfolding read_challenge_token read_challenge_fields
read_challenge_token_lem t rest v h =
    let size = length-challenge_bytes t v in
    let total = length-append (challenge_bytes t) rest in
    let fields =
      two_reads {C = ChallengeToken} uint64 (bytes 256)
        (λ a b. record { client_id = a; user_data = b }) (le_bytes 8 t.client_id) t.user_data
        t.client_id t.user_data (word-Parses 8 t.client_id v.id)
        (bytes-Parses 256 t.user_data (sym v.data_size)) [] rest in
    ground (arith, size, total, fields)

-- What is encrypted of a challenge token's buffer, before the place of the MAC.
abbrev challenge_plain : ChallengeToken → Bytes
challenge_plain t = challenge_bytes t ++ replicate 20 0

challenge_split :
    (t : ChallengeToken) → challenge_bytes t ++ replicate 36 0 ≡ challenge_plain t ++ replicate 16 0
unfolding replicate
challenge_split t = sym (append_assoc (challenge_bytes t) (replicate 20 0) (replicate 16 0))

module _ (c : Aead) (t : ChallengeToken) (sequence : ℕ) (key : Bytes) where
  abbrev challenge_sealed : Bytes
  challenge_sealed = c.seal key (nonce_bytes sequence) (challenge_plain t) []

  module _ (laws : IsAead c) (v : IsChallengeToken t) (k : length key ≡ 32) where
    length-challenge_plain : length (challenge_plain t) ≡ 284
    length-challenge_plain = omega (
      arith,
      length-challenge_bytes t v,
      length-append (challenge_bytes t) (replicate 20 0),
      length-replicate {A = ℕ} 20 0,
    )

    encrypted :
        encrypt_challenge_token c (challenge_bytes t ++ replicate 36 0) sequence key
        ≡ ok challenge_sealed
    unfolding encrypt_challenge_token
    encrypted =
        let zeros : Bytes = replicate 16 0 in
        let room = length-replicate {A = ℕ} 16 0 in
        let sealed =
          encrypt_aead_lem c (challenge_plain t) zeros [] (nonce_bytes sequence) key
            (laws.new_ok key k) (omega (arith, room)) in
        let gone = drop_all mac_bytes zeros (omega (arith, room)) in
        subst (λ b. encrypt_challenge_token c b sequence key ≡ ok challenge_sealed)
          (sym (challenge_split t))
          (rw (packet_nonce_lem, encrypt_challenge_token)
            (ground (arith, sealed, gone, length-challenge_plain, append-nil challenge_sealed)))

    decrypted :
        decrypt_challenge_token c challenge_sealed sequence key
        ≡ ok (challenge_plain t ++ drop (length (challenge_plain t)) challenge_sealed)
    unfolding decrypt_challenge_token
    decrypted =
        rw (packet_nonce_lem, decrypt_challenge_token)
          (decrypt_aead_lem c (challenge_plain t) [] (nonce_bytes sequence) key laws
            (laws.new_ok key k) 300 (omega (arith, length-challenge_plain)))

    read_back :
        read_challenge_token
          (challenge_plain t ++ drop (length (challenge_plain t)) challenge_sealed)
        ≡ ok t
    read_back =
        let macs = laws.length-seal key (nonce_bytes sequence) (challenge_plain t) [] in
        let tail = drop (length (challenge_plain t)) challenge_sealed in
        rw append_assoc (
          read_challenge_token_lem t (replicate 20 0 ++ tail) v (
            omega (
              arith,
              macs,
              length-append (replicate 20 0) tail,
              length-replicate {A = ℕ} 20 0,
              length-drop (length (challenge_plain t)) challenge_sealed,
            )))

    -- A challenge token with a client id below 2^64 and 256 bytes of user data, written to a buffer of
    -- 300 bytes and encrypted under a key of 32 bytes, fills 300 bytes, and decrypts and reads as the
    -- same token under the same sequence number and key.
    pub challenge_token_round_trip :
        (buffer : Bytes)
        → length buffer ≡ 300
        → (written sealed opened : Bytes) × (write_challenge_token t buffer ≡ ok written)
          × (encrypt_challenge_token c written sequence key ≡ ok sealed)
          × (length sealed ≡ 300)
          × (decrypt_challenge_token c sealed sequence key ≡ ok opened)
          × (read_challenge_token opened ≡ ok t)
    challenge_token_round_trip buffer size = (
      challenge_bytes t ++ replicate 36 0,
      challenge_sealed,
      challenge_plain t ++ drop (length (challenge_plain t)) challenge_sealed,
      write_challenge_token_lem t buffer v size,
      encrypted,
      omega (
        arith,
        laws.length-seal key (nonce_bytes sequence) (challenge_plain t) [],
        length-challenge_plain,
      ),
      decrypted,
      read_back,
    )
