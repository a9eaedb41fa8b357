-- ===== src/Token/Sealed.antt =====
-- token.go: the private connect token under encryption.
use netcode_go.Prelude.{
  ℕ, ◌+◌, ◌-◌, ◌≡◌, ◌∙◌, sym, ap, arith, List, ◌++◌, length, Bytes, ok, append-nil, append_assoc,
  drop, replicate, length-append, length-drop, length-replicate, drop_all, replicate_add,
}
use netcode_go.Address.{Address}
use netcode_go.Buffer.{le_bytes}
use netcode_go.Buffer.Words.{length-le_bytes}
use netcode_go.Buffer.Writer.{◌>>◌, uint64, bytes}
use netcode_go.Buffer.Emits.{Puts, >>-Puts, store-Puts, bytes-Puts, filled_exactly}
use netcode_go.Crypto.{IsAead, Crypto, key_bytes, mac_bytes}
use netcode_go.Crypto.Laws.{encrypt_aead_lem, decrypt_aead_lem}
use netcode_go.Packet.Write.{version_info}
use netcode_go.Packet.Read.{
  connect_token_private_bytes, decrypt_connect_token_private, connect_token_additional_data,
}
use netcode_go.Token.{ConnectTokenPrivate, write_connect_token_private, read_connect_token_private}
use netcode_go.Token.Generate.{encrypt_connect_token_private}
use netcode_go.Token.Private.{
  IsPrivateToken, private_bytes, length-private_bytes, write_connect_token_private_lem,
  read_connect_token_private_lem,
}

abbrev pub token_extra : ℕ → ℕ → Bytes
token_extra protocol_id expire = (version_info ++ le_bytes 8 protocol_id) ++ le_bytes 8 expire

pub connect_token_additional_data_lem :
    (protocol_id expire : ℕ)
    → connect_token_additional_data protocol_id expire ≡ ok (token_extra protocol_id expire)
unfolding connect_token_additional_data
connect_token_additional_data_lem protocol_id expire =
    let writes : Puts (bytes version_info >> uint64 protocol_id >> uint64 expire)
        (token_extra protocol_id expire) =
      >>-Puts (>>-Puts (bytes-Puts version_info) (store-Puts (le_bytes 8 protocol_id)))
        (store-Puts (le_bytes 8 expire)) in
    filled_exactly 29 _ (token_extra protocol_id expire) writes.emits (
      omega (
        arith,
        length-append (version_info ++ le_bytes 8 protocol_id) (le_bytes 8 expire),
        length-append version_info (le_bytes 8 protocol_id),
        length-le_bytes 8 protocol_id,
        length-le_bytes 8 expire,
      ))

module _ (t : ConnectTokenPrivate) (xs : List Address) where
  -- What is encrypted, in front of the place of the MAC.
  abbrev pub private_plain : Bytes
  private_plain = private_bytes t xs ++ replicate (1008 - length (private_bytes t xs)) 0

  module _ (v : IsPrivateToken t xs) where
    pub length-private_plain : length private_plain ≡ 1008
    length-private_plain = omega (
      arith,
      length-private_bytes t xs v,
      length-append (private_bytes t xs) (replicate (1008 - length (private_bytes t xs)) 0),
      length-replicate {A = ℕ} (1008 - length (private_bytes t xs)) 0,
    )

    private_split :
        private_bytes t xs ++ replicate (1024 - length (private_bytes t xs)) 0
        ≡ private_plain ++ replicate 16 0
    private_split =
        let n = length (private_bytes t xs) in
        let e : 1024 - n ≡ (1008 - n) + 16 = omega (arith, length-private_bytes t xs v) in
        ap (λ k. private_bytes t xs ++ replicate k 0) e
        ∙ ap (λ r. private_bytes t xs ++ r) (replicate_add (1008 - n) 16 0)
        ∙ sym (append_assoc (private_bytes t xs) (replicate (1008 - n) 0) (replicate 16 0))

    module _ (c : Crypto) (laws : IsAead c.xchacha) (protocol_id expire : ℕ) (nonce key : Bytes)
        (k : length key ≡ key_bytes) where
      abbrev pub private_sealed : Bytes
      private_sealed = c.xchacha.seal key nonce private_plain (token_extra protocol_id expire)

      encrypted :
          encrypt_connect_token_private c protocol_id expire nonce key
            (private_bytes t xs ++ replicate (1024 - length (private_bytes t xs)) 0)
          ≡ ok private_sealed
      unfolding encrypt_connect_token_private
      encrypted =
          let zeros : Bytes = replicate 16 0 in
          let space = length-replicate {A = ℕ} 16 0 in
          let sealed =
            encrypt_aead_lem c.xchacha private_plain zeros (token_extra protocol_id expire) nonce
              key (laws.new_ok key k) (omega (arith, space)) in
          let gone = drop_all mac_bytes zeros (omega (arith, space)) in
          rw private_split (
            rw (connect_token_additional_data_lem, encrypt_connect_token_private)
              (ground (arith, sealed, gone, length-private_plain, append-nil private_sealed)))

      opened : Bytes
      opened = private_plain ++ drop (length private_plain) private_sealed

      decrypted :
          decrypt_connect_token_private c protocol_id expire nonce key private_sealed ≡ ok opened
      unfolding decrypt_connect_token_private opened
      decrypted =
          rw (connect_token_additional_data_lem, decrypt_connect_token_private)
            (decrypt_aead_lem c.xchacha private_plain (token_extra protocol_id expire) nonce key
              laws (laws.new_ok key k) 1024 (omega (arith, length-private_plain)))

      length-sealed : length private_sealed ≡ 1024
      length-sealed = omega (
        arith,
        laws.length-seal key nonce private_plain (token_extra protocol_id expire),
        length-private_plain,
      )

      length-opened : length opened ≡ 1024
      unfolding opened
      length-opened = omega (
        arith,
        length-sealed,
        length-private_plain,
        length-append private_plain (drop (length private_plain) private_sealed),
        length-drop (length private_plain) private_sealed,
      )

      -- A private connect token whose numbers and arrays have their sizes, with 1 to 32 well-formed
      -- addresses, written to a buffer of 1024 bytes and encrypted under a key of 32 bytes, fills 1024
      -- bytes, and decrypts and reads as the same token under the same protocol id, expiry and nonce.
      pub private_token_round_trip :
          (buffer : Bytes)
          → length buffer ≡ connect_token_private_bytes
          → (written sealed clear : Bytes) × (write_connect_token_private t buffer ≡ ok written)
            × (encrypt_connect_token_private c protocol_id expire nonce key written ≡ ok sealed)
            × (length sealed ≡ connect_token_private_bytes)
            × (decrypt_connect_token_private c protocol_id expire nonce key sealed ≡ ok clear)
            × (length clear ≡ connect_token_private_bytes)
            × (read_connect_token_private clear ≡ ok t)
      unfolding opened
      private_token_round_trip buffer size = (
        private_bytes t xs ++ replicate (1024 - length (private_bytes t xs)) 0,
        private_sealed,
        opened,
        write_connect_token_private_lem t xs v buffer size,
        encrypted,
        length-sealed,
        decrypted,
        length-opened,
        read_back,
      )
        where
          read_back : read_connect_token_private opened ≡ ok t
          read_back =
              let zeros : Bytes = replicate (1008 - length (private_bytes t xs)) 0 in
              let left = drop (length private_plain) private_sealed in
              let e = append_assoc (private_bytes t xs) zeros left in
              ap read_connect_token_private e
              ∙ read_connect_token_private_lem t xs v (zeros ++ left)
                  (omega (arith, length-opened, ap (λ r. length r) e))
