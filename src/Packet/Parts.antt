-- ===== src/Packet/Parts.antt =====
-- packet.go: the parts of `readPacket`, on any bytes: what they read and the sizes they keep.
use netcode_go.Prelude.{
  Result, ok, err, get_or, ◌-◌, ◌<◌, ◌⊎◌, Bool-cases, ℕ, zero, suc, ◌+◌, ◌≤◌, Bool, true, false,
  not, Option, none, Option-cases, ◌++◌, length, take, drop, Bytes, ◌≡◌, refl, arith, inl, inr, ltb,
  ◌==◌, if◌then◌else◌, length-append, length-take, length-drop,
}
use netcode_go.Buffer.Reader.{Reader, R, ◌>>=◌, pure, bytes, uint32, uint64}
use netcode_go.Buffer.Reads.{
  Reads, pure-Reads, bytes-Reads, word-Reads, >>=-Reads, if-Reads, Reads-more, Anything, Total,
}
use netcode_go.Crypto.{Aead, IsAead, Crypto, decrypt_aead}
use netcode_go.Crypto.Laws.{nonce_bytes, packet_nonce_lem}
use netcode_go.Packet.Wire.{additional_bytes, packet_additional_data_lem}
use netcode_go.Token.Sealed.{token_extra, connect_token_additional_data_lem}
use netcode_go.Packet.Read.{
  allows, ReadConfig, decrypt_rest, decrypt_packet, decrypt_connect_token_private, read_sequence,
  read_body, max_payload_bytes,
}

-- A step of decryption that does not panic on `n` bytes or more, and keeps the size of what it
-- decrypts.
pub KeepsSize : ℕ → (Bytes → Result Bytes) → Type 0
KeepsSize n f =
    (message : Bytes)
    → n ≤ length message
    → ((out : Bytes) × (f message ≡ ok out) × (length out ≡ length message)) ⊎ (f message ≡ err)

-- Decryption in place keeps the buffer's size.
decrypt_aead-KeepsSize :
    (c : Aead) (n : ℕ) (extra nonce key : Bytes)
    → IsAead c
    → KeepsSize n (λ message. decrypt_aead c message n extra nonce key)
unfolding KeepsSize decrypt_aead
decrypt_aead-KeepsSize c n extra nonce key laws message l = elim (Bool-cases (c.new_error key)) [
  | inl bad ↦ inr (ground (arith, bad))
  | inr good ↦ elim (Option-cases (c.unseal key nonce (take n message) extra)) [
    | inl p ↦ inr (ground (arith, good, p))
    | inr (plain, p) ↦
        let size = laws.length-unseal key nonce (take n message) extra plain p in
        inl (
          plain ++ drop (length plain) message,
          ground (arith, good, p),
          omega (
            arith,
            size,
            length-take n message,
            length-append plain (drop (length plain) message),
            length-drop (length plain) message,
          ),
        )
  ]
]

-- A type in the range of the types is looked up.
pub allows-Total :
    {B : Type 0} (k : ReadConfig) (packet_type : ℕ) (g : Bool → R B) (r : Reader)
    → packet_type < length k.allowed_packets
    → Total (g (get_or k.allowed_packets packet_type false)) r
    → Total (allows k packet_type >>= g) r
unfolding allows
allows-Total k packet_type g r l y =
    let found : ltb packet_type (length k.allowed_packets) ≡ true = ground arith in
    record { value = y.value; after = y.after; is = rw (found, allows, ◌>>=◌) (y.is) }

pub decrypt_rest-Total :
    {B : Type 0} (f : Bytes → Result Bytes) (g : Bool → R B) (buffer : Bytes) (pos : ℕ)
    → KeepsSize (length buffer - pos) f
    → pos ≤ length buffer
    → ((ok : Bool) (after : Bytes)
        → length after ≡ length buffer
        → Total (g ok) (record { buffer = after; pos = pos }))
    → Total (decrypt_rest f >>= g) (record { buffer = buffer; pos = pos })
unfolding KeepsSize decrypt_rest
decrypt_rest-Total f g buffer pos keeps l k =
    elim (keeps (drop pos buffer) (omega (arith, length-drop pos buffer))) [
      | inr p ↦
          let y = k false buffer refl in
          record { value = y.value; after = y.after; is = rw (p, ◌>>=◌) (y.is) }
      | inl (plain, p, e) ↦
          let size : length (take pos buffer ++ plain) ≡ length buffer = omega (
            arith,
            e,
            length-append (take pos buffer) plain,
            length-take pos buffer,
            length-drop pos buffer,
            l,
          ) in
          let y = k true (take pos buffer ++ plain) size in
          record { value = y.value; after = y.after; is = rw (p, ◌>>=◌) (y.is) }
    ]

pub read_sequence-Reads : (n i sequence : ℕ) → Reads false n Anything (read_sequence n i sequence)
unfolding read_sequence
read_sequence-Reads zero i sequence = pure-Reads 0 sequence refl
read_sequence-Reads (suc n) i sequence =
    Reads-more (1 + n) (suc n) _ _ (omega arith)
      (>>=-Reads 1 n (word-Reads 1) (λ value h. read_sequence-Reads n (i + 1) _))

-- A read of exactly all that is left, or nothing.
exactly-Reads :
    {A : Type 0} (n m : ℕ) (f : R (Option A))
    → Reads false m Anything f
    → Reads false n Anything (if not (n == m) then pure none else f)
exactly-Reads n m f h =
    if-Reads n Anything (not (n == m)) _ _ (λ q. pure-Reads n none refl)
      (λ q. Reads-more m n Anything f (ground (arith, q)) h)

pair-Reads :
    {A B C : Type 0} (n m : ℕ) {P : A → Type 0} {Q : B → Type 0} (f : R A) (g : R B) (k : A → B → C)
    → Reads false n P f
    → Reads false m Q g
    → Reads false (n + m) Anything (f >>= λ a. (g >>= λ b. pure (k a b)))
pair-Reads n m f g k x y =
    Reads-more (n + (m + 0)) (n + m) Anything _ (omega arith)
      (>>=-Reads n (m + 0) x (λ a h. >>=-Reads m 0 y (λ b l. pure-Reads 0 (k a b) refl)))

pub read_body-Reads : (packet_type n : ℕ) → Reads false n Anything (read_body packet_type n)
unfolding read_body
read_body-Reads packet_type n =
    if-Reads n _ (packet_type == 1) _ _ (λ q. exactly-Reads n 0 _ (pure-Reads 0 _ refl))
      (λ q.
        if-Reads n _ (packet_type == 2) _ _
          (λ q.
            exactly-Reads n 308 _
              (pair-Reads 8 300 uint64 (bytes 300) _ (word-Reads 8) (bytes-Reads 300)))
          (λ q.
            if-Reads n _ (packet_type == 3) _ _
              (λ q.
                exactly-Reads n 308 _
                  (pair-Reads 8 300 uint64 (bytes 300) _ (word-Reads 8) (bytes-Reads 300)))
              (λ q.
                if-Reads n _ (packet_type == 4) _ _
                  (λ q.
                    exactly-Reads n 8 _
                      (pair-Reads 4 4 uint32 uint32 _ (word-Reads 4) (word-Reads 4)))
                  (λ q.
                    if-Reads n _ (packet_type == 5) _ _
                      (λ q.
                        if-Reads n _ (ltb n 1) _ _ (λ q. pure-Reads n _ refl)
                          (λ q.
                            if-Reads n _ (ltb max_payload_bytes n) _ _ (λ q. pure-Reads n _ refl)
                              (λ q. Reads-more (n + 0) n _ _ (omega arith) (
                                >>=-Reads n 0 (bytes-Reads n) (λ content h. pure-Reads 0 _ refl)))))
                      (λ q.
                        if-Reads n _ (packet_type == 6) _ _
                          (λ q. exactly-Reads n 0 _ (pure-Reads 0 _ refl))
                          (λ q. pure-Reads n _ refl))))))

pub decrypt_packet-KeepsSize :
    (c : Aead) (prefix sequence : ℕ) (key : Bytes) (protocol_id n : ℕ)
    → IsAead c
    → KeepsSize n (decrypt_packet c prefix sequence key protocol_id n)
unfolding KeepsSize decrypt_packet
decrypt_packet-KeepsSize c prefix sequence key protocol_id n laws message l =
    rw (packet_additional_data_lem protocol_id prefix, decrypt_packet)
      (rw packet_nonce_lem (
        decrypt_aead-KeepsSize c n (additional_bytes protocol_id prefix) (nonce_bytes sequence) key
          laws message l))

pub decrypt_connect_token_private-KeepsSize :
    (c : Crypto) (protocol_id expire : ℕ) (nonce key : Bytes)
    → IsAead c.xchacha
    → KeepsSize 1024 (decrypt_connect_token_private c protocol_id expire nonce key)
unfolding KeepsSize decrypt_connect_token_private
decrypt_connect_token_private-KeepsSize c protocol_id expire nonce key laws message l =
    rw (connect_token_additional_data_lem protocol_id expire, decrypt_connect_token_private)
      (decrypt_aead-KeepsSize c.xchacha 1024 (token_extra protocol_id expire) nonce key laws message
        l)

-- More bytes than enough.
pub KeepsSize-more : (n m : ℕ) (f : Bytes → Result Bytes) → n ≤ m → KeepsSize n f → KeepsSize m f
unfolding KeepsSize
KeepsSize-more n m f q h message l = h message (omega (arith, q, l))
