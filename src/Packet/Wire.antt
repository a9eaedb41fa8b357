-- ===== src/Packet/Wire.antt =====
-- packet.go: the bytes of an encrypted packet, described at once, against `writePacket`.
use Prim.Native.Nat.{bit_or}
use netcode_go.Prelude.{
  ℕ, ◌+◌, ◌*◌, ◌%◌, ◌≤◌, ◌<◌, ◌≡◌, ◌∙◌, refl, sym, ap, arith, true, false, [], ◌∷◌, ◌++◌,
  append_assoc, length, drop, length-append, take-append, drop-append, length-drop, drop-drop, ok,
  Bytes, ◌==◌, ==_iff, holds_under, holds_under_lem,
}
use netcode_go.Buffer.{le_bytes}
use netcode_go.Buffer.Words.{length-le_bytes}
use netcode_go.Buffer.Writer.{◌>>◌, uint8, uint32, uint64, bytes}
use netcode_go.Buffer.Emits.{at, Emits, store-Emits, bytes-Emits, >>-Emits, filled_exactly}
use netcode_go.Crypto.{Aead, IsAead, mac_bytes}
use netcode_go.Crypto.Laws.{nonce_bytes, packet_nonce_lem, encrypt_aead_lem}
use netcode_go.Packet.{
  Packet, request, denied, challenge, response, keep_alive, payload, disconnect, packet_type,
}
use netcode_go.Packet.Write.{
  version_info, packet_additional_data, sequence_number_bytes_required, prefix_byte, write_sequence,
  write_body, encrypt_packet, write_encrypted, write_packet,
}
use netcode_go.Packet.Sequence.{write_sequence-Emits, skip-Emits}

-- All packets but connection requests are encrypted.
abbrev pub IsEncrypted : Packet → Type 0
IsEncrypted (request r) = ⊥
IsEncrypted _ = Unit {0}

-- The packet data before encryption.
unfoldable pub body_bytes : Packet → Bytes
body_bytes (request r) = []
body_bytes denied = []
body_bytes (challenge c) = le_bytes 8 c.challenge_token_sequence ++ c.challenge_token_data
body_bytes (response c) = le_bytes 8 c.challenge_token_sequence ++ c.challenge_token_data
body_bytes (keep_alive k) = le_bytes 4 k.client_index ++ le_bytes 4 k.max_clients
body_bytes (payload p) = p.payload_data
body_bytes disconnect = []

write_body-Emits : (p : Packet) → IsEncrypted p → Emits (write_body p) (body_bytes p)
unfolding write_body body_bytes
write_body-Emits (request r) e = absurd e
write_body-Emits denied e = skip-Emits
write_body-Emits (challenge c) e =
    >>-Emits (uint64 c.challenge_token_sequence) (bytes c.challenge_token_data) _ _ (store-Emits _)
      (bytes-Emits c.challenge_token_data)
write_body-Emits (response c) e =
    >>-Emits (uint64 c.challenge_token_sequence) (bytes c.challenge_token_data) _ _ (store-Emits _)
      (bytes-Emits c.challenge_token_data)
write_body-Emits (keep_alive k) e =
    >>-Emits (uint32 k.client_index) (uint32 k.max_clients) _ _ (store-Emits _) (store-Emits _)
write_body-Emits (payload p) e = bytes-Emits p.payload_data
write_body-Emits disconnect e = skip-Emits

-- The associated data of a packet.
abbrev pub additional_bytes : ℕ → ℕ → Bytes
additional_bytes protocol_id prefix = version_info ++ le_bytes 8 protocol_id ++ (prefix ∷ [])

length-additional : (id prefix : ℕ) → length (additional_bytes id prefix) ≡ 22
length-additional id prefix =
    omega (arith, length-append (le_bytes 8 id) (prefix ∷ []), length-le_bytes 8 id)

pub packet_additional_data_lem :
    (id prefix : ℕ) → packet_additional_data id prefix ≡ ok (additional_bytes id prefix)
unfolding packet_additional_data
packet_additional_data_lem id prefix =
    filled_exactly 22 (bytes version_info >> uint64 id >> uint8 prefix) (additional_bytes id prefix)
      (>>-Emits (bytes version_info >> uint64 id) (uint8 prefix) (version_info ++ le_bytes 8 id)
        (prefix ∷ [])
        (>>-Emits (bytes version_info) (uint64 id) version_info (le_bytes 8 id)
          (bytes-Emits version_info) (store-Emits (le_bytes 8 id)))
        (store-Emits (prefix ∷ [])))
      (length-additional id prefix)

-- Over the packet types and byte counts, the prefix byte is a sum.
prefix_table :
    holds_under (λ t. holds_under (λ n. bit_or t (n * 16 % 256) == t + n * 16) 9) 7 ≡ true
unfolding holds_under
prefix_table = refl

pub packet_type-lt : (p : Packet) → packet_type p < 7
packet_type-lt p = ground arith

pub prefix_byte_lem : (p : Packet) (n : ℕ) → n ≤ 8 → prefix_byte p n ≡ packet_type p + n * 16
unfolding prefix_byte
prefix_byte_lem p n h =
    let row =
      holds_under_lem (λ t. holds_under (λ n. bit_or t (n * 16 % 256) == t + n * 16) 9) 7
        (packet_type p) prefix_table (packet_type-lt p) in
    (==_iff _ _).0 (
      holds_under_lem (λ n. bit_or (packet_type p) (n * 16 % 256) == packet_type p + n * 16) 9 n row
        (omega arith))

-- The header before encryption, and the whole packet.
abbrev pub header_bytes : Packet → ℕ → Bytes
header_bytes p sequence =
    let n = sequence_number_bytes_required sequence in prefix_byte p n ∷ le_bytes n sequence

unfoldable pub wire : Aead → Packet → ℕ → Bytes → ℕ → Bytes
wire c p sequence key protocol_id =
    header_bytes p sequence
    ++ c.seal key (nonce_bytes sequence) (body_bytes p)
        (additional_bytes protocol_id (prefix_byte p (sequence_number_bytes_required sequence)))

encrypt_packet_lem :
    (c : Aead) (prefix sequence : ℕ) (key : Bytes) (id : ℕ) (header body rest : Bytes)
    → c.new_error key ≡ false
    → mac_bytes ≤ length rest
    → encrypt_packet c prefix sequence key id (length header) (at (header ++ body) rest)
      ≡ ok (
        header
            ++ (c.seal key (nonce_bytes sequence) body (additional_bytes id prefix)
                ++ drop mac_bytes rest),
        length header + length body + mac_bytes,
      )
unfolding encrypt_packet
encrypt_packet_lem c prefix sequence key id header body rest e h =
    rw (packet_additional_data_lem id prefix, encrypt_packet)
      (rw packet_nonce_lem (
        rw (append_assoc header body rest, drop-append header (body ++ rest) (length header) refl)
          (ground (
            arith,
            length-append header body,
            encrypt_aead_lem c body rest (additional_bytes id prefix) (nonce_bytes sequence) key,
            append_assoc header body rest,
            take-append header (body ++ rest) (length header) refl,
          ))))

write_encrypted_lem :
    (c : Aead) (p : Packet) (buffer : Bytes) (s : ℕ) (key : Bytes) (id : ℕ)
    → IsEncrypted p
    → c.new_error key ≡ false
    → length (header_bytes p s) + length (body_bytes p) + mac_bytes ≤ length buffer
    → write_encrypted c p buffer s key id
      ≡ ok (
        wire c p s key id
            ++ drop mac_bytes
                (drop (length (body_bytes p)) (drop (length (header_bytes p s)) buffer)),
        length (header_bytes p s) + length (body_bytes p) + mac_bytes,
      )
unfolding write_encrypted wire
write_encrypted_lem c p buffer s key id enc e room =
    rw (header_written, write_encrypted)
      (rw body_written (
        encrypt_packet_lem c (prefix_byte p n) s key id (header_bytes p s) (body_bytes p) rest e
          (omega (arith, length-drop h buffer, length-drop (length (body_bytes p)) (drop h buffer)))
        ∙ ap (λ b. ok (b, h + length (body_bytes p) + mac_bytes))
            (sym (append_assoc (header_bytes p s) sealed (drop mac_bytes rest)))))
  where
    n : ℕ
    n = sequence_number_bytes_required s

    h : ℕ
    h = length (header_bytes p s)

    rest : Bytes
    rest = drop (length (body_bytes p)) (drop h buffer)

    sealed : Bytes
    sealed = c.seal key (nonce_bytes s) (body_bytes p) (additional_bytes id (prefix_byte p n))

    header_written :
        (uint8 (prefix_byte p n) >> write_sequence n s) (at [] buffer)
        ≡ ok (at (header_bytes p s) (drop h buffer))
    header_written =
        >>-Emits (uint8 (prefix_byte p n)) (write_sequence n s) (prefix_byte p n ∷ [])
          (le_bytes n s) (store-Emits (prefix_byte p n ∷ [])) (write_sequence-Emits n s) [] buffer
          (omega arith)

    body_written :
        write_body p (at (header_bytes p s) (drop h buffer))
        ≡ ok (at (header_bytes p s ++ body_bytes p) rest)
    body_written =
        write_body-Emits p enc (header_bytes p s) (drop h buffer)
          (omega (arith, length-drop h buffer))

pub length-wire :
    (c : Aead) (p : Packet) (s : ℕ) (key : Bytes) (id : ℕ)
    → IsAead c
    → length (wire c p s key id) ≡ length (header_bytes p s) + length (body_bytes p) + mac_bytes
unfolding wire
length-wire c p s key id laws =
    let n = sequence_number_bytes_required s in
    let extra = additional_bytes id (prefix_byte p n) in
    omega (
      arith,
      length-append (header_bytes p s) (c.seal key (nonce_bytes s) (body_bytes p) extra),
      laws.length-seal key (nonce_bytes s) (body_bytes p) extra,
    )

write_packet-write_encrypted :
    (c : Aead) (p : Packet) (buffer : Bytes) (s : ℕ) (key : Bytes) (id : ℕ)
    → IsEncrypted p
    → write_packet c p buffer s key id ≡ write_encrypted c p buffer s key id
unfolding write_packet
write_packet-write_encrypted c (request r) buffer s key id enc = absurd enc
write_packet-write_encrypted c denied buffer s key id enc = refl
write_packet-write_encrypted c _ buffer s key id enc = refl

-- `writePacket` on an encrypted packet type, given a key of the right length and room in the
-- buffer: the bytes of the packet stand at the front of the buffer, the rest of the buffer
-- stays, and the number of bytes returned is theirs.
pub write_packet-wire :
    (c : Aead) (p : Packet) (buffer : Bytes) (s : ℕ) (key : Bytes) (id : ℕ)
    → IsAead c
    → IsEncrypted p
    → length key ≡ 32
    → length (wire c p s key id) ≤ length buffer
    → write_packet c p buffer s key id
      ≡ ok (
        wire c p s key id ++ drop (length (wire c p s key id)) buffer,
        length (wire c p s key id),
      )
write_packet-wire c p buffer s key id laws enc k room =
    write_packet-write_encrypted c p buffer s key id enc
    ∙ write_encrypted_lem c p buffer s key id enc (laws.new_ok key k) (omega (arith, total))
    ∙ cc (
      total,
      drop-drop h b (h + b) buffer refl,
      drop-drop (h + b) mac_bytes (h + b + mac_bytes) buffer refl,
    )
  where
    h : ℕ
    h = length (header_bytes p s)

    b : ℕ
    b = length (body_bytes p)

    total : length (wire c p s key id) ≡ h + b + mac_bytes
    total = length-wire c p s key id laws
