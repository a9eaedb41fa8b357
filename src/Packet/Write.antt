-- ===== src/Packet/Write.antt =====
-- packet.go: how packets are written and encrypted.
use Prim.Native.Nat.{bit_or}
use netcode_go.Prelude.{
  ℕ, zero, suc, ◌+◌, ◌-◌, ◌*◌, ◌/◌, ◌%◌, ◌^◌, [], ◌∷◌, ◌++◌, take, drop, Result, ok, err, panics,
  Bytes, ◌==◌, if◌then◌else◌,
}
use netcode_go.Buffer.Writer.{Writer, W, ◌>>◌, uint8, uint32, uint64, bytes, filled}
use netcode_go.Crypto.{Aead, encrypt_aead, packet_nonce, mac_bytes}
use netcode_go.Packet.{
  Packet, request, denied, challenge, response, keep_alive, payload, disconnect, packet_type,
  ConnectionRequest,
}

-- "NETCODE 1.02" and a zero byte.
abbrev pub version_info : Bytes
version_info =
    b'N' ∷ b'E' ∷ b'T' ∷ b'C' ∷ b'O' ∷ b'D' ∷ b'E' ∷ b' ' ∷ b'1' ∷ b'.' ∷ b'0' ∷ b'2' ∷ 0 ∷ []

abbrev pub version_info_bytes : ℕ
version_info_bytes = 13

-- The loop of `sequenceNumberBytesRequired` with `k` rounds left, when byte `k` of the uint64 is
-- under the mask: `sequence & mask` is not zero if that byte is not.
unfoldable pub required_loop : ℕ → ℕ → ℕ
required_loop zero sequence = 1
required_loop (suc k) sequence =
    let rest = required_loop k sequence in
    if sequence / 256 ^ suc k % 256 == 0 then rest else suc (suc k)

-- `sequenceNumberBytesRequired`
unfoldable pub sequence_number_bytes_required : ℕ → ℕ
sequence_number_bytes_required sequence = required_loop 7 sequence

-- `packetAdditionalData`: version info, protocol id and prefix byte.
unfoldable pub packet_additional_data : ℕ → ℕ → Result Bytes
packet_additional_data protocol_id prefix_byte =
    filled (version_info_bytes + 8 + 1)
      (bytes version_info >> uint64 protocol_id >> uint8 prefix_byte)

-- The packet type and the number of sequence bytes, shifted as a uint8.
unfoldable pub prefix_byte : Packet → ℕ → ℕ
prefix_byte p sequence_bytes = bit_or (packet_type p) (sequence_bytes * 16 % 256)

abbrev pub skip : W
skip w = ok w

-- The variable length sequence number, lowest byte first.
unfoldable pub write_sequence : ℕ → ℕ → W
write_sequence zero sequence_temp = skip
write_sequence (suc n) sequence_temp =
    uint8 (sequence_temp % 256) >> write_sequence n (sequence_temp / 256)

-- The branch of `writePacket` for connection requests.
unfoldable pub write_request : ConnectionRequest → W
write_request r =
    uint8 0
    >> bytes r.version_info
    >> uint64 r.protocol_id
    >> uint64 r.connect_token_expire_timestamp
    >> bytes r.connect_token_nonce
    >> bytes r.connect_token_data

-- The packet data by type, before encryption. An int32 is converted to uint32 unchanged.
unfoldable pub write_body : Packet → W
write_body (request r) = λ w. panics
write_body denied = skip
write_body (challenge c) = uint64 c.challenge_token_sequence >> bytes c.challenge_token_data
write_body (response c) = uint64 c.challenge_token_sequence >> bytes c.challenge_token_data
write_body (keep_alive k) = uint32 k.client_index >> uint32 k.max_clients
write_body (payload p) = bytes p.payload_data
write_body disconnect = skip

-- The end of `writePacket`: encrypt what stands between `start` and the writer's position. The
-- buffer afterwards and the number of bytes written, 0 if encryption fails.
unfoldable pub encrypt_packet : Aead → ℕ → ℕ → Bytes → ℕ → ℕ → Writer → Result (Bytes × ℕ)
encrypt_packet c prefix sequence key protocol_id start w =
    elim (packet_additional_data protocol_id prefix) [
      | ok additional ↦ elim (packet_nonce sequence) [
        | ok nonce ↦
            elim (encrypt_aead c (drop start w.buffer) (w.pos - start) additional nonce key) [
              | err ↦ ok (w.buffer, 0)
              | ok sealed ↦ ok (take start w.buffer ++ sealed, w.pos + mac_bytes)
              | panics ↦ panics
            ]
        | err ↦ err
        | panics ↦ panics
      ]
      | err ↦ err
      | panics ↦ panics
    ]

unfoldable pub write_encrypted : Aead → Packet → Bytes → ℕ → Bytes → ℕ → Result (Bytes × ℕ)
write_encrypted c p buffer sequence key protocol_id =
    let n = sequence_number_bytes_required sequence in
    let prefix = prefix_byte p n in
    elim ((uint8 prefix >> write_sequence n sequence) (record { buffer = buffer; pos = 0 })) [
      | ok w ↦ elim (write_body p w) [
        | ok w' ↦ encrypt_packet c prefix sequence key protocol_id w.pos w'
        | err ↦ err
        | panics ↦ panics
      ]
      | err ↦ err
      | panics ↦ panics
    ]

-- `writePacket`: the buffer afterwards and the number of bytes written.
unfoldable pub write_packet : Aead → Packet → Bytes → ℕ → Bytes → ℕ → Result (Bytes × ℕ)
write_packet c (request r) buffer sequence key protocol_id =
    elim (write_request r (record { buffer = buffer; pos = 0 })) [
      | ok w ↦ ok (w.buffer, w.pos)
      | err ↦ err
      | panics ↦ panics
    ]
write_packet c p buffer sequence key protocol_id =
    write_encrypted c p buffer sequence key protocol_id
