-- ===== src/Packet/Read.antt =====
-- packet.go: `readPacket`, its checks in the order of the source.
use netcode_go.Prelude.{
  ℕ, zero, suc, ◌+◌, ◌-◌, ◌*◌, ◌/◌, ◌%◌, ◌^◌, Bool, true, false, not, ◌&&◌, ◌||◌, Option, none,
  some, List, [], ◌∷◌, ◌++◌, length, take, drop, get_or, Result, ok, err, panics, Bytes, ltb, leb,
  ◌==◌, if◌then◌else◌,
}
use netcode_go.Buffer.Writer.{bytes as write_bytes, uint64 as write_uint64, ◌>>◌, filled}
use netcode_go.Buffer.Reader.{R, ◌>>=◌, pure, uint8, uint32, uint64, bytes}
use netcode_go.Crypto.{Aead, Crypto, decrypt_aead, packet_nonce, mac_bytes}
use netcode_go.Replay.{ReplayProtection, already_received, advance_sequence}
use netcode_go.Packet.{
  Packet, request, denied, challenge, response, keep_alive, payload, disconnect,
  connection_keep_alive_packet, connection_num_packets,
}
use netcode_go.Packet.Write.{version_info, version_info_bytes, packet_additional_data}

abbrev pub connect_token_nonce_bytes : ℕ
connect_token_nonce_bytes = 24

abbrev pub connect_token_private_bytes : ℕ
connect_token_private_bytes = 1024

abbrev pub challenge_token_bytes : ℕ
challenge_token_bytes = 300

abbrev pub max_payload_bytes : ℕ
max_payload_bytes = 1200

-- Equality of byte arrays.
unfoldable pub bytes_eq : Bytes → Bytes → Bool
bytes_eq [] [] = true
bytes_eq (a ∷ as') (b ∷ bs) = a == b && bytes_eq as' bs
bytes_eq _ _ = false

-- A step that decrypts the buffer from the reader's position on, in place. It gives whether
-- that went well.
unfoldable pub decrypt_rest : (Bytes → Result Bytes) → R Bool
decrypt_rest f r = elim (f (drop r.pos r.buffer)) [
  | err ↦ ok (false, r)
  | ok plain ↦ ok (true, record r { buffer = take r.pos r.buffer ++ plain })
  | panics ↦ panics
]

-- `connectTokenAdditionalData` of token.go: version info, protocol id and expire timestamp.
unfoldable pub connect_token_additional_data : ℕ → ℕ → Result Bytes
connect_token_additional_data protocol_id expire_timestamp =
    filled (version_info_bytes + 8 + 8)
      (write_bytes version_info >> write_uint64 protocol_id >> write_uint64 expire_timestamp)

-- `decryptConnectTokenPrivate` of token.go.
unfoldable pub decrypt_connect_token_private : Crypto → ℕ → ℕ → Bytes → Bytes → Bytes → Result Bytes
decrypt_connect_token_private c protocol_id expire_timestamp nonce key buffer =
    elim (connect_token_additional_data protocol_id expire_timestamp) [
      | ok additional ↦
          decrypt_aead c.xchacha buffer connect_token_private_bytes additional nonce key
      | err ↦ err
      | panics ↦ panics
    ]

-- What `readPacket` leaves: the packet, or nil, the sequence number and the replay window.
pub record Read : Type 0 where
  pub packet : Option Packet
  pub sequence : ℕ
  pub replay : Option ReplayProtection

-- What a server or client passes to `readPacket`; a nil key is `none`.
pub record ReadConfig : Type 0 where
  pub read_packet_key : Option Bytes
  pub protocol_id : ℕ
  pub current_timestamp : ℕ
  pub min_connect_token_expire_timestamp : ℕ
  pub private_key : Option Bytes
  pub allowed_packets : List Bool

-- `allowedPackets[packetType]`, which panics out of range.
unfoldable pub allows : ReadConfig → ℕ → R Bool
allows k packet_type =
    if ltb packet_type (length k.allowed_packets)
    then pure (get_or k.allowed_packets packet_type false)
    else λ r. panics

-- A connection request, from its first byte on, once its length and the key are known.
unfoldable pub read_request : Crypto → ReadConfig → Bytes → R (Option Packet)
read_request c k private_key = do
  version ← bytes version_info_bytes
  if not (bytes_eq version version_info) then pure none else do
    id ← uint64
    if not (id == k.protocol_id) then pure none else do
      expire ← uint64
      if leb expire k.current_timestamp || ltb expire k.min_connect_token_expire_timestamp
          then pure none
          else do
            nonce ← bytes connect_token_nonce_bytes
            decrypted ←
                decrypt_rest
                  (decrypt_connect_token_private c k.protocol_id expire nonce private_key)
            if not decrypted then pure none else do
              token ← bytes connect_token_private_bytes
              pure (
                  some (
                    request (record {
                      version_info = version;
                      protocol_id = id;
                      connect_token_expire_timestamp = expire;
                      connect_token_nonce = nonce;
                      connect_token_data = token;
                    })))

-- The variable length sequence number, byte `i` first. The bytes do not overlap, so `|` adds.
unfoldable pub read_sequence : ℕ → ℕ → ℕ → R ℕ
read_sequence zero i sequence = pure sequence
read_sequence (suc n) i sequence = do
  value ← uint8
  read_sequence n (i + 1) (sequence + value * 256 ^ i)

-- The packet data by type, of `n` decrypted bytes.
unfoldable pub read_body : ℕ → ℕ → R (Option Packet)
read_body packet_type n =
    if packet_type == 1
    then (if not (n == 0) then pure none else pure (some denied))
    else if packet_type == 2
    then (if not (n == 8 + challenge_token_bytes) then pure none else do
      sequence ← uint64
      token ← bytes challenge_token_bytes
      pure (
          some (
            challenge
              (record { challenge_token_sequence = sequence; challenge_token_data = token }))))
    else if packet_type == 3
    then (if not (n == 8 + challenge_token_bytes) then pure none else do
      sequence ← uint64
      token ← bytes challenge_token_bytes
      pure (
          some (
            response
              (record { challenge_token_sequence = sequence; challenge_token_data = token }))))
    else if packet_type == 4
    then (if not (n == 8) then pure none else do
      index ← uint32
      clients ← uint32
      pure (some (keep_alive (record { client_index = index; max_clients = clients }))))
    else if packet_type == 5
    then (if ltb n 1
        then pure none
        else if ltb max_payload_bytes n
        then pure none
        else do content ← bytes n; pure (some (payload (record { payload_data = content }))))
    else if packet_type == 6
    then (if not (n == 0) then pure none else pure (some disconnect))
    else pure none

-- Replay protection is applied to keep-alive, payload and disconnect packets.
unfoldable pub is_replay : Option ReplayProtection → ℕ → ℕ → Bool
is_replay none packet_type sequence = false
is_replay (some r) packet_type sequence =
    leb connection_keep_alive_packet packet_type && already_received r sequence

unfoldable pub advance_replay : Option ReplayProtection → ℕ → ℕ → Option ReplayProtection
advance_replay none packet_type sequence = none
advance_replay (some r) packet_type sequence =
    if leb connection_keep_alive_packet packet_type
    then some (advance_sequence r sequence)
    else some r

-- Decryption of a packet's data in place, with its nonce and associated data.
unfoldable pub decrypt_packet : Aead → ℕ → ℕ → Bytes → ℕ → ℕ → Bytes → Result Bytes
decrypt_packet c prefix sequence key protocol_id encrypted_bytes buffer =
    elim (packet_additional_data protocol_id prefix) [
      | ok additional ↦ elim (packet_nonce sequence) [
        | ok nonce ↦ decrypt_aead c buffer encrypted_bytes additional nonce key
        | err ↦ err
        | panics ↦ panics
      ]
      | err ↦ err
      | panics ↦ panics
    ]

abbrev ignored : ℕ → Option ReplayProtection → R Read
ignored sequence replay = pure (record { packet = none; sequence = sequence; replay = replay })

-- The encrypted packets, from behind the sequence number on.
unfoldable pub read_sealed :
    Aead → ℕ → ReadConfig → Bytes → ℕ → ℕ → Option ReplayProtection → R Read
read_sealed c buffer_length k key prefix sequence replay =
    if is_replay replay packet_type sequence then ignored sequence replay else λ r.
    let encrypted_bytes = buffer_length - r.pos in
    (if ltb encrypted_bytes mac_bytes then ignored sequence replay else do
      decrypted ← decrypt_rest (decrypt_packet c prefix sequence key k.protocol_id encrypted_bytes)
      if not decrypted then ignored sequence replay else do
        p ← read_body packet_type (encrypted_bytes - mac_bytes)
        pure (record {
          packet = p;
          sequence = sequence;
          replay = advance_replay replay packet_type sequence;
        }))
      r
  where
    packet_type : ℕ
    packet_type = prefix % 16

-- The encrypted packets, from behind the prefix byte on.
unfoldable pub read_encrypted : Aead → ℕ → ReadConfig → Option ReplayProtection → ℕ → R Read
read_encrypted c buffer_length k replay prefix = elim k.read_packet_key [
  | none ↦ ignored 0 replay
  | some key ↦
      if ltb buffer_length (1 + 1 + mac_bytes)
      then ignored 0 replay
      else if leb connection_num_packets (prefix % 16)
      then ignored 0 replay
      else do
        allowed ← allows k (prefix % 16)
        if not allowed
            then ignored 0 replay
            else if ltb (prefix / 16) 1 || ltb 8 (prefix / 16)
            then ignored 0 replay
            else if ltb buffer_length (1 + prefix / 16 + mac_bytes)
            then ignored 0 replay
            else do
              sequence ← read_sequence (prefix / 16) 0 0
              read_sealed c buffer_length k key prefix sequence replay
]

-- The connection request packets, from behind the prefix byte on.
unfoldable pub read_unencrypted : Crypto → ℕ → ReadConfig → Option ReplayProtection → R Read
read_unencrypted c buffer_length k replay = do
  allowed ← allows k 0
  if not allowed
      then ignored 0 replay
      else if not (
          buffer_length
          == 1 + version_info_bytes + 8 + 8 + connect_token_nonce_bytes
            + connect_token_private_bytes)
      then ignored 0 replay
      else elim k.private_key [
        | none ↦ ignored 0 replay
        | some private_key ↦ do
          p ← read_request c k private_key
          pure (record { packet = p; sequence = 0; replay = replay })
      ]

-- `readPacket`
unfoldable pub read_packet : Crypto → ReadConfig → Option ReplayProtection → Bytes → Result Read
read_packet c k replay buffer =
    if ltb (length buffer) 1
    then ok (record { packet = none; sequence = 0; replay = replay })
    else elim (body (record { buffer = buffer; pos = 0 })) [
      | ok (result, r) ↦ ok result
      | err ↦ err
      | panics ↦ panics
    ]
  where
    body : R Read
    body = do
      prefix ← uint8
      if prefix == 0
          then read_unencrypted c (length buffer) k replay
          else read_encrypted c.chacha (length buffer) k replay prefix
