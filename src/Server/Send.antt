-- ===== src/Server/Send.antt =====
-- server.go: packets that the server sends, and disconnection of a client.
use netcode_go.Prelude.{
  ℕ, zero, suc, ◌+◌, ◌%◌, ◌^◌, Bool, false, not, Option, none, some, Bytes, replicate, take, ok,
  err, panics, set, ◌==◌, if◌then◌else◌, ◌∷◌,
}
use netcode_go.Address.{Address}
use netcode_go.Encryption.{
  EncryptionManager, touch, get_send_key, set_client_index, remove_encryption_mapping,
}
use netcode_go.Packet.{Packet, disconnect}
use netcode_go.Packet.Write.{write_packet}
use netcode_go.Replay
use netcode_go.Server.{
  Server, Env, sent, connection_changed, DisconnectReason, client, with_client, emit,
  reset_client_slot,
}

abbrev pub max_packet_bytes : ℕ
max_packet_bytes = 1300

abbrev pub num_disconnect_packets : ℕ
num_disconnect_packets = 10

-- A packet written to a fresh buffer of 1300 bytes: its bytes, `none` where `writePacket`
-- returns 0. It does not panic on the packets that a server sends.
unfoldable pub packet_data : Env → Packet → ℕ → Bytes → ℕ → Option Bytes
packet_data env p sequence key protocol_id =
    elim (write_packet env.crypto.chacha p (replicate max_packet_bytes 0) sequence key
      protocol_id) [
        | ok (buffer, n) ↦ if n == 0 then none else some (take n buffer)
        | err ↦ none
        | panics ↦ none
      ]

module _ (env : Env) where
  unfoldable pub send_global_packet : Server → Packet → Address → Bytes → Server
  send_global_packet s p to key =
      elim (packet_data env p s.global_sequence key s.config.protocol_id) [
        | none ↦ s
        | some bytes ↦ record s {
          events = sent to p s.global_sequence key bytes ∷ s.events;
          global_sequence = (s.global_sequence + 1) % 2 ^ 64;
        }
      ]

  -- The end of `sendClientPacket`, once the mapping has been touched.
  unfoldable pub send_with_key : Server → Packet → ℕ → Bytes → Server
  send_with_key s p i key =
      elim (packet_data env p (client s i).sequence key s.config.protocol_id) [
        | none ↦ s
        | some bytes ↦ record s {
          events = sent (client s i).address p (client s i).sequence key bytes ∷ s.events;
          clients = set s.clients i (record (client s i) {
            sequence = ((client s i).sequence + 1) % 2 ^ 64;
            last_packet_send_time = s.time;
          });
        }
      ]

  -- `sendClientPacket`. An encryption index of -1 would panic; no connected client on the network
  -- has it.
  unfoldable pub send_client_packet : Server → Packet → ℕ → Server
  send_client_packet s p i = elim ((client s i).encryption_index) [
    | none ↦ s
    | some e ↦
        let (m, current) = touch s.encryption_manager e (client s i).address s.time in
        let s' = record s { encryption_manager = m } in
        if not current
        then s
        else elim (get_send_key m (some e)) [ none ↦ s | some key ↦ send_with_key s' p i key ]
  ]

  unfoldable pub send_disconnect_packets : ℕ → Server → ℕ → Server
  send_disconnect_packets zero s i = s
  send_disconnect_packets (suc n) s i =
      send_disconnect_packets n (send_client_packet s disconnect i) i

  -- The end of `disconnectClientInternal`: the keys are forgotten and the slot is reset.
  -- An encryption index of -1 would panic.
  unfoldable pub release_client : Server → ℕ → Server
  release_client s i =
      let s1 = with_client s i (record (client s i) { replay_protection = Replay.reset }) in
      let m : EncryptionManager = elim ((client s1 i).encryption_index) [
        | none ↦ s1.encryption_manager
        | some e ↦ set_client_index s1.encryption_manager e none
      ] in
      let (m', removed) = remove_encryption_mapping env.fl m (client s1 i).address s1.time in
      reset_client_slot (record s1 { encryption_manager = m' }) i

  unfoldable pub disconnect_client_internal : Server → ℕ → Bool → DisconnectReason → Server
  disconnect_client_internal s i send_packets reason =
      let s1 = with_client s i (record (client s i) { disconnect_reason = reason }) in
      let s2 = emit s1 (connection_changed i false) in
      let s3 = if send_packets then send_disconnect_packets num_disconnect_packets s2 i else s2 in
      release_client s3 i
