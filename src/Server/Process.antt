-- ===== src/Server/Process.antt =====
-- server.go: incoming packets, and the per-frame work of the server. A panic, which stops the
-- program, leaves the state.
use netcode_go.Prelude.{
  ℕ, Bool, true, false, ◌&&◌, ◌||◌, not, Option, none, some, List, [], ◌∷◌, Bytes, length, ok, err,
  panics, get_or, leb, ◌==◌, if◌then◌else◌,
}
use netcode_go.Float.{Float64, packet_send_interval}
use netcode_go.Address.{Address}
use netcode_go.Encryption.{EncryptionManager, find_encryption_mapping, get_receive_key, is_positive}
use netcode_go.Packet.{
  Packet, ConnectionPayload, request, denied, challenge, response, keep_alive, payload, disconnect,
}
use netcode_go.Packet.Read.{read_packet}
use netcode_go.Queue
use netcode_go.Replay.{ReplayProtection}
use netcode_go.Server.{
  Server, Env, client_disconnect, timed_out, client, with_client, find_client_index_by_address,
  for_slots,
}
use netcode_go.Server.Send.{send_client_packet, disconnect_client_internal}
use netcode_go.Server.Handshake.{
  is_none, process_connection_request_packet, process_connection_response_packet,
}

-- `serverAllowedPackets`
abbrev pub server_allowed_packets : List Bool
server_allowed_packets = true ∷ false ∷ false ∷ true ∷ true ∷ true ∷ true ∷ []

-- What a keep-alive and a payload do to the slot of the client they come from.
unfoldable pub hear : Server → ℕ → Server
hear s i =
    with_client s i (record (client s i) { last_packet_receive_time = s.time; confirmed = true })

-- The push of a payload on the slot's queue.
unfoldable pub enqueue : Server → ℕ → ConnectionPayload → ℕ → Server
enqueue s i p sequence =
    with_client s i
      (record (client s i) { packet_queue = (Queue.push (client s i).packet_queue p sequence).0 })

-- The slot's replay window, which `readPacket` advances through a pointer.
unfoldable pub store_replay : Server → Option ℕ → Option ReplayProtection → Server
store_replay s none replay = s
store_replay s (some i) none = s
store_replay s (some i) (some r) = with_client s i (record (client s i) { replay_protection = r })

unfoldable pub slot_replay : Server → Option ℕ → Option ReplayProtection
slot_replay s none = none
slot_replay s (some i) = some ((client s i).replay_protection)

-- The encryption index that `readAndProcessPacket` reads with, and the mappings after the search.
unfoldable pub reading_index : Env → Server → Address → Option ℕ → EncryptionManager × Option ℕ
reading_index env s from none = find_encryption_mapping env.fl s.encryption_manager from s.time
reading_index env s from (some i) = (s.encryption_manager, (client s i).encryption_index)

module _ (env : Env) where
  -- `processPacketInternal`, with the wall clock's time.
  unfoldable pub process_packet_internal :
      Server → Address → Packet → ℕ → Option ℕ → Option ℕ → ℕ → Server
  process_packet_internal s from (request p) sequence e c now =
      if s.ignore_connection_requests then s else process_connection_request_packet env s from p now
  process_packet_internal s from (response p) sequence e c now =
      if s.ignore_connection_responses then s else process_connection_response_packet env s from p e
  process_packet_internal s from (keep_alive p) sequence e none now = s
  process_packet_internal s from (keep_alive p) sequence e (some i) now = hear s i
  process_packet_internal s from (payload p) sequence e none now = s
  process_packet_internal s from (payload p) sequence e (some i) now =
      enqueue (hear s i) i p sequence
  process_packet_internal s from disconnect sequence e none now = s
  process_packet_internal s from disconnect sequence e (some i) now =
      disconnect_client_internal env s i false client_disconnect
  process_packet_internal s from denied sequence e c now = s
  process_packet_internal s from (challenge p) sequence e c now = s

  -- The call of `readPacket` in `readAndProcessPacket`, and what follows it.
  unfoldable pub process_with_key : Server → Address → Bytes → ℕ → Option ℕ → Option ℕ → Server
  process_with_key s from bytes now e c =
      elim (read_packet env.crypto
        (record {
          read_packet_key = get_receive_key s.encryption_manager e;
          protocol_id = s.config.protocol_id;
          current_timestamp = now;
          min_connect_token_expire_timestamp = s.min_connect_token_expire_timestamp;
          private_key = some s.config.private_key;
          allowed_packets = server_allowed_packets;
        })
        (slot_replay s c) bytes) [
          | err ↦ s
          | panics ↦ s
          | ok r ↦
              let s' = store_replay s c r.replay in
              elim (r.packet) [
                | none ↦ s'
                | some p ↦ process_packet_internal s' from p r.sequence e c now
              ]
        ]

  -- `readAndProcessPacket`
  unfoldable pub read_and_process_packet : Server → Address → Bytes → ℕ → Server
  read_and_process_packet s from bytes now =
      if not s.running || leb (length bytes) 1
      then s
      else let c = find_client_index_by_address s from in
        let (m, e) = reading_index env s from c in
        let s' = record s { encryption_manager = m } in
        if is_none (get_receive_key m e) && not (get_or bytes 0 0 == 0)
        then s'
        else process_with_key s' from bytes now e c

  -- `receivePackets` on what the transport delivers in this frame.
  unfoldable pub receive_packets : Server → List (Address × Bytes) → ℕ → Server
  receive_packets s [] now = s
  receive_packets s ((from, bytes) ∷ rest) now =
      receive_packets (read_and_process_packet s from bytes now) rest now

  -- A round of the loop of `sendPackets`.
  unfoldable pub keep_alive_slot : Server → ℕ → Server
  keep_alive_slot s i =
      if (client s i).connected
        && not (client s i).loopback
        && env.fl.le (env.fl.add (client s i).last_packet_send_time packet_send_interval) s.time
      then send_client_packet env s
          (keep_alive (record { client_index = i; max_clients = s.max_clients })) i
      else s

  -- `sendPackets`
  unfoldable pub send_packets : Server → Server
  send_packets s = if not s.running then s else for_slots s.max_clients 0 keep_alive_slot s

  -- A round of the loop of `checkForTimeouts`.
  unfoldable pub time_out_slot : Server → ℕ → Server
  time_out_slot s i =
      if (client s i).connected
        && is_positive (client s i).timeout
        && not (client s i).loopback
        && env.fl.le
            (env.fl.add (client s i).last_packet_receive_time
              (env.fl.from_int32 (client s i).timeout))
            s.time
      then disconnect_client_internal env s i false timed_out
      else s

  -- `checkForTimeouts`
  unfoldable pub check_for_timeouts : Server → Server
  check_for_timeouts s = if not s.running then s else for_slots s.max_clients 0 time_out_slot s

  -- `Update`, with the packets that arrived and the wall clock's time.
  unfoldable pub update : Server → Float64 → List (Address × Bytes) → ℕ → Server
  update s time packets now =
      check_for_timeouts (send_packets (receive_packets (record s { time = time }) packets now))
