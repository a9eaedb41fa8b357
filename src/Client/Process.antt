-- ===== src/Client/Process.antt =====
-- client.go: packets that the client receives.
use netcode_go.Prelude.{
  ℕ, Bool, true, false, ◌||◌, Option, none, some, List, [], ◌∷◌, Bytes, ok, err, panics,
  if◌then◌else◌,
}
use netcode_go.Address.{Address, equal}
use netcode_go.Packet.{
  Packet, ConnectionChallenge, ConnectionKeepAlive, ConnectionPayload, request, denied, challenge,
  response, keep_alive, payload, disconnect,
}
use netcode_go.Packet.Read.{read_packet}
use netcode_go.Queue
use netcode_go.Replay.{ReplayProtection}
use netcode_go.Server.{Env}
use netcode_go.Client.{
  Client, is_state, set_state, sending_connection_request, sending_connection_response, connected,
  connection_denied, disconnected,
}

abbrev pub client_allowed_packets : List Bool
client_allowed_packets = false ∷ true ∷ true ∷ false ∷ true ∷ true ∷ true ∷ []

-- The cases of `processPacketInternal`, once the packet's source is the server.
unfoldable pub receive_denied : Client → Client
receive_denied c =
    if is_state c.state sending_connection_request || is_state c.state sending_connection_response
    then record c {
      should_disconnect = true;
      should_disconnect_state = connection_denied;
      last_packet_receive_time = c.time;
    }
    else c

unfoldable pub receive_challenge : Client → ConnectionChallenge → Client
receive_challenge c p =
    if is_state c.state sending_connection_request
    then set_state
        (record c {
          challenge_token_sequence = p.challenge_token_sequence;
          challenge_token_data = p.challenge_token_data;
          last_packet_receive_time = c.time;
        })
        sending_connection_response
    else c

unfoldable pub receive_keep_alive : Client → ConnectionKeepAlive → Client
receive_keep_alive c p =
    if is_state c.state connected
    then record c { last_packet_receive_time = c.time }
    else if is_state c.state sending_connection_response
    then set_state
        (record c {
          last_packet_receive_time = c.time;
          client_index = p.client_index;
          max_clients = p.max_clients;
        })
        connected
    else c

unfoldable pub receive_payload : Client → ConnectionPayload → ℕ → Client
receive_payload c p sequence =
    if is_state c.state connected
    then record c {
      packet_receive_queue = (Queue.push c.packet_receive_queue p sequence).0;
      last_packet_receive_time = c.time;
    }
    else c

unfoldable pub receive_disconnect : Client → Client
receive_disconnect c =
    if is_state c.state connected
    then record c {
      should_disconnect = true;
      should_disconnect_state = disconnected;
      last_packet_receive_time = c.time;
    }
    else c

unfoldable pub receive : Client → Packet → ℕ → Client
receive c denied sequence = receive_denied c
receive c (challenge p) sequence = receive_challenge c p
receive c (keep_alive p) sequence = receive_keep_alive c p
receive c (payload p) sequence = receive_payload c p sequence
receive c disconnect sequence = receive_disconnect c
receive c (request p) sequence = c
receive c (response p) sequence = c

-- `processPacketInternal`
unfoldable pub process_packet_internal : Client → Address → Packet → ℕ → Client
process_packet_internal c from p sequence =
    if equal from c.server_address then receive c p sequence else c

-- The replay window, which `readPacket` advances through a pointer.
unfoldable pub store_replay : Client → Option ReplayProtection → Client
store_replay c none = c
store_replay c (some r) = record c { replay_protection = r }

module _ (env : Env) where
  -- `ProcessPacket`, with the wall clock's time. A panic, which stops the program, leaves the state.
  unfoldable pub process_packet : Client → Address → Bytes → ℕ → Client
  process_packet c from bytes now =
      elim (read_packet env.crypto
        (record {
          read_packet_key = if c.has_packet_keys then some c.read_packet_key else none;
          protocol_id = c.connect_token.protocol_id;
          current_timestamp = now;
          min_connect_token_expire_timestamp = 0;
          private_key = none;
          allowed_packets = client_allowed_packets;
        })
        (some c.replay_protection) bytes) [
          | err ↦ c
          | panics ↦ c
          | ok r ↦
              let c' = store_replay c r.replay in
              elim (r.packet) [ none ↦ c' | some p ↦ process_packet_internal c' from p r.sequence ]
        ]

  -- `receivePackets` on what the transport delivers in this frame.
  unfoldable pub receive_packets : Client → List (Address × Bytes) → ℕ → Client
  receive_packets c [] now = c
  receive_packets c ((from, bytes) ∷ rest) now =
      receive_packets (process_packet c from bytes now) rest now
