-- ===== src/Server/Api.antt =====
-- server.go: the server's public operations, from `Start` to `ProcessLoopbackPacket`. A client
-- index is a natural number: a negative one is out of range like a large one.
use netcode_go.Prelude.{
  ℕ, ◌+◌, ◌-◌, ◌%◌, ◌^◌, Bool, true, false, ◌&&◌, ◌||◌, not, Option, none, some, ◌∷◌, Bytes,
  replicate, take, ◌++◌, length, set, ltb, leb, if◌then◌else◌,
}
use netcode_go.Address.{Address, no_address}
use netcode_go.Encryption
use netcode_go.TokenEntries
use netcode_go.Packet.{ConnectionPayload, keep_alive, payload}
use netcode_go.Packet.Read.{max_payload_bytes}
use netcode_go.Queue
use netcode_go.Server.{
  Server, Env, DisconnectReason, no_reason, server_disconnect, connection_changed, loopback_sent,
  max_clients_limit, first_global_sequence, client, with_client, emit, for_slots, reset_client_slot,
}
use netcode_go.Server.Send.{send_client_packet, disconnect_client_internal}
use netcode_go.Token.{user_data_bytes}

-- The guards of the operations on one slot.
abbrev pub is_slot : Server → ℕ → Bool
is_slot s i = s.running && ltb i s.max_clients

abbrev pub has_client : Server → ℕ → Bool
has_client s i = is_slot s i && (client s i).connected

-- `DisconnectLoopbackClient`
unfoldable pub disconnect_loopback_client : Server → ℕ → Server
disconnect_loopback_client s i =
    if has_client s i && (client s i).loopback
    then reset_client_slot
        (emit (with_client s i (record (client s i) { disconnect_reason = server_disconnect }))
          (connection_changed i false))
        i
    else s

-- A round of the loop of `Stop` over the loopback clients.
unfoldable pub stop_loopback_slot : Server → ℕ → Server
stop_loopback_slot s i =
    if (client s i).connected && (client s i).loopback then disconnect_loopback_client s i else s

-- The assignments at the end of `Stop`.
unfoldable pub shut_down : Server → Server
shut_down s = record s {
  running = false;
  max_clients = 0;
  num_connected_clients = 0;
  global_sequence = first_global_sequence;
  challenge_sequence = 0;
  challenge_key = replicate 32 0;
  connect_token_entries = TokenEntries.reset;
  encryption_manager = Encryption.reset;
}

-- The two loops at the end of `Start`.
unfoldable pub clear_queue : Server → ℕ → Server
clear_queue s i = with_client s i (record (client s i) { packet_queue = Queue.clear })

unfoldable pub clear_reason : Server → ℕ → Server
clear_reason s i = with_client s i (record (client s i) { disconnect_reason = no_reason })

-- The assignments of `Start`, with the random challenge key and the wall clock's time.
unfoldable pub boot : Server → ℕ → Bytes → ℕ → Server
boot s max_clients key now = record s {
  running = true;
  max_clients = max_clients;
  num_connected_clients = 0;
  global_sequence = first_global_sequence;
  challenge_sequence = 0;
  challenge_key = key;
  min_connect_token_expire_timestamp = (now + s.config.max_connect_token_lifetime) % 2 ^ 64;
}

-- `SendLoopbackPacketCallback` in `SendPacket`, and the assignments after it.
unfoldable pub send_loopback : Server → ℕ → Bytes → Server
send_loopback s i bytes =
    with_client (emit s (loopback_sent i bytes (client s i).sequence)) i (record (client s i) {
      sequence = ((client s i).sequence + 1) % 2 ^ 64;
      last_packet_send_time = s.time;
    })

-- `ConnectLoopbackClient`. `copy` writes at most 256 bytes on the zeroed user data.
unfoldable pub connect_loopback_client : Server → ℕ → ℕ → Bytes → Server
connect_loopback_client s i client_id user_data =
    if is_slot s i && not (client s i).connected
    then record s {
      num_connected_clients = s.num_connected_clients + 1;
      clients = set s.clients i (record (client s i) {
        loopback = true;
        connected = true;
        confirmed = true;
        encryption_index = none;
        client_id = client_id;
        sequence = 0;
        disconnect_reason = no_reason;
        address = no_address;
        last_packet_send_time = s.time;
        last_packet_receive_time = s.time;
        user_data =
            take user_data_bytes user_data ++ replicate (user_data_bytes - length user_data) 0;
      });
      events = connection_changed i true ∷ s.events;
    }
    else s

-- A payload packet that `SendPacket` and `ProcessLoopbackPacket` take.
abbrev pub is_payload : Bytes → Bool
is_payload bytes = not (leb (length bytes) 0) && leb (length bytes) max_payload_bytes

-- `ProcessLoopbackPacket`
unfoldable pub process_loopback_packet : Server → ℕ → Bytes → ℕ → Server
process_loopback_packet s i bytes sequence =
    if has_client s i && (client s i).loopback && is_payload bytes
    then with_client s i (record (client s i) {
      last_packet_receive_time = s.time;
      packet_queue =
          (Queue.push (client s i).packet_queue (record { payload_data = bytes }) sequence).0;
    })
    else s

-- `ReceivePacket`: the server afterwards, the payload, `none` for nil, and its sequence number.
unfoldable pub receive_packet : Server → ℕ → Server × Option ConnectionPayload × ℕ
receive_packet s i =
    let (q, p, sequence) = Queue.pop (client s i).packet_queue in
    if has_client s i
    then (
      with_client s i (record (client s i) { packet_queue = q }),
      p,
      elim p [ none ↦ 0 | some x ↦ sequence ],
    )
    else (s, none, 0)

-- The getters of one slot.
unfoldable pub client_connected : Server → ℕ → Bool
client_connected s i = has_client s i

unfoldable pub client_disconnect_reason : Server → ℕ → DisconnectReason
client_disconnect_reason s i = if is_slot s i then (client s i).disconnect_reason else no_reason

unfoldable pub client_id : Server → ℕ → ℕ
client_id s i = if is_slot s i then (client s i).client_id else 0

unfoldable pub client_address : Server → ℕ → Address
client_address s i = if is_slot s i then (client s i).address else no_address

unfoldable pub next_packet_sequence : Server → ℕ → ℕ
next_packet_sequence s i = if has_client s i then (client s i).sequence else 0

unfoldable pub client_user_data : Server → ℕ → Option Bytes
client_user_data s i = if is_slot s i then some ((client s i).user_data) else none

unfoldable pub client_loopback : Server → ℕ → Bool
client_loopback s i = is_slot s i && (client s i).loopback

module _ (env : Env) where
  -- `DisconnectClient`
  unfoldable pub disconnect_client : Server → ℕ → Server
  disconnect_client s i =
      if has_client s i && not (client s i).loopback
      then disconnect_client_internal env s i true server_disconnect
      else s

  -- A round of the loop of `DisconnectAllClients`.
  unfoldable pub disconnect_slot : Server → ℕ → Server
  disconnect_slot s i =
      if (client s i).connected && not (client s i).loopback
      then disconnect_client_internal env s i true server_disconnect
      else s

  -- `DisconnectAllClients`
  unfoldable pub disconnect_all_clients : Server → Server
  disconnect_all_clients s =
      if not s.running then s else for_slots s.max_clients 0 disconnect_slot s

  -- `Stop`
  unfoldable pub stop : Server → Server
  stop s =
      if not s.running
      then s
      else let s1 = disconnect_all_clients s in
        shut_down (for_slots s1.max_clients 0 stop_loopback_slot s1)

  -- `Start`
  unfoldable pub start : Server → ℕ → Bytes → ℕ → Server
  start s max_clients key now =
      if leb max_clients 0 || ltb max_clients_limit max_clients
      then s
      else let s1 = boot (if s.running then stop s else s) max_clients key now in
        for_slots max_clients_limit 0 clear_reason (for_slots max_clients 0 clear_queue s1)

  -- The keep-alive that goes ahead of a payload while the client is not confirmed.
  unfoldable pub announce : Server → ℕ → Server
  announce s i =
      if (client s i).confirmed
      then s
      else send_client_packet env s
          (keep_alive (record { client_index = i; max_clients = s.max_clients })) i

  -- `SendPacket`
  unfoldable pub send_packet : Server → ℕ → Bytes → Server
  send_packet s i bytes =
      if not (is_payload bytes) || not (has_client s i)
      then s
      else if (client s i).loopback
      then send_loopback s i bytes
      else send_client_packet env (announce s i) (payload (record { payload_data = bytes })) i
