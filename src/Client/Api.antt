-- ===== src/Client/Api.antt =====
-- client.go: the client's public operations.
use netcode_go.Prelude.{
  ℕ, ◌+◌, ◌%◌, ◌^◌, true, not, ◌&&◌, ◌||◌, Option, none, some, ◌∷◌, Bytes, get_or, ok, err, panics,
  if◌then◌else◌,
}
use netcode_go.Address.{no_address}
use netcode_go.Packet.{ConnectionPayload, payload}
use netcode_go.Queue
use netcode_go.Server.{Env}
use netcode_go.Server.Api.{is_payload}
use netcode_go.Token.Connect.{ConnectToken, read_connect_token}
use netcode_go.Client.{
  Client, loopback_sent, is_state, set_state, reset_before_next_connect, reset_connection_data,
  disconnected, invalid_connect_token, sending_connection_request, connected,
}
use netcode_go.Client.Send.{send_packet_to_server, disconnect_internal}

-- The assignments of `Connect` after a connect token has been read.
unfoldable pub use_token : Client → ConnectToken → Client
use_token c t = record c {
  connect_token = t;
  server_address_index = 0;
  server_address = get_or t.server_addresses 0 no_address;
  read_packet_key = t.server_to_client_key;
  write_packet_key = t.client_to_server_key;
  has_packet_keys = true;
}

-- `ConnectLoopback`
unfoldable pub connect_loopback : Client → ℕ → ℕ → Client
connect_loopback c client_index max_clients = record c {
  state = connected;
  client_index = client_index;
  max_clients = max_clients;
  loopback = true;
}

-- `ProcessLoopbackPacket`
unfoldable pub process_loopback_packet : Client → Bytes → ℕ → Client
process_loopback_packet c bytes sequence =
    if c.loopback && is_payload bytes
    then record c {
      packet_receive_queue =
          (Queue.push c.packet_receive_queue (record { payload_data = bytes }) sequence).0;
    }
    else c

-- `ReceivePacket`: the client afterwards, the payload, `none` for nil, and its sequence number.
unfoldable pub receive_packet : Client → Client × Option ConnectionPayload × ℕ
receive_packet c =
    let (q, p, sequence) = Queue.pop c.packet_receive_queue in
    (record c { packet_receive_queue = q }, p, elim p [ none ↦ 0 | some x ↦ sequence ])

module _ (env : Env) where
  -- `Disconnect`
  unfoldable pub disconnect : Client → Client
  disconnect c = disconnect_internal env c disconnected true

  -- `DisconnectLoopback`
  unfoldable pub disconnect_loopback : Client → Client
  disconnect_loopback c = reset_connection_data env c disconnected

  -- `Close`. The sockets are closed as well.
  unfoldable pub close : Client → Client
  close c =
      let c' = if not c.loopback then disconnect c else disconnect_loopback c in
      record c' { packet_receive_queue = Queue.clear }

  -- `Connect`. A panic, which stops the program, leaves the state.
  unfoldable pub connect : Client → Bytes → Client
  connect c bytes =
      let c1 = disconnect c in
      elim (read_connect_token c1.connect_token bytes) [
        | err ↦ c1
        | panics ↦ c1
        | ok (t, valid) ↦
            if not valid
            then set_state (record c1 { connect_token = t }) invalid_connect_token
            else set_state (reset_before_next_connect env (use_token c1 t))
                sending_connection_request
      ]

  -- `SendPacket`
  unfoldable pub send_packet : Client → Bytes → Client
  send_packet c bytes =
      if not (is_payload bytes) || not (is_state c.state connected)
      then c
      else if not c.loopback
      then send_packet_to_server env c (payload (record { payload_data = bytes }))
      else record c {
        events = loopback_sent c.client_index bytes c.sequence ∷ c.events;
        sequence = (c.sequence + 1) % 2 ^ 64;
      }
