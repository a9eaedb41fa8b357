-- ===== src/Client/Update.antt =====
-- client.go: `Update`, and the move to the token's next server.
use netcode_go.Prelude.{
  ℕ, ◌+◌, ◌-◌, ◌%◌, ◌^◌, Bool, true, false, ◌&&◌, ◌||◌, not, List, Bytes, get_or, leb,
  if◌then◌else◌,
}
use netcode_go.Float.{Float64}
use netcode_go.Address.{Address, no_address}
use netcode_go.Encryption.{is_positive}
use netcode_go.Server.{Env}
use netcode_go.Client.{
  Client, ClientState, is_active, is_state, set_state, reset_before_next_connect,
  sending_connection_request, sending_connection_response, connected, connect_token_expired,
  connection_request_timed_out, connection_response_timed_out, connection_timed_out,
}
use netcode_go.Client.Send.{send_packets, disconnect_internal}
use netcode_go.Client.Process.{receive_packets}

-- The assignments of `connectToNextServer` to the server's index and address.
unfoldable pub select_next_server : Client → Client
select_next_server c = record c {
  server_address_index = c.server_address_index + 1;
  server_address = get_or c.connect_token.server_addresses (c.server_address_index + 1) no_address;
}

-- There is no next server. The number of servers is an int32's bit pattern.
unfoldable pub is_last_server : Client → Bool
is_last_server c =
    not (is_positive c.connect_token.num_server_addresses)
    || leb c.connect_token.num_server_addresses (c.server_address_index + 1)

module _ (env : Env) where
  -- `connectToNextServer`: the client, and whether there was a next server.
  unfoldable pub connect_to_next_server : Client → Client × Bool
  connect_to_next_server c = if is_last_server c then (c, false) else (
    set_state (reset_before_next_connect env (select_next_server c)) sending_connection_request,
    true,
  )

  -- The next server, and disconnection if there is none.
  unfoldable pub give_up : Client → ClientState → Client
  give_up c destination =
      let (c', found) = connect_to_next_server c in
      if found then c' else disconnect_internal env c' destination false

  -- Nothing came from the server for the token's timeout.
  unfoldable pub is_timed_out : Client → Bool
  is_timed_out c =
      is_positive c.connect_token.timeout_seconds
      && env.fl.lt
          (env.fl.add c.last_packet_receive_time
            (env.fl.from_int32 c.connect_token.timeout_seconds))
          c.time

  -- The connect token has expired while connecting. The subtraction of the uint64 timestamps wraps.
  unfoldable pub is_token_expired : Client → Bool
  is_token_expired c =
      (is_active c.state && not (is_state c.state connected))
      && env.fl.le
          (env.fl.from_uint64 (
            (c.connect_token.expire_timestamp + 2 ^ 64 - c.connect_token.create_timestamp)
            % 2 ^ 64))
          (env.fl.sub c.time c.connect_start_time)

  -- The `switch` at the end of `Update`.
  unfoldable pub check_timeout : Client → ClientState → Client
  check_timeout c sending_connection_request =
      if is_timed_out c then give_up c connection_request_timed_out else c
  check_timeout c sending_connection_response =
      if is_timed_out c then give_up c connection_response_timed_out else c
  check_timeout c connected =
      if is_timed_out c then disconnect_internal env c connection_timed_out false else c
  check_timeout c _ = c

  -- `Update` from the check of the token's expiry on.
  unfoldable pub apply_timeouts : Client → Client
  apply_timeouts c =
      if is_token_expired c
      then disconnect_internal env c connect_token_expired false
      else if c.should_disconnect
      then give_up c c.should_disconnect_state
      else check_timeout c c.state

  -- `Update`, with the packets that arrived and the wall clock's time.
  unfoldable pub update : Client → Float64 → List (Address × Bytes) → ℕ → Client
  update c time packets now =
      if c.loopback
      then record c { time = time }
      else apply_timeouts
          (send_packets env (receive_packets env (record c { time = time }) packets now))
