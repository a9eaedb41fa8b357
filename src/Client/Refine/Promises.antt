-- ===== src/Client/Refine/Promises.antt =====
-- client.go: what each public operation promises to do to the link.
use netcode_go.Prelude.{
  ◌&&◌, ◌+◌, ◌-◌, ◌%◌, ◌^◌, ◌+◌, Bool, true, false, not, ◌||◌, ok, ◌≡◌, ◌⊎◌, leb, if◌then◌else◌,
}
use netcode_go.Encryption.{is_positive}
use netcode_go.Token.Connect.{ConnectToken, read_connect_token}
use netcode_go.Client.{
  Client, ClientState, is_active, is_state, invalid_connect_token, sending_connection_request,
  sending_connection_response, connected, connect_token_expired, connection_timed_out,
  connection_response_timed_out, connection_request_timed_out, disconnected,
}
use netcode_go.Client.Link.{Link, link, begun, moved, idle}
use netcode_go.Server.{Env}
use netcode_go.Client.Process.{receive_packets}
use netcode_go.Client.Refine.{Hearing, Listens}
use netcode_go.Client.Refine.Calls.{
  Call, connects, disconnects, disconnects_loopback, closes, updates, processes, sends, receives,
  connects_loopback, processes_loopback,
}

-- The connection ends in the state given, if there is one.
unfoldable pub left : Link → ClientState → Link
left l s = if not (is_active l.state) || is_state l.state s then l else idle s

-- The next server of the token, or the end of the connection if there is none.
unfoldable pub turned : Link → ClientState → Link
turned l s =
    if not (is_positive l.token.num_server_addresses)
      || leb l.token.num_server_addresses (l.index + 1)
    then left l s
    else moved l

-- A client without an answer for its timeout.
unfoldable pub given_up : Link → ClientState → Link
given_up l sending_connection_request = turned l connection_request_timed_out
given_up l sending_connection_response = turned l connection_response_timed_out
given_up l connected = left l connection_timed_out
given_up l _ = l

-- What the end of a frame comes to: the token has expired while connecting; a client that was told to
-- go turns to the next server; a silent server is given up; or nothing.
unfoldable pub frame : Bool → Bool → Link → Link
frame silent expired l =
    if (is_active l.state && not (is_state l.state connected)) && expired
    then left l connect_token_expired
    else if l.leaving
    then turned l l.target
    else if silent
    then given_up l l.state
    else l

module _ (env : Env) where
  -- Nothing came for the timeout of the token, if it has one.
  unfoldable pub is_silent : Client → Bool
  is_silent c =
      is_positive c.connect_token.timeout_seconds
      && env.fl.lt
          (env.fl.add c.last_packet_receive_time
            (env.fl.from_int32 c.connect_token.timeout_seconds))
          c.time

  -- The client tries to connect for the lifetime of its token.
  unfoldable pub is_outlived : Client → Bool
  is_outlived c =
      env.fl.le
        (env.fl.from_uint64
          ((c.connect_token.expire_timestamp + 2 ^ 64 - c.connect_token.create_timestamp) % 2 ^ 64))
        (env.fl.sub c.time c.connect_start_time)

  -- What an operation does to a client's link. The frame's end looks at the client behind the packets.
  unfoldable pub Does : Client → Call → Link → Type 0
  Does c (connects bytes) m =
      (t : ConnectToken) × (valid : Bool) × (read_connect_token (left (link c) disconnected).token
          bytes
        ≡ ok (t, valid))
      × (m ≡ (
          if valid
          then begun (left (link c) disconnected) t
          else record (left (link c) disconnected) { state = invalid_connect_token; token = t }))
  Does c disconnects m = m ≡ left (link c) disconnected
  Does c disconnects_loopback m = m ≡ idle disconnected
  Does c closes m = m ≡ (if not c.loopback then left (link c) disconnected else idle disconnected)
  Does c (updates time packets now) m =
      ((c.loopback ≡ true) × (m ≡ link c))
      ⊎ ((c.loopback ≡ false)
          × (let k = receive_packets env (record c { time = time }) packets now in
              Listens (link c) packets (link k)
              × (m ≡ frame (is_silent k) (is_outlived k) (link k))))
  Does c (processes from bytes now) m = Hearing (link c) from m
  Does c (sends bytes) m = m ≡ link c
  Does c receives m = m ≡ link c
  Does c (connects_loopback i n) m = m ≡ record (link c) { state = connected; loopback = true }
  Does c (processes_loopback bytes sequence) m = m ≡ link c
