-- ===== src/Client.antt =====
-- client.go: the client's state, and the changes of it that the operations share.
pub mod Send
pub mod Process
pub mod Update
pub mod Api
pub mod Link
pub mod Refine
pub mod Liveness
pub mod Safety
pub mod Agreement
use netcode_go.Prelude.{
  ℕ, ◌-◌, Bool, true, false, List, [], ◌∷◌, Bytes, replicate, ltb, ◌==◌, if◌then◌else◌,
}
use netcode_go.Float.{Float64, float_zero, float_one, float_minus_1000}
use netcode_go.Address.{Address, no_address}
use netcode_go.Packet.{Packet}
use netcode_go.Packet.Read.{challenge_token_bytes}
use netcode_go.Crypto.{key_bytes}
use netcode_go.Queue
use netcode_go.Queue.{PacketQueue}
use netcode_go.Replay
use netcode_go.Replay.{ReplayProtection}
use netcode_go.Server.{Env}
use netcode_go.Token.Connect.{ConnectToken, no_connect_token}

-- The constants ClientStateConnectTokenExpired (-6) to ClientStateConnected (3), in that order.
pub data ClientState : Type 0 where
  connect_token_expired : ClientState
  invalid_connect_token : ClientState
  connection_timed_out : ClientState
  connection_response_timed_out : ClientState
  connection_request_timed_out : ClientState
  connection_denied : ClientState
  disconnected : ClientState
  sending_connection_request : ClientState
  sending_connection_response : ClientState
  connected : ClientState

-- The constant's value, counted from 0.
abbrev pub rank : ClientState → ℕ
rank connect_token_expired = 0
rank invalid_connect_token = 1
rank connection_timed_out = 2
rank connection_response_timed_out = 3
rank connection_request_timed_out = 4
rank connection_denied = 5
rank disconnected = 6
rank sending_connection_request = 7
rank sending_connection_response = 8
rank connected = 9

-- The comparisons of states in client.go.
abbrev pub is_state : ClientState → ClientState → Bool
is_state a b = rank a == rank b

abbrev pub is_active : ClientState → Bool
is_active s = ltb (rank disconnected) (rank s)

-- What the client does to the world: a packet handed to `sendPacketToAddress`, with the packet,
-- sequence number and key that it was written with, a StateChangeCallback, and a
-- SendLoopbackPacketCallback.
pub data ClientEvent : Type 0 where
  sent : Address → Packet → ℕ → Bytes → Bytes → ClientEvent
  state_changed : ClientState → ClientState → ClientEvent
  loopback_sent : ℕ → Bytes → ℕ → ClientEvent

-- `Client`. `events` records what it did to the world, latest first.
pub record Client : Type 0 where
  pub state : ClientState
  pub time : Float64
  pub connect_start_time : Float64
  pub last_packet_send_time : Float64
  pub last_packet_receive_time : Float64
  pub should_disconnect : Bool
  pub should_disconnect_state : ClientState
  pub sequence : ℕ
  pub client_index : ℕ
  pub max_clients : ℕ
  pub server_address_index : ℕ
  pub server_address : Address
  pub connect_token : ConnectToken
  pub read_packet_key : Bytes
  pub write_packet_key : Bytes
  pub has_packet_keys : Bool
  pub replay_protection : ReplayProtection
  pub packet_receive_queue : PacketQueue
  pub challenge_token_sequence : ℕ
  pub challenge_token_data : Bytes
  pub loopback : Bool
  pub events : List ClientEvent

unfoldable pub zero_key : Bytes
zero_key = replicate key_bytes 0

unfoldable pub zero_challenge : Bytes
zero_challenge = replicate challenge_token_bytes 0

-- `NewClientDual`, once the sockets are there.
unfoldable pub new_client : Float64 → Client
new_client time = record {
  state = disconnected;
  time = time;
  connect_start_time = float_zero;
  last_packet_send_time = float_minus_1000;
  last_packet_receive_time = float_minus_1000;
  should_disconnect = false;
  should_disconnect_state = disconnected;
  sequence = 0;
  client_index = 0;
  max_clients = 0;
  server_address_index = 0;
  server_address = no_address;
  connect_token = no_connect_token;
  read_packet_key = zero_key;
  write_packet_key = zero_key;
  has_packet_keys = false;
  replay_protection = Replay.reset;
  packet_receive_queue = Queue.clear;
  challenge_token_sequence = 0;
  challenge_token_data = zero_challenge;
  loopback = false;
  events = [];
}

-- `setState`
unfoldable pub set_state : Client → ClientState → Client
set_state c s = record c { state = s; events = state_changed c.state s ∷ c.events }

module _ (env : Env) where
  -- `resetBeforeNextConnect`
  unfoldable pub reset_before_next_connect : Client → Client
  reset_before_next_connect c = record c {
    connect_start_time = c.time;
    last_packet_send_time = env.fl.sub c.time float_one;
    last_packet_receive_time = c.time;
    should_disconnect = false;
    should_disconnect_state = disconnected;
    challenge_token_sequence = 0;
    challenge_token_data = zero_challenge;
    replay_protection = Replay.reset;
  }

  -- The assignments of `resetConnectionData` in front of `setState`.
  unfoldable pub forget_connection : Client → Client
  forget_connection c = record c {
    sequence = 0;
    loopback = false;
    client_index = 0;
    max_clients = 0;
    connect_start_time = float_zero;
    server_address_index = 0;
    server_address = no_address;
    connect_token = no_connect_token;
    read_packet_key = zero_key;
    write_packet_key = zero_key;
    has_packet_keys = false;
  }

  -- `resetConnectionData`
  unfoldable pub reset_connection_data : Client → ClientState → Client
  reset_connection_data c s =
      let c1 = reset_before_next_connect (set_state (forget_connection c) s) in
      record c1 { packet_receive_queue = Queue.clear }
