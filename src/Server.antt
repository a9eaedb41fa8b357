-- ===== src/Server.antt =====
-- server.go: the server's state, and the operations that touch one client slot. The arrays over
-- the client slots are one list of records with a field for each array.
pub mod Send
pub mod Handshake
pub mod Process
pub mod Api
pub mod Roster
pub mod Valid
pub mod Refine
pub mod Calls
pub mod Timeouts
use netcode_go.Prelude.{
  ℕ, zero, suc, ◌+◌, ◌-◌, ◌^◌, Bool, true, false, ◌&&◌, Option, none, some, List, [], ◌∷◌, Bytes,
  replicate, get_or, set, take, ◌==◌, if◌then◌else◌, first_index, not,
}
use netcode_go.Float.{Float64, FloatOps, float_zero}
use netcode_go.Address.{Address, no_address, equal}
use netcode_go.Crypto.{Crypto}
use netcode_go.Replay
use netcode_go.Replay.{ReplayProtection}
use netcode_go.Queue
use netcode_go.Queue.{PacketQueue}
use netcode_go.Packet.{Packet}
use netcode_go.TokenEntries
use netcode_go.TokenEntries.{ConnectTokenEntry}
use netcode_go.Encryption
use netcode_go.Encryption.{EncryptionManager}

abbrev pub max_clients_limit : ℕ
max_clients_limit = 256

-- The constants DisconnectReasonNone to DisconnectReasonServerDisconnect.
pub data DisconnectReason : Type 0 where
  no_reason timed_out client_disconnect server_disconnect : DisconnectReason

-- One index of the server's arrays over the client slots. An encryption index of -1 is `none`, an
-- int32 is its bit pattern.
pub record ClientSlot : Type 0 where
  pub connected : Bool
  pub timeout : ℕ
  pub loopback : Bool
  pub confirmed : Bool
  pub disconnect_reason : DisconnectReason
  pub encryption_index : Option ℕ
  pub client_id : ℕ
  pub sequence : ℕ
  pub last_packet_send_time : Float64
  pub last_packet_receive_time : Float64
  pub user_data : Bytes
  pub replay_protection : ReplayProtection
  pub packet_queue : PacketQueue
  pub address : Address

-- What the server does to the world: a packet handed to `sendPacketToAddress`, with the packet,
-- sequence number and key that it was written with, a ConnectDisconnectCallback, and a
-- SendLoopbackPacketCallback.
pub data Event : Type 0 where
  sent : Address → Packet → ℕ → Bytes → Bytes → Event
  connection_changed : ℕ → Bool → Event
  loopback_sent : ℕ → Bytes → ℕ → Event

-- The ServerConfig fields that are read after creation.
pub record ServerConfig : Type 0 where
  pub protocol_id : ℕ
  pub private_key : Bytes
  pub max_connect_token_lifetime : ℕ

-- `Server`. `events` records what it did to the world, latest first.
pub record Server : Type 0 where
  pub config : ServerConfig
  pub address : Address
  pub address2 : Address
  pub ignore_connection_requests : Bool
  pub ignore_connection_responses : Bool
  pub time : Float64
  pub running : Bool
  pub max_clients : ℕ
  pub num_connected_clients : ℕ
  pub global_sequence : ℕ
  pub challenge_sequence : ℕ
  pub challenge_key : Bytes
  pub clients : List ClientSlot
  pub connect_token_entries : List ConnectTokenEntry
  pub encryption_manager : EncryptionManager
  pub min_connect_token_expire_timestamp : ℕ
  pub events : List Event

-- What the program runs on: the float unit and the ciphers.
pub record Env : Type 0 where
  pub fl : FloatOps
  pub crypto : Crypto

-- 1 << 63
abbrev pub first_global_sequence : ℕ
first_global_sequence = 2 ^ 63

unfoldable pub no_user_data : Bytes
no_user_data = replicate 256 0

-- A slot as `NewServerDual` leaves it.
unfoldable pub new_slot : ClientSlot
new_slot = record {
  connected = false;
  timeout = 0;
  loopback = false;
  confirmed = false;
  disconnect_reason = no_reason;
  encryption_index = none;
  client_id = 0;
  sequence = 0;
  last_packet_send_time = float_zero;
  last_packet_receive_time = float_zero;
  user_data = no_user_data;
  replay_protection = Replay.reset;
  packet_queue = Queue.clear;
  address = no_address;
}

-- `NewServerDual`, from the parsed addresses on.
unfoldable pub new_server : ServerConfig → Address → Address → Float64 → Server
new_server config address address2 time = record {
  config = config;
  address = address;
  address2 = address2;
  ignore_connection_requests = false;
  ignore_connection_responses = false;
  time = time;
  running = false;
  max_clients = 0;
  num_connected_clients = 0;
  global_sequence = first_global_sequence;
  challenge_sequence = 0;
  challenge_key = replicate 32 0;
  clients = replicate max_clients_limit new_slot;
  connect_token_entries = TokenEntries.reset;
  encryption_manager = Encryption.reset;
  min_connect_token_expire_timestamp = 0;
  events = [];
}

abbrev pub client : Server → ℕ → ClientSlot
client s i = get_or s.clients i new_slot

-- A write to the arrays at one index.
abbrev pub with_client : Server → ℕ → ClientSlot → Server
with_client s i c = record s { clients = set s.clients i c }

abbrev pub emit : Server → Event → Server
emit s e = record s { events = e ∷ s.events }

-- A loop over the client slots from `i` on, with `n` rounds left.
unfoldable pub for_slots : ℕ → ℕ → (Server → ℕ → Server) → Server → Server
for_slots zero i body s = s
for_slots (suc n) i body s = for_slots n (i + 1) body (body s i)

-- `resetClientSlot`. The replay window, the timeout and the disconnect reason stay.
unfoldable pub reset_client_slot : Server → ℕ → Server
reset_client_slot s i = record s {
  clients = set s.clients i (record c {
    packet_queue = Queue.clear;
    connected = false;
    loopback = false;
    confirmed = false;
    client_id = 0;
    sequence = 0;
    last_packet_send_time = float_zero;
    last_packet_receive_time = float_zero;
    address = no_address;
    encryption_index = none;
    user_data = no_user_data;
  });
  num_connected_clients = s.num_connected_clients - 1;
}
  where
    c : ClientSlot
    c = client s i

-- `findClientIndexByID`, `findClientIndexByAddress` and `findFreeClientIndex`; `none` for -1.
unfoldable pub find_client_index_by_id : Server → ℕ → Option ℕ
find_client_index_by_id s id =
    first_index (λ c. c.connected && c.client_id == id) (take s.max_clients s.clients) 0

unfoldable pub find_client_index_by_address : Server → Address → Option ℕ
find_client_index_by_address s a =
    first_index (λ c. c.connected && equal c.address a) (take s.max_clients s.clients) 0

unfoldable pub find_free_client_index : Server → Option ℕ
find_free_client_index s = first_index (λ c. not c.connected) (take s.max_clients s.clients) 0
