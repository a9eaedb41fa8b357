-- ===== src/Packet.antt =====
-- packet.go: the packet types, and the wire format in the child modules.
pub mod Write
pub mod Read
pub mod Sequence
pub mod Wire
pub mod RoundTrip
pub mod Request
pub mod Parts
pub mod Total
use netcode_go.Prelude.{ℕ, Bytes}

-- The packet structs. Byte arrays are lists of bytes, an int32 is its 32-bit pattern.
pub record ConnectionRequest : Type 0 where
  pub version_info : Bytes
  pub protocol_id : ℕ
  pub connect_token_expire_timestamp : ℕ
  pub connect_token_nonce : Bytes
  pub connect_token_data : Bytes

pub record ConnectionChallenge : Type 0 where
  pub challenge_token_sequence : ℕ
  pub challenge_token_data : Bytes

pub record ConnectionResponse : Type 0 where
  pub challenge_token_sequence : ℕ
  pub challenge_token_data : Bytes

pub record ConnectionKeepAlive : Type 0 where
  pub client_index : ℕ
  pub max_clients : ℕ

pub record ConnectionPayload : Type 0 where
  pub payload_data : Bytes

-- The interface `packet`, implemented by the packet structs.
pub data Packet : Type 0 where
  request : ConnectionRequest → Packet
  denied : Packet
  challenge : ConnectionChallenge → Packet
  response : ConnectionResponse → Packet
  keep_alive : ConnectionKeepAlive → Packet
  payload : ConnectionPayload → Packet
  disconnect : Packet

-- The constants connectionRequestPacket to connectionDisconnectPacket.
abbrev pub packet_type : Packet → ℕ
packet_type (request p) = 0
packet_type denied = 1
packet_type (challenge p) = 2
packet_type (response p) = 3
packet_type (keep_alive p) = 4
packet_type (payload p) = 5
packet_type disconnect = 6

abbrev pub connection_keep_alive_packet : ℕ
connection_keep_alive_packet = 4

abbrev pub connection_num_packets : ℕ
connection_num_packets = 7
