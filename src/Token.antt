-- ===== src/Token.antt =====
-- token.go: the private connect token and the challenge token.
pub mod Addresses
pub mod RoundTrip
pub mod Connect
pub mod Generate
pub mod Reads
pub mod PrivateReads
pub mod Fields
pub mod Private
pub mod Sealed
pub mod Public
pub mod Issue
use netcode_go.Prelude.{
  ℕ, zero, suc, ◌+◌, ◌-◌, ◌^◌, Bool, true, false, not, ◌&&◌, ◌||◌, Option, none, some, List, [],
  ◌∷◌, ◌++◌, length, take, drop, replicate, Result, ok, err, panics, Bytes, ltb, leb, ◌==◌,
  if◌then◌else◌,
}
use netcode_go.Buffer.Writer
use netcode_go.Buffer.Writer.{Writer, W, ◌>>◌}
use netcode_go.Buffer.Reader.{Reader, R, ◌>>=◌, pure, uint8, uint16, uint32, uint64, bytes}
use netcode_go.Address.{Address, no_address, address_ipv4, address_ipv6}
use netcode_go.Crypto.{Aead, encrypt_aead, decrypt_aead, packet_nonce, mac_bytes, key_bytes}
use netcode_go.Encryption.{is_positive}
use netcode_go.Packet.Write.{skip}
use netcode_go.Packet.Read.{connect_token_private_bytes, challenge_token_bytes}

abbrev pub max_servers_per_connect : ℕ
max_servers_per_connect = 32

abbrev pub user_data_bytes : ℕ
user_data_bytes = 256

-- `connectTokenPrivate`. An int32 is its bit pattern; `server_addresses` is the array of 32.
pub record ConnectTokenPrivate : Type 0 where
  pub client_id : ℕ
  pub timeout_seconds : ℕ
  pub num_server_addresses : ℕ
  pub server_addresses : List Address
  pub client_to_server_key : Bytes
  pub server_to_client_key : Bytes
  pub user_data : Bytes

unfoldable pub write_groups : List ℕ → W
write_groups [] = skip
write_groups (g ∷ gs) = Writer.uint16 g >> write_groups gs

-- `writeAddress`
unfoldable pub write_address : Address → W
write_address a =
    if a.type == address_ipv4
    then Writer.uint8 address_ipv4 >> Writer.bytes a.ipv4 >> Writer.uint16 a.port
    else if a.type == address_ipv6
    then Writer.uint8 address_ipv6 >> write_groups a.ipv6 >> Writer.uint16 a.port
    else λ w. panics

unfoldable pub read_groups : ℕ → R (List ℕ)
read_groups zero = pure []
read_groups (suc n) = do g ← uint16; gs ← read_groups n; pure (g ∷ gs)

abbrev pub fail : {A : Type 0} → R A
fail r = err

-- `readAddress`, on top of what the address was, and whether its type was known.
unfoldable pub read_address_onto : Address → R (Address × Bool)
read_address_onto old = do
  type ← uint8
  if type == address_ipv4
      then (do
        ipv4 ← bytes 4
        port ← uint16
        pure (record old { type = address_ipv4; ipv4 = ipv4; port = port }, true))
      else if type == address_ipv6
      then (do
        ipv6 ← read_groups 8
        port ← uint16
        pure (record old { type = address_ipv6; ipv6 = ipv6; port = port }, true))
      else pure (record old { type = type }, false)

-- `readAddress` into an address that is zero before and is dropped on an error.
unfoldable pub read_address : R Address
read_address = do p ← read_address_onto no_address; if p.1 then pure (p.0) else fail

-- The loops over the server addresses.
unfoldable pub write_addresses : List Address → W
write_addresses [] = skip
write_addresses (a ∷ rest) = write_address a >> write_addresses rest

unfoldable pub read_addresses : ℕ → R (List Address)
read_addresses zero = pure []
read_addresses (suc n) = do a ← read_address; rest ← read_addresses n; pure (a ∷ rest)

-- `clear(buffer[w.pos:n])`
unfoldable pub clear_to : ℕ → W
clear_to n w =
    if leb w.pos n && leb n (length w.buffer)
    then ok
        (record w { buffer = take w.pos w.buffer ++ (replicate (n - w.pos) 0 ++ drop n w.buffer) })
    else panics

-- `connectTokenPrivate.write`: the buffer afterwards.
unfoldable pub write_connect_token_private : ConnectTokenPrivate → Bytes → Result Bytes
write_connect_token_private t buffer = elim (fields (record { buffer = buffer; pos = 0 })) [
  | ok w ↦ ok w.buffer
  | err ↦ err
  | panics ↦ panics
]
  where
    fields : W
    fields =
        Writer.uint64 t.client_id
        >> Writer.uint32 t.timeout_seconds
        >> Writer.uint32 t.num_server_addresses
        >> write_addresses (take t.num_server_addresses t.server_addresses)
        >> Writer.bytes t.client_to_server_key
        >> Writer.bytes t.server_to_client_key
        >> Writer.bytes t.user_data
        >> clear_to connect_token_private_bytes

unfoldable pub read_private_fields : R ConnectTokenPrivate
read_private_fields = do
  client_id ← uint64
  timeout ← uint32
  num ← uint32
  if not (is_positive num) || ltb max_servers_per_connect num then fail else do
    addresses ← read_addresses num
    client_to_server ← bytes key_bytes
    server_to_client ← bytes key_bytes
    user_data ← bytes user_data_bytes
    pure (record {
      client_id = client_id;
      timeout_seconds = timeout;
      num_server_addresses = num;
      server_addresses = addresses ++ replicate (max_servers_per_connect - num) no_address;
      client_to_server_key = client_to_server;
      server_to_client_key = server_to_client;
      user_data = user_data;
    })

-- `connectTokenPrivate.read`, into a token that is zero before.
unfoldable pub read_connect_token_private : Bytes → Result ConnectTokenPrivate
read_connect_token_private buffer =
    if ltb (length buffer) connect_token_private_bytes
    then err
    else elim (read_private_fields (record { buffer = buffer; pos = 0 })) [
      | ok (t, r) ↦ ok t
      | err ↦ err
      | panics ↦ panics
    ]

-- `challengeToken`
pub record ChallengeToken : Type 0 where
  pub client_id : ℕ
  pub user_data : Bytes

-- `challengeToken.write`: the buffer afterwards. Slicing a buffer that is too short panics.
unfoldable pub write_challenge_token : ChallengeToken → Bytes → Result Bytes
write_challenge_token t buffer =
    if ltb (length buffer) challenge_token_bytes
    then panics
    else elim ((Writer.uint64 t.client_id >> Writer.bytes t.user_data) (record {
      buffer = replicate challenge_token_bytes 0 ++ drop challenge_token_bytes buffer;
      pos = 0;
    })) [ ok w ↦ ok w.buffer | err ↦ err | panics ↦ panics ]

unfoldable pub read_challenge_fields : R ChallengeToken
read_challenge_fields = do
  client_id ← uint64
  user_data ← bytes user_data_bytes
  pure (record { client_id = client_id; user_data = user_data })

-- `challengeToken.read`
unfoldable pub read_challenge_token : Bytes → Result ChallengeToken
read_challenge_token buffer =
    if ltb (length buffer) challenge_token_bytes
    then err
    else elim (read_challenge_fields (record { buffer = buffer; pos = 0 })) [
      | ok (t, r) ↦ ok t
      | err ↦ err
      | panics ↦ panics
    ]

-- `encryptChallengeToken` and `decryptChallengeToken`: no associated data, and the nonce of the
-- challenge sequence number.
unfoldable pub encrypt_challenge_token : Aead → Bytes → ℕ → Bytes → Result Bytes
encrypt_challenge_token c buffer sequence key = elim (packet_nonce sequence) [
  | ok nonce ↦ encrypt_aead c buffer (challenge_token_bytes - mac_bytes) [] nonce key
  | err ↦ err
  | panics ↦ panics
]

unfoldable pub decrypt_challenge_token : Aead → Bytes → ℕ → Bytes → Result Bytes
decrypt_challenge_token c buffer sequence key = elim (packet_nonce sequence) [
  | ok nonce ↦ decrypt_aead c buffer challenge_token_bytes [] nonce key
  | err ↦ err
  | panics ↦ panics
]
