-- ===== src/Token/Connect.antt =====
-- token.go: the public connect token. Reading changes the token in place, also where it fails.
use netcode_go.Prelude.{
  ℕ, zero, suc, Bool, true, false, not, ◌||◌, List, [], ◌∷◌, length, take, replicate, Result, ok,
  err, panics, Bytes, ltb, ◌==◌, if◌then◌else◌,
}
use netcode_go.Address.{Address, no_address, array_eq}
use netcode_go.Buffer.Writer
use netcode_go.Buffer.Writer.{W, ◌>>◌}
use netcode_go.Buffer.Reader.{R, ◌>>=◌, pure, uint32, uint64, bytes}
use netcode_go.Crypto.{key_bytes}
use netcode_go.Encryption.{is_positive}
use netcode_go.Packet.Write.{version_info, version_info_bytes}
use netcode_go.Packet.Read.{connect_token_private_bytes, connect_token_nonce_bytes}
use netcode_go.Token.{write_addresses, read_address_onto, clear_to, max_servers_per_connect}

abbrev pub connect_token_bytes : ℕ
connect_token_bytes = 2048

-- `connectToken`. An int32 is its bit pattern; `server_addresses` is the array of 32.
pub record ConnectToken : Type 0 where
  pub protocol_id : ℕ
  pub create_timestamp : ℕ
  pub expire_timestamp : ℕ
  pub nonce : Bytes
  pub private_data : Bytes
  pub timeout_seconds : ℕ
  pub num_server_addresses : ℕ
  pub server_addresses : List Address
  pub client_to_server_key : Bytes
  pub server_to_client_key : Bytes

-- `connectToken{}`
unfoldable pub no_connect_token : ConnectToken
no_connect_token = record {
  protocol_id = 0;
  create_timestamp = 0;
  expire_timestamp = 0;
  nonce = replicate connect_token_nonce_bytes 0;
  private_data = replicate connect_token_private_bytes 0;
  timeout_seconds = 0;
  num_server_addresses = 0;
  server_addresses = replicate max_servers_per_connect no_address;
  client_to_server_key = replicate key_bytes 0;
  server_to_client_key = replicate key_bytes 0;
}

unfoldable pub write_connect_fields : ConnectToken → W
write_connect_fields t =
    Writer.bytes version_info
    >> Writer.uint64 t.protocol_id
    >> Writer.uint64 t.create_timestamp
    >> Writer.uint64 t.expire_timestamp
    >> Writer.bytes t.nonce
    >> Writer.bytes t.private_data
    >> Writer.uint32 t.timeout_seconds
    >> Writer.uint32 t.num_server_addresses
    >> write_addresses (take t.num_server_addresses t.server_addresses)
    >> Writer.bytes t.client_to_server_key
    >> Writer.bytes t.server_to_client_key

-- `connectToken.write`: the buffer afterwards.
unfoldable pub write_connect_token : ConnectToken → Bytes → Result Bytes
write_connect_token t buffer =
    elim ((write_connect_fields t >> clear_to connect_token_bytes)
      (record { buffer = buffer; pos = 0 })) [ ok w ↦ ok w.buffer | err ↦ err | panics ↦ panics ]

-- The loop of reads over the first `n` addresses of the array, until one fails.
unfoldable pub read_addresses_onto : ℕ → List Address → R (List Address × Bool)
read_addresses_onto zero old = pure (old, true)
read_addresses_onto (suc n) [] = λ r. panics
read_addresses_onto (suc n) (a ∷ rest) = do
  p ← read_address_onto a
  if not p.1
      then pure (p.0 ∷ rest, false)
      else do q ← read_addresses_onto n rest; pure (p.0 ∷ q.0, q.1)

-- `connectToken.read` from the number of server addresses on.
unfoldable pub read_server_fields : ConnectToken → R (ConnectToken × Bool)
read_server_fields t =
    if not (is_positive t.num_server_addresses)
      || ltb max_servers_per_connect t.num_server_addresses
    then pure (t, false)
    else do
      p ← read_addresses_onto t.num_server_addresses t.server_addresses
      if not p.1 then pure (record t { server_addresses = p.0 }, false) else do
        client_to_server ← bytes key_bytes
        server_to_client ← bytes key_bytes
        pure (
          record t {
            server_addresses = p.0;
            client_to_server_key = client_to_server;
            server_to_client_key = server_to_client;
          },
          true,
        )

-- `connectToken.read` behind the timestamps.
unfoldable pub read_sealed_fields : ConnectToken → R (ConnectToken × Bool)
read_sealed_fields t = if ltb t.expire_timestamp t.create_timestamp then pure (t, false) else do
  nonce ← bytes connect_token_nonce_bytes
  private_data ← bytes connect_token_private_bytes
  timeout ← uint32
  num ← uint32
  read_server_fields (record t {
    nonce = nonce;
    private_data = private_data;
    timeout_seconds = timeout;
    num_server_addresses = num;
  })

unfoldable pub read_connect_fields : ConnectToken → R (ConnectToken × Bool)
read_connect_fields t = do
  version ← bytes version_info_bytes
  if not (array_eq version version_info) then pure (t, false) else do
    protocol_id ← uint64
    create ← uint64
    expire ← uint64
    read_sealed_fields (record t {
      protocol_id = protocol_id;
      create_timestamp = create;
      expire_timestamp = expire;
    })

-- `connectToken.read`: the token afterwards, and whether it was read.
unfoldable pub read_connect_token : ConnectToken → Bytes → Result (ConnectToken × Bool)
read_connect_token t buffer =
    if not (length buffer == connect_token_bytes)
    then ok (t, false)
    else elim (read_connect_fields t (record { buffer = buffer; pos = 0 })) [
      | ok (result, r) ↦ ok result
      | err ↦ err
      | panics ↦ panics
    ]
