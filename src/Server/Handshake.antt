-- ===== src/Server/Handshake.antt =====
-- server.go: the handlers of connection requests and connection responses. The wall clock and the
-- bytes of the challenge key are inputs. A panic, which stops the program, leaves the state.
use netcode_go.Prelude.{
  Result, ℕ, ◌+◌, ◌-◌, ◌%◌, ◌^◌, Bool, true, false, ◌&&◌, ◌||◌, not, Option, none, some, List, [],
  ◌∷◌, Bytes, replicate, take, drop, ok, err, panics, set, ltb, ◌==◌, if◌then◌else◌,
}
use netcode_go.Float.{Float64, float_minus_one}
use netcode_go.Address.{Address, equal, address_none}
use netcode_go.Crypto.{mac_bytes}
use netcode_go.Encryption.{
  EncryptionManager, add_encryption_mapping, set_expire_time, set_client_index, get_send_key,
  get_timeout, get_connect_token_entry_index,
}
use netcode_go.Packet.{ConnectionRequest, ConnectionResponse, denied, challenge, keep_alive}
use netcode_go.Packet.Read.{connect_token_private_bytes, challenge_token_bytes}
use netcode_go.Token.{
  ConnectTokenPrivate, read_connect_token_private, ChallengeToken, write_challenge_token,
  read_challenge_token, encrypt_challenge_token, decrypt_challenge_token,
}
use netcode_go.TokenEntries.{TokenUse, admitted, refused, history_full, find_or_add, consume}
use netcode_go.Server.{
  Server, Env, no_reason, connection_changed, client, emit, find_client_index_by_id,
  find_client_index_by_address, find_free_client_index,
}
use netcode_go.Server.Send.{send_global_packet, send_client_packet}

-- The loop over the token's server addresses.
unfoldable pub found_server_address : Server → List Address → Bool
found_server_address s [] = false
found_server_address s (a ∷ rest) =
    equal s.address a
    || (not (s.address2.type == address_none) && equal s.address2 a)
    || found_server_address s rest

abbrev pub is_none {ℓ} : {A : Type ℓ} → Option A → Bool
is_none none = true
is_none (some a) = false

-- -1.0 for a negative timeout, an int32 with its top bit set.
unfoldable pub expire_time : Env → Float64 → ℕ → Float64
expire_time env time timeout =
    if ltb timeout (2 ^ 31) then env.fl.add time (env.fl.from_int32 timeout) else float_minus_one

-- What `processConnectionRequestPacket` gives `connectTokenEntriesFindOrAdd`.
unfoldable pub token_use : Server → Address → ConnectionRequest → ℕ → TokenUse
token_use s from p now = record {
  address = from;
  mac = drop (connect_token_private_bytes - mac_bytes) p.connect_token_data;
  expire_timestamp = p.connect_token_expire_timestamp;
  current_timestamp = now;
  time = s.time;
}

-- The challenge token's bytes for a client: written to 300 zero bytes and sealed.
unfoldable pub challenge_data : Env → Server → ConnectTokenPrivate → Result Bytes
challenge_data env s t =
    elim (write_challenge_token (record { client_id = t.client_id; user_data = t.user_data })
      (replicate challenge_token_bytes 0)) [
        | ok buffer ↦
            encrypt_challenge_token env.crypto.chacha buffer s.challenge_sequence s.challenge_key
        | err ↦ err
        | panics ↦ panics
      ]

module _ (env : Env) where
  -- The end of `processConnectionRequestPacket`, once the mapping is added.
  unfoldable pub send_challenge : Server → Address → ConnectTokenPrivate → Server
  send_challenge s from t = elim (challenge_data env s t) [
    | err ↦ s
    | panics ↦ s
    | ok bytes ↦
        send_global_packet env
          (record s { challenge_sequence = (s.challenge_sequence + 1) % 2 ^ 64 })
          (challenge (record {
            challenge_token_sequence = s.challenge_sequence;
            challenge_token_data = bytes;
          }))
          from t.server_to_client_key
  ]

  -- `processConnectionRequestPacket` from the token's admission to the history on.
  unfoldable pub offer_challenge : Server → Address → ConnectTokenPrivate → ℕ → Server
  offer_challenge s from t entry =
      if s.num_connected_clients == s.max_clients
      then send_global_packet env s denied from t.server_to_client_key
      else let (m, added) = add_encryption_mapping env.fl s.encryption_manager (record {
        address = from;
        send_key = t.server_to_client_key;
        receive_key = t.client_to_server_key;
        time = s.time;
        expire_time = expire_time env s.time t.timeout_seconds;
        timeout = t.timeout_seconds;
        connect_token_entry_index = some entry;
      }) in
        if not added then s else send_challenge (record s { encryption_manager = m }) from t

  -- `processConnectionRequestPacket`, with the wall clock's time.
  unfoldable pub process_connection_request_packet :
      Server → Address → ConnectionRequest → ℕ → Server
  process_connection_request_packet s from p now =
      elim (read_connect_token_private p.connect_token_data) [
        | err ↦ s
        | panics ↦ s
        | ok t ↦
            if not (found_server_address s (take t.num_server_addresses t.server_addresses))
            then s
            else if not (is_none (find_client_index_by_address s from))
            then s
            else if not (is_none (find_client_index_by_id s t.client_id))
            then s
            else let (entries, found) =
                find_or_add s.connect_token_entries (token_use s from p now) in
              let s' = record s { connect_token_entries = entries } in
              elim found [
                | history_full ↦ s'
                | refused ↦ s'
                | admitted entry ↦ offer_challenge s' from t entry
              ]
      ]

  -- The assignments of `connectClient`, up to the callback.
  unfoldable pub occupy_slot : Server → ℕ → Address → ℕ → ℕ → ℕ → Bytes → Server
  occupy_slot s i address client_id e timeout user_data = record s {
    num_connected_clients = s.num_connected_clients + 1;
    encryption_manager = m;
    clients = set s.clients i (record (client s i) {
      connected = true;
      timeout = timeout;
      encryption_index = some e;
      client_id = client_id;
      sequence = 0;
      address = address;
      disconnect_reason = no_reason;
      last_packet_send_time = s.time;
      last_packet_receive_time = s.time;
      user_data = user_data;
    });
    connect_token_entries = elim (get_connect_token_entry_index m (some e)) [
      | none ↦ s.connect_token_entries
      | some entry ↦ consume s.connect_token_entries entry
    ];
  }
    where
      m : EncryptionManager
      m = set_client_index (set_expire_time s.encryption_manager e float_minus_one) e (some i)

  -- `connectClient`. The user data has 256 bytes, so `copy` replaces the slot's whole.
  unfoldable pub connect_client : Server → ℕ → Address → ℕ → ℕ → ℕ → Bytes → Server
  connect_client s i address client_id e timeout user_data =
      let s1 = occupy_slot s i address client_id e timeout user_data in
      let p = keep_alive (record { client_index = i; max_clients = s1.max_clients }) in
      emit (send_client_packet env s1 p i) (connection_changed i true)

  -- The end of `processConnectionResponsePacket`, once there is a key to answer with. Without a
  -- free slot the source indexes with -1; a server that is not full has one.
  unfoldable pub accept_client : Server → Address → ChallengeToken → ℕ → Bytes → Server
  accept_client s from t e key =
      if not (is_none (find_client_index_by_address s from))
      then s
      else if not (is_none (find_client_index_by_id s t.client_id))
      then s
      else if s.num_connected_clients == s.max_clients
      then send_global_packet env s denied from key
      else elim (find_free_client_index s) [
        | none ↦ s
        | some i ↦
            connect_client s i from t.client_id e (get_timeout s.encryption_manager (some e))
              t.user_data
      ]

  -- `processConnectionResponsePacket`. Without an encryption index there is no send key.
  unfoldable pub process_connection_response_packet :
      Server → Address → ConnectionResponse → Option ℕ → Server
  process_connection_response_packet s from p e =
      elim (decrypt_challenge_token env.crypto.chacha p.challenge_token_data
        p.challenge_token_sequence s.challenge_key) [
          | err ↦ s
          | panics ↦ s
          | ok bytes ↦ elim (read_challenge_token bytes) [
            | err ↦ s
            | panics ↦ s
            | ok t ↦ elim e [
              | none ↦ s
              | some index ↦ elim (get_send_key s.encryption_manager (some index)) [
                | none ↦ s
                | some key ↦ accept_client s from t index key
              ]
            ]
          ]
        ]
