-- ===== src/Client/Agreement.antt =====
-- client.go, token.go and packet.go together: a connect token from its issue, through the client,
-- to the server that reads the client's request.
use netcode_go.Prelude.{
  ℕ, ◌<◌, ◌≤◌, ◌≡◌, ◌∙◌, refl, sym, ap, arith, true, false, Option, some, List, [], ◌∷◌, ◌++◌,
  length, Bytes, ok, get_or, replicate, length-replicate, drop, take-append,
}
use netcode_go.Address.{Address, no_address}
use netcode_go.Crypto.{IsAead, Crypto}
use netcode_go.Replay.{ReplayProtection}
use netcode_go.Packet.{ConnectionRequest, request}
use netcode_go.Packet.Write.{write_packet, version_info}
use netcode_go.Packet.Read.{
  ReadConfig, read_packet, decrypt_connect_token_private, connect_token_private_bytes,
}
use netcode_go.Packet.Request.{
  IsRequest, Lets, request_bytes, length-request_bytes, opened_request, request_round_trip,
}
use netcode_go.Server.{Env}
use netcode_go.Server.Send.{packet_data, max_packet_bytes}
use netcode_go.Token.{ConnectTokenPrivate, read_connect_token_private, max_servers_per_connect}
use netcode_go.Token.Generate.{
  RandomData, TokenRequest, expire_timestamp, private_token, wrapped_token, parse_addresses,
  generate_connect_token, generate_connect_token_private, padded,
}
use netcode_go.Token.Issue.{IsGrantable, generate_connect_token_round_trip, expire_timestamp-fits}
use netcode_go.Token.Fields.{padded_whole}
use netcode_go.Client.{
  Client, is_active, set_state, reset_before_next_connect, sending_connection_request,
}
use netcode_go.Client.Send.{connect_request, disconnect_internal}
use netcode_go.Client.Api.{use_token, disconnect, connect}
use netcode_go.Client.Refine.Calls.{connect_read}

module _ (env : Env) where
  -- A request as it is sent.
  packet_data-request :
      (r : ConnectionRequest) (sequence : ℕ) (key : Bytes) (protocol_id : ℕ)
      → write_packet env.crypto.chacha
          (request r)
          (replicate max_packet_bytes 0)
          sequence
          key
          protocol_id
        ≡ ok (request_bytes r ++ drop 1078 (replicate max_packet_bytes 0), 1078)
      → length (request_bytes r) ≡ 1078
      → packet_data env (request r) sequence key protocol_id ≡ some (request_bytes r)
  unfolding packet_data
  packet_data-request r sequence key protocol_id e n =
      let left : Bytes = drop 1078 (replicate max_packet_bytes 0) in
      rw (e, packet_data) (ap some (take-append (request_bytes r) left 1078 (sym n)))

  disconnect_idle : (c : Client) → is_active c.state ≡ false → disconnect env c ≡ c
  unfolding disconnect disconnect_internal
  disconnect_idle c a = rw (a) refl

-- A server that reads requests with the key and protocol id of the token, before its expiry.
pub record Serves (k : ReadConfig) (q : TokenRequest) (now : ℕ) : Type 0 where
  pub allowed : get_or k.allowed_packets 0 false ≡ true
  pub has_key : k.private_key ≡ some q.private_key
  pub protocol : k.protocol_id ≡ q.protocol_id
  pub not_expired : k.current_timestamp < expire_timestamp now q.expire_seconds
  pub not_old : k.min_connect_token_expire_timestamp ≤ expire_timestamp now q.expire_seconds

first_kept :
    (xs ys : List Address) → 0 < length xs → get_or (xs ++ ys) 0 no_address ≡ get_or xs 0 no_address
first_kept [] ys h = absurd (omega arith)
first_kept (x ∷ xs) ys h = refl

module _ (q : TokenRequest) (random : RandomData) (now : ℕ) (sealed : Bytes) where
  -- The request of a client that connects with the issued token.
  abbrev token_request : ConnectionRequest
  token_request = record {
    version_info = version_info;
    protocol_id = q.protocol_id;
    connect_token_expire_timestamp = expire_timestamp now q.expire_seconds;
    connect_token_nonce = random.nonce;
    connect_token_data = sealed;
  }

  token_request-IsRequest :
      IsGrantable q random now
      → length sealed ≡ connect_token_private_bytes
      → IsRequest token_request
  token_request-IsRequest v l = record {
    version = refl;
    protocol = v.protocol;
    expiry = expire_timestamp-fits q random now v;
    nonce_size = v.nonce_size;
    token_size = l;
  }

  Serves-Lets :
      (c : Crypto) (k : ReadConfig) (clear : Bytes)
      → Serves k q now
      → decrypt_connect_token_private c q.protocol_id
          (expire_timestamp now q.expire_seconds)
          random.nonce
          q.private_key
          sealed
        ≡ ok clear
      → length clear ≡ connect_token_private_bytes
      → Lets c k token_request q.private_key clear
  Serves-Lets c k clear serves d m = record {
    allowed = serves.allowed;
    has_key = serves.has_key;
    protocol = sym serves.protocol;
    not_expired = serves.not_expired;
    not_old = serves.not_old;
    opens = rw serves.protocol d;
    clear_size = m;
  }

  -- The request as it is sent, and as a server reads it.
  token_request_sent :
      (env : Env) (k : ReadConfig) (replay : Option ReplayProtection) (clear : Bytes)
      → IsGrantable q random now
      → length sealed ≡ connect_token_private_bytes
      → Lets env.crypto k token_request q.private_key clear
      → (sequence : ℕ) (key : Bytes)
      → (packet_data env (request token_request) sequence key q.protocol_id
          ≡ some (request_bytes token_request))
        × (read_packet env.crypto k replay (request_bytes token_request)
            ≡ ok (record {
              packet = some (request (record token_request { connect_token_data = clear }));
              sequence = 0;
              replay = replay;
            }))
  unfolding opened_request
  token_request_sent env k replay clear v l lets sequence key =
      let w = token_request-IsRequest v l in
      let (writes, reads) =
        request_round_trip token_request w env.crypto k q.private_key clear lets env.crypto.chacha
          (replicate max_packet_bytes 0) sequence key q.protocol_id replay
          (omega (arith, length-replicate {A = ℕ} max_packet_bytes 0)) in
      (
        packet_data-request env token_request sequence key q.protocol_id writes
            (length-request_bytes token_request w),
        reads,
      )

  module _ (env : Env) (c : Client) where
    abbrev connecting : Client
    connecting =
        set_state (reset_before_next_connect env (use_token c (wrapped_token q random now sealed)))
          sending_connection_request

    connect_request_lem : connect_request connecting ≡ request token_request
    unfolding connect_request set_state reset_before_next_connect use_token wrapped_token
    connect_request_lem = refl

    connecting-keys :
        (connecting.state ≡ sending_connection_request)
        × (connecting.read_packet_key ≡ random.server_to_client_key)
        × (connecting.write_packet_key ≡ random.client_to_server_key)
        × (connecting.server_address
            ≡ get_or (padded max_servers_per_connect no_address q.public_addresses) 0 no_address)
    unfolding set_state reset_before_next_connect use_token wrapped_token
    connecting-keys = (refl, refl, refl, refl)

private_token-keys :
    (q : TokenRequest) (random : RandomData)
    → ((private_token q random).client_id ≡ q.client_id)
      × ((private_token q random).server_to_client_key ≡ random.server_to_client_key)
      × ((private_token q random).client_to_server_key ≡ random.client_to_server_key)
unfolding private_token generate_connect_token_private
private_token-keys q random = (refl, refl, refl)

module _ {ℓ} {S : Type ℓ} (parse : S → Option Address) where
  -- For a request that can be granted, with a lawful cipher, `GenerateConnectToken` issues a token
  -- with which a client without a connection, whose old token has a zeroed address array, starts to
  -- connect to the first public address. The request packet that it then sends is read by a server
  -- that allows requests, has the private key and the protocol id, and whose time is before the
  -- expiry; its private data reads as a token with the client id asked for, with the key under which
  -- the client reads as the key from server to client, and with the one under which it writes as the
  -- key from client to server.
  pub connect-read_packet :
      (env : Env) (c : Client) (q : TokenRequest) (random : RandomData) (now : ℕ)
      (publics internals : List S) (k : ReadConfig) (replay : Option ReplayProtection)
      → IsAead env.crypto.xchacha
      → IsGrantable q random now
      → parse_addresses parse publics ≡ some q.public_addresses
      → parse_addresses parse internals ≡ some q.internal_addresses
      → is_active c.state ≡ false
      → c.connect_token.server_addresses ≡ replicate max_servers_per_connect no_address
      → Serves k q now
      → (issued bytes : Bytes) × (p : ConnectionRequest) × (t : ConnectTokenPrivate)
        × (generate_connect_token parse env.crypto publics internals q.expire_seconds
              q.timeout_seconds q.client_id q.protocol_id q.private_key q.user_data random now
            ≡ ok issued)
        × ((connect env c issued).state ≡ sending_connection_request)
        × ((connect env c issued).server_address ≡ get_or q.public_addresses 0 no_address)
        × (packet_data env
              (connect_request (connect env c issued))
              (connect env c issued).sequence
              (connect env c issued).write_packet_key
              q.protocol_id
            ≡ some bytes)
        × (read_packet env.crypto k replay bytes
            ≡ ok (record { packet = some (request p); sequence = 0; replay = replay }))
        × (read_connect_token_private p.connect_token_data ≡ ok t)
        × (t.client_id ≡ q.client_id)
        × (t.server_to_client_key ≡ (connect env c issued).read_packet_key)
        × (t.client_to_server_key ≡ (connect env c issued).write_packet_key)
  connect-read_packet env c q random now publics internals k replay laws v parsed parsed' idle empty
        serves =
      let (issued, sealed, clear, g, l, r, d, m, t) =
        generate_connect_token_round_trip parse env.crypto q random now publics internals
          c.connect_token laws v parsed parsed' empty in
      let gone = disconnect_idle env c idle in
      let is : connect env c issued ≡ connecting q random now sealed env c =
        connect_read env c issued (wrapped_token q random now sealed) (rw gone r)
        ∙ ap (λ x. connecting q random now sealed env x) gone in
      let lets = Serves-Lets q random now sealed env.crypto k clear serves d m in
      let (sends, reads) =
        token_request_sent q random now sealed env k replay clear v l lets
          (connect env c issued).sequence (connect env c issued).write_packet_key in
      let (state, read_key, write_key, address) = connecting-keys q random now sealed env c in
      let (id, to_client, to_server) = private_token-keys q random in
      (
        issued,
        request_bytes (token_request q random now sealed),
        record (token_request q random now sealed) { connect_token_data = clear },
        private_token q random,
        g,
        ap (λ x. x.state) is ∙ state,
        ap (λ x. x.server_address) is
            ∙ address
            ∙ ap (λ xs. get_or xs 0 no_address)
                (padded_whole max_servers_per_connect no_address q.public_addresses v.room)
            ∙ first_kept q.public_addresses _ v.some_address,
        ap
              (λ x.
                packet_data env x (connect env c issued).sequence
                  (connect env c issued).write_packet_key q.protocol_id)
              (ap connect_request is ∙ connect_request_lem q random now sealed env c)
            ∙ sends,
        reads,
        t,
        id,
        to_client ∙ sym read_key ∙ sym (ap (λ x. x.read_packet_key) is),
        to_server ∙ sym write_key ∙ sym (ap (λ x. x.write_packet_key) is),
      )
