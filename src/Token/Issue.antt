-- ===== src/Token/Issue.antt =====
-- token.go: what `GenerateConnectToken` issues, for the client and for the server.
use netcode_go.Prelude.{
  ℕ, ◌+◌, ◌-◌, ◌^◌, ◌<◌, ◌≤◌, ◌≡◌, ◌∙◌, refl, ap, arith, true, List, [], ◌∷◌, length, Bytes, ok,
  some, Option, Option-cases, replicate, length-append, length-replicate, inl, inr,
}
use netcode_go.Address.{Address, no_address}
use netcode_go.Crypto.{IsAead, Crypto, key_bytes}
use netcode_go.Packet.Read.{
  connect_token_private_bytes, connect_token_nonce_bytes, decrypt_connect_token_private,
}
use netcode_go.Token.{read_connect_token_private, max_servers_per_connect, user_data_bytes}
use netcode_go.Token.Connect.{ConnectToken, connect_token_bytes, read_connect_token}
use netcode_go.Token.Generate.{
  RandomData, TokenRequest, expire_timestamp, private_token, wrapped_token, seal_connect_token,
  generate_connect_token, generate_connect_token_private, parse_addresses,
}
use netcode_go.Token.Addresses.{AllAddresses}
use netcode_go.Token.Fields.{padded_whole}
use netcode_go.Token.Private.{IsPrivateToken}
use netcode_go.Token.Sealed.{private_token_round_trip}
use netcode_go.Token.Public.{
  IsPublicToken, write_connect_token_lem, read_connect_token_lem, public_written,
}

-- A request that can be granted, with random bytes of the right sizes, at a time at which the
-- expiry does not wrap around.
pub record IsGrantable (q : TokenRequest) (random : RandomData) (now : ℕ) : Type 0 where
  pub some_address : 0 < length q.public_addresses
  pub room : length q.public_addresses ≤ max_servers_per_connect
  pub pairs : length q.internal_addresses ≡ length q.public_addresses
  pub publics : AllAddresses q.public_addresses
  pub internals : AllAddresses q.internal_addresses
  pub key_size : length q.private_key ≡ key_bytes
  pub user_size : length q.user_data ≤ user_data_bytes
  pub client : q.client_id < 2 ^ 64
  pub protocol : q.protocol_id < 2 ^ 64
  pub time : now < 2 ^ 64
  pub expiry : q.expire_seconds < 2 ^ 63 → now + q.expire_seconds < 2 ^ 64
  pub nonce_size : length random.nonce ≡ connect_token_nonce_bytes
  pub write_key : length random.client_to_server_key ≡ key_bytes
  pub read_key : length random.server_to_client_key ≡ key_bytes

module _ (q : TokenRequest) (random : RandomData) (now : ℕ) (v : IsGrantable q random now) where
  expire_timestamp-later : now ≤ expire_timestamp now q.expire_seconds
  unfolding expire_timestamp
  expire_timestamp-later = ground (arith, v.expiry, v.time)

  pub expire_timestamp-fits : expire_timestamp now q.expire_seconds < 2 ^ 64
  unfolding expire_timestamp
  expire_timestamp-fits = ground (arith, v.expiry, v.time)

  private_token-IsPrivateToken : IsPrivateToken (private_token q random) q.internal_addresses
  unfolding private_token generate_connect_token_private
  private_token-IsPrivateToken = record {
    id = v.client;
    timeout = omega arith;
    num = refl;
    some_address = omega (arith, v.pairs, v.some_address);
    room = omega (arith, v.pairs, v.room);
    array =
        padded_whole max_servers_per_connect no_address q.internal_addresses
          (omega (arith, v.pairs, v.room));
    addresses = v.internals;
    write_key = v.write_key;
    read_key = v.read_key;
    data_size =
        ap (λ r. length r) (padded_whole user_data_bytes 0 q.user_data v.user_size)
        ∙ omega (
          arith,
          length-append q.user_data (replicate (user_data_bytes - length q.user_data) 0),
          length-replicate {A = ℕ} (user_data_bytes - length q.user_data) 0,
          v.user_size,
        );
  }

  wrapped_token-IsPublicToken :
      (sealed : Bytes)
      → length sealed ≡ connect_token_private_bytes
      → IsPublicToken (wrapped_token q random now sealed) q.public_addresses
  unfolding wrapped_token
  wrapped_token-IsPublicToken sealed size = record {
    protocol = v.protocol;
    created = v.time;
    expires = expire_timestamp-fits;
    in_order = expire_timestamp-later;
    nonce_size = v.nonce_size;
    data_size = size;
    timeout = omega arith;
    num = refl;
    some_address = v.some_address;
    room = v.room;
    array = padded_whole max_servers_per_connect no_address q.public_addresses v.room;
    addresses = v.publics;
    write_key = v.write_key;
    read_key = v.read_key;
  }

module _ (c : Crypto) (laws : IsAead c.xchacha) (q : TokenRequest) (random : RandomData)
    (now : ℕ) where
  module _ (v : IsGrantable q random now) (old : ConnectToken)
      (empty : old.server_addresses ≡ replicate max_servers_per_connect no_address) where
    seal_connect_token_lem :
        (issued sealed clear : Bytes) × (seal_connect_token c q random now ≡ ok issued)
        × (length sealed ≡ connect_token_private_bytes)
        × (read_connect_token old issued ≡ ok (wrapped_token q random now sealed, true))
        × (decrypt_connect_token_private c q.protocol_id
              (expire_timestamp now q.expire_seconds)
              random.nonce
              q.private_key
              sealed
            ≡ ok clear)
        × (length clear ≡ connect_token_private_bytes)
        × (read_connect_token_private clear ≡ ok (private_token q random))
    unfolding seal_connect_token
    seal_connect_token_lem =
        let (written, sealed, clear, w, e, l, d, m, r) =
          private_token_round_trip (private_token q random) q.internal_addresses
            (private_token-IsPrivateToken q random now v) c laws q.protocol_id
            (expire_timestamp now q.expire_seconds) random.nonce q.private_key v.key_size
            (replicate connect_token_private_bytes 0)
            (length-replicate {A = ℕ} connect_token_private_bytes 0) in
        let p = wrapped_token-IsPublicToken q random now v sealed l in
        let t = wrapped_token q random now sealed in
        let out =
          write_connect_token_lem t q.public_addresses p (replicate connect_token_bytes 0)
            (length-replicate {A = ℕ} connect_token_bytes 0) in
        (
          public_written t q.public_addresses p,
          sealed,
          clear,
          rw (w, seal_connect_token) (rw e out),
          l,
          read_connect_token_lem t q.public_addresses p old empty,
          d,
          m,
          r,
        )

module _ {ℓ} {S : Type ℓ} (parse : S → Option Address) where
  length-parse_addresses :
      (names : List S) (xs : List Address)
      → parse_addresses parse names ≡ some xs
      → length xs ≡ length names
  unfolding parse_addresses
  length-parse_addresses [] xs e = ground (arith, e)
  length-parse_addresses (s ∷ names) xs e = elim (Option-cases (parse s)) [
    | inl p ↦ ground (arith, p, e)
    | inr (a, p) ↦ elim (Option-cases (parse_addresses parse names)) [
      | inl r ↦ ground (arith, p, r, e)
      | inr (rest, r) ↦ ground (arith, p, r, e, length-parse_addresses names rest r)
    ]
  ]

  generate_connect_token_lem :
      (c : Crypto) (q : TokenRequest) (random : RandomData) (now : ℕ) (publics internals : List S)
      → IsGrantable q random now
      → parse_addresses parse publics ≡ some q.public_addresses
      → parse_addresses parse internals ≡ some q.internal_addresses
      → generate_connect_token parse c publics internals q.expire_seconds q.timeout_seconds
          q.client_id q.protocol_id q.private_key q.user_data random now
        ≡ seal_connect_token c q random now
  unfolding generate_connect_token
  generate_connect_token_lem c q random now publics internals v p i =
      let n = length-parse_addresses publics q.public_addresses p in
      let m = length-parse_addresses internals q.internal_addresses i in
      let same : length internals ≡ length publics = omega (arith, n, m, v.pairs) in
      let size = v.key_size in
      rw (p, i, generate_connect_token)
        (ground (arith, n, m, same, size, v.some_address, v.room, v.user_size))

  -- For a request that can be granted (1 to 32 well-formed addresses for the client and as many for
  -- the servers, which the names parse to, a key of 32 bytes, at most 256 bytes of user data, random
  -- bytes of the right sizes, and an expiry that does not wrap), with a lawful cipher,
  -- `GenerateConnectToken` issues bytes that read, onto a token with a zeroed address array, as the
  -- public token of the request, and whose private data decrypts under the key and the public
  -- token's expiry and nonce, and reads as the private token of the request, with the same session
  -- keys.
  pub generate_connect_token_round_trip :
      (c : Crypto) (q : TokenRequest) (random : RandomData) (now : ℕ) (publics internals : List S)
      (old : ConnectToken)
      → IsAead c.xchacha
      → IsGrantable q random now
      → parse_addresses parse publics ≡ some q.public_addresses
      → parse_addresses parse internals ≡ some q.internal_addresses
      → old.server_addresses ≡ replicate max_servers_per_connect no_address
      → (issued sealed clear : Bytes) × (generate_connect_token parse c publics internals
            q.expire_seconds q.timeout_seconds q.client_id q.protocol_id q.private_key q.user_data
            random now
          ≡ ok issued)
        × (length sealed ≡ connect_token_private_bytes)
        × (read_connect_token old issued ≡ ok (wrapped_token q random now sealed, true))
        × (decrypt_connect_token_private c q.protocol_id
              (expire_timestamp now q.expire_seconds)
              random.nonce
              q.private_key
              sealed
            ≡ ok clear)
        × (length clear ≡ connect_token_private_bytes)
        × (read_connect_token_private clear ≡ ok (private_token q random))
  generate_connect_token_round_trip c q random now publics internals old laws v p i empty =
      let (issued, sealed, clear, g, l, r, d, m, k) =
        seal_connect_token_lem c laws q random now v old empty in
      (
        issued,
        sealed,
        clear,
        generate_connect_token_lem c q random now publics internals v p i ∙ g,
        l,
        r,
        d,
        m,
        k,
      )
