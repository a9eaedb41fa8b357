-- ===== src/Token/Generate.antt =====
-- token.go: `GenerateConnectToken`. Address parsing, the clock and the random bytes are inputs.
use netcode_go.Prelude.{
  ℕ, ◌+◌, ◌-◌, ◌%◌, ◌^◌, not, ◌||◌, Option, none, some, List, [], ◌∷◌, ◌++◌, length, take,
  replicate, Result, ok, err, panics, Bytes, ltb, leb, ◌==◌, if◌then◌else◌,
}
use netcode_go.Address.{Address, no_address}
use netcode_go.Crypto.{Crypto, encrypt_aead, mac_bytes, key_bytes}
use netcode_go.Packet.Read.{connect_token_additional_data, connect_token_private_bytes}
use netcode_go.Token.{
  ConnectTokenPrivate, write_connect_token_private, max_servers_per_connect, user_data_bytes,
}
use netcode_go.Token.Connect.{ConnectToken, write_connect_token, connect_token_bytes}

-- What `RandomBytes` fills in.
pub record RandomData : Type 0 where
  pub nonce : Bytes
  pub client_to_server_key : Bytes
  pub server_to_client_key : Bytes

-- `copy(array[:], xs)` into a zeroed array of `n`.
unfoldable pub padded {ℓ} : {A : Type ℓ} → ℕ → A → List A → List A
padded n d xs = take n xs ++ replicate (n - length xs) d

-- `generateConnectTokenPrivate`
unfoldable pub generate_connect_token_private :
    ℕ → ℕ → List Address → Bytes → RandomData → ConnectTokenPrivate
generate_connect_token_private client_id timeout addresses user_data random = record {
  client_id = client_id;
  timeout_seconds = timeout;
  num_server_addresses = length addresses;
  server_addresses = padded max_servers_per_connect no_address addresses;
  client_to_server_key = random.client_to_server_key;
  server_to_client_key = random.server_to_client_key;
  user_data = padded user_data_bytes 0 user_data;
}

-- `encryptConnectTokenPrivate`
unfoldable pub encrypt_connect_token_private : Crypto → ℕ → ℕ → Bytes → Bytes → Bytes → Result Bytes
encrypt_connect_token_private c protocol_id expire_timestamp nonce key buffer =
    elim (connect_token_additional_data protocol_id expire_timestamp) [
      | ok additional ↦
          encrypt_aead c.xchacha buffer (connect_token_private_bytes - mac_bytes) additional nonce
            key
      | err ↦ err
      | panics ↦ panics
    ]

-- The loops that parse addresses, until one fails.
unfoldable pub parse_addresses {ℓ} :
    {S : Type ℓ} → (S → Option Address) → List S → Option (List Address)
parse_addresses parse [] = some []
parse_addresses parse (s ∷ rest) = elim (parse s) [
  | none ↦ none
  | some a ↦ elim (parse_addresses parse rest) [ none ↦ none | some xs ↦ some (a ∷ xs) ]
]

-- What is asked of `GenerateConnectToken`, once the addresses are parsed. An int is its 64-bit
-- pattern.
pub record TokenRequest : Type 0 where
  pub public_addresses : List Address
  pub internal_addresses : List Address
  pub expire_seconds : ℕ
  pub timeout_seconds : ℕ
  pub client_id : ℕ
  pub protocol_id : ℕ
  pub private_key : Bytes
  pub user_data : Bytes

unfoldable pub expire_timestamp : ℕ → ℕ → ℕ
expire_timestamp now expire_seconds =
    if ltb expire_seconds (2 ^ 63) then (now + expire_seconds) % 2 ^ 64 else 2 ^ 64 - 1

unfoldable pub private_token : TokenRequest → RandomData → ConnectTokenPrivate
private_token q random =
    generate_connect_token_private q.client_id (q.timeout_seconds % 2 ^ 32) q.internal_addresses
      q.user_data random

-- The public token around the sealed private one.
unfoldable pub wrapped_token : TokenRequest → RandomData → ℕ → Bytes → ConnectToken
wrapped_token q random now sealed = record {
  protocol_id = q.protocol_id;
  create_timestamp = now;
  expire_timestamp = expire_timestamp now q.expire_seconds;
  nonce = random.nonce;
  private_data = sealed;
  timeout_seconds = q.timeout_seconds % 2 ^ 32;
  num_server_addresses = length q.public_addresses;
  server_addresses = padded max_servers_per_connect no_address q.public_addresses;
  client_to_server_key = random.client_to_server_key;
  server_to_client_key = random.server_to_client_key;
}

-- `GenerateConnectToken` from the nonce on; `err` for an error.
unfoldable pub seal_connect_token : Crypto → TokenRequest → RandomData → ℕ → Result Bytes
seal_connect_token c q random now =
    elim (write_connect_token_private (private_token q random)
      (replicate connect_token_private_bytes 0)) [
        | err ↦ err
        | panics ↦ panics
        | ok plain ↦
            elim (encrypt_connect_token_private c q.protocol_id
              (expire_timestamp now q.expire_seconds) random.nonce q.private_key plain) [
                | err ↦ err
                | panics ↦ panics
                | ok sealed ↦
                    write_connect_token (wrapped_token q random now sealed)
                      (replicate connect_token_bytes 0)
              ]
      ]

-- `GenerateConnectToken`. `parse` is `ParseAddress`, `none` for its error.
unfoldable pub generate_connect_token {ℓ} :
    {S : Type ℓ}
    → (S → Option Address)
    → Crypto
    → List S
    → List S
    → ℕ
    → ℕ
    → ℕ
    → ℕ
    → Bytes
    → Bytes
    → RandomData
    → ℕ
    → Result Bytes
generate_connect_token parse c publics internals expire_seconds timeout_seconds client_id
      protocol_id private_key user_data random now =
    if leb (length publics) 0
      || ltb max_servers_per_connect (length publics)
      || not (length internals == length publics)
      || not (length private_key == key_bytes)
      || ltb user_data_bytes (length user_data)
    then err
    else elim (parse_addresses parse publics) [
      | none ↦ err
      | some public_addresses ↦ elim (parse_addresses parse internals) [
        | none ↦ err
        | some internal_addresses ↦
            seal_connect_token c
              (record {
                public_addresses = public_addresses;
                internal_addresses = internal_addresses;
                expire_seconds = expire_seconds;
                timeout_seconds = timeout_seconds;
                client_id = client_id;
                protocol_id = protocol_id;
                private_key = private_key;
                user_data = user_data;
              })
              random now
      ]
    ]
