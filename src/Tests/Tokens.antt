-- ===== src/Tests/Tokens.antt =====
-- The theorems on connect tokens and connection requests, at concrete inputs.
use netcode_go.Prelude.{
  ◌⊎◌, ℕ, [], ◌∷◌, ◌++◌, Option, some, none, true, false, replicate, length-replicate, arith, ◌≡◌,
  ◌≤◌, inl, refl, ok, err, Bytes, Bool, length, drop,
}
use netcode_go.Address.{Address, no_address}
use netcode_go.Address.Parse.{Netip, ip4, parse_port, address_from_netip, to_netip}
use netcode_go.Address.Ports.{parse_port-decimal}
use netcode_go.Address.Conversion.{address_from_netip-to_netip}
use netcode_go.Crypto.{decrypt_aead}
use netcode_go.Packet.{ConnectionRequest, request}
use netcode_go.Packet.Write.{write_packet, version_info}
use netcode_go.Packet.Read.{ReadConfig, Read, read_packet, decrypt_connect_token_private}
use netcode_go.Packet.Request.{IsRequest, Lets, request_bytes, opened_request, request_round_trip}
use netcode_go.Packet.Total.{read_packet-ok}
use netcode_go.Token.{ConnectTokenPrivate, write_connect_token_private, read_connect_token_private}
use netcode_go.Token.Connect.{ConnectToken, no_connect_token, read_connect_token}
use netcode_go.Token.Generate.{
  RandomData, TokenRequest, parse_addresses, generate_connect_token, encrypt_connect_token_private,
  expire_timestamp, private_token, wrapped_token,
}
use netcode_go.Token.Addresses.{IsAddress}
use netcode_go.Token.Private.{IsPrivateToken}
use netcode_go.Token.Sealed.{private_token_round_trip, connect_token_additional_data_lem}
use netcode_go.Token.Reads.{Checked, read_connect_token-Checked}
use netcode_go.Token.PrivateReads.{ServerUsable, read_connect_token_private_outcomes}
use netcode_go.Token.Issue.{IsGrantable, generate_connect_token_round_trip}
use netcode_go.Tests.Toy.{toy, toy-IsAead, toy_crypto, key, localhost}

-- Numbers as names of addresses.
abbrev pub on_port : ℕ → Option Address
on_port port = some (localhost port)

abbrev pub session_keys : RandomData
session_keys = record {
  nonce = replicate 24 5;
  client_to_server_key = replicate 32 1;
  server_to_client_key = replicate 32 2;
}

abbrev pub token_request : TokenRequest
token_request = record {
  public_addresses = localhost 4000 ∷ localhost 4001 ∷ [];
  internal_addresses = localhost 5000 ∷ localhost 5001 ∷ [];
  expire_seconds = 30;
  timeout_seconds = 5;
  client_id = 99;
  protocol_id = 17;
  private_key = key;
  user_data = 1 ∷ 2 ∷ 3 ∷ [];
}

localhost-IsAddress : (port : ℕ) → port ≤ 65535 → IsAddress (localhost port)
unfolding replicate
localhost-IsAddress port h = (omega arith, inl (refl, refl, refl))

pub token_request-IsGrantable : IsGrantable token_request session_keys 1000
token_request-IsGrantable = record {
  some_address = omega arith;
  room = omega arith;
  pairs = refl;
  publics = (localhost-IsAddress 4000 (omega arith), (localhost-IsAddress 4001 (omega arith), tt));
  internals =
      (localhost-IsAddress 5000 (omega arith), (localhost-IsAddress 5001 (omega arith), tt));
  key_size = length-replicate 32 7;
  user_size = omega arith;
  client = omega arith;
  protocol = omega arith;
  time = omega arith;
  expiry = λ h. omega arith;
  nonce_size = length-replicate 24 5;
  write_key = length-replicate 32 1;
  read_key = length-replicate 32 2;
}

generate_connect_token_round_trip_example :
    (issued sealed clear : Bytes) × (generate_connect_token on_port toy_crypto
        (4000 ∷ 4001 ∷ [])
        (5000 ∷ 5001 ∷ [])
        30
        5
        99
        17
        key
        (1 ∷ 2 ∷ 3 ∷ [])
        session_keys
        1000
      ≡ ok issued)
    × (length sealed ≡ 1024)
    × (read_connect_token no_connect_token issued
        ≡ ok (wrapped_token token_request session_keys 1000 sealed, true))
    × (decrypt_connect_token_private toy_crypto 17
          (expire_timestamp 1000 30)
          (replicate 24 5)
          key
          sealed
        ≡ ok clear)
    × (length clear ≡ 1024)
    × (read_connect_token_private clear ≡ ok (private_token token_request session_keys))
unfolding parse_addresses no_connect_token
generate_connect_token_round_trip_example =
    generate_connect_token_round_trip on_port toy_crypto token_request session_keys 1000
      (4000 ∷ 4001 ∷ []) (5000 ∷ 5001 ∷ []) no_connect_token toy-IsAead token_request-IsGrantable
      refl refl refl

abbrev private_example : ConnectTokenPrivate
private_example = record {
  client_id = 99;
  timeout_seconds = 5;
  num_server_addresses = 1;
  server_addresses = localhost 5000 ∷ replicate 31 no_address;
  client_to_server_key = replicate 32 1;
  server_to_client_key = replicate 32 2;
  user_data = replicate 256 3;
}

private_example-IsPrivateToken : IsPrivateToken private_example (localhost 5000 ∷ [])
private_example-IsPrivateToken = record {
  id = omega arith;
  timeout = omega arith;
  num = refl;
  some_address = omega arith;
  room = omega arith;
  array = refl;
  addresses = (localhost-IsAddress 5000 (omega arith), tt);
  write_key = length-replicate 32 1;
  read_key = length-replicate 32 2;
  data_size = length-replicate 256 3;
}

private_token_round_trip_example :
    (written sealed clear : Bytes) × (write_connect_token_private private_example (replicate 1024 9)
      ≡ ok written)
    × (encrypt_connect_token_private toy_crypto 17 1030 (replicate 24 5) key written ≡ ok sealed)
    × (length sealed ≡ 1024)
    × (decrypt_connect_token_private toy_crypto 17 1030 (replicate 24 5) key sealed ≡ ok clear)
    × (length clear ≡ 1024)
    × (read_connect_token_private clear ≡ ok private_example)
private_token_round_trip_example =
    private_token_round_trip private_example (localhost 5000 ∷ []) private_example-IsPrivateToken
      toy_crypto toy-IsAead 17 1030 (replicate 24 5) key (length-replicate 32 7) (replicate 1024 9)
      (length-replicate 1024 9)

read_connect_token-Checked_example :
    (p : ConnectToken × Bool) × (read_connect_token no_connect_token (replicate 2048 78) ≡ ok p)
    × Checked p
unfolding no_connect_token
read_connect_token-Checked_example =
    read_connect_token-Checked no_connect_token (replicate 2048 78) (length-replicate 32 no_address)

abbrev pub server_reads : ReadConfig
server_reads = record {
  read_packet_key = none;
  protocol_id = 17;
  current_timestamp = 1010;
  min_connect_token_expire_timestamp = 0;
  private_key = some key;
  allowed_packets = true ∷ false ∷ false ∷ true ∷ true ∷ true ∷ true ∷ [];
}

abbrev small_request : ConnectionRequest
small_request = record {
  version_info = version_info;
  protocol_id = 17;
  connect_token_expire_timestamp = 1030;
  connect_token_nonce = replicate 24 5;
  connect_token_data = replicate 1024 6;
}

small_request-IsRequest : IsRequest small_request
small_request-IsRequest = record {
  version = refl;
  protocol = omega arith;
  expiry = omega arith;
  nonce_size = length-replicate 24 5;
  token_size = length-replicate 1024 6;
}

-- The toy cipher opens the data to its first 1008 bytes, in place.
abbrev small_clear : Bytes
small_clear = replicate 1024 6

small_opens :
    decrypt_connect_token_private toy_crypto 17 1030 (replicate 24 5) key (replicate 1024 6)
    ≡ ok small_clear
unfolding decrypt_connect_token_private decrypt_aead replicate
small_opens = rw (connect_token_additional_data_lem 17 1030, decrypt_connect_token_private) refl

small_request-Lets : Lets toy_crypto server_reads small_request key small_clear
small_request-Lets = record {
  allowed = refl;
  has_key = refl;
  protocol = refl;
  not_expired = omega arith;
  not_old = omega arith;
  opens = small_opens;
  clear_size = length-replicate 1024 6;
}

request_round_trip_example :
    (write_packet toy (request small_request) (replicate 1300 0) 4 key 17
      ≡ ok (request_bytes small_request ++ drop 1078 (replicate 1300 0), 1078))
    × (read_packet toy_crypto server_reads none (request_bytes small_request)
        ≡ ok (record {
          packet = some (request (record small_request { connect_token_data = small_clear }));
          sequence = 0;
          replay = none;
        }))
unfolding opened_request
request_round_trip_example =
    request_round_trip small_request small_request-IsRequest toy_crypto server_reads key small_clear
      small_request-Lets toy (replicate 1300 0) 4 key 17 none
      (omega (arith, length-replicate {A = ℕ} 1300 0))

-- A receiver with a key for the sender.
abbrev keyed_reads : ReadConfig
keyed_reads = record server_reads { read_packet_key = some key }

read_packet-ok_example :
    (r : Read) × (read_packet toy_crypto keyed_reads none (replicate 40 21) ≡ ok r)
read_packet-ok_example =
    read_packet-ok toy_crypto keyed_reads none (replicate 40 21) toy-IsAead toy-IsAead refl

parse_port-decimal_example : parse_port (b'8' ∷ b'0' ∷ []) ≡ some 80
parse_port-decimal_example = parse_port-decimal (b'8' ∷ b'0' ∷ [])

-- A parser that knows no text.
abbrev no_netip : Netip
no_netip = record { parse_addr = λ s. none; unmap = λ a. a }

address_from_netip-to_netip_example :
    address_from_netip no_netip (ip4 (127 ∷ 0 ∷ 0 ∷ 1 ∷ [])) 80 ≡ localhost 80
unfolding to_netip
address_from_netip-to_netip_example =
    address_from_netip-to_netip no_netip (localhost 80) (localhost-IsAddress 80 (omega arith)) refl

read_connect_token_private_outcomes_example :
    (read_connect_token_private (replicate 1024 1) ≡ err)
    ⊎ ((t : ConnectTokenPrivate) × (read_connect_token_private (replicate 1024 1) ≡ ok t)
        × ServerUsable t)
read_connect_token_private_outcomes_example = read_connect_token_private_outcomes (replicate 1024 1)
