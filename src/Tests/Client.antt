-- ===== src/Tests/Client.antt =====
-- The theorems on the client, at concrete inputs.
use netcode_go.Prelude.{
  List, [], ◌∷◌, some, none, true, false, replicate, arith, ◌≡◌, ◌⊎◌, inl, refl, ok, Bytes,
}
use netcode_go.Address.{no_address, equal, array_eq}
use netcode_go.Packet.{ConnectionRequest, request}
use netcode_go.Packet.Read.{read_packet}
use netcode_go.Replay.{ReplayProtection}
use netcode_go.Server.Send.{packet_data}
use netcode_go.Token.{ConnectTokenPrivate, read_connect_token_private}
use netcode_go.Token.Connect.{ConnectToken, no_connect_token, read_connect_token}
use netcode_go.Token.Generate.{parse_addresses, generate_connect_token, expire_timestamp}
use netcode_go.Token.Reads.{Usable}
use netcode_go.Client.{
  Client, new_client, zero_key, is_active, sending_connection_request, invalid_connect_token,
}
use netcode_go.Client.Send.{connect_request}
use netcode_go.Client.Process.{process_packet}
use netcode_go.Client.Api.{connect, disconnect}
use netcode_go.Client.Link.{link, begun, IsValid}
use netcode_go.Client.Refine.Calls.{
  Call, connects, updates, sends, connects_loopback, after_calls, client_reached-IsValid,
}
use netcode_go.Client.Refine.Promises.{Does}
use netcode_go.Client.Liveness.{silence, silence-gives_up}
use netcode_go.Client.Safety.{process_packet-unheard, connect_outcomes}
use netcode_go.Client.Agreement.{connect-read_packet}
use netcode_go.Tests.Toy.{toy-IsAead, toy_env, toy_crypto, key, localhost}
use netcode_go.Tests.Tokens.{
  on_port, session_keys, token_request, token_request-IsGrantable, server_reads,
}

abbrev calls : List Call
calls =
    connects (replicate 2048 78)
    ∷ updates 5 ((localhost 4000, replicate 100 3) ∷ []) 1000
    ∷ connects_loopback 1 4
    ∷ sends (1 ∷ 2 ∷ [])
    ∷ []

abbrev playing : Client
playing = after_calls toy_env (new_client 0) calls

client_reached-IsValid_example : IsValid (link playing)
client_reached-IsValid_example = client_reached-IsValid toy_env 0 calls

-- A client that asks the first of two servers for a connection.
abbrev two_servers : ConnectToken
two_servers = record no_connect_token {
  timeout_seconds = 5;
  num_server_addresses = 2;
  server_addresses = localhost 4000 ∷ localhost 4001 ∷ replicate 30 no_address;
}

abbrev asking : Client
asking = record (new_client 10) {
  state = sending_connection_request;
  last_packet_receive_time = 10;
  server_address = localhost 4000;
  connect_token = two_servers;
  has_packet_keys = true;
}

asking-IsValid : IsValid (link asking)
unfolding new_client no_connect_token zero_key replicate
asking-IsValid = record {
  sized = refl;
  looped = λ q. ground (arith, q);
  idle_target = refl;
  leaving_active = λ q. refl;
  keyed = λ p q. refl;
  read_key = λ p q. refl;
  write_key = λ p q. refl;
  in_token = λ p q. omega arith;
  server = λ p q. refl;
}

silence-gives_up_example :
    is_active (after_calls toy_env asking (silence toy_env 1000 (20 ∷ 30 ∷ []))).state ≡ false
unfolding new_client
silence-gives_up_example =
    silence-gives_up toy_env asking (20 ∷ 30 ∷ []) 1000 asking-IsValid refl refl refl (omega arith)

process_packet-unheard_example :
    (w : ReplayProtection) × (process_packet toy_env asking (localhost 3000) (5 ∷ 1 ∷ []) 1000
      ≡ record asking { replay_protection = w })
unfolding equal array_eq
process_packet-unheard_example =
    process_packet-unheard toy_env asking (localhost 3000) (5 ∷ 1 ∷ []) 1000 (inl refl)

connect_outcomes_example :
    ((t : ConnectToken) × (read_connect_token
          (disconnect toy_env asking).connect_token
          (replicate 2048 78)
        ≡ ok (t, true))
      × Usable t
      × (link (connect toy_env asking (replicate 2048 78))
          ≡ begun (link (disconnect toy_env asking)) t))
    ⊎ ((t : ConnectToken) × (read_connect_token
            (disconnect toy_env asking).connect_token
            (replicate 2048 78)
          ≡ ok (t, false))
        × (link (connect toy_env asking (replicate 2048 78))
            ≡ record (link (disconnect toy_env asking)) {
              state = invalid_connect_token;
              token = t;
            }))
connect_outcomes_example = connect_outcomes toy_env asking (replicate 2048 78) asking-IsValid

connect-read_packet_example :
    (issued bytes : Bytes) × (p : ConnectionRequest) × (t : ConnectTokenPrivate)
    × (generate_connect_token on_port toy_crypto
          (4000 ∷ 4001 ∷ [])
          (5000 ∷ 5001 ∷ [])
          30
          5
          99
          17
          key
          (1 ∷ 2 ∷ 3 ∷ [])
          session_keys
          1000
        ≡ ok issued)
    × ((connect toy_env (new_client 0) issued).state ≡ sending_connection_request)
    × ((connect toy_env (new_client 0) issued).server_address ≡ localhost 4000)
    × (packet_data toy_env
          (connect_request (connect toy_env (new_client 0) issued))
          (connect toy_env (new_client 0) issued).sequence
          (connect toy_env (new_client 0) issued).write_packet_key
          17
        ≡ some bytes)
    × (read_packet toy_crypto server_reads none bytes
        ≡ ok (record { packet = some (request p); sequence = 0; replay = none }))
    × (read_connect_token_private p.connect_token_data ≡ ok t)
    × (t.client_id ≡ 99)
    × (t.server_to_client_key ≡ (connect toy_env (new_client 0) issued).read_packet_key)
    × (t.client_to_server_key ≡ (connect toy_env (new_client 0) issued).write_packet_key)
unfolding parse_addresses new_client no_connect_token expire_timestamp
connect-read_packet_example =
    connect-read_packet on_port toy_env (new_client 0) token_request session_keys 1000
      (4000 ∷ 4001 ∷ []) (5000 ∷ 5001 ∷ []) server_reads none toy-IsAead token_request-IsGrantable
      refl refl refl refl
      (record {
        allowed = refl;
        has_key = refl;
        protocol = refl;
        not_expired = omega arith;
        not_old = omega arith;
      })
