-- ===== src/Tests/Server.antt =====
-- The theorems on the server, at concrete inputs.
use netcode_go.Prelude.{
  ℕ, List, [], ◌∷◌, some, false, replicate, arith, ◌≡◌, ◌≢◌, ◌<◌, ◌≤◌, ◌⊎◌, true, refl, set, ok,
  err, panics,
}
use netcode_go.Address.{no_address}
use netcode_go.Packet.{ConnectionRequest}
use netcode_go.Token.{ConnectTokenPrivate, write_connect_token_private}
use netcode_go.Server.{
  Server, ServerConfig, client, new_slot, new_server, for_slots, find_free_client_index,
  max_clients_limit,
}
use netcode_go.Server.Handshake.{process_connection_request_packet}
use netcode_go.Server.Process.{check_for_timeouts}
use netcode_go.Server.Timeouts.{overdue, check_for_timeouts-client}
use netcode_go.Server.Api.{stop, start, boot, clear_queue, clear_reason}
use netcode_go.Server.Roster.{roster, seat, free_seat}
use netcode_go.Server.Valid.{IsValid}
use netcode_go.Server.Refine.Handshake.{
  find_free_client_index_room, process_connection_request_packet-roster,
}
use netcode_go.Server.Refine.Stop.{stop-empty}
use netcode_go.Server.Calls.{
  Call, starts, updates, connects_loopback, sends, disconnects_loopback, after_call, after_calls,
  reached-IsValid, reached_bound,
}
use netcode_go.Server.Calls.Does.{after_call-Does}
use netcode_go.Server.Calls.Promises.{Does}
use netcode_go.Tests.Toy.{toy_env, key, localhost}

abbrev config : ServerConfig
config = record { protocol_id = 17; private_key = key; max_connect_token_lifetime = 60 }

abbrev calls : List Call
calls =
    starts 4 key 1000
    ∷ connects_loopback 1 77 []
    ∷ sends 1 (1 ∷ 2 ∷ [])
    ∷ updates 5 ((localhost 3000, replicate 100 3) ∷ []) 1000
    ∷ []

abbrev hosting : Server
hosting = after_calls toy_env (new_server config (localhost 4000) no_address 0) calls

reached-IsValid_example : IsValid (roster hosting)
reached-IsValid_example = reached-IsValid toy_env config (localhost 4000) no_address 0 calls

reached_bound_example :
    (hosting.num_connected_clients ≤ hosting.max_clients)
    × (hosting.max_clients ≤ max_clients_limit)
reached_bound_example = reached_bound toy_env config (localhost 4000) no_address 0 calls

after_call-Does_example :
    Does toy_env hosting
      (disconnects_loopback 1)
      (roster (after_call toy_env hosting (disconnects_loopback 1)))
after_call-Does_example =
    after_call-Does toy_env hosting (disconnects_loopback 1)
      (reached-IsValid toy_env config (localhost 4000) no_address 0 calls)

stop-empty_example :
    ((stop toy_env hosting).running ≡ false)
    × ((stop toy_env hosting).max_clients ≡ 0)
    × ((stop toy_env hosting).num_connected_clients ≡ 0)
    × (seat (roster (stop toy_env hosting)) 1 ≡ free_seat)
stop-empty_example =
    stop-empty toy_env hosting 1
      (reached-IsValid toy_env config (localhost 4000) no_address 0 calls)

abbrev token : ConnectTokenPrivate
token = record {
  client_id = 9;
  timeout_seconds = 5;
  num_server_addresses = 1;
  server_addresses = localhost 4000 ∷ [];
  client_to_server_key = key;
  server_to_client_key = replicate 32 8;
  user_data = replicate 256 1;
}

abbrev connect_request : ConnectionRequest
connect_request = record {
  version_info = [];
  protocol_id = 17;
  connect_token_expire_timestamp = 2000;
  connect_token_nonce = replicate 24 0;
  connect_token_data = elim (write_connect_token_private token (replicate 1024 0)) [
    | ok bytes ↦ bytes
    | err ↦ []
    | panics ↦ []
  ];
}

process_connection_request_packet-roster_example :
    roster (process_connection_request_packet toy_env hosting (localhost 3000) connect_request 1000)
    ≡ roster hosting
process_connection_request_packet-roster_example =
    process_connection_request_packet-roster toy_env hosting (localhost 3000) connect_request 1000

abbrev small : Server
small = after_calls toy_env (new_server config (localhost 4000) no_address 0) (starts 1 key 0 ∷ [])

small_has_room : small.num_connected_clients ≢ small.max_clients
unfolding after_calls after_call start boot for_slots clear_queue clear_reason new_server
small_has_room = omega arith

find_free_client_index_room_example :
    (i : ℕ) × (find_free_client_index small ≡ some i) × (i < small.max_clients)
find_free_client_index_room_example =
    find_free_client_index_room small
      (reached-IsValid toy_env config (localhost 4000) no_address 0 (starts 1 key 0 ∷ []))
      small_has_room

-- A server with a client in slot 1 that has been silent for 10 seconds, with a timeout of 5.
abbrev waiting : Server
waiting = record small {
  running = true;
  max_clients = 4;
  time = 10;
  clients = set (replicate 256 new_slot) 1 (record new_slot {
    connected = true;
    timeout = 5;
    encryption_index = some 0;
    client_id = 9;
    address = localhost 3000;
  });
}

check_for_timeouts-client_example :
    ((overdue toy_env waiting 1 ≡ true)
      × ((client (check_for_timeouts toy_env waiting) 1).connected ≡ false))
    ⊎ ((overdue toy_env waiting 1 ≡ false)
        × (client (check_for_timeouts toy_env waiting) 1 ≡ client waiting 1))
check_for_timeouts-client_example = check_for_timeouts-client toy_env waiting 1 refl (omega arith)
