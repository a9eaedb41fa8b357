-- ===== src/Server/Calls.antt =====
-- server.go as a whole: a server from its creation through any sequence of calls.
pub mod Promises
pub mod Does
use netcode_go.Prelude.{
  ℕ, ◌≤◌, List, [], ◌∷◌, Bytes, ◌≡◌, refl, sym, ap, ◌∙◌, arith, replicate, length-replicate,
  get_or-replicate,
}
use netcode_go.Float.{Float64}
use netcode_go.Address.{Address}
use netcode_go.Server.{Server, ServerConfig, Env, new_server, new_slot, max_clients_limit}
use netcode_go.Server.Process.{read_and_process_packet, update}
use netcode_go.Server.Api.{
  start, stop, disconnect_client, disconnect_all_clients, connect_loopback_client,
  disconnect_loopback_client, process_loopback_packet, send_packet, receive_packet,
}
use netcode_go.Server.Refine.Process.{Runs, Runs-same, update-Runs, read_and_process_packet-Runs}
use netcode_go.Server.Refine.Stop.{
  start-Runs, stop-Runs, disconnect_all_clients-Runs, disconnect_loopback_client-Runs,
}
use netcode_go.Server.Refine.Api.{
  connect_loopback_client-Runs, process_loopback_packet-roster, receive_packet-roster,
  disconnect_client-Runs, send_packet-roster,
}
use netcode_go.Server.Roster.{
  roster, seat, seat_of, seats_of, length-seats_of, get_or-seats_of, free_seat, Steps,
}
use netcode_go.Server.Valid.{IsValid, Steps-IsValid, count_none, count_bound}

-- The public operations that change a server, with what they read from outside: the clock, random
-- bytes, and the packets that arrived.
pub data Call : Type 0 where
  starts : ℕ → Bytes → ℕ → Call
  stops : Call
  updates : Float64 → List (Address × Bytes) → ℕ → Call
  processes : Address → Bytes → ℕ → Call
  disconnects : ℕ → Call
  disconnects_all : Call
  sends : ℕ → Bytes → Call
  receives : ℕ → Call
  connects_loopback : ℕ → ℕ → Bytes → Call
  disconnects_loopback : ℕ → Call
  processes_loopback : ℕ → Bytes → ℕ → Call

module _ (env : Env) where
  unfoldable pub after_call : Server → Call → Server
  after_call s (starts n key now) = start env s n key now
  after_call s stops = stop env s
  after_call s (updates time packets now) = update env s time packets now
  after_call s (processes from bytes now) = read_and_process_packet env s from bytes now
  after_call s (disconnects i) = disconnect_client env s i
  after_call s disconnects_all = disconnect_all_clients env s
  after_call s (sends i bytes) = send_packet env s i bytes
  after_call s (receives i) = (receive_packet s i).0
  after_call s (connects_loopback i id user_data) = connect_loopback_client s i id user_data
  after_call s (disconnects_loopback i) = disconnect_loopback_client s i
  after_call s (processes_loopback i bytes sequence) = process_loopback_packet s i bytes sequence

  unfoldable pub after_calls : Server → List Call → Server
  after_calls s [] = s
  after_calls s (c ∷ cs) = after_calls (after_call s c) cs

  after_call-Runs : (s : Server) (c : Call) → Runs s (after_call s c)
  unfolding after_call
  after_call-Runs s (starts n key now) = start-Runs env s n key now
  after_call-Runs s stops = stop-Runs env s
  after_call-Runs s (updates time packets now) = update-Runs env s time packets now
  after_call-Runs s (processes from bytes now) = read_and_process_packet-Runs env s from bytes now
  after_call-Runs s (disconnects i) = disconnect_client-Runs env s i
  after_call-Runs s disconnects_all = disconnect_all_clients-Runs env s
  after_call-Runs s (sends i bytes) = Runs-same (send_packet-roster env s i bytes)
  after_call-Runs s (receives i) = Runs-same (receive_packet-roster s i)
  after_call-Runs s (connects_loopback i id user_data) =
      connect_loopback_client-Runs s i id user_data
  after_call-Runs s (disconnects_loopback i) = disconnect_loopback_client-Runs s i
  after_call-Runs s (processes_loopback i bytes sequence) =
      Runs-same (process_loopback_packet-roster s i bytes sequence)

  -- Every public operation takes a valid server along steps of the roster.
  after_call-Steps :
      (s : Server) (c : Call) → IsValid (roster s) → Steps (roster s) (roster (after_call s c))
  after_call-Steps s c v = (after_call-Runs s c).steps v

  after_calls-IsValid :
      (s : Server) (cs : List Call) → IsValid (roster s) → IsValid (roster (after_calls s cs))
  unfolding after_calls
  after_calls-IsValid s [] v = v
  after_calls-IsValid s (c ∷ cs) v =
      after_calls-IsValid (after_call s c) cs (Steps-IsValid (after_call-Steps s c v) v)

new_server-IsValid :
    (config : ServerConfig) (address address2 : Address) (time : Float64)
    → IsValid (roster (new_server config address address2 time))
unfolding new_server new_slot
new_server-IsValid config address address2 time = record {
  size = length-seats_of (replicate 256 new_slot) ∙ length-replicate 256 new_slot;
  bounded = omega arith;
  counted = sym (count_none (seats_of (replicate 256 new_slot)) (λ j. ap (λ x. x.taken) (free j)));
  behind = λ j p. ap (λ x. x.taken) (free j);
  cleared = λ j t. free j;
  keyed = λ j. ground (arith, free j);
  addresses = λ i j. ground (arith, free i);
  ids = λ i j. ground (arith, free i);
  closed = λ c. refl;
}
  where
    free : (j : ℕ) → seat (roster (new_server config address address2 time)) j ≡ free_seat
    free j =
        get_or-seats_of (replicate 256 new_slot) j new_slot
        ∙ ap seat_of (get_or-replicate 256 new_slot j)

-- A server from its creation, through any calls, with any packets from the network, has a valid
-- roster: it counts its clients right, no slot at or behind its maximum has one, a slot without a
-- client is clear, a network client has an encryption mapping's index, and no two clients have
-- equal addresses, nor two network clients the same id.
pub reached-IsValid :
    (env : Env) (config : ServerConfig) (address address2 : Address) (time : Float64)
    (cs : List Call)
    → IsValid (roster (after_calls env (new_server config address address2 time) cs))
reached-IsValid env config address address2 time cs =
    after_calls-IsValid env (new_server config address address2 time) cs
      (new_server-IsValid config address address2 time)

-- A server from its creation, through any calls, has at most as many clients as it has slots, and
-- at most 256 slots.
pub reached_bound :
    (env : Env) (config : ServerConfig) (address address2 : Address) (time : Float64)
    (cs : List Call)
    → ((after_calls env (new_server config address address2 time) cs).num_connected_clients
        ≤ (after_calls env (new_server config address address2 time) cs).max_clients)
      × ((after_calls env (new_server config address address2 time) cs).max_clients
          ≤ max_clients_limit)
reached_bound env config address address2 time cs =
    let v = reached-IsValid env config address address2 time cs in
    (omega (arith, v.counted, count_bound _ _ v.behind), v.bounded)
