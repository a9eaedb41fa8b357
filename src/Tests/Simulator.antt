-- ===== src/Tests/Simulator.antt =====
-- The theorems on the network simulator, at concrete inputs.
use netcode_go.Prelude.{
  refl, leb, ltb, ◌+◌, ◌/◌, ℕ, [], ◌∷◌, some, length-replicate, take, drop, length, arith, ◌≡◌, ◌≤◌,
}
use netcode_go.Address.{equal, array_eq}
use netcode_go.Simulator.{
  NetworkSimulator, SimulatorPacketEntry, Float32Ops, queue_packet, new_network_simulator, no_entry,
  simulator_num_pending_receive_packets,
}
use netcode_go.Simulator.Deliver.{receive_packets, update}
use netcode_go.Simulator.Waiting.{addressed, waiting, receive_packets-waiting}
use netcode_go.Simulator.Ready.{ready, update-waiting}
use netcode_go.Simulator.Delivery.{queue_packet-waiting}
use mathlib.Core.List.{Memᴰ}
use netcode_go.Tests.Toy.{nat_floats, localhost}

abbrev underway : ℕ → ℕ → SimulatorPacketEntry
underway to time = record {
  from_address = localhost 1;
  to_address = localhost to;
  delivery_time = time;
  packet_data = some (to ∷ time ∷ []);
}

-- Three packets under way, two of them due at time 10.
abbrev busy : NetworkSimulator
busy = record new_network_simulator {
  packet_entries = underway 2 5 ∷ underway 2 20 ∷ underway 3 10 ∷ [];
}

update-waiting_example :
    (waiting (update nat_floats busy 10) (localhost 2)
      ≡ addressed
          (localhost 2)
          (take simulator_num_pending_receive_packets (ready nat_floats 10 busy.packet_entries)))
    × (length (update nat_floats busy 10).pending_receive_packets
        ≡ simulator_num_pending_receive_packets)
    × ((update nat_floats busy 10).num_pending_receive_packets
        ≤ simulator_num_pending_receive_packets)
unfolding new_network_simulator
update-waiting_example =
    update-waiting nat_floats 10 busy (localhost 2)
      (length-replicate simulator_num_pending_receive_packets no_entry)

-- Two packets that wait.
abbrev arrived : NetworkSimulator
arrived = record new_network_simulator {
  pending_receive_packets = underway 2 5 ∷ underway 2 6 ∷ [];
  num_pending_receive_packets = 2;
}

receive_packets-waiting_example :
    ((receive_packets arrived (localhost 2) 1).1 ≡ take 1 (waiting arrived (localhost 2)))
    × (waiting ((receive_packets arrived (localhost 2) 1).0) (localhost 2)
        ≡ drop 1 (waiting arrived (localhost 2)))
receive_packets-waiting_example = receive_packets-waiting arrived (localhost 2) 1 (omega arith)

-- Whole numbers in place of the float32 unit.
abbrev whole_numbers : Float32Ops
whole_numbers = record {
  zero32 = 0;
  one32 = 1;
  hundred32 = 100;
  neg = λ a. a;
  le32 = leb;
  lt32 = ltb;
  add32 = λ a b. a + b;
  per_thousand = λ a. a / 1000;
  lerp24 = λ n a b. a;
  widen = λ a. a;
}

queue_packet-waiting_example :
    Memᴰ
      (localhost 1, 7 ∷ 8 ∷ [])
      (waiting
        (update nat_floats
          (queue_packet nat_floats whole_numbers busy (localhost 1) (localhost 2) (7 ∷ 8 ∷ []) 3)
          4)
        (localhost 2))
unfolding new_network_simulator equal array_eq queue_packet
queue_packet-waiting_example =
    queue_packet-waiting nat_floats whole_numbers busy (localhost 1) (localhost 2) (localhost 2) 7
      (8 ∷ []) 3 4 (omega arith) (length-replicate simulator_num_pending_receive_packets no_entry)
      refl refl (omega arith)
