-- ===== src/Simulator/Waiting.antt =====
-- simulator.go: the packets that wait for a receiver, and what `ReceivePackets` takes of them.
use netcode_go.Prelude.{
  ℕ, zero, suc, ◌≤◌, none, some, Option-cases, Bool-cases, List, [], ◌∷◌, Bytes, length, take, drop,
  ◌≡◌, refl, arith, inl, inr, if◌then◌else◌,
}
use netcode_go.Address.{Address, equal}
use netcode_go.Simulator.{SimulatorPacketEntry, NetworkSimulator}
use netcode_go.Simulator.Deliver.{take_pending, receive_packets}

-- The packets of some entries that are addressed to `to`, with their sources.
abbrev pub addressed : Address → List SimulatorPacketEntry → List (Address × Bytes)
addressed to [] = []
addressed to (e ∷ es) =
    let rest = addressed to es in
    elim (e.packet_data) [
      | none ↦ rest
      | some bytes ↦ if equal e.to_address to then (e.from_address, bytes) ∷ rest else rest
    ]

-- The packets that wait for a receiver, in order.
abbrev pub waiting : NetworkSimulator → Address → List (Address × Bytes)
waiting s to = addressed to (take s.num_pending_receive_packets s.pending_receive_packets)

take_pending_first :
    (n room : ℕ) (to : Address) (es : List SimulatorPacketEntry)
    → n ≤ length es
    → (take_pending n room to es).1 ≡ take room (addressed to (take n es))
unfolding take_pending
take_pending_first n zero to es h = refl
take_pending_first zero (suc room) to es h = refl
take_pending_first (suc n) (suc room) to [] h = refl
take_pending_first (suc n) (suc room) to (e ∷ es) h =
    let skipped = take_pending_first n (suc room) to es (omega arith) in
    let taken = take_pending_first n room to es (omega arith) in
    elim (Option-cases (e.packet_data)) [
      | inl p ↦ ground (arith, p, skipped)
      | inr (bytes, p) ↦ elim (Bool-cases (equal e.to_address to)) [
        | inl q ↦ ground (arith, p, q, taken)
        | inr q ↦ ground (arith, p, q, skipped)
      ]
    ]

take_pending_rest :
    (n room : ℕ) (to : Address) (es : List SimulatorPacketEntry)
    → n ≤ length es
    → addressed to (take n ((take_pending n room to es).0)) ≡ drop room (addressed to (take n es))
unfolding take_pending
take_pending_rest n zero to es h = refl
take_pending_rest zero (suc room) to es h = refl
take_pending_rest (suc n) (suc room) to [] h = refl
take_pending_rest (suc n) (suc room) to (e ∷ es) h =
    let skipped = take_pending_rest n (suc room) to es (omega arith) in
    let taken = take_pending_rest n room to es (omega arith) in
    elim (Option-cases (e.packet_data)) [
      | inl p ↦ ground (arith, p, skipped)
      | inr (bytes, p) ↦ elim (Bool-cases (equal e.to_address to)) [
        | inl q ↦ ground (arith, p, q, taken)
        | inr q ↦ ground (arith, p, q, skipped)
      ]
    ]

-- With the pending packets in the buffer, `ReceivePackets` returns the first packets, at most as
-- many as asked for, that wait for the receiver, and the rest goes on waiting in the same order.
pub receive_packets-waiting :
    (s : NetworkSimulator) (to : Address) (max_packets : ℕ)
    → s.num_pending_receive_packets ≤ length s.pending_receive_packets
    → ((receive_packets s to max_packets).1 ≡ take max_packets (waiting s to))
      × (waiting ((receive_packets s to max_packets).0) to ≡ drop max_packets (waiting s to))
unfolding receive_packets
receive_packets-waiting s to max_packets h = (
  take_pending_first s.num_pending_receive_packets max_packets to s.pending_receive_packets h,
  take_pending_rest s.num_pending_receive_packets max_packets to s.pending_receive_packets h,
)
