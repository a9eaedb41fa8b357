-- ===== src/Simulator/Deliver.antt =====
-- simulator.go: delivery, from the entries to the pending buffer and from there to the receivers.
use netcode_go.Prelude.{
  ℕ, zero, suc, ◌+◌, not, none, some, List, [], ◌∷◌, Bytes, set, ◌==◌, if◌then◌else◌,
}
use netcode_go.Float.{Float64, FloatOps}
use netcode_go.Address.{Address, equal}
use netcode_go.Simulator.{
  SimulatorPacketEntry, NetworkSimulator, simulator_num_pending_receive_packets, change_first,
}

abbrev pub emptied : SimulatorPacketEntry → SimulatorPacketEntry
emptied e = record e { packet_data = none }

-- The loop of `ReceivePackets` over the pending entries that are left, `n` of them in use, with room
-- for `room` more packets: the entries afterwards, and the packets with their sources.
unfoldable pub take_pending :
    ℕ → ℕ → Address → List SimulatorPacketEntry → List SimulatorPacketEntry × List (Address × Bytes)
take_pending n zero to es = (es, [])
take_pending zero (suc room) to es = (es, [])
take_pending (suc n) (suc room) to [] = ([], [])
take_pending (suc n) (suc room) to (e ∷ es) =
    let skipped = take_pending n (suc room) to es in
    let taken = take_pending n room to es in
    elim (e.packet_data) [
      | none ↦ (e ∷ skipped.0, skipped.1)
      | some bytes ↦
          if not (equal e.to_address to)
          then (e ∷ skipped.0, skipped.1)
          else (emptied e ∷ taken.0, (e.from_address, bytes) ∷ taken.1)
    ]

-- `ReceivePackets`
unfoldable pub receive_packets :
    NetworkSimulator → Address → ℕ → NetworkSimulator × List (Address × Bytes)
receive_packets s to max_packets =
    let (pending, packets) =
      take_pending s.num_pending_receive_packets max_packets to s.pending_receive_packets in
    (record s { pending_receive_packets = pending }, packets)

module _ (fl : FloatOps) where
  -- The loop of `Update` over the entries: the entries, the pending buffer and its count.
  unfoldable pub move_ready :
      Float64
      → List SimulatorPacketEntry
      → List SimulatorPacketEntry
      → ℕ
      → List SimulatorPacketEntry × List SimulatorPacketEntry × ℕ
  move_ready time [] pending count = ([], pending, count)
  move_ready time (e ∷ es) pending count =
      let (es1, pending1, count1) = move_ready time es pending count in
      let (es2, pending2, count2) = move_ready time es (set pending count e) (count + 1) in
      elim (e.packet_data) [
        | none ↦ (e ∷ es1, pending1, count1)
        | some bytes ↦
            if count == simulator_num_pending_receive_packets
            then (e ∷ es, pending, count)
            else if fl.le e.delivery_time time
            then (emptied e ∷ es2, pending2, count2)
            else (e ∷ es1, pending1, count1)
      ]

  -- `Update`
  unfoldable pub update : NetworkSimulator → Float64 → NetworkSimulator
  update s time =
      let (entries, pending, count) =
        move_ready time s.packet_entries
          (change_first s.num_pending_receive_packets emptied s.pending_receive_packets) 0 in
      record s {
        time = time;
        packet_entries = entries;
        pending_receive_packets = pending;
        num_pending_receive_packets = count;
      }
