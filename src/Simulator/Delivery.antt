-- ===== src/Simulator/Delivery.antt =====
-- simulator.go: a packet from its sender through the simulator to its receiver.
use netcode_go.Prelude.{
  ℕ, zero, suc, ◌≤◌, ◌<◌, true, some, Option-cases, Bool-cases, List, [], ◌∷◌, Bytes, length,
  take_whole, set, ◌≡◌, refl, sym, subst, ap, ◌∙◌, arith, inl, inr,
}
use mathlib.Core.List.{Memᴰ}
use mathlib.Core.List.Memᴰ
use netcode_go.Float.{Float64, FloatOps}
use netcode_go.Address.{Address, equal}
use netcode_go.Simulator.{
  SimulatorPacketEntry, NetworkSimulator, Float32, Float32Ops, queue_packet,
  simulator_num_pending_receive_packets,
}
use netcode_go.Simulator.Deliver.{update}
use netcode_go.Simulator.Waiting.{addressed, waiting}
use netcode_go.Simulator.Ready.{ready, ready-none, ready_late, ready_now, update-waiting}

Memᴰ-set : {A : Type 0} (xs : List A) (i : ℕ) (x : A) → i < length xs → Memᴰ x (set xs i x)
Memᴰ-set [] i x h = absurd (omega arith)
Memᴰ-set (y ∷ xs) zero x h = Memᴰ.head refl
Memᴰ-set (y ∷ xs) (suc i) x h = Memᴰ.tail (Memᴰ-set xs i x (omega arith))

module _ (e : SimulatorPacketEntry) (bytes : Bytes) (p : e.packet_data ≡ some bytes) where
  Memᴰ-addressed :
      (to : Address) (es : List SimulatorPacketEntry)
      → equal e.to_address to ≡ true
      → Memᴰ e es
      → Memᴰ (e.from_address, bytes) (addressed to es)
  Memᴰ-addressed to [] q m = absurd (Memᴰ.not-nil m)
  Memᴰ-addressed to (x ∷ es) q (Memᴰ.head d) =
      subst (λ y. Memᴰ (e.from_address, bytes) (addressed to (y ∷ es))) d
        (subst (λ l. Memᴰ (e.from_address, bytes) l) (sym found) (Memᴰ.head refl))
    where
      found : addressed to (e ∷ es) ≡ (e.from_address, bytes) ∷ addressed to es
      found = ground (arith, p, q)
  Memᴰ-addressed to (x ∷ es) q (Memᴰ.tail m) =
      let rest = Memᴰ-addressed to es q m in
      elim (Option-cases (x.packet_data)) [
        | inl n ↦ subst (λ l. Memᴰ (e.from_address, bytes) l) (ground (arith, n)) rest
        | inr (b, n) ↦ elim (Bool-cases (equal x.to_address to)) [
          | inl k ↦
              subst (λ l. Memᴰ (e.from_address, bytes) l) (other x es b to n k) (Memᴰ.tail rest)
          | inr k ↦ subst (λ l. Memᴰ (e.from_address, bytes) l) (ground (arith, n, k)) rest
        ]
      ]
    where
      other :
          (x : SimulatorPacketEntry) (es : List SimulatorPacketEntry) (b : Bytes) (to : Address)
          → x.packet_data ≡ some b
          → equal x.to_address to ≡ true
          → (x.from_address, b) ∷ addressed to es ≡ addressed to (x ∷ es)
      other x es b to n k = ground (arith, n, k)

  module _ (fl : FloatOps) (time : Float64) (due : fl.le e.delivery_time time ≡ true) where
    Memᴰ-ready : (es : List SimulatorPacketEntry) → Memᴰ e es → Memᴰ e (ready fl time es)
    Memᴰ-ready [] m = absurd (Memᴰ.not-nil m)
    Memᴰ-ready (x ∷ es) (Memᴰ.head d) =
        subst (λ y. Memᴰ e (ready fl time (y ∷ es))) d
          (subst (λ l. Memᴰ e l) (sym (ready_now fl time e es bytes p due)) (Memᴰ.head refl))
    Memᴰ-ready (x ∷ es) (Memᴰ.tail m) =
        let rest = Memᴰ-ready es m in
        elim (Option-cases (x.packet_data)) [
          | inl n ↦ subst (λ l. Memᴰ e l) (sym (ready-none fl time x es n)) rest
          | inr (b, n) ↦ elim (Bool-cases (fl.le x.delivery_time time)) [
            | inl k ↦ subst (λ l. Memᴰ e l) (sym (ready_now fl time x es b n k)) (Memᴰ.tail rest)
            | inr k ↦ subst (λ l. Memᴰ e l) (sym (ready_late fl time x es b n k)) rest
          ]
        ]

-- A packet of one or more bytes that is queued, with the ring of entries and its index in order,
-- waits for its receiver after an `Update` at or after its delivery time, if no more than 16384
-- packets are due by then.
pub queue_packet-waiting :
    (fl : FloatOps) (f32 : Float32Ops) (s : NetworkSimulator) (from to receiver : Address) (b : ℕ)
    (bytes : Bytes) (delay : Float32) (time : Float64)
    → s.current_index < length s.packet_entries
    → length s.pending_receive_packets ≡ simulator_num_pending_receive_packets
    → equal to receiver ≡ true
    → fl.le (fl.add s.time (f32.widen delay)) time ≡ true
    → length (ready fl time (queue_packet fl f32 s from to (b ∷ bytes) delay).packet_entries)
      ≤ simulator_num_pending_receive_packets
    → Memᴰ
        (from, b ∷ bytes)
        (waiting (update fl (queue_packet fl f32 s from to (b ∷ bytes) delay) time) receiver)
unfolding queue_packet
queue_packet-waiting fl f32 s from to receiver b bytes delay time inside size same due few =
    let e : SimulatorPacketEntry = record {
      from_address = from;
      to_address = to;
      delivery_time = fl.add s.time (f32.widen delay);
      packet_data = some (b ∷ bytes);
    } in
    let entries = set s.packet_entries s.current_index e in
    let m =
      Memᴰ-ready e (b ∷ bytes) refl fl time due entries
        (Memᴰ-set s.packet_entries s.current_index e inside) in
    let whole = take_whole (ready fl time entries) simulator_num_pending_receive_packets few in
    let (arrived, kept_size, bounded) =
      update-waiting fl time (queue_packet fl f32 s from to (b ∷ bytes) delay) receiver size in
    subst (λ l. Memᴰ (from, b ∷ bytes) l) (sym (arrived ∙ ap (addressed receiver) whole))
      (Memᴰ-addressed e (b ∷ bytes) refl receiver (ready fl time entries) same m)
