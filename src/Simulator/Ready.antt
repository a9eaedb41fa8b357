-- ===== src/Simulator/Ready.antt =====
-- simulator.go: the packets that `Update` makes ready for their receivers.
use netcode_go.Prelude.{
  Bytes, subst, ℕ, zero, suc, ◌+◌, ◌-◌, ◌≤◌, ◌<◌, true, false, none, some, Option-cases, Bool-cases,
  List, [], ◌∷◌, ◌++◌, length, take, set, ◌≡◌, refl, sym, ap, ◌∙◌, arith, inl, inr, append-nil,
  append_assoc, length-set, if◌then◌else◌, ◌==◌,
}
use netcode_go.Float.{Float64, FloatOps}
use netcode_go.Address.{Address}
use netcode_go.Simulator.{
  SimulatorPacketEntry, NetworkSimulator, simulator_num_pending_receive_packets, change_first,
}
use netcode_go.Simulator.Deliver.{emptied, move_ready, update}
use netcode_go.Simulator.Waiting.{addressed, waiting}

length-change_first :
    (n : ℕ) (f : SimulatorPacketEntry → SimulatorPacketEntry) (es : List SimulatorPacketEntry)
    → length (change_first n f es) ≡ length es
unfolding change_first
length-change_first zero f es = refl
length-change_first (suc n) f [] = refl
length-change_first (suc n) f (e ∷ es) = ap suc (length-change_first n f es)

take-set :
    {A : Type 0} (xs : List A) (i : ℕ) (x : A)
    → i < length xs
    → take (suc i) (set xs i x) ≡ take i xs ++ (x ∷ [])
take-set [] i x h = absurd (omega arith)
take-set (y ∷ xs) zero x h = refl
take-set (y ∷ xs) (suc i) x h = ap (λ r. y ∷ r) (take-set xs i x (omega arith))

take_nothing : {A : Type 0} (n : ℕ) → take {A = A} n [] ≡ []
take_nothing zero = refl
take_nothing (suc n) = refl

module _ (fl : FloatOps) (time : Float64) where
  -- The entries with a packet whose delivery time has come, in order.
  abbrev pub ready : List SimulatorPacketEntry → List SimulatorPacketEntry
  ready [] = []
  ready (e ∷ es) =
      let rest = ready es in
      elim (e.packet_data) [
        | none ↦ rest
        | some bytes ↦ if fl.le e.delivery_time time then e ∷ rest else rest
      ]

  pub ready-none :
      (e : SimulatorPacketEntry) (es : List SimulatorPacketEntry)
      → e.packet_data ≡ none
      → ready (e ∷ es) ≡ ready es
  ready-none e es p = ground (arith, p)

  pub ready_late :
      (e : SimulatorPacketEntry) (es : List SimulatorPacketEntry) (bytes : Bytes)
      → e.packet_data ≡ some bytes
      → fl.le e.delivery_time time ≡ false
      → ready (e ∷ es) ≡ ready es
  ready_late e es bytes p r = ground (arith, p, r)

  pub ready_now :
      (e : SimulatorPacketEntry) (es : List SimulatorPacketEntry) (bytes : Bytes)
      → e.packet_data ≡ some bytes
      → fl.le e.delivery_time time ≡ true
      → ready (e ∷ es) ≡ e ∷ ready es
  ready_now e es bytes p r = ground (arith, p, r)

  -- What is in front of the pending buffer, and that it is in bounds.
  record Filled (out : List SimulatorPacketEntry × List SimulatorPacketEntry × ℕ)
      (front : List SimulatorPacketEntry) : Type 0 where
    filled : take (out.2) (out.1) ≡ front
    size : length (out.1) ≡ simulator_num_pending_receive_packets
    bound : out.2 ≤ simulator_num_pending_receive_packets

  -- The entry stays where it is.
  abbrev kept :
      SimulatorPacketEntry
      → List SimulatorPacketEntry × List SimulatorPacketEntry × ℕ
      → List SimulatorPacketEntry × List SimulatorPacketEntry × ℕ
  kept e out = (e ∷ out.0, out.1, out.2)

  module _ (e : SimulatorPacketEntry) (es pending : List SimulatorPacketEntry) (count : ℕ) where
    move_ready-none :
        e.packet_data ≡ none
        → move_ready fl time (e ∷ es) pending count ≡ kept e (move_ready fl time es pending count)
    unfolding move_ready
    move_ready-none p = ground (arith, p)

    module _ (bytes : Bytes) (p : e.packet_data ≡ some bytes) where
      move_ready_full :
          (count == simulator_num_pending_receive_packets) ≡ true
          → move_ready fl time (e ∷ es) pending count ≡ (e ∷ es, pending, count)
      unfolding move_ready
      move_ready_full q = ground (arith, p, q)

      move_ready_late :
          (count == simulator_num_pending_receive_packets) ≡ false
          → fl.le e.delivery_time time ≡ false
          → move_ready fl time (e ∷ es) pending count ≡ kept e (move_ready fl time es pending count)
      unfolding move_ready
      move_ready_late q r = ground (arith, p, q, r)

      move_ready_now :
          (count == simulator_num_pending_receive_packets) ≡ false
          → fl.le e.delivery_time time ≡ true
          → move_ready fl time (e ∷ es) pending count
            ≡ kept (emptied e) (move_ready fl time es (set pending count e) (count + 1))
      unfolding move_ready
      move_ready_now q r = ground (arith, p, q, r)

  Filled-kept :
      (e : SimulatorPacketEntry) (out : List SimulatorPacketEntry × List SimulatorPacketEntry × ℕ)
      (front : List SimulatorPacketEntry)
      → Filled out front
      → Filled (kept e out) front
  Filled-kept e out front f = record { filled = f.filled; size = f.size; bound = f.bound }

  -- The front of the buffer, and as many of the ready entries as there is room for.
  abbrev filling :
      List SimulatorPacketEntry → ℕ → List SimulatorPacketEntry → List SimulatorPacketEntry
  filling pending count es =
      take count pending ++ take (simulator_num_pending_receive_packets - count) es

  filling_full :
      (pending es : List SimulatorPacketEntry) (count : ℕ)
      → count ≡ simulator_num_pending_receive_packets
      → filling pending count es ≡ take count pending
  filling_full pending es count h =
      let e : simulator_num_pending_receive_packets - count ≡ 0 = omega (arith, h) in
      ap (λ n. take count pending ++ take n es) e ∙ append-nil (take count pending)

  filling_one :
      (pending es : List SimulatorPacketEntry) (count : ℕ) (e : SimulatorPacketEntry)
      → length pending ≡ simulator_num_pending_receive_packets
      → count < simulator_num_pending_receive_packets
      → filling (set pending count e) (count + 1) es ≡ filling pending count (e ∷ es)
  filling_one pending es count e size h =
      let n : simulator_num_pending_receive_packets - count
          ≡ suc (simulator_num_pending_receive_packets - (count + 1)) =
        omega (arith, h) in
      let one : count + 1 ≡ suc count = omega arith in
      let left = simulator_num_pending_receive_packets - (count + 1) in
      ap (λ k. take k (set pending count e) ++ take left es) one
      ∙ ap (λ r. r ++ take left es) (take-set pending count e (omega (arith, size, h)))
      ∙ append_assoc (take count pending) (e ∷ []) (take left es)
      ∙ ap (λ k. take count pending ++ take k (e ∷ es)) (sym n)

  move_ready_lem :
      (es pending : List SimulatorPacketEntry) (count : ℕ)
      → length pending ≡ simulator_num_pending_receive_packets
      → count ≤ simulator_num_pending_receive_packets
      → Filled (move_ready fl time es pending count) (filling pending count (ready es))
  unfolding move_ready
  move_ready_lem [] pending count size h = record {
    filled =
        sym (append-nil (take count pending))
        ∙ ap (λ r. take count pending ++ r)
            (sym (take_nothing (simulator_num_pending_receive_packets - count)));
    size = size;
    bound = h;
  }
  move_ready_lem (e ∷ es) pending count size h =
      let still = move_ready_lem es pending count size h in
      elim (Option-cases (e.packet_data)) [
        | inl p ↦
            rw (move_ready-none e es pending count p, ready-none e es p) (Filled-kept e _ _ still)
        | inr (bytes, p) ↦ elim (Bool-cases (count == simulator_num_pending_receive_packets)) [
          | inl q ↦ rw (move_ready_full e es pending count bytes p q) (record {
            filled = sym (filling_full pending (ready (e ∷ es)) count (ground arith));
            size = size;
            bound = h;
          })
          | inr q ↦ elim (Bool-cases (fl.le e.delivery_time time)) [
            | inr r ↦
                rw (move_ready_late e es pending count bytes p q r, ready_late e es bytes p r)
                  (Filled-kept e _ _ still)
            | inl r ↦
                let below : count < simulator_num_pending_receive_packets = ground (arith, q, h) in
                rw (move_ready_now e es pending count bytes p q r, ready_now e es bytes p r)
                  (Filled-kept (emptied e) _ _ (
                    subst (λ f. Filled (move_ready fl time es (set pending count e) (count + 1)) f)
                      (filling_one pending (ready es) count e size below)
                      (move_ready_lem es (set pending count e) (count + 1)
                        (length-set pending count e ∙ size) (omega (arith, below)))))
          ]
        ]
      ]

  -- With its pending buffer of 16384 entries, the simulator after `Update` has waiting, for every
  -- receiver and in the order of the entries, the packets of the first 16384 entries whose delivery
  -- time has come, and none that waited before; and the buffer keeps its size, the entries in use
  -- within it.
  pub update-waiting :
      (s : NetworkSimulator) (to : Address)
      → length s.pending_receive_packets ≡ simulator_num_pending_receive_packets
      → (waiting (update fl s time) to
          ≡ addressed to (take simulator_num_pending_receive_packets (ready s.packet_entries)))
        × (length (update fl s time).pending_receive_packets
            ≡ simulator_num_pending_receive_packets)
        × ((update fl s time).num_pending_receive_packets ≤ simulator_num_pending_receive_packets)
  unfolding update
  update-waiting s to size =
      let moved =
        move_ready_lem s.packet_entries
          (change_first s.num_pending_receive_packets emptied s.pending_receive_packets) 0
          (length-change_first s.num_pending_receive_packets emptied s.pending_receive_packets
            ∙ size)
          (omega arith) in
      (ap (addressed to) moved.filled, moved.size, moved.bound)
