-- ===== src/Queue/Fifo.antt =====
-- queue.go: the ring against a bounded queue of payloads with their sequence numbers.
use netcode_go.Prelude.{
  ℕ, ◌+◌, ◌-◌, ◌%◌, ◌≤◌, ◌<◌, ◌≡◌, refl, arith, Bool, true, false, Option, none, some, List, [],
  ◌∷◌, ◌++◌, length, get_or, set, length-append, length-set, get_or-set_self, get_or-set_ne,
  length-replicate, ltb, if◌then◌else◌,
}
use netcode_go.Packet.{ConnectionPayload}
use netcode_go.Queue.{PacketQueue, clear, push, pop, packet_queue_size}

abbrev pub Entry : Type 0
Entry = ConnectionPayload × ℕ

-- The entries `xs` stand in the two arrays from index `h` on, going round at 256.
abbrev pub Window : List (Option ConnectionPayload) → List ℕ → ℕ → List Entry → Type 0
Window ps ss h [] = Unit {0}
Window ps ss h ((p, s) ∷ xs) =
    (get_or ps h none ≡ some p) × (get_or ss h 0 ≡ s) × Window ps ss ((h + 1) % 256) xs

pub record Holds (q : PacketQueue) (xs : List Entry) : Type 0 where
  pub size : length q.packets ≡ 256
  pub size_sequences : length q.sequences ≡ 256
  pub start : q.start_index < 256
  pub count : q.num_packets ≡ length xs
  pub bounded : length xs ≤ 256
  pub window : Window q.packets q.sequences q.start_index xs

pub clear-Holds : Holds clear []
unfolding clear
clear-Holds = record {
  size = length-replicate 256 none;
  size_sequences = length-replicate 256 0;
  start = omega arith;
  count = refl;
  bounded = omega arith;
  window = tt;
}

-- A write to the packets `m` places behind the start leaves a window of at most `m` entries alone.
Window-set_packets :
    (ps : List (Option ConnectionPayload)) (ss : List ℕ) (v : Option ConnectionPayload) (h m i : ℕ)
    (xs : List Entry)
    → h < 256
    → length xs ≤ m
    → m < 256
    → i ≡ (h + m) % 256
    → Window ps ss h xs
    → Window (set ps i v) ss h xs
Window-set_packets ps ss v h m i [] a b c d w = tt
Window-set_packets ps ss v h m i ((p, s) ∷ xs) a b c d w = ground (
  arith,
  get_or-set_ne ps i h v none (omega arith),
  Window-set_packets ps ss v ((h + 1) % 256) (m - 1) i xs (omega arith) (omega arith) (omega arith)
      (omega arith) w.2,
)

Window-set_sequences :
    (ps : List (Option ConnectionPayload)) (ss : List ℕ) (v h m i : ℕ) (xs : List Entry)
    → h < 256
    → length xs ≤ m
    → m < 256
    → i ≡ (h + m) % 256
    → Window ps ss h xs
    → Window ps (set ss i v) h xs
Window-set_sequences ps ss v h m i [] a b c d w = tt
Window-set_sequences ps ss v h m i ((p, s) ∷ xs) a b c d w = ground (
  arith,
  get_or-set_ne ss i h v 0 (omega arith),
  Window-set_sequences ps ss v ((h + 1) % 256) (m - 1) i xs (omega arith) (omega arith)
      (omega arith) (omega arith) w.2,
)

Window-snoc :
    (ps : List (Option ConnectionPayload)) (ss : List ℕ) (p : ConnectionPayload) (s h i : ℕ)
    (xs : List Entry)
    → i ≡ (h + length xs) % 256
    → h < 256
    → get_or ps i none ≡ some p
    → get_or ss i 0 ≡ s
    → Window ps ss h xs
    → Window ps ss h (xs ++ ((p, s) ∷ []))
Window-snoc ps ss p s h i [] a b e f w = ground arith
Window-snoc ps ss p s h i ((p', s') ∷ xs) a b e f w =
    (w.0, w.1, Window-snoc ps ss p s ((h + 1) % 256) i xs (omega arith) (omega arith) e f w.2)

-- What the component promises: a first-in first-out queue of at most 256 entries that drops
-- what does not fit.
unfoldable pub spec_push : List Entry → Entry → List Entry × Bool
spec_push xs x = if ltb (length xs) packet_queue_size then (xs ++ (x ∷ []), true) else (xs, false)

unfoldable pub spec_pop : List Entry → List Entry × Option ConnectionPayload × ℕ
spec_pop [] = ([], none, 0)
spec_pop ((p, s) ∷ xs) = (xs, some p, s)

module _ (q : PacketQueue) (xs : List Entry) (v : Holds q xs) where
  -- The window after a write behind its last entry.
  Window-after_push :
      (p : ConnectionPayload) (s i : ℕ)
      → length xs < 256
      → i ≡ (q.start_index + length xs) % 256
      → Window (set q.packets i (some p)) (set q.sequences i s) q.start_index (xs ++ ((p, s) ∷ []))
  Window-after_push p s i room e =
      let lt : i < 256 = omega arith in
      Window-snoc (set q.packets i (some p)) (set q.sequences i s) p s q.start_index i xs e v.start
        (get_or-set_self q.packets i (some p) none (omega (arith, v.size)))
        (get_or-set_self q.sequences i s 0 (omega (arith, v.size_sequences)))
        (Window-set_packets q.packets (set q.sequences i s) (some p) q.start_index (length xs) i xs
          v.start (omega arith) room e
          (Window-set_sequences q.packets q.sequences s q.start_index (length xs) i xs v.start
            (omega arith) room e v.window))

  -- `push` answers as the bounded queue does, and then holds that queue's entries.
  pub push-Holds :
      (p : ConnectionPayload) (s : ℕ)
      → Holds (push q p s).0 (spec_push xs (p, s)).0 × ((push q p s).1 ≡ (spec_push xs (p, s)).1)
  unfolding push spec_push
  push-Holds p s =
      let i : ℕ = (q.start_index + q.num_packets) % 256 in
      ground (
        arith,
        length-append xs ((p, s) ∷ []),
        length-set q.packets i (some p),
        length-set q.sequences i s,
        Window-after_push p s i,
      )

-- The window of the rest, once the first packet has been taken out.
Window-after_pop :
    (q : PacketQueue) (x : Entry) (xs : List Entry)
    → Holds q (x ∷ xs)
    → Window (set q.packets q.start_index none) q.sequences ((q.start_index + 1) % 256) xs
Window-after_pop q (p, s) xs v =
    Window-set_packets q.packets q.sequences none ((q.start_index + 1) % 256) 255 q.start_index xs
      (omega arith) (omega (arith, v.bounded)) (omega arith) (omega (arith, v.start)) v.window.2

-- `pop` answers as the queue does, and then holds the rest of its entries.
pub pop-Holds :
    (q : PacketQueue) (xs : List Entry)
    → Holds q xs
    → Holds (pop q).0 (spec_pop xs).0
      × ((pop q).1 ≡ (spec_pop xs).1)
      × ((pop q).2 ≡ (spec_pop xs).2)
unfolding pop spec_pop
pop-Holds q [] v = ground arith
pop-Holds q (x ∷ xs) v =
    ground (arith, length-set q.packets q.start_index none, Window-after_pop q x xs v)

-- What the application and the receive path do with a queue.
pub data Op : Type 0 where
  pushes : ConnectionPayload → ℕ → Op
  pops : Op

-- What they see: whether a push was taken, or what came out.
pub data Reply : Type 0 where
  pushed : Bool → Reply
  popped : Option ConnectionPayload → ℕ → Reply

unfoldable pub run : PacketQueue → List Op → List Reply
run q [] = []
run q (pushes p s ∷ ops) = let (q', done) = push q p s in pushed done ∷ run q' ops
run q (pops ∷ ops) = let (q', p, s) = pop q in popped p s ∷ run q' ops

unfoldable pub spec_run : List Entry → List Op → List Reply
spec_run xs [] = []
spec_run xs (pushes p s ∷ ops) =
    let (xs', done) = spec_push xs (p, s) in pushed done ∷ spec_run xs' ops
spec_run xs (pops ∷ ops) = let (xs', p, s) = spec_pop xs in popped p s ∷ spec_run xs' ops

run-eq_spec :
    (q : PacketQueue) (xs : List Entry) (ops : List Op) → Holds q xs → run q ops ≡ spec_run xs ops
unfolding run spec_run
run-eq_spec q xs [] v = refl
run-eq_spec q xs (pushes p s ∷ ops) v =
    let (h, e) = push-Holds q xs v p s in
    cc (e, run-eq_spec (push q p s).0 (spec_push xs (p, s)).0 ops h)
run-eq_spec q xs (pops ∷ ops) v =
    let (h, e, f) = pop-Holds q xs v in cc (e, f, run-eq_spec (pop q).0 (spec_pop xs).0 ops h)

-- From a cleared queue, every sequence of pushes and pops gets the answers of a bounded
-- first-in first-out queue of 256 entries that drops what does not fit.
pub run-clear : (ops : List Op) → run clear ops ≡ spec_run [] ops
run-clear ops = run-eq_spec clear [] ops clear-Holds
