-- ===== src/Replay/Window.antt =====
-- replay.go: the window against its history and against a receiver that remembers everything.
use netcode_go.Prelude.{
  ℕ, ◌+◌, ◌%◌, ◌≤◌, ◌<◌, ◌≡◌, ◌≢◌, ◌↔◌, ◌⊎◌, inl, inr, refl, arith, Bool, true, false, ◌||◌, List,
  [], ◌∷◌, length, get_or, length-set, get_or-set, length-replicate, get_or-replicate_lt, ltb, leb,
  ◌==◌, if◌then◌else◌, Bool-cases,
}
use netcode_go.Replay.{
  ReplayProtection, empty_entry, reset, already_received, advance_sequence, admit,
}

-- Whether a sequence number is in a list of received ones.
abbrev pub seen : ℕ → List ℕ → Bool
seen s [] = false
seen s (a ∷ acc) = s == a || seen s acc

-- The largest sequence number received, 0 at the start.
abbrev pub newest : List ℕ → ℕ
newest [] = 0
newest (a ∷ acc) = if ltb (newest acc) a then a else newest acc

seen-le-newest : (s : ℕ) (acc : List ℕ) → seen s acc ≡ true → s ≤ newest acc
seen-le-newest s [] h = ground arith
seen-le-newest s (a ∷ acc) h = ground (arith, seen-le-newest s acc)

-- The window holds, for each residue, the newest sequence number received with it.
pub record Tracks (r : ReplayProtection) (acc : List ℕ) : Type 0 where
  pub size : length r.received_packet ≡ 256
  pub recent : r.most_recent_sequence ≡ newest acc
  pub held :
      (k : ℕ)
      → k < 256
      → get_or r.received_packet k 0 ≢ empty_entry
      → (seen (get_or r.received_packet k 0) acc ≡ true) × (get_or r.received_packet k 0 % 256 ≡ k)
  pub covers :
      (s : ℕ)
      → seen s acc ≡ true
      → (s ≤ get_or r.received_packet (s % 256) 0)
        × (get_or r.received_packet (s % 256) 0 ≢ empty_entry)

pub reset-Tracks : Tracks reset []
unfolding reset
reset-Tracks = record {
  size = length-replicate 256 empty_entry;
  recent = refl;
  held = λ k lt ne. absurd (ne (get_or-replicate_lt 256 empty_entry 0 k lt));
  covers = λ s h. ground arith;
}

module _ (r : ReplayProtection) (acc : List ℕ) (v : Tracks r acc) where
  -- In a window that tracks what has been received, a sequence number is refused exactly if it lies
  -- 256 or more behind the newest one, or has been received.
  pub already_received_iff :
      (s : ℕ) → (already_received r s ≡ true) ↔ ((s + 256 ≤ newest acc) ⊎ (seen s acc ≡ true))
  unfolding already_received
  already_received_iff s = (
    ground (
      arith,
      v.recent,
      v.held (s % 256),
      seen-le-newest (get_or r.received_packet (s % 256) 0) acc,
    ),
    ground (arith, v.recent, v.covers s),
  )

  -- Receiving a sequence number that was not refused keeps the history, unless it is the mark
  -- of an empty entry.
  pub advance_sequence-Tracks :
      (s : ℕ)
      → s ≢ empty_entry
      → already_received r s ≡ false
      → Tracks (advance_sequence r s) (s ∷ acc)
  unfolding advance_sequence already_received
  advance_sequence-Tracks s ne fresh = record {
    size = ground (arith, v.size, length-set r.received_packet (s % 256) s);
    recent = ground (arith, v.recent);
    held = λ k lt full.
        ground (arith, v.size, v.held k lt, get_or-set r.received_packet (s % 256) k s 0);
    covers = λ t h.
        ground (
          arith,
          v.size,
          v.covers t,
          v.recent,
          get_or-set r.received_packet (s % 256) (t % 256) s 0,
        );
  }

-- What the window promises: a receiver that remembers every sequence number, and refuses those
-- that it remembers and those 256 or more behind the newest.
unfoldable pub admit_spec : List ℕ → List ℕ → List ℕ
admit_spec acc [] = []
admit_spec acc (s ∷ rest) =
    let passed = s ∷ admit_spec (s ∷ acc) rest in
    let refused = admit_spec acc rest in
    if leb (s + 256) (newest acc) || seen s acc then refused else passed

abbrev pub BelowMark : List ℕ → Type 0
BelowMark [] = Unit {0}
BelowMark (s ∷ rest) = (s < empty_entry) × BelowMark rest

-- The code's test is the specification's.
already_received-eq_lem :
    (r : ReplayProtection) (acc : List ℕ)
    → Tracks r acc
    → (s : ℕ) → already_received r s ≡ (leb (s + 256) (newest acc) || seen s acc)
already_received-eq_lem r acc v s =
    ground (arith, (already_received_iff r acc v s).0, (already_received_iff r acc v s).1)

admit-eq_spec :
    (r : ReplayProtection) (acc ss : List ℕ)
    → Tracks r acc
    → BelowMark ss
    → admit r ss ≡ admit_spec acc ss
unfolding admit admit_spec
admit-eq_spec r acc [] v b = refl
admit-eq_spec r acc (s ∷ rest) v b = elim (Bool-cases (already_received r s)) [
  | inl old ↦ ground (arith, old, already_received-eq_lem r acc v s, admit-eq_spec r acc rest v b.1)
  | inr new ↦ ground (
    arith,
    new,
    already_received-eq_lem r acc v s,
    admit-eq_spec (advance_sequence r s) (s ∷ acc) rest
        (advance_sequence-Tracks r acc v s (omega arith) new) b.1,
  )
]

-- From a reset, for sequence numbers below 2^64 - 1, the window of 256 entries lets exactly the packets
-- through that a receiver lets through which remembers everything it has received, and refuses those
-- that it has received and those that lie 256 or more behind the newest.
pub admit-reset : (ss : List ℕ) → BelowMark ss → admit reset ss ≡ admit_spec [] ss
admit-reset ss b = admit-eq_spec reset [] ss reset-Tracks b

-- No element of the list is in `acc`, nor twice in the list.
abbrev pub Fresh : List ℕ → List ℕ → Type 0
Fresh acc [] = Unit {0}
Fresh acc (s ∷ rest) = (seen s acc ≡ false) × Fresh (s ∷ acc) rest

Fresh-admit :
    (r : ReplayProtection) (acc ss : List ℕ) → Tracks r acc → BelowMark ss → Fresh acc (admit r ss)
unfolding admit
Fresh-admit r acc [] v b = tt
Fresh-admit r acc (s ∷ rest) v b = elim (Bool-cases (already_received r s)) [
  | inl old ↦ ground (arith, old, Fresh-admit r acc rest v b.1)
  | inr new ↦ ground (
    arith,
    new,
    already_received-eq_lem r acc v s,
    Fresh-admit (advance_sequence r s) (s ∷ acc) rest
        (advance_sequence-Tracks r acc v s (omega arith) new) b.1,
  )
]

-- No packet is admitted twice, in whatever order sequence numbers below 2^64 - 1 arrive.
pub Fresh-admit-reset : (ss : List ℕ) → BelowMark ss → Fresh [] (admit reset ss)
Fresh-admit-reset ss b = Fresh-admit reset [] ss reset-Tracks b
