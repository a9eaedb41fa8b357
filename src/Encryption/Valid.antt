-- ===== src/Encryption/Valid.antt =====
-- encryption.go: the invariant of the mappings, against every operation.
use netcode_go.Prelude.{
  ℕ, zero, suc, ◌+◌, ◌≤◌, ◌<◌, ◌≡◌, refl, arith, not, ◌||◌, Option, inl, inr, List, length, get_or,
  set, take, length-set, get_or-set, length-replicate, get_or-replicate, ltb, ◌==◌, ==_iff, dec_lt,
  set_outside, if◌then◌else◌, Bool-cases, Option-cases, first_index, first_index-take_found,
  first_index_found,
}
use netcode_go.Float.{Float64, FloatOps}
use netcode_go.Address.{Address, address_none, equal}
use netcode_go.Encryption.{
  EncryptionManager, Mapping, NewMapping, no_mapping, reset, at, is_none, entry_expired, refreshed,
  is_live_for, is_vacant, add_encryption_mapping, shrink, forgotten, remove_encryption_mapping,
  find_encryption_mapping, touch, set_expire_time, set_client_index, max_encryption_mappings,
}

abbrev pub type_at : List Mapping → ℕ → ℕ
type_at ms k = (get_or ms k no_mapping).address.type

pub record IsValid (m : EncryptionManager) : Type 0 where
  pub size : length m.mappings ≡ max_encryption_mappings
  pub bounded : m.num_encryption_mappings ≤ max_encryption_mappings
  -- Behind the number there is no address.
  pub behind : (k : ℕ) → m.num_encryption_mappings ≤ k → type_at m.mappings k ≡ address_none

pub reset-IsValid : IsValid reset
unfolding reset no_mapping
reset-IsValid = record {
  size = length-replicate max_encryption_mappings no_mapping;
  bounded = omega arith;
  behind = λ k h. ground (arith, get_or-replicate max_encryption_mappings no_mapping k);
}

-- A write that keeps the address, or that happens below the number.
write-IsValid :
    (m : EncryptionManager) (i : ℕ) (e : Mapping)
    → i < max_encryption_mappings
    → e.address ≡ (at m i).address
    → IsValid m
    → IsValid (record m { mappings = set m.mappings i e })
write-IsValid m i e lt same v = record {
  size = ground (arith, v.size, length-set m.mappings i e);
  bounded = v.bounded;
  behind = λ k h. ground (arith, v.size, v.behind k, get_or-set m.mappings i k e no_mapping);
}

module _ (fl : FloatOps) where
  new-IsValid :
      (m : EncryptionManager) (i : ℕ) (e : Mapping)
      → i < max_encryption_mappings
      → IsValid m
      → IsValid (record {
        num_encryption_mappings =
            if ltb m.num_encryption_mappings (i + 1) then i + 1 else m.num_encryption_mappings;
        mappings = set m.mappings i e;
      })
  new-IsValid m i e lt v = record {
    size = ground (arith, v.size, length-set m.mappings i e);
    bounded = ground (arith, v.bounded);
    behind = λ k h. ground (arith, v.size, v.behind k, get_or-set m.mappings i k e no_mapping);
  }

  add_encryption_mapping-IsValid :
      (m : EncryptionManager) (n : NewMapping)
      → IsValid m
      → IsValid (add_encryption_mapping fl m n).0
  unfolding add_encryption_mapping
  add_encryption_mapping-IsValid m n v =
      elim (Option-cases (
        first_index (is_live_for fl n.address n.time) (take m.num_encryption_mappings m.mappings)
          0)) [
            | inr (i, e) ↦
                let (lt, lt', q) =
                  first_index-take_found (is_live_for fl n.address n.time) no_mapping
                    m.num_encryption_mappings m.mappings i e in
                rw (e, add_encryption_mapping)
                  (write-IsValid m i (refreshed (at m i) n) (omega (arith, v.bounded)) refl v)
            | inl e ↦ elim (Option-cases (first_index (is_vacant fl n.time) m.mappings 0)) [
              | inl e' ↦ rw (e, add_encryption_mapping) (rw e' v)
              | inr (i, e') ↦
                  let (lt, q) =
                    first_index_found (is_vacant fl n.time) no_mapping m.mappings i e' in
                  rw (e, add_encryption_mapping)
                    (rw e' (
                      new-IsValid m i (record (refreshed (at m i) n) { address = n.address })
                        (omega (arith, v.size)) v))
            ]
          ]

  -- `shrink` drops only expired mappings of no client, and leaves the rest alone.
  pub shrink_lem :
      (k : ℕ) (ms : List Mapping) (time : Float64)
      → k ≤ length ms
      → ((j : ℕ) → k ≤ j → type_at ms j ≡ address_none)
      → (length (shrink fl k ms time).0 ≡ length ms)
        × ((shrink fl k ms time).1 ≤ k)
        × ((j : ℕ) → (shrink fl k ms time).1 ≤ j → type_at (shrink fl k ms time).0 j ≡ address_none)
  unfolding shrink
  shrink_lem zero ms time h b = (refl, omega arith, b)
  shrink_lem (suc k) ms time h b =
      let e = get_or ms k no_mapping in
      let cleared = record e { address = record (e.address) { type = address_none } } in
      let after = set ms k cleared in
      let size = length-set ms k cleared in
      elim (Bool-cases (not (entry_expired fl e time) || not (is_none e.client_index))) [
        | inl stop ↦ rw (stop, shrink) (refl, omega arith, b)
        | inr more ↦
            let (p, q, r) =
              shrink_lem k after time (omega (arith, size))
                (λ j lt. ground (arith, b j, get_or-set ms k j cleared no_mapping)) in
            rw (more, shrink) (omega (arith, p, size), omega (arith, q), r)
      ]

  remove_encryption_mapping-IsValid :
      (m : EncryptionManager) (a : Address) (time : Float64)
      → IsValid m
      → IsValid (remove_encryption_mapping fl m a time).0
  unfolding remove_encryption_mapping
  remove_encryption_mapping-IsValid m a time v =
      elim (Option-cases
        (first_index (λ e. equal e.address a) (take m.num_encryption_mappings m.mappings) 0)) [
          | inl e ↦ rw (e, remove_encryption_mapping) v
          | inr (i, e) ↦
              let (lt, lt', q) =
                first_index-take_found (λ e. equal e.address a) no_mapping m.num_encryption_mappings
                  m.mappings i e in
              let gone = forgotten fl (at m i) in
              let ms = set m.mappings i gone in
              let size = length-set m.mappings i gone in
              let cleared : (j : ℕ)
                  → i ≤ j
                  → i + 1 ≡ m.num_encryption_mappings
                  → type_at ms j ≡ address_none =
                λ j le last.
                  ground (arith, v.behind j, v.size, get_or-set m.mappings i j gone no_mapping) in
              rw (e, remove_encryption_mapping)
                (elim (Bool-cases (i + 1 == m.num_encryption_mappings)) [
                  | inl last ↦
                      let end : i + 1 ≡ m.num_encryption_mappings = (==_iff _ _).0 last in
                      let (p, q, r) =
                        shrink_lem i ms time (omega (arith, size)) (λ j le. cleared j le end) in
                      rw last (record {
                        size = omega (arith, p, size, v.size);
                        bounded = omega (arith, q, v.bounded);
                        behind = r;
                      })
                  | inr inside ↦ rw inside (record {
                    size = omega (arith, size, v.size);
                    bounded = v.bounded;
                    behind = λ k h.
                        ground
                          (arith, v.behind k, v.size, get_or-set m.mappings i k gone no_mapping);
                  })
                ])
        ]

  find_encryption_mapping-IsValid :
      (m : EncryptionManager) (a : Address) (time : Float64)
      → IsValid m
      → IsValid (find_encryption_mapping fl m a time).0
  unfolding find_encryption_mapping
  find_encryption_mapping-IsValid m a time v =
      elim (Option-cases
        (first_index (is_live_for fl a time) (take m.num_encryption_mappings m.mappings) 0)) [
          | inl e ↦ rw (e, find_encryption_mapping) v
          | inr (i, e) ↦
              let (lt, lt', q) =
                first_index-take_found (is_live_for fl a time) no_mapping m.num_encryption_mappings
                  m.mappings i e in
              rw (e, find_encryption_mapping)
                (write-IsValid m i (record (at m i) { last_access_time = time })
                  (omega (arith, v.bounded)) refl v)
        ]

-- A write at an index out of range changes nothing; one in range keeps the address.
keep-IsValid :
    (m : EncryptionManager) (i : ℕ) (e : Mapping)
    → e.address ≡ (at m i).address
    → IsValid m
    → IsValid (record m { mappings = set m.mappings i e })
keep-IsValid m i e same v = elim (dec_lt i max_encryption_mappings) [
  | yes lt ↦ write-IsValid m i e lt same v
  | no ge ↦
      rw (set_outside m.mappings i e (omega (arith, v.size)))
        (record { size = v.size; bounded = v.bounded; behind = v.behind })
]

touch-IsValid :
    (m : EncryptionManager) (i : ℕ) (a : Address) (t : Float64)
    → IsValid m
    → IsValid (touch m i a t).0
unfolding touch
touch-IsValid m i a t v = elim (Bool-cases (equal (at m i).address a)) [
  | inl e ↦ rw (e, touch) (keep-IsValid m i (record (at m i) { last_access_time = t }) refl v)
  | inr e ↦ rw (e, touch) v
]

-- What a caller can do to the manager.
pub data Call : Type 0 where
  adds : NewMapping → Call
  removes : Address → Float64 → Call
  finds : Address → Float64 → Call
  touches : ℕ → Address → Float64 → Call
  sets_expire_time : ℕ → Float64 → Call
  sets_client_index : ℕ → Option ℕ → Call

unfoldable pub after_call : FloatOps → EncryptionManager → Call → EncryptionManager
after_call fl m (adds n) = (add_encryption_mapping fl m n).0
after_call fl m (removes a t) = (remove_encryption_mapping fl m a t).0
after_call fl m (finds a t) = (find_encryption_mapping fl m a t).0
after_call fl m (touches i a t) = (touch m i a t).0
after_call fl m (sets_expire_time i t) = set_expire_time m i t
after_call fl m (sets_client_index i c) = set_client_index m i c

-- Every operation on a valid manager leaves it valid: it has 1024 slots, and no mapping stands at
-- or behind their number.
pub after_call-IsValid :
    (fl : FloatOps) (m : EncryptionManager) (c : Call) → IsValid m → IsValid (after_call fl m c)
unfolding after_call set_expire_time set_client_index
after_call-IsValid fl m (adds n) v = add_encryption_mapping-IsValid fl m n v
after_call-IsValid fl m (removes a t) v = remove_encryption_mapping-IsValid fl m a t v
after_call-IsValid fl m (finds a t) v = find_encryption_mapping-IsValid fl m a t v
after_call-IsValid fl m (touches i a t) v = touch-IsValid m i a t v
after_call-IsValid fl m (sets_expire_time i t) v =
    keep-IsValid m i (record (at m i) { expire_time = t }) refl v
after_call-IsValid fl m (sets_client_index i c) v =
    keep-IsValid m i (record (at m i) { client_index = c }) refl v
