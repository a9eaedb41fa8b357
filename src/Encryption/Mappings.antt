-- ===== src/Encryption/Mappings.antt =====
-- encryption.go: adding a mapping, and lookups after it.
use netcode_go.Prelude.{
  ℕ, ◌+◌, ◌<◌, ◌≡◌, ◌≢◌, ◌⊎◌, refl, arith, true, false, none, some, inl, inr, length, set, take,
  length-set, get_or-set, get_or-set_self, get_or-set_ne, ltb, if◌then◌else◌, Option-cases, dec_lt,
  first_index_missed, first_index, first_index-take_found, first_index_found,
  first_index-take_missed, first_index-take_earlier, first_index-take_eq,
}
use netcode_go.Float.{FloatOps}
use netcode_go.Address.{address_none, address_ipv4, address_ipv6, equal}
use netcode_go.Address.Equal.{equal_none, equal_self}
use netcode_go.Encryption.{
  EncryptionManager, NewMapping, no_mapping, at, is_none, entry_expired, refreshed, is_live_for,
  is_vacant, add_encryption_mapping, find_encryption_mapping, get_send_key, get_receive_key,
  max_encryption_mappings,
}
use netcode_go.Encryption.Valid.{IsValid}

-- How `addEncryptionMapping` can go: it refreshes the first live mapping of the address, or takes
-- the first vacant slot, or finds none.
pub data Added (fl : FloatOps) (m : EncryptionManager) (n : NewMapping) : Type 0 where
  refreshes :
      (i : ℕ)
      → i < m.num_encryption_mappings
      → is_live_for fl n.address n.time (at m i) ≡ true
      → ((k : ℕ) → k < i → is_live_for fl n.address n.time (at m k) ≡ false)
      → add_encryption_mapping fl m n
        ≡ (record m { mappings = set m.mappings i (refreshed (at m i) n) }, true)
      → Added fl m n
  takes :
      (i : ℕ)
      → i < max_encryption_mappings
      → is_vacant fl n.time (at m i) ≡ true
      → ((k : ℕ) → is_live_for fl n.address n.time (at m k) ≡ false)
      → add_encryption_mapping fl m n ≡ (
        record {
          num_encryption_mappings =
              if ltb m.num_encryption_mappings (i + 1) then i + 1 else m.num_encryption_mappings;
          mappings = set m.mappings i (record (refreshed (at m i) n) { address = n.address });
        },
        true,
      )
      → Added fl m n
  fails :
      add_encryption_mapping fl m n ≡ (m, false)
      → ((k : ℕ) → k < max_encryption_mappings → is_vacant fl n.time (at m k) ≡ false)
      → Added fl m n

module _ (fl : FloatOps) (m : EncryptionManager) (n : NewMapping) (v : IsValid m) where
  none_live :
      first_index (is_live_for fl n.address n.time) (take m.num_encryption_mappings m.mappings) 0
        ≡ none
      → (k : ℕ) → is_live_for fl n.address n.time (at m k) ≡ false
  none_live e k = elim (dec_lt k m.num_encryption_mappings) [
    | yes lt ↦
        first_index-take_missed (is_live_for fl n.address n.time) no_mapping
          m.num_encryption_mappings m.mappings k e lt (omega (arith, v.size, v.bounded))
    | no ge ↦ ground (arith, v.behind k (omega arith), equal_none (at m k).address n.address)
  ]

  pub added : Added fl m n
  unfolding add_encryption_mapping
  added =
      elim (Option-cases (
        first_index (is_live_for fl n.address n.time) (take m.num_encryption_mappings m.mappings)
          0)) [
            | inr (i, e) ↦
                let (lt, lt', q) =
                  first_index-take_found (is_live_for fl n.address n.time) no_mapping
                    m.num_encryption_mappings m.mappings i e in
                refreshes i lt q
                  (λ k b.
                    first_index-take_earlier (is_live_for fl n.address n.time) no_mapping
                      m.num_encryption_mappings m.mappings i k e b)
                  (rw (e, add_encryption_mapping) refl)
            | inl e ↦ elim (Option-cases (first_index (is_vacant fl n.time) m.mappings 0)) [
              | inl e' ↦ fails (rw (e, add_encryption_mapping) (rw e' refl)) (λ k b.
                  first_index_missed (is_vacant fl n.time) no_mapping m.mappings k e'
                    (omega (arith, v.size)))
              | inr (i, e') ↦
                  let (lt, q) =
                    first_index_found (is_vacant fl n.time) no_mapping m.mappings i e' in
                  takes i (omega (arith, v.size)) q (none_live e)
                    (rw (e, add_encryption_mapping) (rw e' refl))
            ]
          ]

  find_at :
      (m' : EncryptionManager) (i : ℕ)
      → i < m'.num_encryption_mappings
      → i < length m'.mappings
      → is_live_for fl n.address n.time (at m' i) ≡ true
      → ((k : ℕ) → k < i → is_live_for fl n.address n.time (at m' k) ≡ false)
      → (find_encryption_mapping fl m' n.address n.time).1 ≡ some i
  unfolding find_encryption_mapping
  find_at m' i a b q before =
      let e =
        first_index-take_eq (is_live_for fl n.address n.time) no_mapping m'.num_encryption_mappings
          m'.mappings i a b q before in
      rw (e, find_encryption_mapping) refl

  -- After a mapping has been added to a valid manager for an IPv4 or IPv6 address, a lookup of the
  -- address at the same time finds a mapping with exactly the keys given, unless the mapping is
  -- expired from the start.
  pub add-find :
      (n.address.type ≡ address_ipv4) ⊎ (n.address.type ≡ address_ipv6)
      → entry_expired fl (refreshed no_mapping n) n.time ≡ false
      → (add_encryption_mapping fl m n).1 ≡ true
      → let m' = (add_encryption_mapping fl m n).0 in
        (i : ℕ) × ((find_encryption_mapping fl m' n.address n.time).1 ≡ some i)
        × (get_send_key m' (some i) ≡ some n.send_key)
        × (get_receive_key m' (some i) ≡ some n.receive_key)
  unfolding get_send_key get_receive_key entry_expired
  add-find kind fresh done = elim added [
    | refreshes i lt q before e ↦
        let e' = refreshed (at m i) n in
        let m' = record m { mappings = set m.mappings i e' } in
        let here = get_or-set_self m.mappings i e' no_mapping (omega (arith, v.size, v.bounded)) in
        (
          i,
          rw e (
              find_at m' i lt (omega (arith, v.size, v.bounded, length-set m.mappings i e'))
                (ground (arith, here, q, fresh))
                (λ k b.
                  ground
                    (arith, before k b, get_or-set_ne m.mappings i k e' no_mapping (omega arith)))),
          rw e (ground (arith, here)),
          rw e (ground (arith, here)),
        )
    | takes i lt q none_at e ↦
        let e' = record (refreshed (at m i) n) { address = n.address } in
        let count =
          if ltb m.num_encryption_mappings (i + 1) then i + 1 else m.num_encryption_mappings in
        let m' : EncryptionManager = record {
          num_encryption_mappings = count;
          mappings = set m.mappings i e';
        } in
        let here = get_or-set_self m.mappings i e' no_mapping (omega (arith, v.size)) in
        (
          i,
          rw e (
              find_at m' i (ground arith) (omega (arith, v.size, length-set m.mappings i e'))
                (ground (arith, here, equal_self n.address kind, fresh))
                (λ k b.
                  ground
                    (arith, none_at k, get_or-set_ne m.mappings i k e' no_mapping (omega arith)))),
          rw e (ground (arith, here)),
          rw e (ground (arith, here)),
        )
    | fails e all ↦ absurd (cc (e, done))
  ]

  -- In a valid manager, adding a mapping changes no mapping of another address that is live, or that
  -- belongs to a connected client.
  pub add-keeps :
      (k : ℕ)
      → (at m k).address.type ≢ address_none
      → equal (at m k).address n.address ≡ false
      → (entry_expired fl (at m k) n.time ≡ false) ⊎ (is_none (at m k).client_index ≡ false)
      → at (add_encryption_mapping fl m n).0 k ≡ at m k
  add-keeps k kind other live = elim added [
    | refreshes i lt q before e ↦ rw e (
        ground
          (arith, get_or-set m.mappings i k (refreshed (at m i) n) no_mapping, v.size, v.bounded))
    | takes i lt q none_at e ↦ rw e (
        ground (
          arith,
          get_or-set m.mappings i k (record (refreshed (at m i) n) { address = n.address })
              no_mapping,
          v.size,
        ))
    | fails e all ↦ rw e refl
  ]
