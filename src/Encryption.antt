-- ===== src/Encryption.antt =====
-- encryption.go: which keys belong to which packet source address. The parallel arrays of
-- `encryptionManager` are one list of records with a field for each array.
pub mod Valid
pub mod Mappings
use netcode_go.Prelude.{
  ℕ, zero, suc, ◌+◌, ◌*◌, ◌^◌, Bool, true, false, not, ◌&&◌, ◌||◌, Option, none, some, List, [],
  ◌∷◌, Bytes, replicate, get_or, set, take, ltb, ◌==◌, if◌then◌else◌, first_index,
}
use netcode_go.Float.{Float64, FloatOps, float_zero, float_minus_one, float_minus_1000}
use netcode_go.Address.{Address, no_address, address_none, equal}

abbrev pub max_encryption_mappings : ℕ
max_encryption_mappings = 256 * 4

-- One index of the arrays. An index of -1 is `none`, an int32 is its bit pattern.
pub record Mapping : Type 0 where
  pub timeout : ℕ
  pub expire_time : Float64
  pub last_access_time : Float64
  pub address : Address
  pub client_index : Option ℕ
  pub connect_token_entry_index : Option ℕ
  pub send_key : Bytes
  pub receive_key : Bytes

-- `encryptionManager`
pub record EncryptionManager : Type 0 where
  pub num_encryption_mappings : ℕ
  pub mappings : List Mapping

unfoldable pub no_key : Bytes
no_key = replicate 32 0

unfoldable pub no_mapping : Mapping
no_mapping = record {
  timeout = 0;
  expire_time = float_minus_one;
  last_access_time = float_minus_1000;
  address = no_address;
  client_index = none;
  connect_token_entry_index = none;
  send_key = no_key;
  receive_key = no_key;
}

-- `encryptionManager.reset`, which leaves nothing of the mappings before.
unfoldable pub reset : EncryptionManager
reset = record {
  num_encryption_mappings = 0;
  mappings = replicate max_encryption_mappings no_mapping;
}

-- An int32 above zero.
abbrev pub is_positive : ℕ → Bool
is_positive v = ltb 0 v && ltb v (2 ^ 31)

abbrev pub is_none {ℓ} : {A : Type ℓ} → Option A → Bool
is_none none = true
is_none (some a) = false

-- What a caller gives for a mapping.
pub record NewMapping : Type 0 where
  pub address : Address
  pub send_key : Bytes
  pub receive_key : Bytes
  pub time : Float64
  pub expire_time : Float64
  pub timeout : ℕ
  pub connect_token_entry_index : Option ℕ

-- The assignments that both loops of `addEncryptionMapping` make.
abbrev pub refreshed : Mapping → NewMapping → Mapping
refreshed m n = record m {
  timeout = n.timeout;
  expire_time = n.expire_time;
  last_access_time = n.time;
  connect_token_entry_index = n.connect_token_entry_index;
  send_key = n.send_key;
  receive_key = n.receive_key;
}

abbrev pub at : EncryptionManager → ℕ → Mapping
at m i = get_or m.mappings i no_mapping

module _ (fl : FloatOps) where
  -- `entryExpired`, of the mapping at the index.
  unfoldable pub entry_expired : Mapping → Float64 → Bool
  entry_expired m time =
      (is_positive m.timeout && fl.lt (fl.add m.last_access_time (fl.from_int32 m.timeout)) time)
      || (fl.le float_zero m.expire_time && fl.lt m.expire_time time)

  -- The tests of the loops.
  abbrev pub is_live_for : Address → Float64 → Mapping → Bool
  is_live_for address time m = equal m.address address && not (entry_expired m time)

  abbrev pub is_vacant : Float64 → Mapping → Bool
  is_vacant time m =
      m.address.type == address_none || (entry_expired m time && is_none m.client_index)

  unfoldable pub add_encryption_mapping : EncryptionManager → NewMapping → EncryptionManager × Bool
  add_encryption_mapping m n =
      elim (first_index (is_live_for n.address n.time) (take m.num_encryption_mappings m.mappings)
        0) [
          | some i ↦ (record m { mappings = set m.mappings i (refreshed (at m i) n) }, true)
          | none ↦ elim (first_index (is_vacant n.time) m.mappings 0) [
            | none ↦ (m, false)
            | some i ↦ (
              record {
                num_encryption_mappings =
                    if ltb m.num_encryption_mappings (i + 1)
                    then i + 1
                    else m.num_encryption_mappings;
                mappings = set m.mappings i (record (refreshed (at m i) n) { address = n.address });
              },
              true,
            )
          ]
        ]

  -- The loop at the end of `removeEncryptionMapping`, from the index below `k` downwards: the
  -- mappings and their number.
  unfoldable pub shrink : ℕ → List Mapping → Float64 → List Mapping × ℕ
  shrink zero ms time = (ms, 0)
  shrink (suc k) ms time =
      let e = get_or ms k no_mapping in
      let rest =
        shrink k (set ms k (record e { address = record (e.address) { type = address_none } }))
          time in
      if not (entry_expired e time) || not (is_none e.client_index) then (ms, suc k) else rest

  abbrev pub forgotten : Mapping → Mapping
  forgotten e = record e {
    expire_time = float_minus_one;
    last_access_time = float_minus_1000;
    connect_token_entry_index = none;
    address = no_address;
    send_key = no_key;
    receive_key = no_key;
  }

  unfoldable pub remove_encryption_mapping :
      EncryptionManager → Address → Float64 → EncryptionManager × Bool
  remove_encryption_mapping m address time =
      elim (first_index (λ e. equal e.address address) (take m.num_encryption_mappings m.mappings)
        0) [
          | none ↦ (m, false)
          | some i ↦
              let ms = set m.mappings i (forgotten (at m i)) in
              let (ms', n) = shrink i ms time in
              (
                if i + 1 == m.num_encryption_mappings
                    then record { num_encryption_mappings = n; mappings = ms' }
                    else record m { mappings = ms },
                true,
              )
        ]

  unfoldable pub find_encryption_mapping :
      EncryptionManager → Address → Float64 → EncryptionManager × Option ℕ
  find_encryption_mapping m address time =
      elim (first_index (is_live_for address time) (take m.num_encryption_mappings m.mappings) 0) [
        | some i ↦ (
          record m { mappings = set m.mappings i (record (at m i) { last_access_time = time }) },
          some i,
        )
        | none ↦ (m, none)
      ]

unfoldable pub touch : EncryptionManager → ℕ → Address → Float64 → EncryptionManager × Bool
touch m index address time = if not (equal (at m index).address address) then (m, false) else (
  record m { mappings = set m.mappings index (record (at m index) { last_access_time = time }) },
  true,
)

unfoldable pub set_expire_time : EncryptionManager → ℕ → Float64 → EncryptionManager
set_expire_time m index expire_time = record m {
  mappings = set m.mappings index (record (at m index) { expire_time = expire_time });
}

-- The assignments to `encryptionManager.clientIndex` that the server makes.
unfoldable pub set_client_index : EncryptionManager → ℕ → Option ℕ → EncryptionManager
set_client_index m index client_index = record m {
  mappings = set m.mappings index (record (at m index) { client_index = client_index });
}

-- `getSendKey`, `getReceiveKey`, `getTimeout` and `getConnectTokenEntryIndex`.
unfoldable pub get_send_key : EncryptionManager → Option ℕ → Option Bytes
get_send_key m none = none
get_send_key m (some index) = some ((at m index).send_key)

unfoldable pub get_receive_key : EncryptionManager → Option ℕ → Option Bytes
get_receive_key m none = none
get_receive_key m (some index) = some ((at m index).receive_key)

unfoldable pub get_timeout : EncryptionManager → Option ℕ → ℕ
get_timeout m none = 0
get_timeout m (some index) = (at m index).timeout

unfoldable pub get_connect_token_entry_index : EncryptionManager → Option ℕ → Option ℕ
get_connect_token_entry_index m none = none
get_connect_token_entry_index m (some index) = (at m index).connect_token_entry_index
