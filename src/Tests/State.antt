-- ===== src/Tests/State.antt =====
-- The theorems on the token history and the encryption mappings, at concrete inputs.
use netcode_go.Prelude.{ℕ, List, Bytes, some, replicate, refl, arith, ◌≡◌, inl, first_index}
use netcode_go.Address.{equal, array_eq}
use netcode_go.Encryption
use netcode_go.Encryption.{
  EncryptionManager, NewMapping, add_encryption_mapping, find_encryption_mapping, get_send_key,
  get_receive_key, entry_expired,
}
use netcode_go.Encryption.Valid.{
  IsValid, adds, removes, after_call, after_call-IsValid, reset-IsValid,
}
use netcode_go.Encryption.Mappings.{add-find, add-keeps}
use netcode_go.TokenEntries
use netcode_go.TokenEntries.{
  ConnectTokenEntry, TokenUse, refused, find_or_add, consume, search_loop, take_entry,
}
use netcode_go.TokenEntries.Admission.{start, next, request}
use netcode_go.TokenEntries.SingleUse.{single_use}
use netcode_go.Tests.Toy.{nat_floats, key, localhost}

abbrev mac : Bytes
mac = replicate 16 9

abbrev first_use : TokenUse
first_use = record {
  address = localhost 1000;
  mac = mac;
  expire_timestamp = 90;
  current_timestamp = 50;
  time = 3;
}

abbrev second_use : TokenUse
second_use = record {
  address = localhost 2000;
  mac = mac;
  expire_timestamp = 90;
  current_timestamp = 60;
  time = 4;
}

abbrev history : List ConnectTokenEntry
history = (find_or_add TokenEntries.reset first_use).0

single_use_example : find_or_add (consume history 0) second_use ≡ (consume history 0, refused)
unfolding find_or_add TokenEntries.reset search_loop take_entry replicate TokenEntries.free_entry
    array_eq equal
single_use_example =
    single_use 60 history (consume history 0) 0 second_use
      (next start (request first_use (omega arith))) (omega arith) (omega arith) (λ e. cc) start
      refl

abbrev mapping : ℕ → NewMapping
mapping port = record {
  address = localhost port;
  send_key = key;
  receive_key = replicate 32 8;
  time = 10;
  expire_time = 20;
  timeout = 5;
  connect_token_entry_index = some 0;
}

add-find_example :
    let m = (add_encryption_mapping nat_floats Encryption.reset (mapping 1000)).0 in
    (i : ℕ) × ((find_encryption_mapping nat_floats m (localhost 1000) 10).1 ≡ some i)
    × (get_send_key m (some i) ≡ some key)
    × (get_receive_key m (some i) ≡ some (replicate 32 8))
unfolding entry_expired add_encryption_mapping Encryption.reset first_index replicate equal array_eq
    Encryption.no_mapping
add-find_example =
    add-find nat_floats Encryption.reset (mapping 1000) reset-IsValid (inl refl) refl refl

abbrev one_mapping : EncryptionManager
one_mapping = after_call nat_floats Encryption.reset (adds (mapping 1000))

after_call-IsValid_example :
    IsValid (after_call nat_floats one_mapping (removes (localhost 1000) 11))
after_call-IsValid_example =
    after_call-IsValid nat_floats one_mapping (removes (localhost 1000) 11)
      (after_call-IsValid nat_floats Encryption.reset (adds (mapping 1000)) reset-IsValid)

add-keeps_example :
    Encryption.at (add_encryption_mapping nat_floats one_mapping (mapping 2000)).0 0
    ≡ Encryption.at one_mapping 0
unfolding entry_expired add_encryption_mapping Encryption.reset first_index replicate equal array_eq
    Encryption.no_mapping after_call
add-keeps_example =
    add-keeps nat_floats one_mapping (mapping 2000)
      (after_call-IsValid nat_floats Encryption.reset (adds (mapping 1000)) reset-IsValid) 0
      (omega arith) refl (inl refl)
