-- ===== src/TokenEntries.antt =====
-- token_entries.go: the history of connect tokens that a server has seen.
pub mod Search
pub mod Admission
pub mod SingleUse
use netcode_go.Prelude.{
  ℕ, ◌+◌, ◌*◌, Bool, true, false, not, ◌&&◌, ◌||◌, Option, none, some, List, [], ◌∷◌, Bytes,
  replicate, get_or, set, ltb, leb, ◌==◌, if◌then◌else◌,
}
use netcode_go.Address.{Address, no_address, array_eq, equal}
use netcode_go.Float.{Float64, float_minus_1000}

abbrev pub max_connect_token_entries : ℕ
max_connect_token_entries = 256 * 8

abbrev pub connect_token_entry_free : ℕ
connect_token_entry_free = 0

abbrev pub connect_token_entry_pending : ℕ
connect_token_entry_pending = 1

abbrev pub connect_token_entry_consumed : ℕ
connect_token_entry_consumed = 2

-- `connectTokenEntry`
pub record ConnectTokenEntry : Type 0 where
  pub state : ℕ
  pub time : Float64
  pub expire_timestamp : ℕ
  pub mac : Bytes
  pub address : Address

unfoldable pub free_entry : ConnectTokenEntry
free_entry = record {
  state = connect_token_entry_free;
  time = float_minus_1000;
  expire_timestamp = 0;
  mac = replicate 16 0;
  address = no_address;
}

-- `connectTokenEntriesReset`, which leaves nothing of the entries before.
unfoldable pub reset : List ConnectTokenEntry
reset = replicate max_connect_token_entries free_entry

-- What `connectTokenEntriesFindOrAdd` returns: an index, or one of its two negative codes.
pub data Found : Type 0 where
  admitted : ℕ → Found
  refused : Found
  history_full : Found

-- The two tests of the loop: a used entry with the MAC, and an entry free to take a new token.
abbrev pub matches : ConnectTokenEntry → Bytes → Bool
matches e mac = not (e.state == connect_token_entry_free) && array_eq mac e.mac

abbrev pub is_free : ConnectTokenEntry → ℕ → Bool
is_free e now = e.state == connect_token_entry_free || leb e.expire_timestamp now

-- The loop's two indices, `none` for -1. The last matching entry counts, and the first free one.
unfoldable pub search_loop :
    List ConnectTokenEntry → Bytes → ℕ → ℕ → Option ℕ → Option ℕ → Option ℕ × Option ℕ
search_loop [] mac now i matching free = (matching, free)
search_loop (e ∷ es) mac now i matching free =
    search_loop es mac now (i + 1) (if matches e mac then some i else matching)
      (elim free [ some j ↦ some j | none ↦ if is_free e now then some i else none ])

-- The arguments that describe the token of a connection request.
pub record TokenUse : Type 0 where
  pub address : Address
  pub mac : Bytes
  pub expire_timestamp : ℕ
  pub current_timestamp : ℕ
  pub time : Float64

abbrev pub pending_entry : TokenUse → ConnectTokenEntry
pending_entry u = record {
  state = connect_token_entry_pending;
  time = u.time;
  expire_timestamp = u.expire_timestamp;
  mac = u.mac;
  address = u.address;
}

-- What `connectTokenEntriesFindOrAdd` does with the two indices. The MAC has 16 bytes, so `copy`
-- replaces the entry's whole.
unfoldable pub take_entry :
    List ConnectTokenEntry → TokenUse → Option ℕ × Option ℕ → List ConnectTokenEntry × Found
take_entry entries u (none, none) = (entries, history_full)
take_entry entries u (none, some i) = (set entries i (pending_entry u), admitted i)
take_entry entries u (some i, free) =
    let e = get_or entries i free_entry in
    if e.state == connect_token_entry_pending && equal e.address u.address
    then (entries, admitted i)
    else (entries, refused)

-- `connectTokenEntriesFindOrAdd`: the entries afterwards and the result.
unfoldable pub find_or_add : List ConnectTokenEntry → TokenUse → List ConnectTokenEntry × Found
find_or_add entries u =
    take_entry entries u (search_loop entries u.mac u.current_timestamp 0 none none)

-- `connectTokenEntriesConsume`. An index that is negative in the source is no argument here.
unfoldable pub consume : List ConnectTokenEntry → ℕ → List ConnectTokenEntry
consume entries index =
    if ltb index max_connect_token_entries
    then set entries index
        (record (get_or entries index free_entry) { state = connect_token_entry_consumed })
    else entries
