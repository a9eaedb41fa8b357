-- ===== src/Server/Roster.antt =====
-- server.go: the abstract view of the client slots, with no packets and no keys: who sits where, and
-- the five ways in which that changes.
use netcode_go.Prelude.{
  Bytes, ◌⊎◌, inl, inr, same-Star, one-Star, Star-append, Star, ℕ, zero, suc, ◌+◌, ◌-◌, ◌≤◌, ◌<◌,
  Bool, true, false, Option, none, some, List, [], ◌∷◌, length, get_or, set, ◌≡◌, ◌≢◌, refl, ap,
  if◌then◌else◌,
}
use netcode_go.Address.{Address, no_address, equal}
use netcode_go.Server.{Server, ClientSlot, max_clients_limit}

-- What a slot says about its client.
pub record Seat : Type 0 where
  pub taken : Bool
  pub loopback : Bool
  pub encryption_index : Option ℕ
  pub client_id : ℕ
  pub address : Address

abbrev pub free_seat : Seat
free_seat = record {
  taken = false;
  loopback = false;
  encryption_index = none;
  client_id = 0;
  address = no_address;
}

abbrev pub network_seat : ℕ → Address → ℕ → Seat
network_seat id a e = record {
  taken = true;
  loopback = false;
  encryption_index = some e;
  client_id = id;
  address = a;
}

abbrev pub loopback_seat : ℕ → Seat
loopback_seat id = record {
  taken = true;
  loopback = true;
  encryption_index = none;
  client_id = id;
  address = no_address;
}

pub record Roster : Type 0 where
  pub seats : List Seat
  pub num : ℕ
  pub max : ℕ
  pub running : Bool

abbrev pub seat : Roster → ℕ → Seat
seat r i = get_or r.seats i free_seat

-- The number of taken seats.
abbrev pub count : List Seat → ℕ
count [] = 0
count (x ∷ xs) = (if x.taken then 1 else 0) + count xs

abbrev pub seated : Roster → ℕ → Seat → Roster
seated r i x = record r { seats = set r.seats i x; num = r.num + 1 }

abbrev pub vacated : Roster → ℕ → Roster
vacated r i = record r { seats = set r.seats i free_seat; num = r.num - 1 }

-- The changes: a client comes from the network, a loopback client comes, a client goes, the
-- server opens with a number of slots, the server closes once its slots are empty.
pub data Step : Roster → Roster → Type 0 where
  joins :
      {r : Roster} (i id : ℕ) (a : Address) (e : ℕ)
      → i < r.max
      → (seat r i).taken ≡ false
      → ((j : ℕ) → j < r.max → (seat r j).taken ≡ true → equal (seat r j).address a ≡ false)
      → ((j : ℕ) → j < r.max → (seat r j).taken ≡ true → (seat r j).client_id ≢ id)
      → Step r (seated r i (network_seat id a e))
  hosts :
      {r : Roster} (i id : ℕ)
      → i < r.max
      → (seat r i).taken ≡ false
      → Step r (seated r i (loopback_seat id))
  leaves : {r : Roster} (i : ℕ) → (seat r i).taken ≡ true → Step r (vacated r i)
  starts :
      {r : Roster} (n : ℕ)
      → n ≤ max_clients_limit
      → r.running ≡ false
      → Step r (record r { num = 0; max = n; running = true })
  stops :
      {r : Roster}
      → ((j : ℕ) → j < r.max → (seat r j).taken ≡ false)
      → Step r (record r { num = 0; max = 0; running = false })

-- A client from the address sits there.
unfoldable pub Sits : Roster → Address → ℕ → Type 0
Sits r from i = (i < r.max) × ((seat r i).taken ≡ true) × (equal (seat r i).address from ≡ true)

-- The changes that a packet from an address makes: a client from there comes, or goes.
pub data Heard : Roster → Address → Roster → Type 0 where
  enters :
      {r : Roster} {from : Address} (i id e : ℕ)
      → i < r.max
      → (seat r i).taken ≡ false
      → ((j : ℕ) → j < r.max → (seat r j).taken ≡ true → equal (seat r j).address from ≡ false)
      → ((j : ℕ) → j < r.max → (seat r j).taken ≡ true → (seat r j).client_id ≢ id)
      → Heard r from (seated r i (network_seat id from e))
  departs : {r : Roster} {from : Address} (i : ℕ) → Sits r from i → Heard r from (vacated r i)

-- What a packet from an address comes to: nothing, or a change if the server runs.
unfoldable pub Hearing : Roster → Address → Roster → Type 0
Hearing r from m = (m ≡ r) ⊎ ((r.running ≡ true) × Heard r from m)

-- What packets come to, one after another.
unfoldable pub Listens : Roster → List (Address × Bytes) → Roster → Type 0
Listens r [] m = m ≡ r
Listens r ((from, bytes) ∷ rest) m = (k : Roster) × Hearing r from k × Listens k rest m

-- Any number of changes.
abbrev pub Steps : Roster → Roster → Type 0
Steps = Star Step

pub Hearing-Steps : {r m : Roster} (from : Address) → Hearing r from m → Steps r m
unfolding Hearing Sits
Hearing-Steps from (inl e) = same-Star e
Hearing-Steps from (inr (q, enters i id e lt free fresh new_id)) =
    one-Star (joins i id from e lt free fresh new_id)
Hearing-Steps from (inr (q, departs i (lt, taken, here))) = one-Star (leaves i taken)

pub Listens-Steps :
    {r m : Roster} (packets : List (Address × Bytes)) → Listens r packets m → Steps r m
unfolding Listens
Listens-Steps [] e = same-Star e
Listens-Steps ((from, bytes) ∷ rest) (k, h, t) =
    Star-append (Hearing-Steps from h) (Listens-Steps rest t)

-- The roster of a server.
abbrev pub seat_of : ClientSlot → Seat
seat_of c = record {
  taken = c.connected;
  loopback = c.loopback;
  encryption_index = c.encryption_index;
  client_id = c.client_id;
  address = c.address;
}

abbrev pub seats_of : List ClientSlot → List Seat
seats_of [] = []
seats_of (c ∷ cs) = seat_of c ∷ seats_of cs

abbrev pub roster : Server → Roster
roster s = record {
  seats = seats_of s.clients;
  num = s.num_connected_clients;
  max = s.max_clients;
  running = s.running;
}

pub length-seats_of : (cs : List ClientSlot) → length (seats_of cs) ≡ length cs
length-seats_of [] = refl
length-seats_of (c ∷ cs) = ap suc (length-seats_of cs)

pub get_or-seats_of :
    (cs : List ClientSlot) (i : ℕ) (d : ClientSlot)
    → get_or (seats_of cs) i (seat_of d) ≡ seat_of (get_or cs i d)
get_or-seats_of [] i d = refl
get_or-seats_of (c ∷ cs) zero d = refl
get_or-seats_of (c ∷ cs) (suc i) d = get_or-seats_of cs i d

pub seats_of-set :
    (cs : List ClientSlot) (i : ℕ) (c : ClientSlot)
    → seats_of (set cs i c) ≡ set (seats_of cs) i (seat_of c)
seats_of-set [] i c = refl
seats_of-set (x ∷ cs) zero c = refl
seats_of-set (x ∷ cs) (suc i) c = ap (λ r. seat_of x ∷ r) (seats_of-set cs i c)

-- A write that leaves the seat as it was leaves all seats as they were.
pub seats_of-set_same :
    (cs : List ClientSlot) (i : ℕ) (c d : ClientSlot)
    → seat_of c ≡ seat_of (get_or cs i d)
    → seats_of (set cs i c) ≡ seats_of cs
seats_of-set_same [] i c d h = refl
seats_of-set_same (x ∷ cs) zero c d h = ap (λ s. s ∷ seats_of cs) h
seats_of-set_same (x ∷ cs) (suc i) c d h = ap (λ r. seat_of x ∷ r) (seats_of-set_same cs i c d h)
