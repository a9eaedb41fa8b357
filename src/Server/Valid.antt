-- ===== src/Server/Valid.antt =====
-- server.go: the invariant of the client slots, against the five changes of the roster.
use netcode_go.Prelude.{
  done, step_then, ℕ, zero, suc, ◌+◌, ◌≤◌, ◌<◌, true, false, none, List, [], ◌∷◌, length, get_or,
  set, ◌≡◌, ◌≢◌, refl, ap, sym, arith, if◌then◌else◌, ◌⊎◌, inr, length-set, get_or-set,
  get_or-set_self, dec_lt, ◌==◌, ◌∙◌, set_outside, get_or_outside,
}
use netcode_go.Address.{no_address, equal}
use netcode_go.Address.Equal.{equal_none, equal_sym_true}
use netcode_go.Server.{max_clients_limit}
use netcode_go.Server.Roster.{
  Seat, free_seat, network_seat, loopback_seat, Roster, seat, count, seated, vacated, Step, joins,
  hosts, leaves, starts, stops, Steps,
}

-- 256 slots, the clients counted, nobody behind the last slot, nothing left of a client that went,
-- a key for every client on the network, and no address or network client twice.
pub record IsValid (r : Roster) : Type 0 where
  pub size : length r.seats ≡ max_clients_limit
  pub bounded : r.max ≤ max_clients_limit
  pub counted : r.num ≡ count r.seats
  pub behind : (j : ℕ) → r.max ≤ j → (seat r j).taken ≡ false
  pub cleared : (j : ℕ) → (seat r j).taken ≡ false → seat r j ≡ free_seat
  pub keyed :
      (j : ℕ)
      → (seat r j).taken ≡ true
      → (seat r j).loopback ≡ false
      → (seat r j).encryption_index ≢ none
  pub addresses :
      (i j : ℕ)
      → i ≢ j
      → (seat r i).taken ≡ true
      → (seat r j).taken ≡ true
      → equal (seat r i).address (seat r j).address ≡ false
  pub ids :
      (i j : ℕ)
      → i ≢ j
      → (seat r i).taken ≡ true
      → (seat r j).taken ≡ true
      → (seat r i).loopback ≡ false
      → (seat r j).loopback ≡ false
      → (seat r i).client_id ≢ (seat r j).client_id
  pub closed : r.running ≡ false → r.max ≡ 0

count-set_taken :
    (xs : List Seat) (i : ℕ) (x : Seat)
    → i < length xs
    → (get_or xs i free_seat).taken ≡ false
    → x.taken ≡ true
    → count (set xs i x) ≡ count xs + 1
count-set_taken [] i x h f t = absurd (omega arith)
count-set_taken (y ∷ xs) zero x h f t = ground arith
count-set_taken (y ∷ xs) (suc i) x h f t = omega (arith, count-set_taken xs i x (omega arith) f t)

count-set_free :
    (xs : List Seat) (i : ℕ)
    → (get_or xs i free_seat).taken ≡ true
    → count xs ≡ count (set xs i free_seat) + 1
count-set_free [] i f = cc
count-set_free (y ∷ xs) zero f = ground arith
count-set_free (y ∷ xs) (suc i) f = omega (arith, count-set_free xs i f)

pub count_none : (xs : List Seat) → ((j : ℕ) → (get_or xs j free_seat).taken ≡ false) → count xs ≡ 0
count_none [] h = refl
count_none (x ∷ xs) h = ground (arith, h 0, count_none xs (λ j. h (suc j)))

-- With the seats behind the first `n` free, at most `n` are taken, and `n` when those all are.
pub count_bound :
    (xs : List Seat) (n : ℕ)
    → ((j : ℕ) → n ≤ j → (get_or xs j free_seat).taken ≡ false)
    → count xs ≤ n
count_bound [] n h = omega arith
count_bound (x ∷ xs) zero h =
    ground (arith, h 0 (omega arith), count_bound xs 0 (λ j p. h (suc j) (omega arith)))
count_bound (x ∷ xs) (suc n) h = ground (arith, count_bound xs n (λ j p. h (suc j) (omega arith)))

pub count_full :
    (xs : List Seat) (n : ℕ)
    → ((j : ℕ) → j < n → (get_or xs j free_seat).taken ≡ true)
    → n ≤ count xs
count_full xs zero h = omega arith
count_full [] (suc n) h = cc (h 0 (omega arith))
count_full (x ∷ xs) (suc n) h =
    ground (arith, h 0 (omega arith), count_full xs n (λ j p. h (suc j) (omega arith)))

-- A client takes a free seat.
module _ (r : Roster) (i : ℕ) (x : Seat) (v : IsValid r) (lt : i < r.max) where
  seat-seated : (j : ℕ) → seat (seated r i x) j ≡ (if i == j then x else seat r j)
  seat-seated j = get_or-set r.seats i j x free_seat (omega (arith, v.size, v.bounded))

  seated-IsValid :
      (seat r i).taken ≡ false
      → x.taken ≡ true
      → (x.loopback ≡ false → x.encryption_index ≢ none)
      → ((j : ℕ) → (seat r j).taken ≡ true → equal (seat r j).address x.address ≡ false)
      → ((j : ℕ)
          → (seat r j).taken ≡ true
          → x.loopback ≡ false
          → (seat r j).client_id ≢ x.client_id)
      → IsValid (seated r i x)
  seated-IsValid free taken key fresh new_id = record {
    size = length-set r.seats i x ∙ v.size;
    bounded = v.bounded;
    counted = omega (
      arith,
      v.counted,
      count-set_taken r.seats i x (omega (arith, v.size, v.bounded)) free taken,
    );
    behind = λ j p. ground (arith, seat-seated j, v.behind j);
    cleared = λ j. ground (arith, seat-seated j, v.cleared j);
    keyed = λ j. ground (arith, seat-seated j, v.keyed j, key);
    addresses = λ a b. ground (
      arith,
      seat-seated a,
      seat-seated b,
      v.addresses a b,
      fresh a,
      fresh b,
      equal_sym_true x.address (seat r b).address,
    );
    ids = λ a b. ground (arith, seat-seated a, seat-seated b, v.ids a b, new_id a, new_id b);
    closed = λ c. omega (arith, v.closed c);
  }

-- A client leaves its seat.
pub seat-vacated :
    (r : Roster) (i j : ℕ) → (seat (vacated r i) j ≡ free_seat) ⊎ (seat (vacated r i) j ≡ seat r j)
seat-vacated r i j = elim (dec_lt i (length r.seats)) [
  | yes lt ↦ ground (arith, get_or-set r.seats i j free_seat free_seat lt)
  | no ge ↦ inr (ap (λ xs. get_or xs j free_seat) (set_outside r.seats i free_seat (omega arith)))
]

pub vacated_self : (r : Roster) (i : ℕ) → seat (vacated r i) i ≡ free_seat
vacated_self r i = elim (dec_lt i (length r.seats)) [
  | yes lt ↦ get_or-set_self r.seats i free_seat free_seat lt
  | no ge ↦
      ap (λ xs. get_or xs i free_seat) (set_outside r.seats i free_seat (omega arith))
      ∙ get_or_outside r.seats i free_seat (omega arith)
]

module _ (r : Roster) (i : ℕ) (v : IsValid r) where
  vacated-IsValid : (seat r i).taken ≡ true → IsValid (vacated r i)
  vacated-IsValid taken = record {
    size = length-set r.seats i free_seat ∙ v.size;
    bounded = v.bounded;
    counted = omega (arith, v.counted, count-set_free r.seats i taken);
    behind = λ j p. ground (arith, seat-vacated r i j, v.behind j);
    cleared = λ j. ground (arith, seat-vacated r i j, v.cleared j);
    keyed = λ j. ground (arith, seat-vacated r i j, v.keyed j);
    addresses = λ a b. ground (arith, seat-vacated r i a, seat-vacated r i b, v.addresses a b);
    ids = λ a b. ground (arith, seat-vacated r i a, seat-vacated r i b, v.ids a b);
    closed = v.closed;
  }

-- A taken seat is in front of the last one.
pub taken_lt : (r : Roster) (j : ℕ) → IsValid r → (seat r j).taken ≡ true → j < r.max
taken_lt r j v t = ground (arith, v.behind j)

Step-IsValid : {r t : Roster} → Step r t → IsValid r → IsValid t
Step-IsValid {r} (joins i id a e lt free fresh new_id) v =
    seated-IsValid r i (network_seat id a e) v lt free refl (λ l. cc)
      (λ j t. fresh j (taken_lt r j v t) t) (λ j t l. new_id j (taken_lt r j v t) t)
Step-IsValid {r} (hosts i id lt free) v =
    seated-IsValid r i (loopback_seat id) v lt free refl (λ l. cc)
      (λ j t. ground (
        arith,
        equal_none no_address (seat r j).address refl,
        equal_sym_true (seat r j).address no_address,
      ))
      (λ j t l. cc)
Step-IsValid {r} (leaves i taken) v = vacated-IsValid r i v taken
Step-IsValid {r} (starts n le off) v =
    let none_taken : (j : ℕ) → (seat r j).taken ≡ false =
      λ j. v.behind j (omega (arith, v.closed off)) in
    record {
      size = v.size;
      cleared = v.cleared;
      keyed = v.keyed;
      addresses = v.addresses;
      ids = v.ids;
      bounded = le;
      counted = sym (count_none r.seats none_taken);
      behind = λ j p. none_taken j;
      closed = λ c. cc;
    }
Step-IsValid {r} (stops empty) v =
    let none_taken : (j : ℕ) → (seat r j).taken ≡ false =
      λ j. ground (arith, empty j, v.behind j) in
    record {
      size = v.size;
      cleared = v.cleared;
      keyed = v.keyed;
      addresses = v.addresses;
      ids = v.ids;
      bounded = omega arith;
      counted = sym (count_none r.seats none_taken);
      behind = λ j p. none_taken j;
      closed = λ c. refl;
    }

pub Steps-IsValid : {r t : Roster} → Steps r t → IsValid r → IsValid t
Steps-IsValid done v = v
Steps-IsValid (step_then x rest) v = Steps-IsValid rest (Step-IsValid x v)
