-- ===== src/TokenEntries/Admission.antt =====
-- token_entries.go: what a request does to the history, and the histories of a server.
use netcode_go.Prelude.{
  ℕ, ◌<◌, ◌≡◌, ◌≢◌, ◌⊎◌, inl, inr, refl, sym, subst, arith, true, false, ◌&&◌, Option, none, some,
  List, Bytes, length, get_or, set, length-set, get_or-set, get_or-replicate, ◌==◌, Bool-cases,
}
use netcode_go.Address.{equal}
use netcode_go.Address.Equal.{array_eq_sound}
use netcode_go.TokenEntries.{
  ConnectTokenEntry, free_entry, matches, is_free, search_loop, TokenUse, pending_entry, admitted,
  refused, history_full, take_entry, find_or_add, consume, reset, max_connect_token_entries,
  connect_token_entry_free, connect_token_entry_pending, connect_token_entry_consumed,
}
use netcode_go.TokenEntries.Search.{match_found, match_missed, free_found, free_missed}

abbrev pub at : List ConnectTokenEntry → ℕ → ConnectTokenEntry
at es i = get_or es i free_entry

-- No two used entries hold the same token.
abbrev pub Unique : List ConnectTokenEntry → Type 0
Unique es =
    (mac : Bytes) (i j : ℕ)
    → i < length es
    → j < length es
    → matches (at es i) mac ≡ true
    → matches (at es j) mac ≡ true
    → i ≡ j

-- The four ways that a request can go.
pub data Outcome (es : List ConnectTokenEntry) (u : TokenUse) : Type 0 where
  full :
      find_or_add es u ≡ (es, history_full)
      → ((k : ℕ) → k < length es → matches (at es k) u.mac ≡ false)
      → ((k : ℕ) → k < length es → is_free (at es k) u.current_timestamp ≡ false)
      → Outcome es u
  created :
      (i : ℕ)
      → i < length es
      → find_or_add es u ≡ (set es i (pending_entry u), admitted i)
      → is_free (at es i) u.current_timestamp ≡ true
      → ((k : ℕ) → k < length es → matches (at es k) u.mac ≡ false)
      → Outcome es u
  again :
      (i : ℕ)
      → i < length es
      → find_or_add es u ≡ (es, admitted i)
      → matches (at es i) u.mac ≡ true
      → (at es i).state ≡ connect_token_entry_pending
      → equal (at es i).address u.address ≡ true
      → Outcome es u
  rejected :
      (i : ℕ)
      → i < length es
      → find_or_add es u ≡ (es, refused)
      → matches (at es i) u.mac ≡ true
      → ((at es i).state ≢ connect_token_entry_pending)
        ⊎ (equal (at es i).address u.address ≡ false)
      → Outcome es u

pub outcome : (es : List ConnectTokenEntry) (u : TokenUse) → Outcome es u
unfolding find_or_add take_entry
outcome es u = go (search_loop es u.mac u.current_timestamp 0 none none) refl
  where
    go :
        (found : Option ℕ × Option ℕ)
        → search_loop es u.mac u.current_timestamp 0 none none ≡ found
        → Outcome es u
    go (none, none) e =
        full (rw e refl) (λ k lt. match_missed u.mac u.current_timestamp es k (rw e refl) lt)
          (λ k lt. free_missed u.mac u.current_timestamp es k (rw e refl) lt)
    go (none, some i) e =
        let (lt, f) = free_found u.mac u.current_timestamp es i (rw e refl) in
        created i lt (rw e refl) f
          (λ k b. match_missed u.mac u.current_timestamp es k (rw e refl) b)
    go (some i, f) e =
        let (lt, m) = match_found u.mac u.current_timestamp es i (rw e refl) in
        elim (Bool-cases
          ((at es i).state == connect_token_entry_pending && equal (at es i).address u.address)) [
            | inl t ↦ again i lt (rw e (rw t refl)) m (ground arith) (ground arith)
            | inr t ↦ rejected i lt (rw e (rw t refl)) m (ground arith)
          ]

-- A server's use of its history: requests seen before the time `limit`, and tokens of used
-- entries that are spent when their client is installed.
pub data Step (limit : ℕ) (es : List ConnectTokenEntry) : List ConnectTokenEntry → Type 0 where
  request : (u : TokenUse) → u.current_timestamp < limit → Step limit es (find_or_add es u).0
  spend :
      (i : ℕ)
      → i < length es
      → (at es i).state ≢ connect_token_entry_free
      → Step limit es (consume es i)

pub data History (limit : ℕ) (es : List ConnectTokenEntry) : List ConnectTokenEntry → Type 0 where
  start : History limit es es
  next :
      {fs gs : List ConnectTokenEntry}
      → History limit es fs
      → Step limit fs gs
      → History limit es gs

pub reset-Unique : Unique reset
unfolding reset free_entry
reset-Unique mac i j a b m n =
    ground (arith, get_or-replicate max_connect_token_entries free_entry i)

-- What matches after a token has been added: the new entry, or what matched before.
matches_after_create :
    (es : List ConnectTokenEntry) (u : TokenUse) (k i : ℕ) (mac : Bytes)
    → k < length es
    → matches (at (set es k (pending_entry u)) i) mac ≡ true
    → ((i ≡ k) × (mac ≡ u.mac)) ⊎ ((i ≢ k) × (matches (at es i) mac ≡ true))
matches_after_create es u k i mac lt m =
    ground (arith, get_or-set es k i (pending_entry u) free_entry, array_eq_sound mac u.mac)

matches_after_spend :
    (es : List ConnectTokenEntry) (k i : ℕ) (mac : Bytes)
    → k < length es
    → (at es k).state ≢ connect_token_entry_free
    → matches (at (consume es k) i) mac ≡ true
    → matches (at es i) mac ≡ true
unfolding consume
matches_after_spend es k i mac lt used m = ground (
  arith,
  get_or-set es k i (record (at es k) { state = connect_token_entry_consumed }) free_entry,
)

length-consume : (es : List ConnectTokenEntry) (k : ℕ) → length (consume es k) ≡ length es
unfolding consume
length-consume es k =
    ground (arith, length-set es k (record (at es k) { state = connect_token_entry_consumed }))

created-Unique :
    (es : List ConnectTokenEntry) (u : TokenUse) (k : ℕ)
    → k < length es
    → ((j : ℕ) → j < length es → matches (at es j) u.mac ≡ false)
    → Unique es
    → Unique (set es k (pending_entry u))
created-Unique es u k lt new v mac i j a b m n =
    let size = length-set es k (pending_entry u) in
    let p = matches_after_create es u k i mac lt m in
    let q = matches_after_create es u k j mac lt n in ground (arith, p, q, new i, new j, v mac i j)

spend-Unique :
    (es : List ConnectTokenEntry) (k : ℕ)
    → k < length es
    → (at es k).state ≢ connect_token_entry_free
    → Unique es
    → Unique (consume es k)
spend-Unique es k lt used v mac i j a b m n =
    v mac i j (omega (arith, length-consume es k)) (omega (arith, length-consume es k))
      (matches_after_spend es k i mac lt used m) (matches_after_spend es k j mac lt used n)

pub Step-Unique :
    {limit : ℕ} {es fs : List ConnectTokenEntry} → Step limit es fs → Unique es → Unique fs
Step-Unique {es = es} (request u h) v = elim (outcome es u) [
  | full e a b ↦ subst (λ r. Unique r.0) (sym e) v
  | created i lt e f new ↦ subst (λ r. Unique r.0) (sym e) (created-Unique es u i lt new v)
  | again i lt e m s q ↦ subst (λ r. Unique r.0) (sym e) v
  | rejected i lt e m s ↦ subst (λ r. Unique r.0) (sym e) v
]
Step-Unique {es = es} (spend i lt used) v = spend-Unique es i lt used v

pub History-Unique :
    {limit : ℕ} {es fs : List ConnectTokenEntry} → History limit es fs → Unique es → Unique fs
History-Unique start v = v
History-Unique (next h st) v = Step-Unique st (History-Unique h v)
