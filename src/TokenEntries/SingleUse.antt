-- ===== src/TokenEntries/SingleUse.antt =====
-- token_entries.go: connect tokens that have been spent.
use netcode_go.Prelude.{
  ℕ, ◌≤◌, ◌<◌, ◌≡◌, ◌≢◌, sym, subst, arith, true, List, Bytes, length, length-set, get_or-set,
}
use netcode_go.Address.Equal.{array_eq_refl}
use netcode_go.TokenEntries.{
  ConnectTokenEntry, free_entry, matches, TokenUse, pending_entry, refused, find_or_add, consume,
  reset, connect_token_entry_free, connect_token_entry_consumed, max_connect_token_entries,
}
use netcode_go.TokenEntries.Admission.{
  at, Unique, outcome, full, created, again, rejected, Step, request, spend, History, start, next,
  reset-Unique, Step-Unique, History-Unique,
}

-- The token `mac` has been spent, and its entry lives until the time `limit`.
pub record IsSpent (limit : ℕ) (mac : Bytes) (i : ℕ) (es : List ConnectTokenEntry) : Type 0 where
  pub bounds : i < length es
  pub state : (at es i).state ≡ connect_token_entry_consumed
  pub token : (at es i).mac ≡ mac
  pub expires : limit ≤ (at es i).expire_timestamp

spent_matches :
    {limit : ℕ} {mac : Bytes} {i : ℕ} {es : List ConnectTokenEntry}
    → IsSpent limit mac i es
    → matches (at es i) mac ≡ true
spent_matches {mac = mac} s = ground (arith, array_eq_refl mac)

-- A spent token is refused, whatever the address, and the history stays.
pub find_or_add-IsSpent :
    {limit : ℕ} {es : List ConnectTokenEntry} (u : TokenUse) (i : ℕ)
    → Unique es
    → IsSpent limit u.mac i es
    → find_or_add es u ≡ (es, refused)
find_or_add-IsSpent {es = es} u i v s = elim (outcome es u) [
  | full e new b ↦ absurd (cc (new i s.bounds, spent_matches s))
  | created k lt e f new ↦ absurd (cc (new i s.bounds, spent_matches s))
  | again k lt e m p q ↦ absurd (ground (arith, v u.mac i k s.bounds lt (spent_matches s) m))
  | rejected k lt e m p ↦ e
]

request-IsSpent :
    {limit : ℕ} {mac : Bytes} {i : ℕ} {es : List ConnectTokenEntry} (u : TokenUse)
    → u.current_timestamp < limit
    → IsSpent limit mac i es
    → IsSpent limit mac i (find_or_add es u).0
request-IsSpent {limit} {mac} {i} {es} u now s = elim (outcome es u) [
  | full e new b ↦ subst (λ r. IsSpent limit mac i r.0) (sym e) s
  | created k lt e f new ↦
      subst (λ r. IsSpent limit mac i r.0) (sym e)
        (ground (
          arith,
          f,
          length-set es k (pending_entry u),
          get_or-set es k i (pending_entry u) free_entry,
        ))
  | again k lt e m p q ↦ subst (λ r. IsSpent limit mac i r.0) (sym e) s
  | rejected k lt e m p ↦ subst (λ r. IsSpent limit mac i r.0) (sym e) s
]

spend-IsSpent :
    {limit : ℕ} {mac : Bytes} {i : ℕ} {es : List ConnectTokenEntry} (k : ℕ)
    → k < length es
    → IsSpent limit mac i es
    → IsSpent limit mac i (consume es k)
unfolding consume
spend-IsSpent {limit} {mac} {i} {es} k lt s = ground (
  arith,
  length-set es k (record (at es k) { state = connect_token_entry_consumed }),
  get_or-set es k i (record (at es k) { state = connect_token_entry_consumed }) free_entry,
)

Step-IsSpent :
    {limit : ℕ} {mac : Bytes} {i : ℕ} {es fs : List ConnectTokenEntry}
    → Step limit es fs
    → IsSpent limit mac i es
    → IsSpent limit mac i fs
Step-IsSpent (request u h) s = request-IsSpent u h s
Step-IsSpent (spend k lt used) s = spend-IsSpent k lt s

History-IsSpent :
    {limit : ℕ} {mac : Bytes} {i : ℕ} {es fs : List ConnectTokenEntry}
    → History limit es fs
    → IsSpent limit mac i es
    → IsSpent limit mac i fs
History-IsSpent start s = s
History-IsSpent (next h st) s = Step-IsSpent st (History-IsSpent h s)

-- Spending a used entry marks its token as spent until the entry expires.
consume-IsSpent :
    (es : List ConnectTokenEntry) (i : ℕ)
    → i < length es
    → i < max_connect_token_entries
    → IsSpent (at es i).expire_timestamp (at es i).mac i (consume es i)
unfolding consume
consume-IsSpent es i lt small = ground (
  arith,
  length-set es i (record (at es i) { state = connect_token_entry_consumed }),
  get_or-set es i i (record (at es i) { state = connect_token_entry_consumed }) free_entry,
)

-- Whatever the server has seen since its history was reset: once the entry `i` of a connect token
-- is spent, every later request with that token, from any address, is refused and leaves the
-- history alone, as long as no request has been timed at or after the token's expiry.
pub single_use :
    (past : ℕ) (es fs : List ConnectTokenEntry) (i : ℕ) (u : TokenUse)
    → History past reset es
    → i < length es
    → i < max_connect_token_entries
    → (at es i).state ≢ connect_token_entry_free
    → History (at es i).expire_timestamp (consume es i) fs
    → u.mac ≡ (at es i).mac
    → find_or_add fs u ≡ (fs, refused)
single_use past es fs i u before lt small used after m =
    find_or_add-IsSpent u i
      (History-Unique after
        (Step-Unique {limit = past} (spend i lt used) (History-Unique before reset-Unique)))
      (subst (λ mac. IsSpent (at es i).expire_timestamp mac i fs) (sym m)
        (History-IsSpent after (consume-IsSpent es i lt small)))
