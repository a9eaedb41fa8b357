-- ===== src/TokenEntries/Search.antt =====
-- token_entries.go: what the loop over the history finds.
use netcode_go.Prelude.{
  ℕ, ◌+◌, ◌<◌, ◌≡◌, refl, arith, true, false, Option, none, some, List, [], ◌∷◌, Bytes, length,
  get_or, if◌then◌else◌, first_index, last_index, first_index_found, first_index_missed,
  last_index_found, last_index_missed,
}
use netcode_go.TokenEntries.{ConnectTokenEntry, free_entry, matches, is_free, search_loop}

-- An index that is there already, or else the other.
abbrev or_else : Option ℕ → Option ℕ → Option ℕ
or_else (some j) o = some j
or_else none o = o

module _ (mac : Bytes) (now : ℕ) where
  search_loop_split :
      (es : List ConnectTokenEntry) (i : ℕ) (m f : Option ℕ)
      → search_loop es mac now i m f ≡ (
        last_index (λ e. matches e mac) es i m,
        or_else f (first_index (λ e. is_free e now) es i),
      )
  unfolding search_loop first_index last_index
  search_loop_split [] i m none = refl
  search_loop_split [] i m (some j) = refl
  search_loop_split (e ∷ es) i m none = ground (
    arith,
    search_loop_split es (i + 1) (if matches e mac then some i else m)
        (if is_free e now then some i else none),
  )
  search_loop_split (e ∷ es) i m (some j) =
      search_loop_split es (i + 1) (if matches e mac then some i else m) (some j)

  -- The four facts about the loop as the code starts it.
  module _ (es : List ConnectTokenEntry) where
    pub match_found :
        (j : ℕ)
        → (search_loop es mac now 0 none none).0 ≡ some j
        → (j < length es) × (matches (get_or es j free_entry) mac ≡ true)
    match_found j h =
        last_index_found (λ e. matches e mac) free_entry es j
          (cc (search_loop_split es 0 none none))

    pub match_missed :
        (k : ℕ)
        → (search_loop es mac now 0 none none).0 ≡ none
        → k < length es
        → matches (get_or es k free_entry) mac ≡ false
    match_missed k h lt =
        last_index_missed (λ e. matches e mac) free_entry es k
          (cc (search_loop_split es 0 none none)) lt

    pub free_found :
        (j : ℕ)
        → (search_loop es mac now 0 none none).1 ≡ some j
        → (j < length es) × (is_free (get_or es j free_entry) now ≡ true)
    free_found j h =
        first_index_found (λ e. is_free e now) free_entry es j
          (cc (search_loop_split es 0 none none))

    pub free_missed :
        (k : ℕ)
        → (search_loop es mac now 0 none none).1 ≡ none
        → k < length es
        → is_free (get_or es k free_entry) now ≡ false
    free_missed k h lt =
        first_index_missed (λ e. is_free e now) free_entry es k
          (cc (search_loop_split es 0 none none)) lt
