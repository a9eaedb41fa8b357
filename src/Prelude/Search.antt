-- ===== src/Prelude/Search.antt =====
-- Linear searches for an index.
use Prim.Native.Nat.{ℕ, zero, suc, ◌+◌, ◌-◌, ◌≤◌, ◌<◌}
use mathlib.Core.Path.{◌≡◌, ap, ◌∙◌}
use mathlib.Core.Logic.{◌⊎◌, inl, inr}
use mathlib.Core.Bool.{Bool, true, false}
use mathlib.Core.Option.{Option, none, some}
use mathlib.Core.List.{List, [], ◌∷◌}
use native.Mathlib.Omega.{arith}
use netcode_go.Prelude.Tests.{if◌then◌else◌, Option-cases}
use netcode_go.Prelude.Lists.{length, get_or, take, length-take, get_or-take}

module _ {ℓ} {A : Type ℓ} (p : A → Bool) where
  -- The first index, counted from `i`, of an element that passes.
  unfoldable pub first_index : List A → ℕ → Option ℕ
  first_index [] i = none
  first_index (x ∷ xs) i = if p x then some i else first_index xs (i + 1)

  -- The last such index, `m` if there is none.
  unfoldable pub last_index : List A → ℕ → Option ℕ → Option ℕ
  last_index [] i m = m
  last_index (x ∷ xs) i m = last_index xs (i + 1) (if p x then some i else m)

module _ {ℓ} {A : Type ℓ} (d : A) where
  get_or_head : (x : A) (xs : List A) (i j : ℕ) → j ≡ i → get_or (x ∷ xs) (j - i) d ≡ x
  get_or_head x xs i j e = let z : j - i ≡ 0 = omega arith in ap (λ k. get_or (x ∷ xs) k d) z

  get_or_tail :
      (x : A) (xs : List A) (i j : ℕ)
      → i + 1 ≤ j
      → get_or (x ∷ xs) (j - i) d ≡ get_or xs (j - (i + 1)) d
  get_or_tail x xs i j h =
      let z : j - i ≡ suc (j - (i + 1)) = omega arith in ap (λ k. get_or (x ∷ xs) k d) z

module _ {ℓ} {A : Type ℓ} (p : A → Bool) (d : A) where
  first_index-some :
      (xs : List A) (i j : ℕ)
      → first_index p xs i ≡ some j
      → (i ≤ j) × (j < i + length xs) × (p (get_or xs (j - i) d) ≡ true)
  unfolding first_index
  first_index-some [] i j h = cc
  first_index-some (x ∷ xs) i j h =
      ground (arith, get_or_head d x xs i j, get_or_tail d x xs i j, first_index-some xs (i + 1) j)

  first_index-none :
      (xs : List A) (i k : ℕ)
      → first_index p xs i ≡ none
      → k < length xs
      → p (get_or xs k d) ≡ false
  unfolding first_index
  first_index-none [] i k h lt = absurd (omega arith)
  first_index-none (x ∷ xs) i zero h lt = ground arith
  first_index-none (x ∷ xs) i (suc k) h lt = ground (arith, first_index-none xs (i + 1) k)

  last_index-some :
      (xs : List A) (i : ℕ) (m : Option ℕ) (j : ℕ)
      → last_index p xs i m ≡ some j
      → (m ≡ some j) ⊎ ((i ≤ j) × (j < i + length xs) × (p (get_or xs (j - i) d) ≡ true))
  unfolding last_index
  last_index-some [] i m j h = inl h
  last_index-some (x ∷ xs) i m j h = ground (
    arith,
    get_or_head d x xs i j,
    get_or_tail d x xs i j,
    last_index-some xs (i + 1) (if p x then some i else m) j,
  )

  last_index-none :
      (xs : List A) (i : ℕ) (m : Option ℕ) (k : ℕ)
      → last_index p xs i m ≡ none
      → (m ≡ none) × (k < length xs → p (get_or xs k d) ≡ false)
  unfolding last_index
  last_index-none [] i m k h = (h, λ lt. absurd (omega arith))
  last_index-none (x ∷ xs) i m zero h =
      let rest = last_index-none xs (i + 1) (if p x then some i else m) zero h in
      (ground arith, λ lt. ground arith)
  last_index-none (x ∷ xs) i m (suc k) h =
      let rest = last_index-none xs (i + 1) (if p x then some i else m) k h in
      (ground arith, λ lt. rest.1 (omega arith))

  -- The searches that start at index 0.
  pub first_index_found :
      (xs : List A) (j : ℕ)
      → first_index p xs 0 ≡ some j
      → (j < length xs) × (p (get_or xs j d) ≡ true)
  first_index_found xs j h =
      let (lo, hi, q) = first_index-some xs 0 j h in
      let z : j ≡ j - 0 = omega arith in (omega arith, ap (λ k. p (get_or xs k d)) z ∙ q)

  pub first_index_missed :
      (xs : List A) (k : ℕ) → first_index p xs 0 ≡ none → k < length xs → p (get_or xs k d) ≡ false
  first_index_missed xs k h lt = first_index-none xs 0 k h lt

  pub last_index_found :
      (xs : List A) (j : ℕ)
      → last_index p xs 0 none ≡ some j
      → (j < length xs) × (p (get_or xs j d) ≡ true)
  last_index_found xs j h =
      let z : j ≡ j - 0 = omega arith in
      let shift = ap (λ k. p (get_or xs k d)) z in
      ground (arith, last_index-some xs 0 none j h, shift)

  pub last_index_missed :
      (xs : List A) (k : ℕ)
      → last_index p xs 0 none ≡ none
      → k < length xs
      → p (get_or xs k d) ≡ false
  last_index_missed xs k h lt = (last_index-none xs 0 none k h).1 lt

  -- A search of the first `n` elements.
  pub first_index-take_found :
      (n : ℕ) (xs : List A) (j : ℕ)
      → first_index p (take n xs) 0 ≡ some j
      → (j < n) × (j < length xs) × (p (get_or xs j d) ≡ true)
  first_index-take_found n xs j h =
      let (lt, q) = first_index_found (take n xs) j h in
      let size = length-take n xs in ground (arith, lt, q, size, get_or-take n xs j d)

  pub first_index-take_missed :
      (n : ℕ) (xs : List A) (k : ℕ)
      → first_index p (take n xs) 0 ≡ none
      → k < n
      → k < length xs
      → p (get_or xs k d) ≡ false
  first_index-take_missed n xs k h a b =
      let size = length-take n xs in
      let miss = first_index_missed (take n xs) k h (omega (arith, size)) in
      ground (arith, miss, get_or-take n xs k d)

  first_index_earlier :
      (xs : List A) (i j k : ℕ)
      → first_index p xs i ≡ some j
      → i + k < j
      → p (get_or xs k d) ≡ false
  unfolding first_index
  first_index_earlier [] i j k h lt = cc
  first_index_earlier (x ∷ xs) i j zero h lt = ground arith
  first_index_earlier (x ∷ xs) i j (suc k) h lt = ground (arith, first_index_earlier xs (i + 1) j k)

  -- What stands before the index found does not pass.
  pub first_index-take_earlier :
      (n : ℕ) (xs : List A) (j k : ℕ)
      → first_index p (take n xs) 0 ≡ some j
      → k < j
      → p (get_or xs k d) ≡ false
  first_index-take_earlier n xs j k h lt =
      let (a, b, q) = first_index-take_found n xs j h in
      ground (arith, a, first_index_earlier (take n xs) 0 j k h (omega arith), get_or-take n xs k d)

  -- The first element of the first `n` that passes is found.
  pub first_index-take_eq :
      (n : ℕ) (xs : List A) (j : ℕ)
      → j < n
      → j < length xs
      → p (get_or xs j d) ≡ true
      → ((k : ℕ) → k < j → p (get_or xs k d) ≡ false)
      → first_index p (take n xs) 0 ≡ some j
  first_index-take_eq n xs j a b q before = elim (Option-cases (first_index p (take n xs) 0)) [
    | inl e ↦ absurd (cc (q, first_index-take_missed n xs j e a b))
    | inr (i, e) ↦
        let (lt, lt', t) = first_index-take_found n xs i e in
        ground (arith, e, t, q, before i, first_index-take_earlier n xs i j e)
  ]
