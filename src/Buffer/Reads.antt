-- ===== src/Buffer/Reads.antt =====
-- What a read does in front of enough bytes.
use netcode_go.Prelude.{
  ℕ, ◌+◌, ◌≤◌, Bool, true, false, ◌≡◌, refl, arith, ◌⊎◌, inl, inr, length, take, drop, Bytes,
  Result, ok, err, length-take, length-drop, if◌then◌else◌,
}
use netcode_go.Buffer.{from_le_bytes}
use netcode_go.Buffer.Reader.{Reader, R, ◌>>=◌, pure, bytes, word}

-- The value that was read, at most `n` bytes on.
pub record Got {A : Type 0} (n : ℕ) (P : A → Type 0) (buffer : Bytes) (pos : ℕ)
    (x : Result (A × Reader)) : Type 0 where
  pub value : A
  pub at : ℕ
  pub is : x ≡ ok (value, record { buffer = buffer; pos = at })
  pub near : at ≤ pos + n
  pub holds : P value

-- Before at least `n` bytes, `f` takes at most these and gives a value with the property `P`, or an
-- error if `fails` allows it.
pub record Reads {A : Type 0} (fails : Bool) (n : ℕ) (P : A → Type 0) (f : R A) : Type 0 where
  pub reads :
      (buffer : Bytes) (pos : ℕ)
      → pos + n ≤ length buffer
      → ((fails ≡ true) × (f (record { buffer = buffer; pos = pos }) ≡ err))
        ⊎ Got n P buffer pos (f (record { buffer = buffer; pos = pos }))

pub pure-Reads :
    {A : Type 0} {fails : Bool} (n : ℕ) {P : A → Type 0} (a : A) → P a → Reads fails n P (pure a)
pure-Reads n a h = record {
  reads = λ buffer pos l.
      inr (record { value = a; at = pos; is = refl; near = omega arith; holds = h });
}

pub bytes-Reads : {fails : Bool} (n : ℕ) → Reads fails n (λ bs. length bs ≡ n) (bytes n)
unfolding bytes
bytes-Reads n = record {
  reads = λ buffer pos l. inr (record {
    value = take n (drop pos buffer);
    at = pos + n;
    is = ground arith;
    near = omega arith;
    holds = ground (arith, length-take n (drop pos buffer), length-drop pos buffer);
  });
}

module _ {A : Type 0} {fails : Bool} where
  widened :
      (n m : ℕ) (P : A → Type 0) (buffer : Bytes) (pos at : ℕ) (x : Result (A × Reader))
      → at ≤ pos + n
      → ((fails ≡ true) × (x ≡ err)) ⊎ Got m P buffer at x
      → ((fails ≡ true) × (x ≡ err)) ⊎ Got (n + m) P buffer pos x
  widened n m P buffer pos at x l (inl e) = inl e
  widened n m P buffer pos at x l (inr y) = inr (record {
    value = y.value;
    at = y.at;
    is = y.is;
    near = omega (arith, y.near);
    holds = y.holds;
  })

  pub Reads-more :
      (n m : ℕ) (P : A → Type 0) (f : R A) → n ≤ m → Reads fails n P f → Reads fails m P f
  Reads-more n m P f l h = record {
    reads = λ buffer pos q. elim (h.reads buffer pos (omega arith)) [
      | inl e ↦ inl e
      | inr y ↦ inr (record {
        value = y.value;
        at = y.at;
        is = y.is;
        near = omega (arith, y.near);
        holds = y.holds;
      })
    ];
  }

  pub if-Reads :
      (n : ℕ) (P : A → Type 0) (b : Bool) (f g : R A)
      → (b ≡ true → Reads fails n P f)
      → (b ≡ false → Reads fails n P g)
      → Reads fails n P (if b then f else g)
  if-Reads n P true f g hf hg = hf refl
  if-Reads n P false f g hf hg = hg refl

module _ {A B : Type 0} {fails : Bool} where
  pub >>=-Reads :
      (n m : ℕ) {P : A → Type 0} {Q : B → Type 0} {f : R A} {g : A → R B}
      → Reads fails n P f
      → ((a : A) → P a → Reads fails m Q (g a))
      → Reads fails (n + m) Q (f >>= g)
  >>=-Reads n m {P} {Q} {f} {g} hf hg = record {
    reads = λ buffer pos l. elim (hf.reads buffer pos (omega arith)) [
      | inl (t, e) ↦ inl (t, rw (e, ◌>>=◌) refl)
      | inr x ↦
          rw (x.is, ◌>>=◌)
            (widened n m Q buffer pos x.at _ x.near
              ((hg x.value x.holds).reads buffer x.at (omega (arith, x.near))))
    ];
  }

-- No property.
abbrev pub Anything : {A : Type 0} → A → Type 0
Anything a = a ≡ a

pub word-Reads : {fails : Bool} (n : ℕ) → Reads fails n Anything (word n)
unfolding word
word-Reads {fails} n = record {
  reads = λ buffer pos l. elim ((bytes-Reads {fails = fails} n).reads buffer pos l) [
    | inl (t, e) ↦ inl (t, rw (e, word) refl)
    | inr x ↦ inr (record {
      value = from_le_bytes x.value;
      at = x.at;
      is = rw (x.is, word) refl;
      near = x.near;
      holds = refl;
    })
  ];
}

-- A read of one reader that gives a value.
pub record Total {A : Type 0} (f : R A) (r : Reader) : Type 0 where
  pub value : A
  pub after : Reader
  pub is : f r ≡ ok (value, after)

pub pure-Total : {A : Type 0} (a : A) (r : Reader) → Total (pure a) r
pure-Total a r = record { value = a; after = r; is = refl }

pub if-Total :
    {A : Type 0} (b : Bool) (f g : R A) (r : Reader)
    → (b ≡ true → Total f r)
    → (b ≡ false → Total g r)
    → Total (if b then f else g) r
if-Total true f g r x y = x refl
if-Total false f g r x y = y refl

pub Reads-Total :
    {A : Type 0} (n : ℕ) {P : A → Type 0} {f : R A} (buffer : Bytes) (pos : ℕ)
    → Reads false n P f
    → pos + n ≤ length buffer
    → Total f (record { buffer = buffer; pos = pos })
Reads-Total n buffer pos h l = elim (h.reads buffer pos l) [
  | inl (e, x) ↦ ground (arith, e)
  | inr x ↦ record { value = x.value; after = record { buffer = buffer; pos = x.at }; is = x.is }
]

-- A first read that stays in the buffer, and a second one behind it.
pub >>=-Total :
    {A B : Type 0} (n : ℕ) {P : A → Type 0} {f : R A} (g : A → R B) (buffer : Bytes) (pos : ℕ)
    → Reads false n P f
    → pos + n ≤ length buffer
    → ((a : A) (at : ℕ) → at ≤ pos + n → Total (g a) (record { buffer = buffer; pos = at }))
    → Total (f >>= g) (record { buffer = buffer; pos = pos })
>>=-Total n g buffer pos h l k = elim (h.reads buffer pos l) [
  | inl (e, x) ↦ ground (arith, e)
  | inr x ↦
      let y = k x.value x.at x.near in
      record { value = y.value; after = y.after; is = rw (x.is, ◌>>=◌) (y.is) }
]
