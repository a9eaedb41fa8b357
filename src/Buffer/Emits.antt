-- ===== src/Buffer/Emits.antt =====
-- What sequences of writes leave behind.
use netcode_go.Prelude.{
  ℕ, zero, suc, ◌+◌, ◌-◌, ◌≤◌, ◌≡◌, ◌∙◌, refl, ap, arith, [], ◌∷◌, ◌++◌, append_assoc, append-nil,
  drop-replicate, length, take, drop, length-append, take-append, drop-drop, length-drop, replicate,
  length-replicate, ok, Bytes,
}
use netcode_go.Buffer.Writer.{Writer, W, ◌>>◌, store, bytes, filled}

-- A writer that stands behind `out` and before `rest`.
abbrev pub at : Bytes → Bytes → Writer
at out rest = record { buffer = out ++ rest; pos = length out }

-- Wherever there is room, `f` writes exactly `bs`.
abbrev pub Emits : W → Bytes → Type 0
Emits f bs =
    (out rest : Bytes)
    → length bs ≤ length rest
    → f (at out rest) ≡ ok (at (out ++ bs) (drop (length bs) rest))

pub take_all : (bs : Bytes) (n : ℕ) → length bs ≤ n → take n bs ≡ bs
take_all [] zero h = refl
take_all [] (suc n) h = refl
take_all (b ∷ bs) zero h = absurd (omega arith)
take_all (b ∷ bs) (suc n) h = ap (λ r. b ∷ r) (take_all bs n (omega arith))

pub drop_behind : (out rest : Bytes) (n : ℕ) → drop (length out + n) (out ++ rest) ≡ drop n rest
drop_behind [] rest n = let e : 0 + n ≡ n = omega arith in ap (λ k. drop k rest) e
drop_behind (x ∷ out) rest n =
    let e : suc (length out) + n ≡ suc (length out + n) = omega arith in
    rw e (drop_behind out rest n)

pub store-Emits : (bs : Bytes) → Emits (store bs) bs
unfolding store
store-Emits bs out rest h = ground (
  arith,
  length-append out rest,
  length-append out bs,
  take-append out rest (length out) refl,
  drop_behind out rest (length bs),
  append_assoc out bs (drop (length bs) rest),
)

pub bytes-Emits : (bs : Bytes) → Emits (bytes bs) bs
unfolding bytes
bytes-Emits bs out rest h = ground (
  arith,
  length-append out rest,
  length-append out bs,
  take-append out rest (length out) refl,
  take_all bs (length (out ++ rest) - length out) (omega (arith, length-append out rest)),
  drop_behind out rest (length bs),
  append_assoc out bs (drop (length bs) rest),
)

-- Statements one after another write their bytes one after another.
pub >>-Emits : (f g : W) (cs bs : Bytes) → Emits f cs → Emits g bs → Emits (f >> g) (cs ++ bs)
>>-Emits f g cs bs hf hg out rest h =
    let l : length (cs ++ bs) ≡ length cs + length bs = length-append cs bs in
    let first = hf out rest (omega arith) in
    let second =
      hg (out ++ cs) (drop (length cs) rest) (omega (arith, length-drop (length cs) rest)) in
    rw (first, ◌>>◌)
      (second
        ∙ cc (append_assoc out cs bs, drop-drop (length cs) (length bs) (length (cs ++ bs)) rest l))

pub filled-Emits :
    (n : ℕ) (f : W) (bs : Bytes)
    → Emits f bs
    → length bs ≤ n
    → filled n f ≡ ok (bs ++ drop (length bs) (replicate n 0))
unfolding filled
filled-Emits n f bs hf h =
    rw (hf [] (replicate n 0) (omega (arith, length-replicate {A = ℕ} n 0)), filled) refl

-- Writes that fill the array leave their bytes alone in it.
pub filled_exactly : (n : ℕ) (f : W) (bs : Bytes) → Emits f bs → length bs ≡ n → filled n f ≡ ok bs
unfolding replicate
filled_exactly n f bs hf e =
    let none_left : n - length bs ≡ 0 = omega arith in
    filled-Emits n f bs hf (omega arith)
    ∙ ap (λ r. ok (bs ++ r)) (drop-replicate (length bs) n 0 ∙ ap (λ m. replicate m 0) none_left)
    ∙ ap ok (append-nil bs)

-- The same as a record, of which a checker can infer the parts.
pub record Puts (f : W) (bs : Bytes) : Type 0 where
  pub emits : Emits f bs

pub >>-Puts : {f g : W} {cs bs : Bytes} → Puts f cs → Puts g bs → Puts (f >> g) (cs ++ bs)
>>-Puts {f} {g} {cs} {bs} a b = record { emits = >>-Emits f g cs bs a.emits b.emits }

pub store-Puts : (bs : Bytes) → Puts (store bs) bs
store-Puts bs = record { emits = store-Emits bs }

pub bytes-Puts : (bs : Bytes) → Puts (bytes bs) bs
bytes-Puts bs = record { emits = bytes-Emits bs }
