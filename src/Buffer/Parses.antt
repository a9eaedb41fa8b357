-- ===== src/Buffer/Parses.antt =====
-- What sequences of reads find.
use netcode_go.Prelude.{
  Bool, true, false, if◌then◌else◌, ℕ, ◌^◌, ◌<◌, ◌≡◌, refl, sym, arith, [], ◌++◌, ◌∷◌, [], subst,
  ap, append_assoc, append-nil, length, length-append, take-append, drop-append, ok, Bytes,
}
use netcode_go.Buffer.{le_bytes}
use netcode_go.Buffer.Reader.{Reader, R, ◌>>=◌, pure, bytes, word}
use netcode_go.Buffer.Words.{length-le_bytes, from_le_bytes-le_bytes}

-- A reader that stands behind `out` and before `rest`.
abbrev pub from : Bytes → Bytes → Reader
from out rest = record { buffer = out ++ rest; pos = length out }

-- Before the bytes `bs`, `f` takes exactly these and gives `a`.
abbrev pub Parses : {A : Type 0} → R A → Bytes → A → Type 0
Parses f bs a = (out rest : Bytes) → f (from out (bs ++ rest)) ≡ ok (a, from (out ++ bs) rest)

pub bytes-Parses : (n : ℕ) (bs : Bytes) → n ≡ length bs → Parses (bytes n) bs bs
unfolding bytes
bytes-Parses n bs e out rest = ground (
  arith,
  length-append out (bs ++ rest),
  length-append bs rest,
  length-append out bs,
  drop-append out (bs ++ rest) (length out) refl,
  take-append bs rest n e,
  append_assoc out bs rest,
)

pub word-Parses : (n v : ℕ) → v < 256 ^ n → Parses (word n) (le_bytes n v) v
unfolding word
word-Parses n v h out rest =
    rw (bytes-Parses n (le_bytes n v) (sym (length-le_bytes n v)) out rest, word)
      (rw (from_le_bytes-le_bytes n v h) refl)

le_bytes_one : (b : ℕ) → b < 256 → le_bytes 1 b ≡ b ∷ []
unfolding le_bytes
le_bytes_one b h = ap (λ c. c ∷ []) (omega arith)

pub uint8-Parses : (b : ℕ) → b < 256 → Parses (word 1) (b ∷ []) b
uint8-Parses b h =
    subst (λ bs. Parses (word 1) bs b) (le_bytes_one b h) (word-Parses 1 b (omega arith))

pub >>=-Parses :
    {A B : Type 0} (f : R A) (g : A → R B) (cs bs : Bytes) (a : A) (b : B)
    → Parses f cs a
    → Parses (g a) bs b
    → Parses (f >>= g) (cs ++ bs) b
>>=-Parses f g cs bs a b hf hg out rest =
    rw (append_assoc cs bs rest, hf out (bs ++ rest), ◌>>=◌)
      (rw (hg (out ++ cs) rest, append_assoc out cs bs) refl)

pub pure-Parses : {A : Type 0} (a : A) → Parses (pure a) [] a
pure-Parses a out rest = rw append-nil refl

-- The same as a record, of which a checker can infer the parts.
pub record Finds {A : Type 0} (f : R A) (bs : Bytes) (a : A) : Type 0 where
  pub parses : Parses f bs a

pub >>=-Finds :
    {A B : Type 0} {f : R A} (g : A → R B) {cs bs : Bytes} {a : A} {b : B}
    → Finds f cs a
    → Finds (g a) bs b
    → Finds (f >>= g) (cs ++ bs) b
>>=-Finds {f = f} g {cs = cs} {bs = bs} {a = a} {b = b} x y = record {
  parses = >>=-Parses f g cs bs a b x.parses y.parses;
}

-- The last read, whose value is then put together.
pub >>=-Finds_last :
    {A B : Type 0} {f : R A} (g : A → R B) {cs : Bytes} {a : A} {b : B}
    → Finds f cs a
    → g a ≡ pure b
    → Finds (f >>= g) cs b
>>=-Finds_last {f = f} g {cs = cs} {a = a} {b = b} x e = record {
  parses = λ out rest. rw (x.parses out rest, ◌>>=◌) (ap (λ m. m (from (out ++ cs) rest)) e);
}

pub word-Finds : (n v : ℕ) → v < 256 ^ n → Finds (word n) (le_bytes n v) v
word-Finds n v h = record { parses = word-Parses n v h }

pub bytes-Finds : (n : ℕ) (bs : Bytes) → n ≡ length bs → Finds (bytes n) bs bs
bytes-Finds n bs e = record { parses = bytes-Parses n bs e }

-- A check that is passed.
pub else-Finds :
    {A : Type 0} (b : Bool) (f : R A) {g : R A} {bs : Bytes} {a : A}
    → b ≡ false
    → Finds g bs a
    → Finds (if b then f else g) bs a
else-Finds true f e x = ground (arith, e)
else-Finds false f e x = x

-- One read of one reader.
pub record Goes {A : Type 0} (f : R A) (r : Reader) (a : A) (r' : Reader) : Type 0 where
  pub is : f r ≡ ok (a, r')

pub Finds-Goes :
    {A : Type 0} {f : R A} {bs : Bytes} {a : A} (out rest : Bytes)
    → Finds f bs a
    → Goes f (from out (bs ++ rest)) a (from (out ++ bs) rest)
Finds-Goes out rest x = record { is = x.parses out rest }

pub >>=-Goes :
    {A B : Type 0} {f : R A} (g : A → R B) {r r' r'' : Reader} {a : A} {b : B}
    → Goes f r a r'
    → Goes (g a) r' b r''
    → Goes (f >>= g) r b r''
>>=-Goes g x y = record { is = rw (x.is, ◌>>=◌) (y.is) }

pub else-Goes :
    {A : Type 0} (b : Bool) (f : R A) {g : R A} {r r' : Reader} {a : A}
    → b ≡ false
    → Goes g r a r'
    → Goes (if b then f else g) r a r'
else-Goes true f e x = ground (arith, e)
else-Goes false f e x = x
