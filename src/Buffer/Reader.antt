-- ===== src/Buffer/Reader.antt =====
-- buffer.go: `reader`, a cursor that reads from a buffer. A slice's capacity is its length.
use netcode_go.Prelude.{
  ℕ, ◌+◌, length, take, drop, Result, ok, err, panics, Bytes, leb, if◌then◌else◌,
}
use netcode_go.Buffer.{from_le_bytes}

-- `reader`
pub record Reader : Type 0 where
  pub buffer : Bytes
  pub pos : ℕ

-- A read: it gives a value and moves the reader, returns an error, or panics.
abbrev pub R : Type 0 → Type 0
R A = Reader → Result (A × Reader)

infixl 5 ◌>>=◌
abbrev pub ◌>>=◌ : {A B : Type 0} → R A → (A → R B) → R B
◌>>=◌ f g r = elim (f r) [ ok (a, r') ↦ g a r' | err ↦ err | panics ↦ panics ]

abbrev pub pure : {A : Type 0} → A → R A
pure a r = ok (a, r)

-- `reader.bytes` into an array of `n` bytes, which panics past the end.
unfoldable pub bytes : ℕ → R Bytes
bytes n r =
    if leb (r.pos + n) (length r.buffer)
    then ok (take n (drop r.pos r.buffer), record r { pos = r.pos + n })
    else panics

-- A little-endian word of `n` bytes.
unfoldable pub word : ℕ → R ℕ
word n r = elim (bytes n r) [
  | ok (bs, r') ↦ ok (from_le_bytes bs, r')
  | err ↦ err
  | panics ↦ panics
]

abbrev pub uint8 : R ℕ
uint8 = word 1

abbrev pub uint16 : R ℕ
uint16 = word 2

abbrev pub uint32 : R ℕ
uint32 = word 4

abbrev pub uint64 : R ℕ
uint64 = word 8
