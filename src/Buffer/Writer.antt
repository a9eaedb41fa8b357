-- ===== src/Buffer/Writer.antt =====
-- buffer.go: `writer`, a cursor that writes to a buffer.
use netcode_go.Prelude.{
  ℕ, ◌+◌, ◌-◌, [], ◌∷◌, ◌++◌, length, take, drop, replicate, Result, ok, err, panics, Bytes, leb,
  if◌then◌else◌,
}
use netcode_go.Buffer.{le_bytes}

-- `writer`
pub record Writer : Type 0 where
  pub buffer : Bytes
  pub pos : ℕ

-- A statement that writes: it moves the writer, or panics.
abbrev pub W : Type 0
W = Writer → Result Writer

infixl 5 ◌>>◌
abbrev pub ◌>>◌ : W → W → W
◌>>◌ f g w = elim (f w) [ ok w' ↦ g w' | err ↦ err | panics ↦ panics ]

-- A store of all of `bs` from `pos` on, which panics past the end.
unfoldable pub store : Bytes → W
store bs w =
    if leb (w.pos + length bs) (length w.buffer)
    then ok (record {
      buffer = take w.pos w.buffer ++ (bs ++ drop (w.pos + length bs) w.buffer);
      pos = w.pos + length bs;
    })
    else panics

abbrev pub uint8 : ℕ → W
uint8 value = store (value ∷ [])

abbrev pub uint16 : ℕ → W
uint16 value = store (le_bytes 2 value)

abbrev pub uint32 : ℕ → W
uint32 value = store (le_bytes 4 value)

abbrev pub uint64 : ℕ → W
uint64 value = store (le_bytes 8 value)

-- `copy` drops what does not fit, and `pos` advances by the whole length all the same.
unfoldable pub bytes : Bytes → W
bytes src w =
    if leb w.pos (length w.buffer)
    then ok (record {
      buffer =
          take w.pos w.buffer
          ++ (take (length w.buffer - w.pos) src ++ drop (w.pos + length src) w.buffer);
      pos = w.pos + length src;
    })
    else panics

-- What a sequence of writes leaves in a zeroed array of `n` bytes.
unfoldable pub filled : ℕ → W → Result Bytes
filled n f = elim (f (record { buffer = replicate n 0; pos = 0 })) [
  | ok w ↦ ok w.buffer
  | err ↦ err
  | panics ↦ panics
]
