-- ===== src/Buffer.antt =====
-- buffer.go: little-endian cursors over byte buffers. The words' byte order stands here, the
-- two cursors in the children.
pub mod Writer
pub mod Reader
pub mod Words
pub mod Emits
pub mod Parses
pub mod Reads
use netcode_go.Prelude.{ℕ, zero, suc, ◌+◌, ◌*◌, ◌/◌, ◌%◌, [], ◌∷◌, Bytes}

-- The `n` lowest bytes of a word, lowest first, as encoding/binary's LittleEndian stores them.
unfoldable pub le_bytes : ℕ → ℕ → Bytes
le_bytes zero v = []
le_bytes (suc n) v = (v % 256) ∷ le_bytes n (v / 256)

unfoldable pub from_le_bytes : Bytes → ℕ
from_le_bytes [] = 0
from_le_bytes (b ∷ bs) = b + 256 * from_le_bytes bs
