-- ===== src/Buffer/Words.antt =====
-- Little-endian words: the bytes of a word, and the word of its bytes.
use netcode_go.Prelude.{ℕ, zero, suc, ◌*◌, ◌/◌, ◌^◌, ◌<◌, ◌≡◌, refl, ap, arith, length}
use netcode_go.Buffer.{le_bytes, from_le_bytes}
use native.Mathlib.Nat.{pow-suc}

pub length-le_bytes : (n v : ℕ) → length (le_bytes n v) ≡ n
unfolding le_bytes
length-le_bytes zero v = refl
length-le_bytes (suc n) v = ap suc (length-le_bytes n (v / 256))

pub div-lt : (v p : ℕ) → v < 256 * p → v / 256 < p
div-lt v p h = omega arith

pub fits : (v n : ℕ) → v < 256 ^ suc n → v < 256 * 256 ^ n
fits v n h = let k : v < 256 ^ n * 256 = rw pow-suc at h in omega arith

-- A word that fits its bytes is read back from them.
pub from_le_bytes-le_bytes : (n v : ℕ) → v < 256 ^ n → from_le_bytes (le_bytes n v) ≡ v
unfolding le_bytes from_le_bytes
from_le_bytes-le_bytes zero v h = omega arith
from_le_bytes-le_bytes (suc n) v h =
    omega (arith, from_le_bytes-le_bytes n (v / 256) (div-lt v (256 ^ n) (fits v n h)))
