-- ===== src/Packet/Sequence.antt =====
-- packet.go: the variable length sequence number, its size and its bytes.
use netcode_go.Prelude.{
  ℕ, zero, suc, ◌+◌, ◌*◌, ◌/◌, ◌%◌, ◌^◌, ◌≤◌, ◌<◌, ◌≡◌, ◌≢◌, dec_lt, subst, refl, ap, arith, inl,
  inr, [], ◌∷◌, Bool-cases, append-nil, ◌==◌, ==_iff,
}
use netcode_go.Buffer.{le_bytes}
use netcode_go.Buffer.Writer.{uint8 as write_uint8}
use netcode_go.Buffer.Reader.{uint8, pure}
use netcode_go.Buffer.Words.{div-lt, fits}
use netcode_go.Buffer.Emits.{Emits, store-Emits, >>-Emits}
use netcode_go.Buffer.Parses.{Parses, >>=-Parses, pure-Parses, uint8-Parses}
use netcode_go.Packet.Write.{required_loop, sequence_number_bytes_required, write_sequence, skip}
use netcode_go.Packet.Read.{read_sequence}
use native.Mathlib.Numerals.{add-one}
use native.Mathlib.Nat.{div-add-mod, pow-suc, div-lt_iff_lt-mul, div-eq_of_lt}

required_loop_bounds : (k s : ℕ) → (1 ≤ required_loop k s) × (required_loop k s ≤ suc k)
unfolding required_loop
required_loop_bounds zero s = omega arith
required_loop_bounds (suc k) s = ground (arith, required_loop_bounds k s)

lt_of_high_byte_zero : (s p : ℕ) → s < 256 * p → s / p % 256 ≡ 0 → s < p
lt_of_high_byte_zero s p h e =
    let z : s / p < 1 =
      omega (arith, (div-lt_iff_lt-mul {k = p} {x = s} {y = 256} (omega arith)).1 h) in
    omega (arith, (div-lt_iff_lt-mul {k = p} {x = s} {y = 1} (omega arith)).0 z)

required_loop_fits : (k s : ℕ) → s < 256 ^ suc k → s < 256 ^ required_loop k s
unfolding required_loop
required_loop_fits zero s h = h
required_loop_fits (suc k) s h = elim (Bool-cases (s / 256 ^ suc k % 256 == 0)) [
  | inl e ↦ rw e (
      required_loop_fits k s
        (lt_of_high_byte_zero s (256 ^ suc k) (fits s (suc k) h) ((==_iff _ 0).0 e)))
  | inr e ↦ rw e h
]

-- A sequence number below 2^64 takes 1 to 8 bytes, and fits them.
pub sequence_number_bytes_required_fits :
    (s : ℕ)
    → s < 2 ^ 64
    → (1 ≤ sequence_number_bytes_required s)
      × (sequence_number_bytes_required s ≤ 8)
      × (s < 256 ^ sequence_number_bytes_required s)
unfolding sequence_number_bytes_required
sequence_number_bytes_required_fits s h =
    let (lo, hi) = required_loop_bounds 7 s in (lo, hi, required_loop_fits 7 s h)

ge_of_high_byte : (s p : ℕ) → s / p % 256 ≢ 0 → p ≤ s
ge_of_high_byte s p h = elim (dec_lt s p) [
  | yes lt ↦ absurd (h (omega (arith, div-eq_of_lt lt)))
  | no ge ↦ omega arith
]

required_loop_least : (k s n : ℕ) → required_loop k s ≡ suc (suc n) → 256 ^ suc n ≤ s
unfolding required_loop
required_loop_least zero s n e = absurd (omega arith)
required_loop_least (suc k) s n e = elim (Bool-cases (s / 256 ^ suc k % 256 == 0)) [
  | inl z ↦ required_loop_least k s n (rw z at e)
  | inr z ↦
      let f : suc (suc k) ≡ suc (suc n) = rw z at e in
      let g : k ≡ n = omega arith in
      subst (λ m. 256 ^ suc m ≤ s) g (ge_of_high_byte s (256 ^ suc k) (ground arith))
]

-- A sequence number that takes two bytes or more would not fit one byte less.
pub sequence_number_bytes_required_least :
    (s n : ℕ) → sequence_number_bytes_required s ≡ suc (suc n) → 256 ^ suc n ≤ s
unfolding sequence_number_bytes_required
sequence_number_bytes_required_least s n e = required_loop_least 7 s n e

pub skip-Emits : Emits skip []
skip-Emits out rest h = rw append-nil refl

pub write_sequence-Emits : (n s : ℕ) → Emits (write_sequence n s) (le_bytes n s)
unfolding write_sequence le_bytes
write_sequence-Emits zero s = skip-Emits
write_sequence-Emits (suc n) s =
    >>-Emits (write_uint8 (s % 256)) (write_sequence n (s / 256)) ((s % 256) ∷ [])
      (le_bytes n (s / 256)) (store-Emits ((s % 256) ∷ [])) (write_sequence-Emits n (s / 256))

pow-add-one : (i : ℕ) → 256 ^ (i + 1) ≡ 256 ^ i * 256
pow-add-one i = rw (add-one, pow-suc) refl

regroup : (s acc i : ℕ) → acc + s % 256 * 256 ^ i + s / 256 * 256 ^ (i + 1) ≡ acc + s * 256 ^ i
regroup s acc i = omega (
  arith,
  ap (λ (t : ℕ). t * 256 ^ i) (div-add-mod s 256),
  ap (λ (t : ℕ). s / 256 * t) (pow-add-one i),
)

pub read_sequence-Parses :
    (n s i acc : ℕ)
    → s < 256 ^ n
    → Parses (read_sequence n i acc) (le_bytes n s) (acc + s * 256 ^ i)
unfolding read_sequence le_bytes
read_sequence-Parses zero s i acc h =
    let empty : s ≡ 0 = omega arith in
    let z : acc ≡ acc + s * 256 ^ i = rw empty (omega arith) in
    subst (λ v. Parses (pure acc) [] v) z (pure-Parses acc)
read_sequence-Parses (suc n) s i acc h =
    subst (λ v. Parses (read_sequence (suc n) i acc) (le_bytes (suc n) s) v) (regroup s acc i)
      (>>=-Parses uint8 (λ value. read_sequence n (i + 1) (acc + value * 256 ^ i)) ((s % 256) ∷ [])
        (le_bytes n (s / 256)) (s % 256) (acc + s % 256 * 256 ^ i + s / 256 * 256 ^ (i + 1))
        (uint8-Parses (s % 256) (omega arith))
        (read_sequence-Parses n (s / 256) (i + 1) (acc + s % 256 * 256 ^ i)
          (div-lt s (256 ^ n) (fits s n h))))
