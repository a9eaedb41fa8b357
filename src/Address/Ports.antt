-- ===== src/Address/Ports.antt =====
-- address.go: ports in text, and the bytes that net/netip has of an address.
use netcode_go.Prelude.{
  ℕ, ◌+◌, ◌-◌, ◌*◌, ◌≤◌, Bool, true, not, ◌&&◌, Bool-cases, none, some, [], ◌∷◌, length, Bytes, ◌≡◌,
  arith, inl, inr, leb, ◌==◌, if◌then◌else◌,
}
use netcode_go.Address.Parse.{parse_digits, parse_port}

abbrev pub is_digit : ℕ → Bool
is_digit c = leb b'0' c && leb c b'9'

abbrev pub all_digits : Bytes → Bool
all_digits [] = true
all_digits (c ∷ cs) = is_digit c && all_digits cs

-- The number that decimal digits stand for, behind the digits of `value`.
abbrev pub decimal : ℕ → Bytes → ℕ
decimal value [] = value
decimal value (c ∷ cs) = decimal (value * 10 + (c - b'0')) cs

decimal_grows : (value : ℕ) (s : Bytes) → value ≤ decimal value s
decimal_grows value [] = omega arith
decimal_grows value (c ∷ cs) = omega (arith, decimal_grows (value * 10 + (c - b'0')) cs)

parse_digits_lem :
    (value : ℕ) (s : Bytes)
    → value ≤ 65535
    → parse_digits value s
      ≡ (if all_digits s && leb (decimal value s) 65535 then some (decimal value s) else none)
unfolding parse_digits
parse_digits_lem value [] h = ground (arith, h)
parse_digits_lem value (c ∷ cs) h =
    let next = value * 10 + (c - b'0') in
    elim (Bool-cases (leb next 65535)) [
      | inl q ↦ ground (arith, q, parse_digits_lem next cs (ground (arith, q)))
      | inr q ↦ ground (arith, q, decimal_grows next cs)
    ]

-- `parsePort` takes exactly the texts of one or more decimal digits that stand for a number of at
-- most 65535, and gives that number.
pub parse_port-decimal :
    (s : Bytes)
    → parse_port s ≡ (
        if not (length s == 0) && (all_digits s && leb (decimal 0 s) 65535)
        then some (decimal 0 s)
        else none)
unfolding parse_port
parse_port-decimal s = ground (arith, parse_digits_lem 0 s (omega arith))
