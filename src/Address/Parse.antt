-- ===== src/Address/Parse.antt =====
-- address.go: addresses from text. A string is its bytes; net/netip's parser is a parameter.
use netcode_go.Prelude.{
  ℕ, zero, suc, ◌+◌, ◌-◌, ◌*◌, ◌/◌, ◌%◌, not, ◌&&◌, ◌||◌, Option, none, some, List, [], ◌∷◌, length,
  take, drop, get_or, Bytes, ltb, ◌==◌, if◌then◌else◌,
}
use netcode_go.Address.{Address, no_address, address_ipv4, address_ipv6}

-- A netip.Addr: the bytes of As4 or As16.
pub data IpAddr : Type 0 where
  ip4 : Bytes → IpAddr
  ip6 : Bytes → IpAddr

-- What net/netip provides: ParseAddr, `none` for its error, and Unmap.
pub record Netip : Type 0 where
  pub parse_addr : Bytes → Option IpAddr
  pub unmap : IpAddr → IpAddr

abbrev pub max_address_string_length : ℕ
max_address_string_length = 256

-- The loop of `parsePort`.
unfoldable pub parse_digits : ℕ → Bytes → Option ℕ
parse_digits value [] = some value
parse_digits value (c ∷ cs) =
    let rest = parse_digits (value * 10 + (c - b'0')) cs in
    if ltb c b'0' || ltb b'9' c
    then none
    else if ltb 65535 (value * 10 + (c - b'0'))
    then none
    else rest

-- `parsePort`; `none` for not ok.
unfoldable pub parse_port : Bytes → Option ℕ
parse_port s = if length s == 0 then none else parse_digits 0 s

-- Eight groups of sixteen bits, high byte first, and back. The bytes do not overlap, so `|` adds.
unfoldable pub groups_of : Bytes → List ℕ
groups_of (a ∷ b ∷ rest) = (a * 256 + b) ∷ groups_of rest
groups_of _ = []

unfoldable pub raw_of : List ℕ → Bytes
raw_of [] = []
raw_of (g ∷ gs) = (g / 256 % 256) ∷ (g % 256) ∷ raw_of gs

-- `addressFromNetip` and `toNetip`.
unfoldable pub address_from_netip : Netip → IpAddr → ℕ → Address
address_from_netip n addr port = elim (n.unmap addr) [
  | ip4 raw ↦ record no_address { type = address_ipv4; ipv4 = raw; port = port }
  | ip6 raw ↦ record no_address { type = address_ipv6; ipv6 = groups_of raw; port = port }
]

unfoldable pub to_netip : Address → IpAddr × ℕ
to_netip a = if a.type == address_ipv4 then (ip4 a.ipv4, a.port) else (ip6 (raw_of a.ipv6), a.port)

-- The two searches for ":port" from the end, with `n` rounds left: the index of the colon.
unfoldable pub bracket_colon : ℕ → ℕ → Bytes → Option ℕ
bracket_colon zero i s = none
bracket_colon (suc n) i s =
    let rest = bracket_colon n (i + 1) s in
    let index = (length s - 1) - i in
    if ltb (length s - 1) (i + 3)
    then none
    else if get_or s index 0 == b':' && get_or s (index - 1) 0 == b']'
    then some index
    else rest

unfoldable pub colon : ℕ → ℕ → Bytes → Option ℕ
colon zero i s = none
colon (suc n) i s =
    let rest = colon n (i + 1) s in
    if ltb (length s) (i + 1)
    then none
    else if get_or s ((length s - 1) - i) 0 == b':'
    then some ((length s - 1) - i)
    else rest

-- strings.TrimSuffix(s, "]")
unfoldable pub trim_bracket : Bytes → Bytes
trim_bracket s =
    if not (length s == 0) && get_or s (length s - 1) 0 == b']' then take (length s - 1) s else s

-- The text without brackets and what stands behind them, and the port; `none` for an error.
unfoldable pub strip_brackets : Bytes → Option (Bytes × ℕ)
strip_brackets s =
    if not (length s == 0) && get_or s 0 0 == b'['
    then elim (bracket_colon 6 0 s) [
      | none ↦ some (drop 1 (trim_bracket s), 0)
      | some index ↦ elim (parse_port (drop (index + 1) s)) [
        | none ↦ none
        | some port ↦ some (drop 1 (trim_bracket (take (index - 1) s)), port)
      ]
    ]
    else some (s, 0)

-- The text in front of ":port", and the port; `none` for an error.
unfoldable pub strip_port : Bytes → ℕ → Option (Bytes × ℕ)
strip_port s port = elim (colon 6 0 s) [
  | none ↦ some (s, port)
  | some index ↦ elim (parse_port (drop (index + 1) s)) [
    | none ↦ none
    | some p ↦ some (take index s, p)
  ]
]

unfoldable pub as_ipv6 : Option IpAddr → ℕ → Option Address
as_ipv6 (some (ip6 raw)) port =
    some (record no_address { type = address_ipv6; ipv6 = groups_of raw; port = port })
as_ipv6 _ port = none

unfoldable pub as_ipv4 : Option IpAddr → ℕ → Option Address
as_ipv4 (some (ip4 raw)) port =
    some (record no_address { type = address_ipv4; ipv4 = raw; port = port })
as_ipv4 _ port = none

-- `ParseAddress`; `none` for an error.
unfoldable pub parse_address : Netip → Bytes → Option Address
parse_address n text =
    elim (strip_brackets (
      if ltb (max_address_string_length - 1) (length text)
      then take (max_address_string_length - 1) text
      else text)) [
        | none ↦ none
        | some (s, port) ↦ elim (as_ipv6 (n.parse_addr s) port) [
          | some a ↦ some a
          | none ↦ elim (strip_port s port) [
            | none ↦ none
            | some (s', port') ↦ as_ipv4 (n.parse_addr s') port'
          ]
        ]
      ]
