-- ===== src/Address/Conversion.antt =====
-- address.go: the conversions to and from net/netip.
use netcode_go.Prelude.{ℕ, ◌+◌, ◌*◌, ◌/◌, ◌%◌, ◌≡◌, refl, ap, ◌∙◌, arith, inl, inr, List, [], ◌∷◌}
use netcode_go.Address.{Address}
use netcode_go.Address.Parse.{Netip, groups_of, raw_of, address_from_netip, to_netip}
use netcode_go.Token.Addresses.{AllWords, IsAddress}

groups_of-raw_of : (gs : List ℕ) → AllWords gs → groups_of (raw_of gs) ≡ gs
unfolding groups_of raw_of
groups_of-raw_of [] v = refl
groups_of-raw_of (g ∷ gs) v =
    let word : g / 256 % 256 * 256 + g % 256 ≡ g = omega (arith, v.0) in
    ap (λ h. h ∷ groups_of (raw_of gs)) word ∙ ap (λ r. g ∷ r) (groups_of-raw_of gs v.1)

-- A well-formed address that netip's Unmap leaves alone comes back from netip's form.
pub address_from_netip-to_netip :
    (n : Netip) (a : Address)
    → IsAddress a
    → n.unmap ((to_netip a).0) ≡ (to_netip a).0
    → address_from_netip n ((to_netip a).0) ((to_netip a).1) ≡ a
unfolding to_netip address_from_netip
address_from_netip-to_netip n a (p, inl (t, l, z)) u = ground (arith, t, u, z)
address_from_netip-to_netip n a (p, inr (t, l, w, z)) u =
    ground (arith, t, u, z, groups_of-raw_of a.ipv6 w)
