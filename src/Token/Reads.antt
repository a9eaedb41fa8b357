-- ===== src/Token/Reads.antt =====
-- token.go: a read of a public connect token gives a token that the client can use, or says no.
use netcode_go.Prelude.{
  ℕ, zero, suc, ◌+◌, ◌*◌, ◌<◌, ◌≤◌, Bool, true, false, not, ◌||◌, ◌≡◌, refl, ap, ◌∙◌, Bool-cases,
  arith, List, [], ◌∷◌, length, Bytes, ok, inl, inr, ltb, ◌==◌,
}
use netcode_go.Address.{Address, address_ipv4, address_ipv6, array_eq}
use netcode_go.Buffer.Reads.{
  Reads, pure-Reads, bytes-Reads, word-Reads, >>=-Reads, if-Reads, Reads-more, Anything,
}
use netcode_go.Encryption.{is_positive}
use netcode_go.Crypto.{key_bytes}
use netcode_go.Packet.Write.{version_info}
use netcode_go.Token.{read_groups, read_address_onto, max_servers_per_connect}
use netcode_go.Token.Connect.{
  ConnectToken, read_addresses_onto, read_server_fields, read_sealed_fields, read_connect_fields,
  read_connect_token, connect_token_bytes,
}

pub read_groups-Reads : {fails : Bool} (n : ℕ) → Reads fails (n * 2) Anything (read_groups n)
unfolding read_groups
read_groups-Reads zero = pure-Reads 0 [] refl
read_groups-Reads (suc n) =
    Reads-more (2 + (n * 2 + 0)) (suc n * 2) Anything (read_groups (suc n)) (omega arith) (
      >>=-Reads 2 (n * 2 + 0) (word-Reads 2)
        (λ g h. >>=-Reads (n * 2) 0 (read_groups-Reads n) (λ gs k. pure-Reads 0 (g ∷ gs) refl)))

pub read_address_onto-Reads :
    {fails : Bool} (old : Address) → Reads fails 19 Anything (read_address_onto old)
unfolding read_address_onto
read_address_onto-Reads old = >>=-Reads 1 18 (word-Reads 1) (λ type h.
    if-Reads 18 Anything (type == address_ipv4) _ _
      (λ q. Reads-more 6 18 Anything _ (omega arith) (
        >>=-Reads 4 2 (bytes-Reads 4)
          (λ ipv4 l. >>=-Reads 2 0 (word-Reads 2) (λ port k. pure-Reads 0 _ refl))))
      (λ q.
        if-Reads 18 Anything (type == address_ipv6) _ _
          (λ q'.
            >>=-Reads 16 2 (read_groups-Reads 8)
              (λ ipv6 l. >>=-Reads 2 0 (word-Reads 2) (λ port k. pure-Reads 0 _ refl)))
          (λ q'. pure-Reads 18 _ refl)))

pub read_addresses_onto-Reads :
    {fails : Bool} (n : ℕ) (old : List Address)
    → n ≤ length old
    → Reads fails (n * 19) (λ p. length (p.0) ≡ length old) (read_addresses_onto n old)
unfolding read_addresses_onto
read_addresses_onto-Reads zero old l = pure-Reads 0 (old, true) refl
read_addresses_onto-Reads (suc n) [] l = ground (arith, l)
read_addresses_onto-Reads (suc n) (a ∷ old) l =
    Reads-more (19 + (n * 19 + 0)) (suc n * 19) _ _ (omega arith) (
      >>=-Reads 19 (n * 19 + 0) (read_address_onto-Reads a) (λ p h.
        if-Reads (n * 19 + 0) _ (not p.1) _ _ (λ q. pure-Reads _ _ refl)
          (λ q.
            >>=-Reads (n * 19) 0 (read_addresses_onto-Reads n old (omega arith))
              (λ r k. pure-Reads 0 _ (ap suc k)))))

-- What the client relies on.
pub record Usable (t : ConnectToken) : Type 0 where
  pub some_server : 0 < t.num_server_addresses
  pub servers : t.num_server_addresses ≤ max_servers_per_connect
  pub in_order : t.create_timestamp ≤ t.expire_timestamp

-- The array keeps its size, and a token that was read can be used.
pub record Checked (p : ConnectToken × Bool) : Type 0 where
  pub size : length (p.0).server_addresses ≡ max_servers_per_connect
  pub usable : p.1 ≡ true → Usable (p.0)

bad : (t : ConnectToken) → length t.server_addresses ≡ max_servers_per_connect → Checked (t, false)
bad t h = record { size = h; usable = λ q. ground (arith, q) }

read_server_fields-Reads :
    (t : ConnectToken)
    → length t.server_addresses ≡ max_servers_per_connect
    → t.create_timestamp ≤ t.expire_timestamp
    → Reads false 672 Checked (read_server_fields t)
unfolding read_server_fields
read_server_fields-Reads t size in_order =
    if-Reads 672 Checked
      (not (is_positive t.num_server_addresses)
        || ltb max_servers_per_connect t.num_server_addresses)
      _ _ (λ q. pure-Reads 672 _ (bad t size))
      (λ q. Reads-more (t.num_server_addresses * 19 + 64) 672 Checked _ (ground arith) (
        >>=-Reads (t.num_server_addresses * 19) 64
          (read_addresses_onto-Reads t.num_server_addresses t.server_addresses (ground arith))
          (λ p h.
            if-Reads 64 Checked (not p.1) _ _ (λ k. pure-Reads 64 _ (bad _ (h ∙ size)))
              (λ k. >>=-Reads key_bytes 32 (bytes-Reads key_bytes) (λ write l.
                >>=-Reads key_bytes 0 (bytes-Reads key_bytes) (λ read l'. pure-Reads 0 _ (record {
                  size = h ∙ size;
                  usable = λ e. record {
                    some_server = ground arith;
                    servers = ground arith;
                    in_order = in_order;
                  };
                })))))))

read_sealed_fields-Reads :
    (t : ConnectToken)
    → length t.server_addresses ≡ max_servers_per_connect
    → Reads false 1728 Checked (read_sealed_fields t)
unfolding read_sealed_fields
read_sealed_fields-Reads t size =
    if-Reads 1728 Checked (ltb t.expire_timestamp t.create_timestamp) _ _
      (λ q. pure-Reads 1728 _ (bad t size))
      (λ q. >>=-Reads 24 1704 (bytes-Reads 24) (λ nonce h.
        >>=-Reads 1024 680 (bytes-Reads 1024) (λ sealed h.
          >>=-Reads 4 676 (word-Reads 4) (λ timeout h.
            >>=-Reads 4 672 (word-Reads 4)
              (λ num h. read_server_fields-Reads _ size (ground arith))))))

read_connect_fields-Reads :
    (t : ConnectToken)
    → length t.server_addresses ≡ max_servers_per_connect
    → Reads false 1765 Checked (read_connect_fields t)
unfolding read_connect_fields
read_connect_fields-Reads t size = >>=-Reads 13 1752 (bytes-Reads 13) (λ version h.
    if-Reads 1752 Checked (not (array_eq version version_info)) _ _
      (λ q. pure-Reads 1752 _ (bad t size))
      (λ q. >>=-Reads 8 1744 (word-Reads 8) (λ id h. >>=-Reads 8 1736 (word-Reads 8) (λ create h.
        >>=-Reads 8 1728 (word-Reads 8) (λ expire h. read_sealed_fields-Reads _ size)))))

-- Any bytes, of any length, can be read into a connect token with its array of 32 addresses: there
-- is no panic, the array keeps its size, and a token that is said to be read has from 1 to 32
-- servers and does not expire before it was created.
pub read_connect_token-Checked :
    (t : ConnectToken) (buffer : Bytes)
    → length t.server_addresses ≡ max_servers_per_connect
    → (p : ConnectToken × Bool) × (read_connect_token t buffer ≡ ok p) × Checked p
unfolding read_connect_token
read_connect_token-Checked t buffer size =
    elim (Bool-cases (not (length buffer == connect_token_bytes))) [
      | inl q ↦ ((t, false), rw (q, read_connect_token) refl, bad t size)
      | inr q ↦ elim ((read_connect_fields-Reads t size).reads buffer 0 (ground arith)) [
        | inl (e, f) ↦ ground (arith, e)
        | inr x ↦ (x.value, rw (q, x.is, read_connect_token) refl, x.holds)
      ]
    ]
