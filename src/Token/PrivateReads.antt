-- ===== src/Token/PrivateReads.antt =====
-- token.go: a read of a private connect token gives a token that the server can use, or an error.
use netcode_go.Prelude.{
  ℕ, zero, suc, ◌+◌, ◌*◌, ◌-◌, ◌<◌, ◌≤◌, true, not, ◌||◌, ◌≡◌, refl, ap, Bool-cases, arith, ◌⊎◌,
  inl, inr, [], ◌∷◌, length, Bytes, ok, err, ltb, replicate, length-append, length-replicate,
}
use netcode_go.Address.{no_address}
use netcode_go.Buffer.Reads.{
  Reads, pure-Reads, bytes-Reads, word-Reads, >>=-Reads, if-Reads, Reads-more, Anything,
}
use netcode_go.Encryption.{is_positive}
use netcode_go.Crypto.{key_bytes}
use netcode_go.Packet.Read.{connect_token_private_bytes}
use netcode_go.Token.{
  ConnectTokenPrivate, fail, read_address, read_addresses, read_private_fields,
  read_connect_token_private, max_servers_per_connect, user_data_bytes,
}
use netcode_go.Token.Reads.{read_address_onto-Reads}

fail-Reads : {A : Type 0} (n : ℕ) (P : A → Type 0) → Reads true n P fail
fail-Reads n P = record { reads = λ buffer pos l. inl (refl, refl) }

read_address-Reads : Reads true 19 Anything read_address
unfolding read_address
read_address-Reads =
    >>=-Reads 19 0 (read_address_onto-Reads no_address)
      (λ p h. if-Reads 0 Anything p.1 _ _ (λ q. pure-Reads 0 _ refl) (λ q. fail-Reads 0 Anything))

read_addresses-Reads : (n : ℕ) → Reads true (n * 19) (λ xs. length xs ≡ n) (read_addresses n)
unfolding read_addresses
read_addresses-Reads zero = pure-Reads 0 [] refl
read_addresses-Reads (suc n) = Reads-more (19 + (n * 19 + 0)) (suc n * 19) _ _ (omega arith) (
    >>=-Reads 19 (n * 19 + 0) read_address-Reads (λ a h.
      >>=-Reads (n * 19) 0 (read_addresses-Reads n) (λ xs k. pure-Reads 0 (a ∷ xs) (ap suc k))))

-- What the server relies on.
pub record ServerUsable (t : ConnectTokenPrivate) : Type 0 where
  pub some_server : 0 < t.num_server_addresses
  pub servers : t.num_server_addresses ≤ max_servers_per_connect
  pub size : length t.server_addresses ≡ max_servers_per_connect
  pub write_key : length t.client_to_server_key ≡ key_bytes
  pub read_key : length t.server_to_client_key ≡ key_bytes
  pub data_size : length t.user_data ≡ user_data_bytes

read_private_fields-Reads : Reads true 944 ServerUsable read_private_fields
unfolding read_private_fields
read_private_fields-Reads = >>=-Reads 8 936 (word-Reads 8) (λ id h.
    >>=-Reads 4 932 (word-Reads 4) (λ timeout h. >>=-Reads 4 928 (word-Reads 4) (λ num h.
      if-Reads 928 ServerUsable (not (is_positive num) || ltb max_servers_per_connect num) _ _
        (λ q. fail-Reads 928 ServerUsable)
        (λ q. Reads-more (num * 19 + 320) 928 ServerUsable _ (ground (arith, q)) (
          >>=-Reads (num * 19) 320 (read_addresses-Reads num) (λ addresses size.
            >>=-Reads key_bytes 288 (bytes-Reads key_bytes) (λ write k.
              >>=-Reads key_bytes 256 (bytes-Reads key_bytes) (λ read l.
                >>=-Reads user_data_bytes 0 (bytes-Reads user_data_bytes) (λ user m.
                  pure-Reads 0 _ (record {
                    some_server = ground (arith, q);
                    servers = ground (arith, q);
                    size = ground (
                      arith,
                      q,
                      size,
                      length-append addresses
                          (replicate (max_servers_per_connect - num) no_address),
                      length-replicate (max_servers_per_connect - num) no_address,
                    );
                    write_key = k;
                    read_key = l;
                    data_size = m;
                  }))))))))))

-- Any bytes are read into a private connect token without a panic: there is an error, or a token
-- with 1 to 32 servers, whose arrays of addresses, keys and user data have their sizes.
pub read_connect_token_private_outcomes :
    (buffer : Bytes)
    → (read_connect_token_private buffer ≡ err)
      ⊎ ((t : ConnectTokenPrivate) × (read_connect_token_private buffer ≡ ok t) × ServerUsable t)
unfolding read_connect_token_private
read_connect_token_private_outcomes buffer =
    elim (Bool-cases (ltb (length buffer) connect_token_private_bytes)) [
      | inl q ↦ inl (rw (q, read_connect_token_private) refl)
      | inr q ↦ elim (read_private_fields-Reads.reads buffer 0 (ground (arith, q))) [
        | inl (e, x) ↦ inl (rw (q, x, read_connect_token_private) refl)
        | inr x ↦ inr (x.value, rw (q, x.is, read_connect_token_private) refl, x.holds)
      ]
    ]
