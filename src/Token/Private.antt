-- ===== src/Token/Private.antt =====
-- token.go: the private connect token, from writing to reading.
use netcode_go.Prelude.{
  Bool, not, ◌||◌, ltb, ℕ, ◌-◌, ◌^◌, ◌<◌, ◌≤◌, ◌≡◌, ◌∙◌, refl, sym, ap, subst, arith, List, [],
  ◌++◌, length, Bytes, ok, append_assoc, take, replicate, length-append, take-append,
}
use netcode_go.Address.{Address, no_address}
use netcode_go.Buffer.{le_bytes}
use netcode_go.Buffer.Words.{length-le_bytes}
use netcode_go.Buffer.Writer
use netcode_go.Buffer.Writer.{W, ◌>>◌}
use netcode_go.Buffer.Emits.{Emits, Puts, >>-Puts, store-Puts, bytes-Puts}
use netcode_go.Buffer.Reader.{pure}
use netcode_go.Buffer.Parses.{
  Parses, Finds, >>=-Finds, else-Finds, >>=-Finds_last, word-Finds, bytes-Finds,
}
use netcode_go.Crypto.{key_bytes}
use netcode_go.Encryption.{is_positive}
use netcode_go.Packet.Read.{connect_token_private_bytes}
use netcode_go.Token.{
  ConnectTokenPrivate, write_connect_token_private, read_private_fields, read_connect_token_private,
  write_addresses, read_addresses, max_servers_per_connect, user_data_bytes,
}
use netcode_go.Token.Addresses.{
  addresses_bytes, AllAddresses, write_addresses-Emits, read_addresses-Parses,
}
use netcode_go.Token.Fields.{length-addresses_bytes, filled_with_zeros}

-- The arrays have their sizes, the numbers their widths, and there are from 1 to 32 addresses `xs`.
pub record IsPrivateToken (t : ConnectTokenPrivate) (xs : List Address) : Type 0 where
  pub id : t.client_id < 2 ^ 64
  pub timeout : t.timeout_seconds < 2 ^ 32
  pub num : t.num_server_addresses ≡ length xs
  pub some_address : 0 < length xs
  pub room : length xs ≤ max_servers_per_connect
  pub array : t.server_addresses ≡ xs ++ replicate (max_servers_per_connect - length xs) no_address
  pub addresses : AllAddresses xs
  pub write_key : length t.client_to_server_key ≡ key_bytes
  pub read_key : length t.server_to_client_key ≡ key_bytes
  pub data_size : length t.user_data ≡ user_data_bytes

abbrev pub is_bad_count : ℕ → Bool
is_bad_count n = not (is_positive n) || ltb max_servers_per_connect n

module _ (t : ConnectTokenPrivate) (xs : List Address) where
  abbrev key_fields : Bytes
  key_fields = t.client_to_server_key ++ (t.server_to_client_key ++ t.user_data)

  abbrev pub private_bytes : Bytes
  private_bytes =
      le_bytes 8 t.client_id
      ++ (le_bytes 4 t.timeout_seconds
          ++ (le_bytes 4 t.num_server_addresses ++ (addresses_bytes xs ++ key_fields)))

  private_writes : W
  private_writes =
      Writer.uint64 t.client_id
      >> Writer.uint32 t.timeout_seconds
      >> Writer.uint32 t.num_server_addresses
      >> write_addresses (take t.num_server_addresses t.server_addresses)
      >> Writer.bytes t.client_to_server_key
      >> Writer.bytes t.server_to_client_key
      >> Writer.bytes t.user_data

  module _ (v : IsPrivateToken t xs) where
    taken : take t.num_server_addresses t.server_addresses ≡ xs
    taken =
        ap (λ ys. take t.num_server_addresses ys) v.array
        ∙ take-append xs (replicate (max_servers_per_connect - length xs) no_address)
            t.num_server_addresses v.num

    private_writes-Emits : Emits private_writes private_bytes
    unfolding private_writes
    private_writes-Emits =
        let writes : Puts private_writes _ =
          >>-Puts
            (>>-Puts
              (>>-Puts
                (>>-Puts
                  (>>-Puts
                    (>>-Puts (store-Puts (le_bytes 8 t.client_id))
                      (store-Puts (le_bytes 4 t.timeout_seconds)))
                    (store-Puts (le_bytes 4 t.num_server_addresses)))
                  addresses)
                (bytes-Puts t.client_to_server_key))
              (bytes-Puts t.server_to_client_key))
            (bytes-Puts t.user_data) in
        subst (λ bs. Emits private_writes bs) (simp append_assoc) writes.emits
      where
        addresses :
            Puts
              (write_addresses (take t.num_server_addresses t.server_addresses))
              (addresses_bytes xs)
        addresses =
            subst (λ ys. Puts (write_addresses ys) (addresses_bytes xs)) (sym taken)
              (record { emits = write_addresses-Emits xs v.addresses })

    read_private_fields-Parses : Parses read_private_fields private_bytes t
    unfolding read_private_fields
    read_private_fields-Parses =
        let reads : Finds read_private_fields private_bytes t =
          >>=-Finds _ (word-Finds 8 t.client_id (omega (arith, v.id))) (
            >>=-Finds _ (word-Finds 4 t.timeout_seconds (omega (arith, v.timeout))) (
              >>=-Finds _ (word-Finds 4 t.num_server_addresses (omega (arith, v.num, v.room))) (
                else-Finds (is_bad_count t.num_server_addresses) _
                  (ground (arith, v.num, v.some_address, v.room))
                  (>>=-Finds _ found (
                    >>=-Finds _ (bytes-Finds key_bytes t.client_to_server_key (sym v.write_key)) (
                      >>=-Finds _ (bytes-Finds key_bytes t.server_to_client_key (sym v.read_key)) (
                        >>=-Finds_last _ (bytes-Finds user_data_bytes t.user_data (sym v.data_size))
                          (ap pure whole)))))))) in
        reads.parses
      where
        found : Finds (read_addresses t.num_server_addresses) (addresses_bytes xs) xs
        found =
            subst (λ n. Finds (read_addresses n) (addresses_bytes xs) xs) (sym v.num)
              (record { parses = read_addresses-Parses xs v.addresses })

        whole :
            record t {
              server_addresses =
                  xs ++ replicate (max_servers_per_connect - t.num_server_addresses) no_address;
            }
            ≡ t
        whole =
            ap
              (λ n. record t {
                server_addresses = xs ++ replicate (max_servers_per_connect - n) no_address;
              })
              v.num
            ∙ ap (λ a. record t { server_addresses = a }) (sym v.array)

    pub length-private_bytes : length private_bytes ≤ 944
    length-private_bytes = omega (
      arith,
      length-append (le_bytes 8 t.client_id) (
          le_bytes 4 t.timeout_seconds
          ++ (le_bytes 4 t.num_server_addresses ++ (addresses_bytes xs ++ key_fields))),
      length-append (le_bytes 4 t.timeout_seconds)
          (le_bytes 4 t.num_server_addresses ++ (addresses_bytes xs ++ key_fields)),
      length-append (le_bytes 4 t.num_server_addresses) (addresses_bytes xs ++ key_fields),
      length-append (addresses_bytes xs) key_fields,
      length-append t.client_to_server_key (t.server_to_client_key ++ t.user_data),
      length-append t.server_to_client_key t.user_data,
      length-le_bytes 8 t.client_id,
      length-le_bytes 4 t.timeout_seconds,
      length-le_bytes 4 t.num_server_addresses,
      length-addresses_bytes xs v.addresses,
      v.room,
      v.write_key,
      v.read_key,
      v.data_size,
    )

    -- The token fills its buffer with its fields, and zeros.
    pub write_connect_token_private_lem :
        (buffer : Bytes)
        → length buffer ≡ connect_token_private_bytes
        → write_connect_token_private t buffer
          ≡ ok (private_bytes ++ replicate (connect_token_private_bytes - length private_bytes) 0)
    unfolding write_connect_token_private private_writes
    write_connect_token_private_lem buffer size =
        let filled =
          filled_with_zeros private_writes private_bytes connect_token_private_bytes buffer
            private_writes-Emits size (omega (arith, length-private_bytes)) in
        rw (filled, write_connect_token_private) refl

    pub read_connect_token_private_lem :
        (rest : Bytes)
        → connect_token_private_bytes ≤ length (private_bytes ++ rest)
        → read_connect_token_private (private_bytes ++ rest) ≡ ok t
    unfolding read_connect_token_private
    read_connect_token_private_lem rest size =
        rw (read_private_fields-Parses [] rest, read_connect_token_private) (ground (arith, size))
