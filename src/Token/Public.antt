-- ===== src/Token/Public.antt =====
-- token.go: the public connect token, from writing to reading.
use netcode_go.Prelude.{
  Bool, ℕ, ◌+◌, ◌-◌, ◌^◌, ◌<◌, ◌≤◌, ◌≡◌, ◌∙◌, refl, sym, ap, subst, arith, true, false, not, ltb,
  List, [], ◌++◌, length, Bytes, ok, append_assoc, take, replicate, length-append, length-replicate,
  take-append,
}
use netcode_go.Address.{Address, no_address, array_eq}
use netcode_go.Buffer.{le_bytes}
use netcode_go.Buffer.Words.{length-le_bytes}
use netcode_go.Buffer.Emits.{Emits, Puts, >>-Puts, store-Puts, bytes-Puts}
use netcode_go.Buffer.Parses.{
  Parses, Finds, >>=-Finds, else-Finds, >>=-Finds_last, word-Finds, bytes-Finds,
}
use netcode_go.Crypto.{key_bytes}
use netcode_go.Packet.Write.{version_info, version_info_bytes}
use netcode_go.Packet.Read.{connect_token_private_bytes, connect_token_nonce_bytes}
use netcode_go.Token.{write_addresses, max_servers_per_connect}
use netcode_go.Token.Connect.{
  ConnectToken, connect_token_bytes, write_connect_fields, write_connect_token, read_addresses_onto,
  read_server_fields, read_sealed_fields, read_connect_fields, read_connect_token,
}
use netcode_go.Token.Addresses.{addresses_bytes, AllAddresses, write_addresses-Emits}
use netcode_go.Token.Fields.{
  length-addresses_bytes, filled_with_zeros, read_addresses_onto-Parses, room, replicate_room,
}
use netcode_go.Token.Private.{is_bad_count}

-- The arrays have their sizes, the numbers their widths and order, and there are from 1 to 32
-- addresses `xs`.
pub record IsPublicToken (t : ConnectToken) (xs : List Address) : Type 0 where
  pub protocol : t.protocol_id < 2 ^ 64
  pub created : t.create_timestamp < 2 ^ 64
  pub expires : t.expire_timestamp < 2 ^ 64
  pub in_order : t.create_timestamp ≤ t.expire_timestamp
  pub nonce_size : length t.nonce ≡ connect_token_nonce_bytes
  pub data_size : length t.private_data ≡ connect_token_private_bytes
  pub timeout : t.timeout_seconds < 2 ^ 32
  pub num : t.num_server_addresses ≡ length xs
  pub some_address : 0 < length xs
  pub room : length xs ≤ max_servers_per_connect
  pub array : t.server_addresses ≡ xs ++ replicate (max_servers_per_connect - length xs) no_address
  pub addresses : AllAddresses xs
  pub write_key : length t.client_to_server_key ≡ key_bytes
  pub read_key : length t.server_to_client_key ≡ key_bytes

same_version : not (array_eq version_info version_info) ≡ false
unfolding array_eq
same_version = refl

module _ (t : ConnectToken) (xs : List Address) where
  abbrev server_fields : Bytes
  server_fields = addresses_bytes xs ++ (t.client_to_server_key ++ t.server_to_client_key)

  abbrev sealed_fields : Bytes
  sealed_fields =
      t.nonce
      ++ (t.private_data
          ++ (le_bytes 4 t.timeout_seconds ++ (le_bytes 4 t.num_server_addresses ++ server_fields)))

  abbrev pub public_bytes : Bytes
  public_bytes =
      version_info
      ++ (le_bytes 8 t.protocol_id
          ++ (le_bytes 8 t.create_timestamp ++ (le_bytes 8 t.expire_timestamp ++ sealed_fields)))

  module _ (v : IsPublicToken t xs) where
    taken : take t.num_server_addresses t.server_addresses ≡ xs
    taken =
        ap (λ ys. take t.num_server_addresses ys) v.array
        ∙ take-append xs (replicate (max_servers_per_connect - length xs) no_address)
            t.num_server_addresses v.num

    write_connect_fields-Emits : Emits (write_connect_fields t) public_bytes
    unfolding write_connect_fields
    write_connect_fields-Emits =
        let writes : Puts (write_connect_fields t) _ =
          >>-Puts
            (>>-Puts
              (>>-Puts
                (>>-Puts
                  (>>-Puts
                    (>>-Puts
                      (>>-Puts
                        (>>-Puts
                          (>>-Puts
                            (>>-Puts (bytes-Puts version_info)
                              (store-Puts (le_bytes 8 t.protocol_id)))
                            (store-Puts (le_bytes 8 t.create_timestamp)))
                          (store-Puts (le_bytes 8 t.expire_timestamp)))
                        (bytes-Puts t.nonce))
                      (bytes-Puts t.private_data))
                    (store-Puts (le_bytes 4 t.timeout_seconds)))
                  (store-Puts (le_bytes 4 t.num_server_addresses)))
                addresses)
              (bytes-Puts t.client_to_server_key))
            (bytes-Puts t.server_to_client_key) in
        subst (λ bs. Emits (write_connect_fields t) bs) (simp append_assoc) writes.emits
      where
        addresses :
            Puts
              (write_addresses (take t.num_server_addresses t.server_addresses))
              (addresses_bytes xs)
        addresses =
            subst (λ ys. Puts (write_addresses ys) (addresses_bytes xs)) (sym taken)
              (record { emits = write_addresses-Emits xs v.addresses })

    length-public_bytes : length public_bytes ≤ 1765
    length-public_bytes = omega (
      arith,
      length-append version_info (
          le_bytes 8 t.protocol_id
          ++ (le_bytes 8 t.create_timestamp ++ (le_bytes 8 t.expire_timestamp ++ sealed_fields))),
      length-append (le_bytes 8 t.protocol_id)
          (le_bytes 8 t.create_timestamp ++ (le_bytes 8 t.expire_timestamp ++ sealed_fields)),
      length-append (le_bytes 8 t.create_timestamp)
          (le_bytes 8 t.expire_timestamp ++ sealed_fields),
      length-append (le_bytes 8 t.expire_timestamp) sealed_fields,
      length-append t.nonce (
          t.private_data
          ++ (le_bytes 4 t.timeout_seconds
              ++ (le_bytes 4 t.num_server_addresses ++ server_fields))),
      length-append t.private_data
          (le_bytes 4 t.timeout_seconds ++ (le_bytes 4 t.num_server_addresses ++ server_fields)),
      length-append (le_bytes 4 t.timeout_seconds)
          (le_bytes 4 t.num_server_addresses ++ server_fields),
      length-append (le_bytes 4 t.num_server_addresses) server_fields,
      length-append (addresses_bytes xs) (t.client_to_server_key ++ t.server_to_client_key),
      length-append t.client_to_server_key t.server_to_client_key,
      length-le_bytes 8 t.protocol_id,
      length-le_bytes 8 t.create_timestamp,
      length-le_bytes 8 t.expire_timestamp,
      length-le_bytes 4 t.timeout_seconds,
      length-le_bytes 4 t.num_server_addresses,
      length-addresses_bytes xs v.addresses,
      v.room,
      v.nonce_size,
      v.data_size,
      v.write_key,
      v.read_key,
    )

    abbrev pub public_written : Bytes
    public_written = public_bytes ++ replicate (connect_token_bytes - length public_bytes) 0

    pub write_connect_token_lem :
        (buffer : Bytes)
        → length buffer ≡ connect_token_bytes
        → write_connect_token t buffer ≡ ok public_written
    unfolding write_connect_token
    write_connect_token_lem buffer size =
        let filled =
          filled_with_zeros (write_connect_fields t) public_bytes connect_token_bytes buffer
            write_connect_fields-Emits size (omega (arith, length-public_bytes)) in
        rw (filled, write_connect_token) refl

    module _ (old : ConnectToken)
        (empty : old.server_addresses ≡ replicate max_servers_per_connect no_address) where
      found :
          Finds
            (read_addresses_onto t.num_server_addresses old.server_addresses)
            (addresses_bytes xs)
            (t.server_addresses, true)
      found =
          let whole : List Address × Bool = (xs ++ replicate (32 - length xs) no_address, true) in
          let e : length xs + (32 - length xs) ≡ 32 = omega (arith, v.room) in
          let zeros : room xs (32 - length xs) ≡ old.server_addresses =
            replicate_room xs (32 - length xs) ∙ ap (λ k. replicate k no_address) e ∙ sym empty in
          let reads : Finds (read_addresses_onto (length xs) (room xs (32 - length xs)))
              (addresses_bytes xs) whole =
            record { parses = read_addresses_onto-Parses xs (32 - length xs) v.addresses } in
          subst
            (λ ys.
              Finds (read_addresses_onto t.num_server_addresses old.server_addresses)
                (addresses_bytes xs) (ys, true))
            (sym v.array)
            (subst
              (λ n. Finds (read_addresses_onto n old.server_addresses) (addresses_bytes xs) whole)
              (sym v.num)
              (subst (λ ys. Finds (read_addresses_onto (length xs) ys) (addresses_bytes xs) whole)
                zeros reads))

      read_connect_fields-Parses : Parses (read_connect_fields old) public_bytes (t, true)
      unfolding read_connect_fields read_sealed_fields read_server_fields
      read_connect_fields-Parses =
          let reads : Finds (read_connect_fields old) public_bytes (t, true) =
            >>=-Finds _ (bytes-Finds version_info_bytes version_info refl) (
              else-Finds (not (array_eq version_info version_info)) _ same_version (
                >>=-Finds _ (word-Finds 8 t.protocol_id (omega (arith, v.protocol))) (
                  >>=-Finds _ (word-Finds 8 t.create_timestamp (omega (arith, v.created))) (
                    >>=-Finds _ (word-Finds 8 t.expire_timestamp (omega (arith, v.expires))) (
                      else-Finds (ltb t.expire_timestamp t.create_timestamp) _
                        (ground (arith, v.in_order))
                        (>>=-Finds _
                          (bytes-Finds connect_token_nonce_bytes t.nonce (sym v.nonce_size))
                          (>>=-Finds _
                            (bytes-Finds connect_token_private_bytes t.private_data
                              (sym v.data_size))
                            (>>=-Finds _ (word-Finds 4 t.timeout_seconds (omega (arith, v.timeout)))
                              (>>=-Finds _
                                (word-Finds 4 t.num_server_addresses (omega (arith, v.num, v.room)))
                                (else-Finds (is_bad_count t.num_server_addresses) _
                                  (ground (arith, v.num, v.some_address, v.room))
                                  (>>=-Finds _ found (
                                    >>=-Finds _
                                      (bytes-Finds key_bytes t.client_to_server_key
                                        (sym v.write_key))
                                      (>>=-Finds_last _
                                        (bytes-Finds key_bytes t.server_to_client_key
                                          (sym v.read_key))
                                        refl))))))))))))) in
          reads.parses

      pub read_connect_token_lem : read_connect_token old public_written ≡ ok (t, true)
      unfolding read_connect_token
      read_connect_token_lem =
          let zeros : Bytes = replicate (connect_token_bytes - length public_bytes) 0 in
          let size : length public_written ≡ connect_token_bytes = omega (
            arith,
            length-append public_bytes zeros,
            length-replicate {A = ℕ} (connect_token_bytes - length public_bytes) 0,
            length-public_bytes,
          ) in
          rw (read_connect_fields-Parses [] zeros, read_connect_token) (ground (arith, size))
