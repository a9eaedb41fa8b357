-- ===== src/Packet/Request.antt =====
-- packet.go: connection requests, from writing to reading. They are not encrypted as a whole: the
-- private connect token in them is.
use netcode_go.Prelude.{
  ℕ, ◌^◌, ◌<◌, ◌≤◌, ◌≡◌, refl, sym, ap, subst, arith, true, false, not, ◌||◌, ltb, leb, ◌==◌,
  Option, some, [], ◌∷◌, ◌++◌, length, drop, get_or, Bytes, ok, append_assoc, append-nil,
  length-append,
}
use netcode_go.Buffer.{le_bytes}
use netcode_go.Buffer.Words.{length-le_bytes}
use netcode_go.Buffer.Writer
use netcode_go.Buffer.Emits.{Emits, Puts, >>-Puts, store-Puts, bytes-Puts}
use netcode_go.Buffer.Reader.{◌>>=◌, pure, bytes}
use netcode_go.Buffer.Parses.{
  from, Goes, Finds-Goes, >>=-Goes, else-Goes, word-Finds, bytes-Finds, uint8-Parses,
}
use netcode_go.Crypto.{Aead, Crypto}
use netcode_go.Replay.{ReplayProtection}
use netcode_go.Packet.{ConnectionRequest, request}
use netcode_go.Packet.Write.{write_request, write_packet, version_info, version_info_bytes}
use netcode_go.Packet.Read.{
  allows, bytes_eq, decrypt_rest, decrypt_connect_token_private, ReadConfig, read_request,
  read_unencrypted, read_packet, connect_token_nonce_bytes, connect_token_private_bytes,
}
use netcode_go.Packet.RoundTrip.{decrypt_rest_lem, allows_lem}

same_version : not (bytes_eq version_info version_info) ≡ false
unfolding bytes_eq
same_version = refl

-- The fields have their sizes and widths, and the version is the library's.
pub record IsRequest (r : ConnectionRequest) : Type 0 where
  pub version : r.version_info ≡ version_info
  pub protocol : r.protocol_id < 2 ^ 64
  pub expiry : r.connect_token_expire_timestamp < 2 ^ 64
  pub nonce_size : length r.connect_token_nonce ≡ connect_token_nonce_bytes
  pub token_size : length r.connect_token_data ≡ connect_token_private_bytes

-- A receiver that lets the request through, and opens its token to `clear`.
pub record Lets (c : Crypto) (k : ReadConfig) (r : ConnectionRequest) (key clear : Bytes)
    : Type 0 where
  pub allowed : get_or k.allowed_packets 0 false ≡ true
  pub has_key : k.private_key ≡ some key
  pub protocol : r.protocol_id ≡ k.protocol_id
  pub not_expired : k.current_timestamp < r.connect_token_expire_timestamp
  pub not_old : k.min_connect_token_expire_timestamp ≤ r.connect_token_expire_timestamp
  pub opens :
      decrypt_connect_token_private c k.protocol_id r.connect_token_expire_timestamp
        r.connect_token_nonce key r.connect_token_data
      ≡ ok clear
  pub clear_size : length clear ≡ connect_token_private_bytes

module _ (r : ConnectionRequest) where
  -- The header up to each field, and what comes behind the version, the protocol id and the expiry.
  abbrev before_protocol : Bytes
  before_protocol = (0 ∷ []) ++ version_info

  abbrev before_expiry : Bytes
  before_expiry = before_protocol ++ le_bytes 8 r.protocol_id

  abbrev before_nonce : Bytes
  before_nonce = before_expiry ++ le_bytes 8 r.connect_token_expire_timestamp

  abbrev header : Bytes
  header = before_nonce ++ r.connect_token_nonce

  abbrev behind_expiry : Bytes
  behind_expiry = r.connect_token_nonce ++ r.connect_token_data

  abbrev behind_protocol : Bytes
  behind_protocol = le_bytes 8 r.connect_token_expire_timestamp ++ behind_expiry

  abbrev behind_version : Bytes
  behind_version = le_bytes 8 r.protocol_id ++ behind_protocol

  abbrev pub request_bytes : Bytes
  request_bytes = header ++ r.connect_token_data

  module _ (v : IsRequest r) where
    write_request-Emits : Emits (write_request r) request_bytes
    unfolding write_request
    write_request-Emits =
        let writes : Puts (write_request r) request_bytes =
          >>-Puts
            (>>-Puts
              (>>-Puts
                (>>-Puts
                  (>>-Puts (store-Puts (0 ∷ [])) (
                    subst (λ bs. Puts (Writer.bytes bs) version_info) (sym v.version)
                      (bytes-Puts version_info)))
                  (store-Puts (le_bytes 8 r.protocol_id)))
                (store-Puts (le_bytes 8 r.connect_token_expire_timestamp)))
              (bytes-Puts r.connect_token_nonce))
            (bytes-Puts r.connect_token_data) in
        writes.emits

    length-header : length header ≡ 54
    length-header = omega (
      arith,
      length-append before_nonce r.connect_token_nonce,
      length-append before_expiry (le_bytes 8 r.connect_token_expire_timestamp),
      length-append before_protocol (le_bytes 8 r.protocol_id),
      length-le_bytes 8 r.protocol_id,
      length-le_bytes 8 r.connect_token_expire_timestamp,
      v.nonce_size,
    )

    pub length-request_bytes : length request_bytes ≡ 1078
    length-request_bytes =
        omega (arith, length-append header r.connect_token_data, length-header, v.token_size)

    pub write_packet-request :
        (c : Aead) (buffer : Bytes) (sequence : ℕ) (key : Bytes) (protocol_id : ℕ)
        → 1078 ≤ length buffer
        → write_packet c (request r) buffer sequence key protocol_id
          ≡ ok (request_bytes ++ drop 1078 buffer, 1078)
    unfolding write_packet
    write_packet-request c buffer sequence key protocol_id size =
        let e = length-request_bytes in
        rw (write_request-Emits [] buffer (omega (arith, e)), write_packet)
          (ap (λ n. ok (request_bytes ++ drop n buffer, n)) e)

    module _ (c : Crypto) (k : ReadConfig) (key clear : Bytes) (l : Lets c k r key clear) where
      -- The request as the receiver gets it, with the opened token.
      unfoldable pub opened_request : ConnectionRequest
      opened_request = record r { connect_token_data = clear }

      read_request-Goes :
          Goes
            (read_request c k key)
            (from (0 ∷ []) (version_info ++ behind_version))
            (some (request opened_request))
            (from (header ++ clear) [])
      unfolding read_request opened_request
      read_request-Goes =
          >>=-Goes _
            (Finds-Goes (0 ∷ []) behind_version (bytes-Finds version_info_bytes version_info refl))
            (else-Goes (not (bytes_eq version_info version_info)) _ same_version (
              >>=-Goes _
                (Finds-Goes before_protocol behind_protocol
                  (word-Finds 8 r.protocol_id (omega (arith, v.protocol))))
                (else-Goes (not (r.protocol_id == k.protocol_id)) _ (ground (arith, l.protocol)) (
                  >>=-Goes _
                    (Finds-Goes before_expiry behind_expiry
                      (word-Finds 8 r.connect_token_expire_timestamp (omega (arith, v.expiry))))
                    (else-Goes
                      (leb r.connect_token_expire_timestamp k.current_timestamp
                        || ltb r.connect_token_expire_timestamp
                            k.min_connect_token_expire_timestamp)
                      _ (ground (arith, l.not_expired, l.not_old))
                      (>>=-Goes _
                        (Finds-Goes before_nonce r.connect_token_data (
                          bytes-Finds connect_token_nonce_bytes r.connect_token_nonce
                            (sym v.nonce_size)))
                        (>>=-Goes _ opened (
                          >>=-Goes _ token (record {
                            is =
                                ap
                                  (λ i. ok (
                                    some (
                                        request (record r {
                                          version_info = i;
                                          connect_token_data = clear;
                                        })),
                                    from (header ++ clear) [],
                                  ))
                                  (sym v.version);
                          })))))))))
        where
          opened :
              Goes
                (decrypt_rest (
                  decrypt_connect_token_private c k.protocol_id r.connect_token_expire_timestamp
                    r.connect_token_nonce key))
                (from header r.connect_token_data)
                true
                (from header clear)
          opened = record { is = decrypt_rest_lem _ header r.connect_token_data clear l.opens }

          token :
              Goes
                (bytes connect_token_private_bytes)
                (from header clear)
                clear
                (from (header ++ clear) [])
          token =
              subst
                (λ bs.
                  Goes (bytes connect_token_private_bytes) (from header bs) clear
                    (from (header ++ clear) []))
                (append-nil clear)
                (Finds-Goes header []
                  (bytes-Finds connect_token_private_bytes clear (sym l.clear_size)))

      read_unencrypted-Goes :
          (replay : Option ReplayProtection)
          → Goes
              (read_unencrypted c (length request_bytes) k replay)
              (from (0 ∷ []) (version_info ++ behind_version))
              (record { packet = some (request opened_request); sequence = 0; replay = replay })
              (from (header ++ clear) [])
      unfolding read_unencrypted
      read_unencrypted-Goes replay =
          let reads : Goes
              (read_request c k key >>= λ p.
                pure (record { packet = p; sequence = 0; replay = replay }))
              _ _ _ =
            >>=-Goes _ read_request-Goes (record { is = refl }) in
          let start = from (0 ∷ []) (version_info ++ behind_version) in
          let admitted : Goes (allows k 0) start true start = record {
            is = allows_lem k 0 start l.allowed;
          } in
          >>=-Goes _ admitted (record { is = rw (length-request_bytes, l.has_key) (reads.is) })

      same_bytes : (0 ∷ []) ++ (version_info ++ behind_version) ≡ request_bytes
      same_bytes = simp append_assoc

      read_packet-request :
          (replay : Option ReplayProtection)
          → read_packet c k replay ((0 ∷ []) ++ (version_info ++ behind_version))
            ≡ ok (record { packet = some (request opened_request); sequence = 0; replay = replay })
      unfolding read_packet
      read_packet-request replay =
          let e : length ((0 ∷ []) ++ (version_info ++ behind_version)) ≡ length request_bytes =
            ap (λ bs. length bs) same_bytes in
          let first = uint8-Parses 0 (omega arith) [] (version_info ++ behind_version) in
          let rest = (read_unencrypted-Goes replay).is in
          ground (arith, first, rest, e, length-request_bytes)

      -- A connection request of the right sizes is written, whatever the sequence number and key, as
      -- its 1078 bytes at the front of a buffer of at least these, and a receiver that allows
      -- requests, has a private key, the same protocol id and a time before the expiry, and opens the
      -- private data under that key to 1024 bytes, reads them as the request with the opened data,
      -- and its replay window stays.
      pub request_round_trip :
          (a : Aead) (buffer : Bytes) (sequence : ℕ) (packet_key : Bytes) (protocol_id : ℕ)
          (replay : Option ReplayProtection)
          → 1078 ≤ length buffer
          → (write_packet a (request r) buffer sequence packet_key protocol_id
              ≡ ok (request_bytes ++ drop 1078 buffer, 1078))
            × (read_packet c k replay request_bytes
                ≡ ok (record {
                  packet = some (request opened_request);
                  sequence = 0;
                  replay = replay;
                }))
      request_round_trip a buffer sequence packet_key protocol_id replay size = (
        write_packet-request a buffer sequence packet_key protocol_id size,
        subst
            (λ bs.
              read_packet c k replay bs
              ≡ ok (record {
                packet = some (request opened_request);
                sequence = 0;
                replay = replay;
              }))
            same_bytes (read_packet-request replay),
      )
