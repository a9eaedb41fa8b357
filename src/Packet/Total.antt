-- ===== src/Packet/Total.antt =====
-- packet.go: `readPacket` on any bytes.
use netcode_go.Prelude.{
  ℕ, ◌+◌, ◌-◌, ◌/◌, ◌%◌, ◌≤◌, false, not, ◌||◌, Bool-cases, Option, none, some, Option-cases,
  length, get_or, Bytes, ok, ◌≡◌, refl, arith, inl, inr, ltb, leb, ◌==◌, if◌then◌else◌,
}
use netcode_go.Buffer.Reader.{◌>>=◌, pure}
use netcode_go.Buffer.Reads.{bytes-Reads, word-Reads, Total, pure-Total, if-Total, >>=-Total}
use netcode_go.Crypto.{IsAead, Crypto, mac_bytes}
use netcode_go.Replay.{ReplayProtection}
use netcode_go.Packet.Write.{version_info}
use netcode_go.Packet.Read.{
  bytes_eq, decrypt_rest, decrypt_packet, Read, ReadConfig, read_body, read_sealed, read_encrypted,
  read_request, read_unencrypted, read_packet, is_replay, advance_replay,
}
use netcode_go.Packet.Parts.{
  allows-Total, KeepsSize-more, decrypt_rest-Total, read_sequence-Reads, read_body-Reads,
  decrypt_packet-KeepsSize, decrypt_connect_token_private-KeepsSize,
}

module _ (c : Crypto) (k : ReadConfig) (replay : Option ReplayProtection) where
  read_plain-Total :
      (buffer : Bytes) (pos packet_type n sequence : ℕ) (w : Option ReplayProtection)
      → pos + n ≤ length buffer
      → Total {A = Read}
          (read_body packet_type n >>= λ p.
            pure {A = Read} (record { packet = p; sequence = sequence; replay = w }))
          (record { buffer = buffer; pos = pos })
  read_plain-Total buffer pos packet_type n sequence w l =
      >>=-Total n _ buffer pos (read_body-Reads packet_type n) l (λ p at h. pure-Total _ _)

  read_sealed-Total :
      (buffer key : Bytes) (prefix sequence pos : ℕ)
      → IsAead c.chacha
      → pos ≤ length buffer
      → Total
          (read_sealed c.chacha (length buffer) k key prefix sequence replay)
          (record { buffer = buffer; pos = pos })
  unfolding read_sealed
  read_sealed-Total buffer key prefix sequence pos laws l =
      if-Total (is_replay replay (prefix % 16) sequence) _ _ _ (λ q. pure-Total _ _)
        (λ q.
          let t =
            if-Total (ltb (length buffer - pos) mac_bytes) _
              (decrypt_rest
                  (decrypt_packet c.chacha prefix sequence key k.protocol_id (length buffer - pos))
                >>= λ decrypted.
                    if not decrypted
                    then pure {A = Read}
                        (record { packet = none; sequence = sequence; replay = replay })
                    else (read_body (prefix % 16) (length buffer - pos - mac_bytes) >>= λ p.
                        pure {A = Read} (record {
                          packet = p;
                          sequence = sequence;
                          replay = advance_replay replay (prefix % 16) sequence;
                        })))
              (record { buffer = buffer; pos = pos })
              (λ r. pure-Total (record { packet = none; sequence = sequence; replay = replay }) _)
              (λ r.
                decrypt_rest-Total _ _ buffer pos
                  (decrypt_packet-KeepsSize c.chacha prefix sequence key k.protocol_id
                    (length buffer - pos) laws)
                  l
                  (λ decrypted after size.
                    if-Total (not decrypted) _ _ _ (λ e. pure-Total _ _)
                      (λ e.
                        read_plain-Total after pos (prefix % 16) (length buffer - pos - mac_bytes)
                          sequence _ (ground (arith, size, r, l))))) in
          record { value = t.value; after = t.after; is = t.is })

  read_encrypted-Total :
      (buffer : Bytes) (prefix pos : ℕ)
      → IsAead c.chacha
      → length k.allowed_packets ≡ 7
      → pos ≤ 1
      → Total
          (read_encrypted c.chacha (length buffer) k replay prefix)
          (record { buffer = buffer; pos = pos })
  unfolding read_encrypted
  read_encrypted-Total buffer prefix pos laws types l = elim (Option-cases k.read_packet_key) [
    | inl e ↦ rw (e, read_encrypted) (pure-Total _ _)
    | inr (key, e) ↦
        rw (e, read_encrypted)
          (if-Total (ltb (length buffer) 18) _ _ _ (λ q. pure-Total _ _)
            (λ q.
              if-Total (leb 7 (prefix % 16)) _ _ _ (λ q. pure-Total _ _)
                (λ q. allows-Total k (prefix % 16) _ _ (ground (arith, q, types)) (
                  if-Total (not (get_or k.allowed_packets (prefix % 16) false)) _ _ _
                    (λ q. pure-Total _ _)
                    (λ q.
                      if-Total (ltb (prefix / 16) 1 || ltb 8 (prefix / 16)) _ _ _
                        (λ q. pure-Total _ _)
                        (λ q.
                          if-Total (ltb (length buffer) (1 + prefix / 16 + mac_bytes)) _ _ _
                            (λ q. pure-Total _ _)
                            (λ q.
                              >>=-Total (prefix / 16) _ buffer pos
                                (read_sequence-Reads (prefix / 16) 0 0) (ground (arith, q, l))
                                (λ sequence at h.
                                  read_sealed-Total buffer key prefix sequence at laws
                                    (ground (arith, q, l, h))))))))))
  ]

  read_request-Total :
      (buffer key : Bytes) (pos : ℕ)
      → IsAead c.xchacha
      → pos ≤ 1
      → length buffer ≡ 1078
      → Total (read_request c k key) (record { buffer = buffer; pos = pos })
  unfolding read_request
  read_request-Total buffer key pos laws l size =
      >>=-Total 13 _ buffer pos (bytes-Reads 13) (omega (arith, l, size)) (λ version p1 l1.
        if-Total (not (bytes_eq version version_info)) _ _ _ (λ q. pure-Total none _)
          (λ q. >>=-Total 8 _ buffer p1 (word-Reads 8) (omega (arith, l, l1, size)) (λ id p2 l2.
            if-Total (not (id == k.protocol_id)) _ _ _ (λ q. pure-Total none _)
              (λ q.
                >>=-Total 8 _ buffer p2 (word-Reads 8) (omega (arith, l, l1, l2, size))
                  (λ expire p3 l3.
                    if-Total
                      (leb expire k.current_timestamp
                        || ltb expire k.min_connect_token_expire_timestamp)
                      _ _ _ (λ q. pure-Total none _)
                      (λ q.
                        >>=-Total 24 _ buffer p3 (bytes-Reads 24)
                          (omega (arith, l, l1, l2, l3, size))
                          (λ nonce p4 l4.
                            decrypt_rest-Total _ _ buffer p4
                              (KeepsSize-more 1024 (length buffer - p4) _
                                (omega (arith, l, l1, l2, l3, l4, size))
                                (decrypt_connect_token_private-KeepsSize c k.protocol_id expire
                                  nonce key laws))
                              (omega (arith, l, l1, l2, l3, l4, size))
                              (λ decrypted after e.
                                if-Total (not decrypted) _ _ _ (λ q. pure-Total none _)
                                  (λ q.
                                    >>=-Total 1024 _ after p4 (bytes-Reads 1024)
                                      (omega (arith, l, l1, l2, l3, l4, e, size))
                                      (λ token p5 l5. pure-Total _ _))))))))))

  read_unencrypted-Total :
      (buffer : Bytes) (pos : ℕ)
      → IsAead c.xchacha
      → length k.allowed_packets ≡ 7
      → pos ≤ 1
      → Total (read_unencrypted c (length buffer) k replay) (record { buffer = buffer; pos = pos })
  unfolding read_unencrypted
  read_unencrypted-Total buffer pos laws types l = allows-Total k 0 _ _ (omega (arith, types)) (
      if-Total (not (get_or k.allowed_packets 0 false)) _ _ _ (λ q. pure-Total _ _)
        (λ q.
          if-Total (not (length buffer == 1078)) _ _ _ (λ r. pure-Total _ _)
            (λ r. keyed (ground (arith, r)) k.private_key)))
    where
      keyed :
          length buffer ≡ 1078
          → (key : Option Bytes)
          → Total {A = Read}
              (elim key [
                | none ↦ pure {A = Read} (record { packet = none; sequence = 0; replay = replay })
                | some private_key ↦
                    (read_request c k private_key >>= λ p.
                    pure {A = Read} (record { packet = p; sequence = 0; replay = replay }))
              ])
              (record { buffer = buffer; pos = pos })
      keyed size none = pure-Total _ _
      keyed size (some key) =
          let t = read_request-Total buffer key pos laws l size in
          record {
            value = record { packet = t.value; sequence = 0; replay = replay };
            after = t.after;
            is = rw (t.is, ◌>>=◌) refl;
          }

  -- `readPacket` comes to an end without a panic on any bytes, for any keys, window, times and array
  -- of 7 allowed packet types, with lawful ciphers: it gives a packet, or nil.
  pub read_packet-ok :
      (buffer : Bytes)
      → IsAead c.chacha
      → IsAead c.xchacha
      → length k.allowed_packets ≡ 7
      → (r : Read) × (read_packet c k replay buffer ≡ ok r)
  unfolding read_packet
  read_packet-ok buffer laws xlaws types = elim (Bool-cases (ltb (length buffer) 1)) [
    | inl q ↦ (record { packet = none; sequence = 0; replay = replay }, rw (q, read_packet) refl)
    | inr q ↦
        let t =
          >>=-Total 1
            (λ prefix.
              if prefix == 0
              then read_unencrypted c (length buffer) k replay
              else read_encrypted c.chacha (length buffer) k replay prefix)
            buffer 0 (word-Reads 1) (ground (arith, q))
            (λ prefix at h.
              if-Total (prefix == 0) _ _ _
                (λ r. read_unencrypted-Total buffer at xlaws types (omega (arith, h)))
                (λ r. read_encrypted-Total buffer prefix at laws types (omega (arith, h)))) in
        (t.value, ground (arith, q, t.is))
  ]
