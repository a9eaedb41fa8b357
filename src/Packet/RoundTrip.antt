-- ===== src/Packet/RoundTrip.antt =====
-- packet.go: `readPacket` against the bytes of a packet.
use netcode_go.Prelude.{
  Result, get_or_outside, ℕ, ◌+◌, ◌-◌, ◌*◌, ◌/◌, ◌%◌, ◌^◌, ◌≤◌, ◌<◌, ◌≡◌, ◌∙◌, refl, sym, ap, subst,
  arith, true, false, Option, none, some, [], ◌∷◌, ◌++◌, length, drop, get_or, length-append,
  take-append, drop-append, ok, Bytes,
}
use netcode_go.Buffer.{le_bytes}
use netcode_go.Buffer.Words.{length-le_bytes}
use netcode_go.Buffer.Reader.{Reader, R, ◌>>=◌, pure, bytes, uint32, uint64}
use netcode_go.Buffer.Parses.{
  from, Parses, word-Parses, bytes-Parses, uint8-Parses, >>=-Parses, pure-Parses,
}
use netcode_go.Crypto.{Aead, IsAead, Crypto, mac_bytes}
use netcode_go.Crypto.Laws.{nonce_bytes, packet_nonce_lem, decrypt_aead_lem}
use netcode_go.Replay.{ReplayProtection, advance_sequence}
use netcode_go.Packet.{
  Packet, request, denied, challenge, response, keep_alive, payload, disconnect, packet_type,
}
use netcode_go.Packet.Write.{sequence_number_bytes_required, prefix_byte}
use netcode_go.Packet.Read.{
  allows, decrypt_rest, Read, ReadConfig, read_sequence, read_body, is_replay, advance_replay,
  decrypt_packet, read_sealed, read_encrypted, read_packet,
}
use netcode_go.Packet.Sequence.{sequence_number_bytes_required_fits, read_sequence-Parses}
use netcode_go.Packet.Wire.{
  IsEncrypted, body_bytes, additional_bytes, packet_additional_data_lem, prefix_byte_lem,
  header_bytes, wire, packet_type-lt,
}

-- An encrypted packet whose fields have the widths and sizes that the wire format gives them.
abbrev pub IsWellFormed : Packet → Type 0
IsWellFormed (request r) = ⊥
IsWellFormed denied = Unit {0}
IsWellFormed (challenge c) =
    (c.challenge_token_sequence < 2 ^ 64) × (length c.challenge_token_data ≡ 300)
IsWellFormed (response c) =
    (c.challenge_token_sequence < 2 ^ 64) × (length c.challenge_token_data ≡ 300)
IsWellFormed (keep_alive k) = (k.client_index < 2 ^ 32) × (k.max_clients < 2 ^ 32)
IsWellFormed (payload p) = (1 ≤ length p.payload_data) × (length p.payload_data ≤ 1200)
IsWellFormed disconnect = Unit {0}

pub IsWellFormed-IsEncrypted : (p : Packet) → IsWellFormed p → IsEncrypted p
IsWellFormed-IsEncrypted (request r) v = v
IsWellFormed-IsEncrypted denied v = tt
IsWellFormed-IsEncrypted _ v = tt

-- A read whose value is then only put together.
map-Parses :
    {A B : Type 0} (f : R A) (g : A → B) (bs : Bytes) (a : A)
    → Parses f bs a
    → Parses (f >>= λ x. pure (g x)) bs (g a)
map-Parses f g bs a h out rest = rw (h out rest, ◌>>=◌) refl

pub two_reads :
    {A B C : Type 0} (f : R A) (g : R B) (k : A → B → C) (cs bs : Bytes) (a : A) (b : B)
    → Parses f cs a
    → Parses g bs b
    → Parses (f >>= λ x. (g >>= λ y. pure (k x y))) (cs ++ bs) (k a b)
two_reads f g k cs bs a b hf hg =
    >>=-Parses f (λ x. (g >>= λ y. pure (k x y))) cs bs a (k a b) hf (map-Parses g (k a) bs b hg)

read_body-Parses :
    (p : Packet) (n : ℕ)
    → IsWellFormed p
    → n ≡ length (body_bytes p)
    → Parses (read_body (packet_type p) n) (body_bytes p) (some p)
unfolding read_body body_bytes
read_body-Parses (request r) n v e = absurd v
read_body-Parses denied n v e =
    subst (λ m. Parses (read_body 1 m) [] (some denied)) (sym e) (pure-Parses (some denied))
read_body-Parses (challenge c) n v e =
    let size : 308 ≡ n = omega (
      arith,
      length-append (le_bytes 8 c.challenge_token_sequence) c.challenge_token_data,
      length-le_bytes 8 c.challenge_token_sequence,
    ) in
    subst (λ m. Parses (read_body 2 m) (body_bytes (challenge c)) (some (challenge c))) size
      (two_reads uint64 (bytes 300)
        (λ a b.
          some (challenge (record { challenge_token_sequence = a; challenge_token_data = b })))
        (le_bytes 8 c.challenge_token_sequence) c.challenge_token_data c.challenge_token_sequence
        c.challenge_token_data (word-Parses 8 c.challenge_token_sequence v.0)
        (bytes-Parses 300 c.challenge_token_data (sym v.1)))
read_body-Parses (response c) n v e =
    let size : 308 ≡ n = omega (
      arith,
      length-append (le_bytes 8 c.challenge_token_sequence) c.challenge_token_data,
      length-le_bytes 8 c.challenge_token_sequence,
    ) in
    subst (λ m. Parses (read_body 3 m) (body_bytes (response c)) (some (response c))) size
      (two_reads uint64 (bytes 300)
        (λ a b. some (response (record { challenge_token_sequence = a; challenge_token_data = b })))
        (le_bytes 8 c.challenge_token_sequence) c.challenge_token_data c.challenge_token_sequence
        c.challenge_token_data (word-Parses 8 c.challenge_token_sequence v.0)
        (bytes-Parses 300 c.challenge_token_data (sym v.1)))
read_body-Parses (keep_alive k) n v e =
    let size : 8 ≡ n = omega (
      arith,
      length-append (le_bytes 4 k.client_index) (le_bytes 4 k.max_clients),
      length-le_bytes 4 k.client_index,
      length-le_bytes 4 k.max_clients,
    ) in
    subst (λ m. Parses (read_body 4 m) (body_bytes (keep_alive k)) (some (keep_alive k))) size
      (two_reads uint32 uint32
        (λ a b. some (keep_alive (record { client_index = a; max_clients = b })))
        (le_bytes 4 k.client_index) (le_bytes 4 k.max_clients) k.client_index k.max_clients
        (word-Parses 4 k.client_index v.0) (word-Parses 4 k.max_clients v.1))
read_body-Parses (payload p) n v e = λ out rest. ground (
  arith,
  map-Parses (bytes n) (λ b. some (payload (record { payload_data = b }))) p.payload_data
      p.payload_data (bytes-Parses n p.payload_data e) out rest,
)
read_body-Parses disconnect n v e =
    subst (λ m. Parses (read_body 6 m) [] (some disconnect)) (sym e) (pure-Parses (some disconnect))

decrypt_packet_lem :
    (c : Aead) (prefix s : ℕ) (key : Bytes) (id n : ℕ) (body : Bytes)
    → IsAead c
    → length key ≡ 32
    → n ≡ length body + mac_bytes
    → let sealed = c.seal key (nonce_bytes s) body (additional_bytes id prefix) in
      decrypt_packet c prefix s key id n sealed ≡ ok (body ++ drop (length body) sealed)
unfolding decrypt_packet
decrypt_packet_lem c prefix s key id n body laws k e =
    rw (packet_additional_data_lem id prefix, decrypt_packet)
      (rw packet_nonce_lem (
        decrypt_aead_lem c body (additional_bytes id prefix) (nonce_bytes s) key laws
          (laws.new_ok key k) n e))

pub decrypt_rest_lem :
    (f : Bytes → Result Bytes) (out rest plain : Bytes)
    → f rest ≡ ok plain
    → decrypt_rest f (from out rest) ≡ ok (true, from out plain)
unfolding decrypt_rest
decrypt_rest_lem f out rest plain e =
    rw (drop-append out rest (length out) refl, decrypt_rest)
      (rw e (rw (take-append out rest (length out) refl) refl))

-- A packet type that is allowed is in the range of the types.
pub allows_lem :
    (k : ReadConfig) (packet_type : ℕ) (r : Reader)
    → get_or k.allowed_packets packet_type false ≡ true
    → allows k packet_type r ≡ ok (true, r)
unfolding allows
allows_lem k packet_type r h = ground (arith, h, get_or_outside k.allowed_packets packet_type false)

-- The window after a packet: keep-alives, payloads and disconnects are recorded.
abbrev pub recorded : Packet → ℕ → ReplayProtection → ReplayProtection
recorded (request p) s r = r
recorded denied s r = r
recorded (challenge p) s r = r
recorded (response p) s r = r
recorded (keep_alive p) s r = advance_sequence r s
recorded (payload p) s r = advance_sequence r s
recorded disconnect s r = advance_sequence r s

abbrev pub recorded_replay : Packet → ℕ → Option ReplayProtection → Option ReplayProtection
recorded_replay p s none = none
recorded_replay p s (some r) = some (recorded p s r)

advance_replay_lem :
    (p : Packet) (s : ℕ) (replay : Option ReplayProtection)
    → advance_replay replay (packet_type p) s ≡ recorded_replay p s replay
unfolding advance_replay
advance_replay_lem p s none = refl
advance_replay_lem p s (some r) = ground arith

-- What `readPacket` leaves when it takes a packet.
abbrev pub accepted : Packet → ℕ → Option ReplayProtection → Read
accepted p s replay = record { packet = some p; sequence = s; replay = recorded_replay p s replay }

read_sealed_lem :
    (c : Aead) (k : ReadConfig) (replay : Option ReplayProtection) (p : Packet) (s : ℕ)
    (key : Bytes) (prefix : ℕ) (header : Bytes) (total : ℕ)
    → IsAead c
    → IsWellFormed p
    → length key ≡ 32
    → prefix % 16 ≡ packet_type p
    → is_replay replay (packet_type p) s ≡ false
    → let sealed =
        c.seal key (nonce_bytes s) (body_bytes p) (additional_bytes k.protocol_id prefix) in
      total ≡ length header + length sealed
      → read_sealed c total k key prefix s replay (from header sealed)
        ≡ ok (
          accepted p s replay,
          from (header ++ body_bytes p) (drop (length (body_bytes p)) sealed),
        )
unfolding read_sealed
read_sealed_lem c k replay p s key prefix header total laws v kl e fresh h =
    let sealed =
      c.seal key (nonce_bytes s) (body_bytes p) (additional_bytes k.protocol_id prefix) in
    let plain = body_bytes p ++ drop (length (body_bytes p)) sealed in
    let n = total - length header in
    let sizes =
      laws.length-seal key (nonce_bytes s) (body_bytes p) (additional_bytes k.protocol_id prefix) in
    let decrypted =
      decrypt_rest_lem (decrypt_packet c prefix s key k.protocol_id n) header sealed plain (
        decrypt_packet_lem c prefix s key k.protocol_id n (body_bytes p) laws kl
          (omega (arith, sizes))) in
    let body =
      read_body-Parses p (n - mac_bytes) v (omega (arith, sizes)) header
        (drop (length (body_bytes p)) sealed) in
    ground (arith, e, fresh, decrypted, body, sizes, advance_replay_lem p s replay)

read_encrypted_lem :
    (c : Aead) (k : ReadConfig) (replay : Option ReplayProtection) (p : Packet) (s : ℕ)
    (key : Bytes) (total : ℕ)
    → IsAead c
    → IsWellFormed p
    → s < 2 ^ 64
    → length key ≡ 32
    → k.read_packet_key ≡ some key
    → get_or k.allowed_packets (packet_type p) false ≡ true
    → is_replay replay (packet_type p) s ≡ false
    → total ≡ length (wire c p s key k.protocol_id)
    → let n = sequence_number_bytes_required s in
      let prefix = prefix_byte p n in
      let sealed =
        c.seal key (nonce_bytes s) (body_bytes p) (additional_bytes k.protocol_id prefix) in
      read_encrypted c total k replay prefix (from (prefix ∷ []) (le_bytes n s ++ sealed))
      ≡ ok (
        accepted p s replay,
        from (header_bytes p s ++ body_bytes p) (drop (length (body_bytes p)) sealed),
      )
unfolding read_encrypted wire
read_encrypted_lem c k replay p s key total laws v hs kl known allowed fresh e =
    let n = sequence_number_bytes_required s in
    let prefix = prefix_byte p n in
    let sealed =
      c.seal key (nonce_bytes s) (body_bytes p) (additional_bytes k.protocol_id prefix) in
    let (lo, hi, fits) = sequence_number_bytes_required_fits s hs in
    let value = prefix_byte_lem p n hi in
    let kind = packet_type-lt p in
    let sizes = length-append (le_bytes n s) sealed in
    let count = length-le_bytes n s in
    let macs =
      laws.length-seal key (nonce_bytes s) (body_bytes p) (additional_bytes k.protocol_id prefix) in
    let bytes_left : prefix / 16 ≡ n = omega (arith, value, kind) in
    let whole : 0 + s * 256 ^ 0 ≡ s = omega arith in
    let number : read_sequence (prefix / 16) 0 0 (from (prefix ∷ []) (le_bytes n s ++ sealed))
        ≡ ok (s, from (prefix ∷ le_bytes n s) sealed) =
      rw bytes_left (
        read_sequence-Parses n s 0 0 fits (prefix ∷ []) sealed
        ∙ ap (λ v. ok (v, from (prefix ∷ le_bytes n s) sealed)) whole) in
    let type_bits : prefix % 16 ≡ packet_type p = omega (arith, value, kind) in
    let here = from (prefix ∷ []) (le_bytes n s ++ sealed) in
    let admitted : allows k (prefix % 16) here ≡ ok (true, here) =
      rw type_bits (allows_lem k (packet_type p) here allowed) in
    let rest =
      read_sealed_lem c k replay p s key prefix (prefix ∷ le_bytes n s) total laws v kl type_bits
        fresh (omega (arith, sizes)) in
    ground (arith, known, admitted, bytes_left, type_bits, kind, number, rest, macs, sizes, count)

-- `readPacket` takes back a well-formed encrypted packet from its wire form under the same key of 32
-- bytes and protocol id, with its sequence number below 2^64, if the packet type is allowed and the
-- replay window does not refuse it; the window then advances, for the types under replay protection.
pub read_packet-wire :
    (c : Crypto) (k : ReadConfig) (replay : Option ReplayProtection) (p : Packet) (s : ℕ)
    (key : Bytes)
    → IsAead c.chacha
    → IsWellFormed p
    → s < 2 ^ 64
    → length key ≡ 32
    → k.read_packet_key ≡ some key
    → get_or k.allowed_packets (packet_type p) false ≡ true
    → is_replay replay (packet_type p) s ≡ false
    → read_packet c k replay (wire c.chacha p s key k.protocol_id) ≡ ok (accepted p s replay)
unfolding read_packet wire
read_packet-wire c k replay p s key laws v hs kl known allowed fresh =
    let n = sequence_number_bytes_required s in
    let prefix = prefix_byte p n in
    let sealed =
      c.chacha.seal key (nonce_bytes s) (body_bytes p) (additional_bytes k.protocol_id prefix) in
    let (lo, hi, fits) = sequence_number_bytes_required_fits s hs in
    let value = prefix_byte_lem p n hi in
    let small : prefix < 256 = omega (arith, value, packet_type-lt p) in
    let first = uint8-Parses prefix small [] (le_bytes n s ++ sealed) in
    let rest =
      read_encrypted_lem c.chacha k replay p s key (length (wire c.chacha p s key k.protocol_id))
        laws v hs kl known allowed fresh refl in
    ground (arith, first, rest, value)
