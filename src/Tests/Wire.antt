-- ===== src/Tests/Wire.antt =====
-- The theorems on packets, tokens and queues, at concrete inputs.
use netcode_go.Prelude.{
  List, inl, inr, [], ◌∷◌, Bytes, none, some, true, false, replicate, length, drop, ◌++◌, refl,
  arith, ◌≡◌, ◌≢◌, ◌<◌, ◌≤◌, ◌+◌, ◌↔◌, ◌⊎◌, ok, ◌^◌, length-replicate,
}
use netcode_go.Crypto.{packet_nonce}
use netcode_go.Crypto.Laws.{packet_nonce_distinct}
use netcode_go.Packet.{Packet, payload}
use netcode_go.Packet.Read.{ReadConfig, read_packet, is_replay}
use netcode_go.Packet.Write.{required_loop, write_packet, sequence_number_bytes_required}
use netcode_go.Packet.Sequence.{
  sequence_number_bytes_required_fits, sequence_number_bytes_required_least,
}
use netcode_go.Packet.Wire.{wire, write_packet-wire}
use netcode_go.Packet.RoundTrip.{accepted, read_packet-wire}
use netcode_go.Replay.{reset, already_received, advance_sequence, admit, empty_entry}
use netcode_go.Replay.Window.{
  admit_spec, admit-reset, Fresh, Fresh-admit-reset, already_received_iff, advance_sequence-Tracks,
  reset-Tracks, newest, seen,
}
use netcode_go.Replay.Sentinel.{already_received-max_sequence}
use netcode_go.Queue.{clear}
use netcode_go.Queue.Fifo.{pushes, pops, run, spec_run, run-clear}
use netcode_go.Token.{
  write_addresses, read_addresses, ChallengeToken, write_challenge_token, encrypt_challenge_token,
  decrypt_challenge_token, read_challenge_token,
}
use netcode_go.Address.{Address, no_address, address_ipv6}
use netcode_go.Buffer.{le_bytes}
use netcode_go.Token.Addresses.{addresses_bytes, addresses_round_trip}
use netcode_go.Token.RoundTrip.{challenge_token_round_trip}
use netcode_go.Tests.Toy.{toy, toy-IsAead, toy_crypto, key, localhost}

abbrev hello : Packet
hello = payload (record { payload_data = 104 ∷ 105 ∷ [] })

abbrev config : ReadConfig
config = record {
  read_packet_key = some key;
  protocol_id = 17;
  current_timestamp = 0;
  min_connect_token_expire_timestamp = 0;
  private_key = none;
  allowed_packets = replicate 7 true;
}

read_packet-wire_example :
    read_packet toy_crypto config (some reset) (wire toy hello 300 key 17)
    ≡ ok (accepted hello 300 (some reset))
unfolding is_replay already_received reset replicate
read_packet-wire_example =
    read_packet-wire toy_crypto config (some reset) hello 300 key toy-IsAead
      (omega arith, omega arith) (omega arith) refl refl refl refl

write_packet-wire_example :
    write_packet toy hello (wire toy hello 300 key 17) 300 key 17
    ≡ ok (
      wire toy hello 300 key 17
          ++ drop (length (wire toy hello 300 key 17)) (wire toy hello 300 key 17),
      length (wire toy hello 300 key 17),
    )
write_packet-wire_example =
    write_packet-wire toy hello (wire toy hello 300 key 17) 300 key 17 toy-IsAead tt
      (length-replicate 32 7) (omega arith)

admit-reset_example :
    admit reset (5 ∷ 3 ∷ 5 ∷ 400 ∷ 100 ∷ []) ≡ admit_spec [] (5 ∷ 3 ∷ 5 ∷ 400 ∷ 100 ∷ [])
admit-reset_example =
    admit-reset (5 ∷ 3 ∷ 5 ∷ 400 ∷ 100 ∷ [])
      (omega arith, (omega arith, (omega arith, (omega arith, (omega arith, tt)))))

Fresh-admit-reset_example : Fresh [] (admit reset (5 ∷ 3 ∷ 5 ∷ []))
Fresh-admit-reset_example =
    Fresh-admit-reset (5 ∷ 3 ∷ 5 ∷ []) (omega arith, (omega arith, (omega arith, tt)))

already_received_iff_example :
    (already_received (advance_sequence reset 5) 5 ≡ true)
    ↔ ((5 + 256 ≤ newest (5 ∷ [])) ⊎ (seen 5 (5 ∷ []) ≡ true))
unfolding already_received reset replicate
already_received_iff_example =
    already_received_iff (advance_sequence reset 5) (5 ∷ [])
      (advance_sequence-Tracks reset [] reset-Tracks 5 (λ e. cc) refl) 5

already_received-max_sequence_example :
    already_received (advance_sequence reset empty_entry) empty_entry ≡ false
unfolding reset
already_received-max_sequence_example =
    already_received-max_sequence reset (length-replicate 256 empty_entry) (omega arith)

run-clear_example :
    run clear (pushes (record { payload_data = 1 ∷ [] }) 9 ∷ pops ∷ pops ∷ [])
    ≡ spec_run [] (pushes (record { payload_data = 1 ∷ [] }) 9 ∷ pops ∷ pops ∷ [])
run-clear_example = run-clear (pushes (record { payload_data = 1 ∷ [] }) 9 ∷ pops ∷ pops ∷ [])

sequence_number_bytes_required_fits_example :
    (1 ≤ sequence_number_bytes_required 300)
    × (sequence_number_bytes_required 300 ≤ 8)
    × (300 < 256 ^ sequence_number_bytes_required 300)
sequence_number_bytes_required_fits_example = sequence_number_bytes_required_fits 300 (omega arith)

sequence_number_bytes_required_least_example : 256 ^ 1 ≤ 300
unfolding sequence_number_bytes_required required_loop
sequence_number_bytes_required_least_example = sequence_number_bytes_required_least 300 0 refl

packet_nonce_distinct_example : packet_nonce 300 ≢ packet_nonce 301
packet_nonce_distinct_example =
    packet_nonce_distinct 300 301 (omega arith) (omega arith) (omega arith)

abbrev challenge_token : ChallengeToken
challenge_token = record { client_id = 1000; user_data = replicate 256 3 }

challenge_token_round_trip_example :
    (written sealed opened : Bytes) × (write_challenge_token challenge_token (replicate 300 0)
      ≡ ok written)
    × (encrypt_challenge_token toy written 4 key ≡ ok sealed)
    × (length sealed ≡ 300)
    × (decrypt_challenge_token toy sealed 4 key ≡ ok opened)
    × (read_challenge_token opened ≡ ok challenge_token)
challenge_token_round_trip_example =
    challenge_token_round_trip toy challenge_token 4 key toy-IsAead
      (record { id = omega arith; data_size = length-replicate 256 3 }) (length-replicate 32 7)
      (replicate 300 0) (length-replicate 300 0)

abbrev two_addresses : List Address
two_addresses =
    localhost 1000
    ∷ record no_address {
      type = address_ipv6;
      ipv6 = 1 ∷ 2 ∷ 3 ∷ 4 ∷ 5 ∷ 6 ∷ 7 ∷ 65535 ∷ [];
      port = 2000;
    }
    ∷ []

addresses_round_trip_example :
    (written : Bytes) × (write_addresses two_addresses
        (record { buffer = (9 ∷ []) ++ replicate 100 0; pos = 1 })
      ≡ ok (record { buffer = written; pos = length ((9 ∷ []) ++ addresses_bytes two_addresses) }))
    × (read_addresses 2 (record { buffer = written; pos = 1 })
        ≡ ok (
          two_addresses,
          record { buffer = written; pos = length ((9 ∷ []) ++ addresses_bytes two_addresses) },
        ))
unfolding le_bytes replicate
addresses_round_trip_example =
    addresses_round_trip two_addresses (9 ∷ []) (replicate 100 0)
      (
        (omega arith, inl (refl, refl, refl)),
        (
          (
            omega arith,
            inr (
              refl,
              refl,
              (
                omega arith,
                (
                  omega arith,
                  (
                    omega arith,
                    (omega arith, (omega arith, (omega arith, (omega arith, (omega arith, tt))))),
                  ),
                ),
              ),
              refl,
            ),
          ),
          tt,
        ),
      )
      (omega arith)
