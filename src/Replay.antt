-- ===== src/Replay.antt =====
-- replay.go: the window of received sequence numbers that refuses replayed packets.
pub mod Window
pub mod Sentinel
use netcode_go.Prelude.{
  ℕ, ◌-◌, ◌%◌, ◌^◌, Bool, true, false, ◌&&◌, List, [], ◌∷◌, replicate, get_or, set, ltb, leb, ◌==◌,
  if◌then◌else◌,
}

abbrev pub replay_protection_buffer_size : ℕ
replay_protection_buffer_size = 256

-- The mark of an array entry that no packet has reached yet.
abbrev pub empty_entry : ℕ
empty_entry = 0xFFFF_FFFF_FFFF_FFFF

-- `replayProtection`; sequence numbers are uint64.
pub record ReplayProtection : Type 0 where
  pub most_recent_sequence : ℕ
  pub received_packet : List ℕ

unfoldable pub reset : ReplayProtection
reset = record {
  most_recent_sequence = 0;
  received_packet = replicate replay_protection_buffer_size empty_entry;
}

-- `replayProtection.alreadyReceived`. The subtraction runs only where it does not wrap.
unfoldable pub already_received : ReplayProtection → ℕ → Bool
already_received r sequence =
    if leb replay_protection_buffer_size r.most_recent_sequence
      && leb sequence (r.most_recent_sequence - replay_protection_buffer_size)
    then true
    else (if entry == empty_entry then false else leb sequence entry)
  where
    entry : ℕ
    entry = get_or r.received_packet (sequence % replay_protection_buffer_size) 0

unfoldable pub advance_sequence : ReplayProtection → ℕ → ReplayProtection
advance_sequence r sequence = record {
  most_recent_sequence =
      if ltb r.most_recent_sequence sequence then sequence else r.most_recent_sequence;
  received_packet = set r.received_packet (sequence % replay_protection_buffer_size) sequence;
}

-- How `readPacket` uses the window on authentic packets: check, then advance. The sequence
-- numbers that get through, oldest first.
unfoldable pub admit : ReplayProtection → List ℕ → List ℕ
admit r [] = []
admit r (s ∷ rest) =
    let passed = s ∷ admit (advance_sequence r s) rest in
    let refused = admit r rest in if already_received r s then refused else passed
