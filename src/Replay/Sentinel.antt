-- ===== src/Replay/Sentinel.antt =====
-- replay.go: the sequence number that equals the mark of an empty entry.
use netcode_go.Prelude.{◌%◌, ◌^◌, ◌<◌, ◌≡◌, arith, false, length, get_or-set}
use netcode_go.Replay.{ReplayProtection, empty_entry, already_received, advance_sequence}

-- The sequence number 2^64 - 1 is never recorded as received: after a window of 256 entries has
-- received it, with a newest sequence number below 2^64, the window still admits it.
pub already_received-max_sequence :
    (r : ReplayProtection)
    → length r.received_packet ≡ 256
    → r.most_recent_sequence < 2 ^ 64
    → already_received (advance_sequence r empty_entry) empty_entry ≡ false
unfolding already_received advance_sequence
already_received-max_sequence r size small =
    ground
      (arith, get_or-set r.received_packet (empty_entry % 256) (empty_entry % 256) empty_entry 0)
