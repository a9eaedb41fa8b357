-- ===== src/Queue.antt =====
-- queue.go: the ring of received payload packets that wait for the application.
pub mod Fifo
use netcode_go.Prelude.{
  ℕ, ◌+◌, ◌-◌, ◌%◌, Bool, true, false, Option, none, some, List, replicate, get_or, set, ◌==◌,
  if◌then◌else◌,
}
use netcode_go.Packet.{ConnectionPayload}

abbrev pub packet_queue_size : ℕ
packet_queue_size = 256

-- `packetQueue`. A nil pointer is `none`.
pub record PacketQueue : Type 0 where
  pub num_packets : ℕ
  pub start_index : ℕ
  pub packets : List (Option ConnectionPayload)
  pub sequences : List ℕ

-- `packetQueue.clear`, which leaves nothing of the queue before; also Go's zero value.
unfoldable pub clear : PacketQueue
clear = record {
  num_packets = 0;
  start_index = 0;
  packets = replicate packet_queue_size none;
  sequences = replicate packet_queue_size 0;
}

unfoldable pub push : PacketQueue → ConnectionPayload → ℕ → PacketQueue × Bool
push q packet sequence = if q.num_packets == packet_queue_size then (q, false) else (
  record q {
    packets = set q.packets index (some packet);
    sequences = set q.sequences index sequence;
    num_packets = q.num_packets + 1;
  },
  true,
)
  where
    index : ℕ
    index = (q.start_index + q.num_packets) % packet_queue_size

unfoldable pub pop : PacketQueue → PacketQueue × Option ConnectionPayload × ℕ
pop q = if q.num_packets == 0 then (q, none, 0) else (
  record q {
    packets = set q.packets q.start_index none;
    start_index = (q.start_index + 1) % packet_queue_size;
    num_packets = q.num_packets - 1;
  },
  get_or q.packets q.start_index none,
  get_or q.sequences q.start_index 0,
)
