-- ===== src/Simulator.antt =====
-- simulator.go: latency, jitter, loss and duplication of packets in memory. The float32 unit is a
-- parameter; delivery times are float64.
pub mod Deliver
pub mod Waiting
pub mod Ready
pub mod Delivery
use Prim.Native.Nat.{bit_xor}
use netcode_go.Prelude.{
  ℕ, zero, suc, ◌+◌, ◌*◌, ◌/◌, ◌%◌, ◌^◌, Bool, true, false, not, ◌&&◌, Option, none, some, List, [],
  ◌∷◌, Bytes, replicate, get_or, set, if◌then◌else◌, ltb,
}
use netcode_go.Float.{Float64, FloatOps, float_zero}
use netcode_go.Address.{Address, no_address}

abbrev pub simulator_num_packet_entries : ℕ
simulator_num_packet_entries = 65536

abbrev pub simulator_num_pending_receive_packets : ℕ
simulator_num_pending_receive_packets = 16384

abbrev pub simulator_rng_seed : ℕ
simulator_rng_seed = 0x9E37_79B9_7F4A_7C15

-- A float32 is its bit pattern; what the simulator does with them.
abbrev pub Float32 : Type 0
Float32 = ℕ

pub record Float32Ops : Type 0 where
  pub zero32 : Float32
  pub one32 : Float32
  pub hundred32 : Float32
  pub neg : Float32 → Float32
  pub le32 : Float32 → Float32 → Bool
  pub lt32 : Float32 → Float32 → Bool
  pub add32 : Float32 → Float32 → Float32
  pub per_thousand : Float32 → Float32
  -- a + (float32(bits) / 2^24) * (b - a)
  pub lerp24 : ℕ → Float32 → Float32 → Float32
  pub widen : Float32 → Float64

-- `simulatorPacketEntry`; nil packet data is `none`.
pub record SimulatorPacketEntry : Type 0 where
  pub from_address : Address
  pub to_address : Address
  pub delivery_time : Float64
  pub packet_data : Option Bytes

unfoldable pub no_entry : SimulatorPacketEntry
no_entry = record {
  from_address = no_address;
  to_address = no_address;
  delivery_time = float_zero;
  packet_data = none;
}

-- `NetworkSimulator`
pub record NetworkSimulator : Type 0 where
  pub latency_milliseconds : Float32
  pub jitter_milliseconds : Float32
  pub packet_loss_percent : Float32
  pub duplicate_packet_percent : Float32
  pub rng_state : ℕ
  pub time : Float64
  pub current_index : ℕ
  pub num_pending_receive_packets : ℕ
  pub packet_entries : List SimulatorPacketEntry
  pub pending_receive_packets : List SimulatorPacketEntry

-- `NewNetworkSimulator`
unfoldable pub new_network_simulator : NetworkSimulator
new_network_simulator = record {
  latency_milliseconds = 0;
  jitter_milliseconds = 0;
  packet_loss_percent = 0;
  duplicate_packet_percent = 0;
  rng_state = simulator_rng_seed;
  time = float_zero;
  current_index = 0;
  num_pending_receive_packets = 0;
  packet_entries = replicate simulator_num_packet_entries no_entry;
  pending_receive_packets = replicate simulator_num_pending_receive_packets no_entry;
}

-- A loop that replaces the first `n` entries.
unfoldable pub change_first :
    ℕ
    → (SimulatorPacketEntry → SimulatorPacketEntry)
    → List SimulatorPacketEntry
    → List SimulatorPacketEntry
change_first zero f es = es
change_first (suc n) f [] = []
change_first (suc n) f (e ∷ es) = f e ∷ change_first n f es

-- `Reset`
unfoldable pub reset : NetworkSimulator → NetworkSimulator
reset s = record s {
  packet_entries = replicate simulator_num_packet_entries no_entry;
  pending_receive_packets =
      change_first s.num_pending_receive_packets (λ e. no_entry) s.pending_receive_packets;
  current_index = 0;
  num_pending_receive_packets = 0;
  rng_state = simulator_rng_seed;
}

-- `randomUint64`: xorshift64*. A shift to the left drops what leaves the 64 bits.
unfoldable pub xorshift : ℕ → ℕ
xorshift x0 =
    let x1 = bit_xor x0 (x0 / 2 ^ 12) in
    let x2 = bit_xor x1 (x1 * 2 ^ 25 % 2 ^ 64) in bit_xor x2 (x2 / 2 ^ 27)

unfoldable pub random_uint64 : NetworkSimulator → NetworkSimulator × ℕ
random_uint64 s =
    let x = xorshift s.rng_state in (record s { rng_state = x }, x * 0x2545_F491_4F6C_DD1D % 2 ^ 64)

module _ (fl : FloatOps) (f32 : Float32Ops) where
  -- `randomFloat`
  unfoldable pub random_float : NetworkSimulator → Float32 → Float32 → NetworkSimulator × Float32
  random_float s a b = let (s', x) = random_uint64 s in (s', f32.lerp24 (x / 2 ^ 40) a b)

  -- `queuePacket`. The copy of a packet without bytes is nil.
  unfoldable pub queue_packet :
      NetworkSimulator → Address → Address → Bytes → Float32 → NetworkSimulator
  queue_packet s from to bytes delay = record s {
    packet_entries = set s.packet_entries s.current_index (record {
      from_address = from;
      to_address = to;
      delivery_time = fl.add s.time (f32.widen delay);
      packet_data = elim bytes [ [] ↦ none | x ∷ xs ↦ some (x ∷ xs) ];
    });
    current_index = (s.current_index + 1) % simulator_num_packet_entries;
  }

  -- `SendPacket` from the delay on.
  unfoldable pub jittered : NetworkSimulator → NetworkSimulator × Float32
  jittered s =
      let delay = f32.per_thousand s.latency_milliseconds in
      let (s', jitter) = random_float s (f32.neg s.jitter_milliseconds) s.jitter_milliseconds in
      if f32.lt32 f32.zero32 s.jitter_milliseconds
      then (s', f32.add32 delay (f32.per_thousand jitter))
      else (s, delay)

  unfoldable pub maybe_duplicate :
      NetworkSimulator → Address → Address → Bytes → Float32 → NetworkSimulator
  maybe_duplicate s from to bytes delay =
      let (s1, dice) = random_float s f32.zero32 f32.hundred32 in
      let (s2, more) = random_float s1 f32.zero32 f32.one32 in
      if f32.le32 dice s.duplicate_packet_percent
      then queue_packet s2 from to bytes (f32.add32 delay more)
      else s1

  -- `SendPacket`
  unfoldable pub send_packet : NetworkSimulator → Address → Address → Bytes → NetworkSimulator
  send_packet s from to bytes =
      let (s1, dice) = random_float s f32.zero32 f32.hundred32 in
      if f32.le32 dice s.packet_loss_percent
      then s1
      else let (s2, delay) = jittered s1 in
        maybe_duplicate (queue_packet s2 from to bytes delay) from to bytes delay
