-- ===== src/Float.antt =====
-- float64 values as their 64-bit patterns. The machine's arithmetic and comparison of them are a
-- parameter, since rounding is not the program's.
use netcode_go.Prelude.{ℕ, Bool}

abbrev pub Float64 : Type 0
Float64 = ℕ

abbrev pub float_zero : Float64
float_zero = 0

-- 1.0, -1.0, -1000.0 and 0.1, which is `1.0/packetSendRate`.
abbrev pub float_one : Float64
float_one = 0x3FF0_0000_0000_0000

abbrev pub float_minus_one : Float64
float_minus_one = 0xBFF0_0000_0000_0000

abbrev pub float_minus_1000 : Float64
float_minus_1000 = 0xC08F_4000_0000_0000

abbrev pub packet_send_interval : Float64
packet_send_interval = 0x3FB9_9999_9999_999A

-- The operations on float64 that the program uses. An int32 is its 32-bit pattern.
pub record FloatOps : Type 0 where
  pub add : Float64 → Float64 → Float64
  pub sub : Float64 → Float64 → Float64
  pub lt : Float64 → Float64 → Bool
  pub le : Float64 → Float64 → Bool
  pub from_int32 : ℕ → Float64
  pub from_uint64 : ℕ → Float64
