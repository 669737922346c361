-- ===== src/Examples.antt =====
-- A platform, a message and frames on which the theorems are tried.
pub mod Fields
pub mod Messages
pub mod Parsers
pub mod Transfers
pub mod Rings
pub mod Streams
pub mod Servers
pub mod Gateways
pub mod Databases
pub mod Shutdowns
use can_from_scratch.Prelude.{ℕ, ◌-◌, Bool, true, false, Option, none, some, List, [], ◌∷◌, arith}
use can_from_scratch.Prelude.Int.{ℤ, pos, negsuc, ◌+ℤ◌, ◌*ℤ◌}
use can_from_scratch.Platform.{Platform}
use can_from_scratch.Frame.{IsFrame, bytes8}
use can_from_scratch.Signal.{Signal}
use can_from_scratch.Message.{CanMessage, new_message}
use can_from_scratch.Parser.{CanParser, new_parser}

-- Integers for `double`, and milliseconds since the start for the clock.
abbrev pub sample : Platform
sample = record {
  Double = ℤ;
  zero_double = pos 0;
  from_int64 = λ x. x;
  from_uint64 = λ x. pos x;
  times = λ x y. x *ℤ y;
  plus = λ x y. x +ℤ y;
  Time = ℕ;
  epoch = 0;
  elapsed_ms = λ now before. pos (now - before);
}

-- Counter 5 in the first byte, and the bytes of two signals.
abbrev pub sample_frame : List ℕ
sample_frame = bytes8 5 100 0xF0 3 0 0 0 7

pub sample_frame-IsFrame : IsFrame sample_frame
sample_frame-IsFrame = ground arith

abbrev pub speed : Signal sample
speed = record {
  name = "speed";
  start = pos 8;
  len = pos 8;
  is_be = false;
  is_signed = false;
  factor = pos 2;
  offset = pos 1;
  phys_value = pos 0;
  is_multiplexor = false;
  is_multiplexed = false;
  mux_value = pos 0;
  is_valid = false;
  timeout_threshold_ms = 100;
  last_update_time = 0;
}

abbrev pub torque : Signal sample
torque = record speed {
  name = "torque";
  start = pos 16;
  is_signed = true;
  factor = pos 1;
  is_multiplexed = true;
  mux_value = pos 4;
}

-- A message with a counter in its first byte.
abbrev pub counted_message : CanMessage sample
counted_message = record {
  signals = speed ∷ torque ∷ [];
  rolling_counter_start = pos 0;
  rolling_counter_length = pos 8;
  expected_increment = 1;
  last_rolling_counter = 4;
  checksum_start = negsuc 0;
  checksum_length = pos 0;
  checksum_type = can_from_scratch.Checksum.ChecksumType.xor;
}

abbrev pub sample_clock : ℕ → ℕ
sample_clock i = 50

-- A parser that knows the message.
abbrev pub sample_parser : CanParser sample
sample_parser = record {
  message_registry = (0x100, counted_message) ∷ [];
  total_frames = 3;
  valid_frames = 1;
  invalid_frames = 2;
  rolling_counter_errors = 0;
  checksum_errors = 0;
  whitelist = 0x100 ∷ [];
  whitelist_enabled = true;
  diagnostic_mode_enabled = false;
  diagnostic_messages = [];
}
