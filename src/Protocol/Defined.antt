-- ===== src/Protocol/Defined.antt =====
-- The configurations for which `extract_raw_signal` has defined behaviour.
use can_from_scratch.Prelude.{ℕ, ◌≢◌, ◌↔◌, Bool, true, false, none, List, arith}
use can_from_scratch.Prelude.Int.{ℤ, pos, ◌≤ℤ◌, ◌+ℤ◌}
use can_from_scratch.Frame.{IsFrame}
use can_from_scratch.Protocol.{
  SignalConfig, shifted_container, length_mask, extend_sign, extract_raw_signal,
}
use can_from_scratch.Protocol.Container.{little_endian_loop-eq-value, big_endian_loop-eq-value}

-- The shift count of the container lies between 0 and 63.
abbrev pub ShiftFits : Bool → ℤ → ℤ → Type 0
ShiftFits true start len = (pos 1 ≤ℤ start +ℤ len) × (start +ℤ len ≤ℤ pos 64)
ShiftFits false start len = (pos 0 ≤ℤ start) × (start ≤ℤ pos 63)

-- A signed signal needs a bit.
abbrev pub least_length : Bool → ℤ
least_length true = pos 1
least_length false = pos 0

abbrev pub IsDefined : SignalConfig → Type 0
IsDefined config =
    ShiftFits config.is_big_endian config.start_bit config.length
    × (least_length config.is_signed ≤ℤ config.length)
    × (config.length ≤ℤ pos 64)

module _ (start len : ℤ) (frame : List ℕ) (v : IsFrame frame) where
  abbrev of : Bool → Bool → SignalConfig
  of be sign = record { start_bit = start; length = len; is_big_endian = be; is_signed = sign }

  IsDefined-big :
      (sign : Bool) → IsDefined (of true sign) ↔ (extract_raw_signal frame (of true sign) ≢ none)
  unfolding extract_raw_signal shifted_container length_mask extend_sign
  IsDefined-big sign = ground (arith, big_endian_loop-eq-value frame v)

  IsDefined-little :
      (sign : Bool) → IsDefined (of false sign) ↔ (extract_raw_signal frame (of false sign) ≢ none)
  unfolding extract_raw_signal shifted_container length_mask extend_sign
  IsDefined-little sign = ground (arith, little_endian_loop-eq-value frame v)

  IsDefined-either :
      (be sign : Bool) → IsDefined (of be sign) ↔ (extract_raw_signal frame (of be sign) ≢ none)
  IsDefined-either true sign = IsDefined-big sign
  IsDefined-either false sign = IsDefined-little sign

-- For every configuration, `extract_raw_signal` has defined behaviour on an eight-byte frame
-- exactly when the container's shift count lies in 0 to 63, the length in 0 to 64, and a signed
-- signal has at least one bit.
pub extract_raw_signal-IsDefined_iff :
    (frame : List ℕ) (config : SignalConfig)
    → IsFrame frame
    → IsDefined config ↔ (extract_raw_signal frame config ≢ none)
extract_raw_signal-IsDefined_iff frame config v =
    IsDefined-either config.start_bit config.length frame v config.is_big_endian config.is_signed
