-- ===== src/Message.antt =====
-- src/can_parser.cpp and include/can_parser.hpp: the class `CanMessage`. `clock i` is what
-- `steady_clock::now()` returns in the update of the i-th signal.
pub mod SelfCheck
pub mod Counter
pub mod Parse
pub mod WellFormed
pub mod Defined
pub mod Sentinel
use can_from_scratch.Prelude.{
  ℕ, suc, ◌+◌, ◌-◌, ◌%◌, ◌^◌, Bool, true, false, not, ◌&&◌, ◌||◌, Option, none, some, ◌>>=◌, List,
  [], ◌∷◌, ◌++◌, ltb, leb, ◌==◌, if◌then◌else◌,
}
use can_from_scratch.Prelude.Int.{ℤ, pos, negsuc, ltb_ℤ, leb_ℤ, eqb_ℤ}
use can_from_scratch.Platform.{Platform}
use can_from_scratch.Protocol.{SignalConfig, extract_raw_signal}
use can_from_scratch.Checksum.{ChecksumType, calculate_checksum}
use can_from_scratch.Signal
use can_from_scratch.Signal.{Signal}

pub record CanMessage (p : Platform) : Type 0 where
  pub signals : List (Signal p)
  pub rolling_counter_start : ℤ
  pub rolling_counter_length : ℤ
  pub expected_increment : ℕ
  pub last_rolling_counter : ℕ
  pub checksum_start : ℤ
  pub checksum_length : ℤ
  pub checksum_type : ChecksumType

-- The value of `uint64_t` bits as an `int`.
abbrev pub int32_of : ℕ → ℤ
int32_of x = let w = x % 2 ^ 32 in if ltb w (2 ^ 31) then pos w else negsuc (2 ^ 32 - w - 1)

-- `x % (1 << k)` for the small positive `x` of the caller. At k = 31 the compilers give the divisor
-- the value -2^31, which leaves such an `x` as it is, as 2^31 does.
abbrev pub mod_shifted : ℕ → ℤ → Option ℕ
mod_shifted x (pos k) = if ltb k 32 then some (x % 2 ^ k) else none
mod_shifted x (negsuc k) = none

abbrev pub field_config : ℤ → ℤ → SignalConfig
field_config start len = record {
  start_bit = start;
  length = len;
  is_big_endian = false;
  is_signed = false;
}

module _ (p : Platform) where
  -- A message as `message_registry_[id]` makes it.
  abbrev pub new_message : CanMessage p
  new_message = record {
    signals = [];
    rolling_counter_start = negsuc 0;
    rolling_counter_length = pos 0;
    expected_increment = 1;
    last_rolling_counter = 0xFF;
    checksum_start = negsuc 0;
    checksum_length = pos 0;
    checksum_type = ChecksumType.xor;
  }

  unfoldable pub add_signal : CanMessage p → Signal p → CanMessage p
  add_signal m sig = record m { signals = m.signals ++ sig ∷ [] }

  unfoldable pub set_rolling_counter : CanMessage p → ℤ → ℤ → ℕ → CanMessage p
  set_rolling_counter m start_bit len increment = record m {
    rolling_counter_start = start_bit;
    rolling_counter_length = len;
    expected_increment = increment;
    last_rolling_counter = 0xFF;
  }

  unfoldable pub set_checksum : CanMessage p → ℤ → ℤ → ChecksumType → CanMessage p
  set_checksum m start_bit len type = record m {
    checksum_start = start_bit;
    checksum_length = len;
    checksum_type = type;
  }

  unfoldable pub reset_rolling_counter : CanMessage p → CanMessage p
  reset_rolling_counter m = record m { last_rolling_counter = 0xFF }

  unfoldable pub validate_rolling_counter : CanMessage p → List ℕ → Option Bool
  validate_rolling_counter m frame =
      if ltb_ℤ m.rolling_counter_start (pos 0) || eqb_ℤ m.rolling_counter_length (pos 0)
      then some true
      else (do
        current_counter ←
            extract_raw_signal frame (field_config m.rolling_counter_start m.rolling_counter_length)
        if m.last_rolling_counter == 0xFF then some true else (do
          next ←
              mod_shifted (m.last_rolling_counter + m.expected_increment) m.rolling_counter_length
          some (current_counter % 2 ^ 8 == next % 2 ^ 8)))

  unfoldable pub validate_checksum : CanMessage p → List ℕ → Option Bool
  validate_checksum m frame =
      if ltb_ℤ m.checksum_start (pos 0) || eqb_ℤ m.checksum_length (pos 0) then some true else (do
        expected ← extract_raw_signal frame (field_config m.checksum_start m.checksum_length)
        calculated ← calculate_checksum m.checksum_start m.checksum_length m.checksum_type frame
        some (expected % 2 ^ 8 == calculated))

  unfoldable pub is_frame_valid : CanMessage p → List ℕ → Option Bool
  is_frame_valid m frame = do
    counter ← validate_rolling_counter m frame
    if counter then validate_checksum m frame else some false

  -- The part of `parse` that remembers the rolling counter.
  unfoldable pub store_counter : CanMessage p → List ℕ → Option (CanMessage p)
  store_counter m frame =
      if leb_ℤ (pos 0) m.rolling_counter_start && ltb_ℤ (pos 0) m.rolling_counter_length
      then (do
        current_counter ←
            extract_raw_signal frame (field_config m.rolling_counter_start m.rolling_counter_length)
        some (record m { last_rolling_counter = current_counter % 2 ^ 8 }))
      else some m

  -- The loop that looks for the multiplexor: the value of the first one, or -1.
  unfoldable pub find_mux_value : List (Signal p) → List ℕ → Option ℤ
  find_mux_value [] frame = some (negsuc 0)
  find_mux_value (sig ∷ rest) frame =
      let later = find_mux_value rest frame in
      if sig.is_multiplexor
      then (do
        raw_mux ← extract_raw_signal frame (record {
          start_bit = sig.start;
          length = sig.len;
          is_big_endian = sig.is_be;
          is_signed = false;
        })
        some (int32_of raw_mux))
      else later

  -- The loop that updates the signals, from the i-th on.
  unfoldable pub update_signals :
      List (Signal p) → List ℕ → ℤ → (ℕ → p.Time) → ℕ → Option (List (Signal p))
  update_signals [] frame mux clock i = some []
  update_signals (sig ∷ rest) frame mux clock i = do
    sig' ← Signal.update p sig frame mux (clock i)
    rest' ← update_signals rest frame mux clock (i + 1)
    some (sig' ∷ rest')

  unfoldable pub parse : CanMessage p → List ℕ → (ℕ → p.Time) → Option (CanMessage p)
  parse m frame clock = do
    valid ← is_frame_valid m frame
    if not valid then some m else (do
      m' ← store_counter m frame
      mux ← find_mux_value m'.signals frame
      signals' ← update_signals m'.signals frame mux clock 0
      some (record m' { signals = signals' }))
