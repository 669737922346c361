-- ===== src/Examples/Messages.antt =====
-- The validation and the parsing of one message.
use can_from_scratch.Prelude.{◌+◌, ◌*◌, ◌%◌, ◌^◌, ◌≡◌, refl, true, ◌||◌, some, ◌==◌, get_or, arith}
use can_from_scratch.Prelude.Int.{pos}
use can_from_scratch.Checksum.{ChecksumType}
use can_from_scratch.Message.{
  CanMessage, set_checksum, validate_rolling_counter, validate_checksum, is_frame_valid,
  find_mux_value, parse,
}
use can_from_scratch.Message.SelfCheck.{self_check, validate_checksum-aligned}
use can_from_scratch.Message.Counter.{HasCounter, counter, validate_rolling_counter-eq}
use can_from_scratch.Message.Sentinel.{counter_sequence}
use can_from_scratch.Message.WellFormed.{IsWellFormed}
use can_from_scratch.Parser.{found_or}
use can_from_scratch.Examples.{
  sample, sample_frame, sample_frame-IsFrame, counted_message, sample_clock,
}

validate_checksum-aligned_example :
    validate_checksum sample
      (set_checksum sample counted_message (pos (8 * 7)) (pos 8) ChecksumType.crc16)
      sample_frame
    ≡ some (self_check ChecksumType.crc16 (get_or sample_frame 7 0))
validate_checksum-aligned_example =
    validate_checksum-aligned sample counted_message ChecksumType.crc16 7 sample_frame
      sample_frame-IsFrame (omega arith)

pub counted_message-HasCounter : HasCounter sample counted_message 0 8
counted_message-HasCounter = record {
  at_start = refl;
  at_length = refl;
  nonempty = omega arith;
  narrow = omega arith;
  inside = omega arith;
}

validate_rolling_counter-eq_example :
    validate_rolling_counter sample counted_message sample_frame
    ≡ some (4 == 0xFF || counter sample sample_frame 0 8 == (4 + 1) % 2 ^ 8)
validate_rolling_counter-eq_example =
    validate_rolling_counter-eq sample counted_message 0 8 sample_frame counted_message-HasCounter
      sample_frame-IsFrame

accepted : is_frame_valid sample counted_message sample_frame ≡ some true
unfolding is_frame_valid validate_rolling_counter can_from_scratch.Protocol.extract_raw_signal
    can_from_scratch.Protocol.shifted_container can_from_scratch.Protocol.little_endian_loop
    can_from_scratch.Protocol.length_mask can_from_scratch.Protocol.extend_sign validate_checksum
accepted = refl

abbrev pub parsed_message : CanMessage sample
parsed_message = found_or counted_message (parse sample counted_message sample_frame sample_clock)

returned : parse sample counted_message sample_frame sample_clock ≡ some parsed_message
unfolding parse is_frame_valid validate_rolling_counter can_from_scratch.Protocol.extract_raw_signal
    can_from_scratch.Protocol.shifted_container can_from_scratch.Protocol.little_endian_loop
    can_from_scratch.Protocol.length_mask can_from_scratch.Protocol.extend_sign validate_checksum
    can_from_scratch.Message.store_counter find_mux_value can_from_scratch.Message.update_signals
    can_from_scratch.Signal.update
returned = refl

pub counted_message-IsWellFormed : IsWellFormed sample counted_message
counted_message-IsWellFormed = record {
  signals_defined = ground arith;
  counter_defined = λ e. ground arith;
  checksum_defined = λ e. ground arith;
}

counter_sequence_example :
    validate_rolling_counter sample parsed_message sample_frame
    ≡ some (
        counter sample sample_frame 0 8 == 0xFF
        || counter sample sample_frame 0 8 == (counter sample sample_frame 0 8 + 1) % 2 ^ 8)
counter_sequence_example =
    counter_sequence sample counted_message 0 8 sample_frame sample_clock sample_frame
      counted_message-HasCounter sample_frame-IsFrame sample_frame-IsFrame accepted returned
