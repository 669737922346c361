-- ===== src/Examples/Parsers.antt =====
-- Frames handled by one parser.
use can_from_scratch.Prelude.{
  ℕ, ◌≡◌, ◌⊎◌, refl, true, false, ◌&&◌, some, List, [], ◌==◌, arith, inl, inr, Bool-cases,
}
use mathlib.Core.Path.{subst}
use mathlib.Core.Option.{some-injective}
use can_from_scratch.Frame.{bytes8}
use can_from_scratch.Registry.{lookup}
use can_from_scratch.Message.{CanMessage, is_frame_valid, parse}
use can_from_scratch.Message.WellFormed.{IsWellFormed}
use can_from_scratch.Uds.{Output}
use can_from_scratch.Parser.{
  CanParser, increment, is_diagnostic, found_or, is_in_whitelist, add_to_whitelist,
  remove_from_whitelist, clear_whitelist, enable_whitelist, get_diagnostic_message, handle_message,
  handle_frame,
}
use can_from_scratch.Parser.Accounting.{Counted, SameRest, handle_frame-Counted}
use can_from_scratch.Parser.Frames.{Answer, handle_frame-Answer}
use can_from_scratch.Parser.Timeouts.{all_signals, count, expired, get_timeout_signals-eq-count}
use can_from_scratch.Parser.{get_timeout_signals}
use can_from_scratch.Prelude.{◌%◌, ◌^◌}
use can_from_scratch.Parser.Safety.{IsSafe, handle_frame-IsSafe}
use can_from_scratch.Examples.{
  sample, sample_frame, sample_frame-IsFrame, counted_message, sample_clock, sample_parser,
}
use can_from_scratch.Examples.Messages.{counted_message-IsWellFormed}

-- The parser after the frame, and its outputs.
abbrev after : CanParser sample × List Output
after =
    found_or (sample_parser, [])
      (handle_frame sample sample_parser 0x100 sample_frame 50 sample_clock)

handled :
    handle_frame sample sample_parser 0x100 sample_frame 50 sample_clock ≡ some (after.0, after.1)
unfolding handle_frame is_in_whitelist can_from_scratch.Registry.contains
    can_from_scratch.Parser.handle_found lookup handle_message is_frame_valid
    can_from_scratch.Message.validate_rolling_counter can_from_scratch.Protocol.extract_raw_signal
    can_from_scratch.Protocol.shifted_container can_from_scratch.Protocol.little_endian_loop
    can_from_scratch.Protocol.length_mask can_from_scratch.Protocol.extend_sign
    can_from_scratch.Message.validate_checksum parse can_from_scratch.Message.store_counter
    can_from_scratch.Message.find_mux_value can_from_scratch.Message.update_signals
    can_from_scratch.Signal.update can_from_scratch.Registry.insert
handled = refl

handle_frame-Counted_example :
    (after.0.total_frames ≡ increment sample_parser.total_frames)
    × (((sample_parser.diagnostic_mode_enabled && is_diagnostic 0x100) ≡ true)
          × (after.0.valid_frames ≡ sample_parser.valid_frames)
          × (after.0.invalid_frames ≡ sample_parser.invalid_frames)
          × (after.0.message_registry ≡ sample_parser.message_registry)
        ⊎ ((sample_parser.diagnostic_mode_enabled && is_diagnostic 0x100) ≡ false)
          × Counted sample sample_parser after.0
          × SameRest sample sample_parser after.0
          × (after.1 ≡ []))
handle_frame-Counted_example =
    handle_frame-Counted sample 0x100 sample_frame sample_clock sample_parser 50 handled

handle_frame-Answer_example :
    Answer sample 0x100 sample_frame sample_clock sample_parser.message_registry
      after.0.message_registry
handle_frame-Answer_example =
    handle_frame-Answer sample 0x100 sample_frame sample_clock sample_parser 50 refl handled

accepted : is_frame_valid sample counted_message sample_frame ≡ some true
unfolding is_frame_valid can_from_scratch.Message.validate_rolling_counter
    can_from_scratch.Protocol.extract_raw_signal can_from_scratch.Protocol.shifted_container
    can_from_scratch.Protocol.little_endian_loop can_from_scratch.Protocol.length_mask
    can_from_scratch.Protocol.extend_sign can_from_scratch.Message.validate_checksum
accepted = refl

listed : is_in_whitelist sample sample_parser 0x100 ≡ true
unfolding is_in_whitelist can_from_scratch.Registry.contains
listed = refl

registered : lookup 0x100 sample_parser.message_registry ≡ some counted_message
unfolding lookup
registered = refl

-- The counter 9 does not follow the counter 4.
abbrev late_frame : List ℕ
late_frame = bytes8 9 100 0xF0 3 0 0 0 7

rejected : is_frame_valid sample counted_message late_frame ≡ some false
unfolding is_frame_valid can_from_scratch.Message.validate_rolling_counter
    can_from_scratch.Protocol.extract_raw_signal can_from_scratch.Protocol.shifted_container
    can_from_scratch.Protocol.little_endian_loop can_from_scratch.Protocol.length_mask
    can_from_scratch.Protocol.extend_sign
rejected = refl

abbrev after_late : CanParser sample
after_late =
    found_or sample_parser
      (handle_message sample sample_parser 0x100 counted_message late_frame sample_clock)

handled_late :
    handle_message sample sample_parser 0x100 counted_message late_frame sample_clock
    ≡ some after_late
unfolding handle_message is_frame_valid can_from_scratch.Message.validate_rolling_counter
    can_from_scratch.Protocol.extract_raw_signal can_from_scratch.Protocol.shifted_container
    can_from_scratch.Protocol.little_endian_loop can_from_scratch.Protocol.length_mask
    can_from_scratch.Protocol.extend_sign can_from_scratch.Message.validate_checksum
handled_late = refl

pub sample_parser-IsSafe : IsSafe sample sample_parser
unfolding lookup
sample_parser-IsSafe id m e = elim (Bool-cases (0x100 == id)) [
  | inl here ↦
      subst (IsWellFormed sample) (some-injective _ _ (rw here at e)) counted_message-IsWellFormed
  | inr elsewhere ↦ absurd (ground (arith, e, elsewhere))
]

handle_frame-IsSafe_example :
    (s' : CanParser sample) × (out : List Output) × (handle_frame sample sample_parser 0x100
        sample_frame 50 sample_clock
      ≡ some (s', out))
    × IsSafe sample s'
handle_frame-IsSafe_example =
    handle_frame-IsSafe sample_frame sample_frame-IsFrame sample 0x100 sample_clock sample_parser 50
      sample_parser-IsSafe (λ on fault. ground arith)

get_timeout_signals-eq-count_example :
    get_timeout_signals sample sample_parser sample_clock
    ≡ count sample (expired sample sample_clock) 0 (all_signals sample_parser.message_registry)
      % 2 ^ 64
get_timeout_signals-eq-count_example =
    get_timeout_signals-eq-count sample sample_clock sample_parser
