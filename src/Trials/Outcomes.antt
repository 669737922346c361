-- ===== src/Trials/Outcomes.antt =====
-- What the tests that `main` has commented out print.
use Prim.Native.String.{String}
use can_from_scratch.Prelude.{ℕ, ◌≡◌, refl, false, some, [], ◌∷◌}
use can_from_scratch.Prelude.Int.{ℤ, pos, negsuc}
use can_from_scratch.Platform.{Platform}
use can_from_scratch.Parser.{CanParser}
use can_from_scratch.Screen.{Reading, Row}
use can_from_scratch.Trials.{Line}
use can_from_scratch.Trials.Parsing.{
  extract_raw_signal_test, can_parser_test, whitelist_test, multiplexing_test,
}

-- 0xDEAD as the source expects, and 0xFFF read as -1.
extract_raw_signal_test_lem : extract_raw_signal_test ≡ some (0xDEAD, 0xFFF, negsuc 0)
unfolding extract_raw_signal_test can_from_scratch.Protocol.extract_raw_signal
    can_from_scratch.Protocol.shifted_container can_from_scratch.Protocol.big_endian_loop
    can_from_scratch.Protocol.length_mask can_from_scratch.Protocol.extend_sign
extract_raw_signal_test_lem = refl

module _ (p : Platform) (literal : (digits places : ℕ) → p.Double) where
  -- `raw * factor + offset` of an unsigned signal
  abbrev scaled : ℕ → p.Double → ℤ → Reading p
  scaled raw factor offset =
      Reading.physical (p.plus (p.times (p.from_uint64 raw) factor) (p.from_int64 offset))

  abbrev scaled_signed : ℤ → p.Double → ℤ → Reading p
  scaled_signed raw factor offset =
      Reading.physical (p.plus (p.times (p.from_int64 raw) factor) (p.from_int64 offset))

  abbrev row : String → Reading p → Row p
  row name reading = record { name = name; reading = reading; timeout = false }

  -- With multiplexor 0 the voltage has raw value 0x0A00, with 1 the current has it.
  multiplexing_test_lem :
      (time : ℕ → p.Time) (clock : ℕ → ℕ → p.Time)
      → (s : CanParser p) × (multiplexing_test p literal time clock
          ≡ some (
            s,
            Line.shown (
                  some (
                    600,
                    row "ModeSwitch" (scaled 0 (p.from_int64 (pos 1)) (pos 0))
                        ∷ row "NormalData" (scaled 0 (p.from_int64 (pos 1)) (pos 0))
                        ∷ row "BatteryVoltage" (scaled 0x0A00 (literal 1 2) (pos 0))
                        ∷ row "MotorCurrent" Reading.invalid
                        ∷ [],
                  ))
                ∷ Line.shown (
                    some (
                      600,
                      row "ModeSwitch" (scaled 1 (p.from_int64 (pos 1)) (pos 0))
                          ∷ row "NormalData" (scaled 0 (p.from_int64 (pos 1)) (pos 0))
                          ∷ row "BatteryVoltage" Reading.invalid
                          ∷ row "MotorCurrent" (scaled 0x0A00 (literal 1 1) (negsuc 99))
                          ∷ [],
                    ))
                ∷ [],
          ))
  unfolding can_from_scratch.Registry.lookup can_from_scratch.Registry.insert
      can_from_scratch.Parser.handle_frame can_from_scratch.Parser.is_in_whitelist
      can_from_scratch.Parser.handle_found can_from_scratch.Parser.handle_message
      can_from_scratch.Message.is_frame_valid can_from_scratch.Message.validate_rolling_counter
      can_from_scratch.Protocol.extract_raw_signal can_from_scratch.Protocol.shifted_container
      can_from_scratch.Protocol.little_endian_loop can_from_scratch.Protocol.length_mask
      can_from_scratch.Protocol.extend_sign can_from_scratch.Message.validate_checksum
      can_from_scratch.Message.add_signal can_from_scratch.Message.find_mux_value
      can_from_scratch.Message.parse can_from_scratch.Message.store_counter
      can_from_scratch.Message.update_signals can_from_scratch.Parser.register_signal
      can_from_scratch.Protocol.big_endian_loop can_from_scratch.Screen.show_data
      can_from_scratch.Screen.display can_from_scratch.Screen.print_all
      can_from_scratch.Screen.print can_from_scratch.Signal.is_timeout
      can_from_scratch.Signal.signal can_from_scratch.Signal.update can_from_scratch.Signal.physical
      multiplexing_test
  multiplexing_test_lem time clock = (_, refl)

  -- The frame that is not in the whitelist leaves its signal as it was, but the signal is shown.
  whitelist_test_lem :
      (time : ℕ → p.Time) (clock : ℕ → ℕ → p.Time)
      → (s : CanParser p) × (whitelist_test p literal time clock
          ≡ some (
            s,
            Line.shown (some (0x123, row "WheelSpeed" (scaled 0xFF80 (literal 1 2) (pos 0)) ∷ []))
                ∷ Line.shown (some (0x456, row "FuelLevel" Reading.not_updated ∷ []))
                ∷ Line.shown
                    (some (0x456, row "FuelLevel" (scaled 0xFF (literal 4 1) (pos 0)) ∷ []))
                ∷ Line.shown
                    (some (0x789, row "EngineRPM" (scaled 0xFF80 (literal 10 1) (pos 0)) ∷ []))
                ∷ [],
          ))
  unfolding can_from_scratch.Registry.lookup can_from_scratch.Registry.insert
      can_from_scratch.Parser.handle_frame can_from_scratch.Parser.is_in_whitelist
      can_from_scratch.Parser.handle_found can_from_scratch.Parser.handle_message
      can_from_scratch.Message.is_frame_valid can_from_scratch.Message.validate_rolling_counter
      can_from_scratch.Protocol.extract_raw_signal can_from_scratch.Protocol.shifted_container
      can_from_scratch.Protocol.little_endian_loop can_from_scratch.Protocol.length_mask
      can_from_scratch.Protocol.extend_sign can_from_scratch.Message.validate_checksum
      can_from_scratch.Message.add_signal can_from_scratch.Message.find_mux_value
      can_from_scratch.Message.parse can_from_scratch.Message.store_counter
      can_from_scratch.Message.update_signals can_from_scratch.Parser.register_signal
      can_from_scratch.Protocol.big_endian_loop can_from_scratch.Screen.show_data
      can_from_scratch.Screen.display can_from_scratch.Screen.print_all
      can_from_scratch.Screen.print can_from_scratch.Signal.is_timeout
      can_from_scratch.Signal.signal can_from_scratch.Signal.update can_from_scratch.Signal.physical
      whitelist_test can_from_scratch.Parser.has_message can_from_scratch.Parser.add_to_whitelist
      can_from_scratch.Parser.enable_whitelist can_from_scratch.Registry.contains
      can_from_scratch.Registry.add
  whitelist_test_lem time clock = (_, refl)

  -- The fields start at bit 7 and 23 of the sequential numbering.
  can_parser_test_lem :
      (time : ℕ → p.Time) (clock : ℕ → ℕ → p.Time)
      → (s : CanParser p) × (can_parser_test p literal time clock
          ≡ some (
            s,
            Line.shown (
                  some (
                    0x123,
                    row "WheelSpeed" (scaled 0xFFA8 (literal 1 2) (pos 0))
                        ∷ row "EngineTemp" (scaled_signed (pos 0) (literal 10 1) (negsuc 39))
                        ∷ [],
                  ))
                ∷ Line.shown (some (0x456, row "FuelLevel" (scaled 0 (literal 4 1) (pos 0)) ∷ []))
                ∷ [],
          ))
  unfolding can_from_scratch.Registry.lookup can_from_scratch.Registry.insert
      can_from_scratch.Parser.handle_frame can_from_scratch.Parser.is_in_whitelist
      can_from_scratch.Parser.handle_found can_from_scratch.Parser.handle_message
      can_from_scratch.Message.is_frame_valid can_from_scratch.Message.validate_rolling_counter
      can_from_scratch.Protocol.extract_raw_signal can_from_scratch.Protocol.shifted_container
      can_from_scratch.Protocol.little_endian_loop can_from_scratch.Protocol.length_mask
      can_from_scratch.Protocol.extend_sign can_from_scratch.Message.validate_checksum
      can_from_scratch.Message.add_signal can_from_scratch.Message.find_mux_value
      can_from_scratch.Message.parse can_from_scratch.Message.store_counter
      can_from_scratch.Message.update_signals can_from_scratch.Parser.register_signal
      can_from_scratch.Protocol.big_endian_loop can_from_scratch.Screen.show_data
      can_from_scratch.Screen.display can_from_scratch.Screen.print_all
      can_from_scratch.Screen.print can_from_scratch.Signal.is_timeout
      can_from_scratch.Signal.signal can_from_scratch.Signal.update can_from_scratch.Signal.physical
      can_parser_test
  can_parser_test_lem time clock = (_, refl)
