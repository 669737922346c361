-- ===== src/Trials/Parsing.antt =====
-- src/can_parser.cpp and src/protocol.cpp: the tests that `main` has commented out.
use can_from_scratch.Prelude.{
  ℕ, bit_and, true, false, not, Option, some, ◌>>=◌, List, [], ◌∷◌, if◌then◌else◌,
}
use can_from_scratch.Prelude.Int.{ℤ, pos, negsuc}
use can_from_scratch.Frame.{bytes8}
use can_from_scratch.Platform.{Platform}
use can_from_scratch.Protocol.{extract_raw_signal}
use can_from_scratch.Protocol.Word.{int64_of}
use can_from_scratch.Signal.{signal}
use can_from_scratch.Parser.{
  CanParser, new_parser, register_signal, has_message, add_to_whitelist, enable_whitelist,
  handle_frame,
}
use can_from_scratch.Screen.{show_data}
use can_from_scratch.Trials.{Line, plain_signal}

-- The three values that are printed: the first raw signal, and the second without and with its
-- sign.
unfoldable pub extract_raw_signal_test : Option (ℕ × ℕ × ℤ)
extract_raw_signal_test = do
  raw ←
      extract_raw_signal (bytes8 0 0 0xDE 0xAD 0 0 0 0)
        (record { start_bit = pos 16; length = pos 16; is_big_endian = true; is_signed = false })
  result ←
      extract_raw_signal (bytes8 0x0F 0xFF 0 0 0 0 0 0)
        (record { start_bit = pos 4; length = pos 12; is_big_endian = true; is_signed = true })
  some (raw, bit_and result 0xFFF, int64_of result)

module _ (p : Platform) (literal : (digits places : ℕ) → p.Double) (time : ℕ → p.Time)
    (clock : ℕ → ℕ → p.Time) where
  unfoldable pub can_parser_test : Option (CanParser p × List (Line p))
  can_parser_test = do
    let s1 = register_signal p (new_parser p) 0x123 (
        plain_signal p literal "WheelSpeed" (pos 7) (pos 16) true false (literal 1 2)
          (p.from_int64 (pos 0)) (time 0))
    let s2 = register_signal p s1 0x123 (
        plain_signal p literal "EngineTemp" (pos 23) (pos 8) true true (literal 10 1)
          (p.from_int64 (negsuc 39)) (time 1))
    let s3 = register_signal p s2 0x456 (
        plain_signal p literal "FuelLevel" (pos 7) (pos 8) false false (literal 4 1)
          (p.from_int64 (pos 0)) (time 2))
    (s4, out4) ← handle_frame p s3 0x123 (bytes8 0x0F 0xFF 0x50 0 0 0 0 0) (time 3) (clock 0)
    (s5, out5) ← handle_frame p s4 0x456 (bytes8 0x64 0 0 0 0 0 0 0) (time 5) (clock 1)
    some (
      s5,
      Line.shown (show_data p s4 0x123 (clock 14))
          ∷ Line.shown (show_data p s5 0x456 (clock 16))
          ∷ [],
    )

  unfoldable pub whitelist_test : Option (CanParser p × List (Line p))
  whitelist_test = do
    let s1 = register_signal p (new_parser p) 0x123 (
        plain_signal p literal "WheelSpeed" (pos 7) (pos 16) true false (literal 1 2)
          (p.from_int64 (pos 0)) (time 0))
    let s2 = register_signal p s1 0x456 (
        plain_signal p literal "FuelLevel" (pos 7) (pos 8) false false (literal 4 1)
          (p.from_int64 (pos 0)) (time 1))
    let s3 = register_signal p s2 0x789 (
        plain_signal p literal "EngineRPM" (pos 7) (pos 16) true false (literal 10 1)
          (p.from_int64 (pos 0)) (time 2))
    let test_data = bytes8 0xFF 0xFF 0 0 0 0 0 0
    let s4 = add_to_whitelist p (enable_whitelist p s3 true) 0x123
    (s5, out5) ← handle_frame p s4 0x123 test_data (time 3) (clock 0)
    (s6, out6) ← handle_frame p s5 0x456 test_data (time 5) (clock 1)
    let s7 = add_to_whitelist p s6 0x456
    (s8, out8) ← handle_frame p s7 0x456 test_data (time 7) (clock 2)
    let s9 = enable_whitelist p s8 false
    (s10, out10) ← handle_frame p s9 0x789 test_data (time 9) (clock 3)
    some (
      s10,
      Line.shown (show_data p s5 0x123 (clock 14))
          ∷ (if not (has_message p s6 0x456)
              then Line.filtered 0x456
              else Line.shown (show_data p s6 0x456 (clock 16)))
          ∷ Line.shown (show_data p s8 0x456 (clock 18))
          ∷ Line.shown (show_data p s10 0x789 (clock 20))
          ∷ [],
    )

  unfoldable pub multiplexing_test : Option (CanParser p × List (Line p))
  multiplexing_test = do
    let s1 = register_signal p (new_parser p) 600 (
        signal p "ModeSwitch" (pos 0) (pos 4) false false (p.from_int64 (pos 1))
          (p.from_int64 (pos 0)) true false (negsuc 0) 0 (time 0))
    let s2 = register_signal p s1 600 (
        signal p "NormalData" (pos 4) (pos 4) false false (p.from_int64 (pos 1))
          (p.from_int64 (pos 0)) false false (negsuc 0) 0 (time 1))
    let s3 = register_signal p s2 600 (
        signal p "BatteryVoltage" (pos 8) (pos 16) false false (literal 1 2) (p.from_int64 (pos 0))
          false true (pos 0) 0 (time 2))
    let s4 = register_signal p s3 600 (
        signal p "MotorCurrent" (pos 8) (pos 16) false false (literal 1 1)
          (p.from_int64 (negsuc 99)) false true (pos 1) 0 (time 3))
    (s5, out5) ← handle_frame p s4 600 (bytes8 0 0 0x0A 0 0 0 0 0) (time 4) (clock 0)
    (s6, out6) ← handle_frame p s5 600 (bytes8 1 0 0x0A 0 0 0 0 0) (time 6) (clock 1)
    some (
      s6,
      Line.shown (show_data p s5 600 (clock 15)) ∷ Line.shown (show_data p s6 600 (clock 17)) ∷ [],
    )
