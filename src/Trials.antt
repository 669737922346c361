-- ===== src/Trials.antt =====
-- src/can_parser.cpp and src/protocol.cpp: the tests built into the program, of which `main` runs
-- `fault_tolerance_test`. A test's result is its parser at the end and the figures it prints;
-- `none` is undefined behaviour or an exception. `time` and `clock` are the readings of the clock,
-- and `literal digits places` the `double` of a decimal literal with so many places.
pub mod Faults
pub mod Parsing
pub mod Outcomes
use Prim.Native.String.{String}
use can_from_scratch.Prelude.{
  ℕ, Bool, true, false, not, Option, none, some, ◌>>=◌, List, [], ◌∷◌, if◌then◌else◌,
}
use can_from_scratch.Prelude.Int.{ℤ, pos, negsuc}
use can_from_scratch.Frame.{bytes8}
use can_from_scratch.Platform.{Platform}
use can_from_scratch.Checksum.{ChecksumType}
use can_from_scratch.Registry.{lookup, insert}
use can_from_scratch.Signal.{Signal, signal, set_timeout_threshold}
use can_from_scratch.Message.{CanMessage, set_rolling_counter, set_checksum}
use can_from_scratch.Parser.{
  CanParser, new_parser, register_signal, has_message, add_to_whitelist, enable_whitelist,
  get_timeout_signals, handle_frame,
}
use can_from_scratch.Screen.{Row, show_data}

-- A line of figures: the frames, in all, valid and invalid; the same with one counter of errors;
-- what `showData` prints; the number of time-outs; and the line for an identifier that is filtered.
pub data Line (p : Platform) : Type 0 where
  frames : (total valid invalid : ℕ) → Line p
  frames_and_errors : (total valid invalid errors : ℕ) → Line p
  shown : Option (ℕ × List (Row p)) → Line p
  timeouts : ℕ → Line p
  filtered : ℕ → Line p

module _ (p : Platform) (literal : (digits places : ℕ) → p.Double) where
  -- `getMessageRegistry().at(id)`, changed in place; `at` throws for a missing key.
  unfoldable pub adjust : CanParser p → ℕ → (CanMessage p → CanMessage p) → Option (CanParser p)
  adjust s id change = do
    m ← lookup id s.message_registry
    some (record s { message_registry = insert id (change m) s.message_registry })

  abbrev pub frame_figures : CanParser p → Line p
  frame_figures s = Line.frames s.total_frames s.valid_frames s.invalid_frames

  -- A signal with the defaults of the header for the last four parameters.
  abbrev pub plain_signal : String → ℤ → ℤ → Bool → Bool → p.Double → p.Double → p.Time → Signal p
  plain_signal name start len be sign factor offset now =
      signal p name start len be sign factor offset false false (negsuc 0) 0 now

  module _ (time : ℕ → p.Time) (clock : ℕ → ℕ → p.Time) where
    -- The two signals of message 0x200, monitored for 1000 and 500 milliseconds.
    abbrev pub fault_parser : CanParser p
    fault_parser =
        register_signal p
          (register_signal p (new_parser p) 0x200 (
            signal p "EngineSpeed" (pos 0) (pos 16) true false (literal 1 1) (p.from_int64 (pos 0))
              false false (negsuc 0) 1000 (time 0)))
          0x200
          (signal p "ThrottlePos" (pos 16) (pos 8) true false (literal 5 1) (p.from_int64 (pos 0))
            false false (negsuc 0) 500 (time 1))

    abbrev pub with_self_checks : CanMessage p → CanMessage p
    with_self_checks m =
        set_checksum p (set_rolling_counter p m (pos 56) (pos 8) 1) (pos 48) (pos 8)
          ChecksumType.xor

    -- `if (signals.size() >= 2)`, the thresholds of the first two
    abbrev pub with_longer_thresholds : CanMessage p → CanMessage p
    with_longer_thresholds m = record m {
      signals = elim m.signals [
        | [] ↦ []
        | a ∷ [] ↦ a ∷ []
        | a ∷ b ∷ rest ↦ set_timeout_threshold p a 2000 ∷ set_timeout_threshold p b 3000 ∷ rest
      ];
    }

    unfoldable pub fault_tolerance_test : Option (CanParser p × List (Line p))
    unfolding adjust register_signal
    fault_tolerance_test = do
      s ← adjust fault_parser 0x200 with_self_checks
      (s1, out1) ← handle_frame p s 0x200 (bytes8 0xFF 0xFF 0x80 0 0 0 0x7F 1) (time 2) (clock 0)
      (s2, out2) ← handle_frame p s1 0x200 (bytes8 0xFF 0xFF 0x80 0 0 0 0x7F 5) (time 4) (clock 1)
      (s3, out3) ← handle_frame p s2 0x200 (bytes8 0xFF 0xFF 0x80 0 0 0 0 2) (time 5) (clock 2)
      (s4, out4) ← handle_frame p s3 0x200 (bytes8 0xFF 0xFF 0x80 0 0 0 0x7F 2) (time 6) (clock 3)
      s5 ← adjust s4 0x200 with_longer_thresholds
      some (
        s5,
        Line.shown (show_data p s1 0x200 (clock 13))
            ∷ frame_figures s1
            ∷ Line.frames_and_errors s2.total_frames s2.valid_frames s2.invalid_frames
                s2.rolling_counter_errors
            ∷ Line.frames_and_errors s3.total_frames s3.valid_frames s3.invalid_frames
                s3.checksum_errors
            ∷ Line.shown (show_data p s4 0x200 (clock 17))
            ∷ frame_figures s4
            ∷ Line.shown (show_data p s4 0x200 (clock 18))
            ∷ Line.timeouts (get_timeout_signals p s4 (clock 19))
            ∷ [],
      )
