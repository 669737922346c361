-- ===== src/Trials/Faults.antt =====
-- What `fault_tolerance_test` prints.
use can_from_scratch.Prelude.{ℕ, ◌≡◌, refl, some, List, [], ◌∷◌}
use can_from_scratch.Platform.{Platform}
use can_from_scratch.Parser.{CanParser}
use can_from_scratch.Trials.{Line, fault_tolerance_test}

-- The figures on frames and errors.
abbrev figures : {p : Platform} → List (Line p) → List (Line p)
figures [] = []
figures (Line.shown rows ∷ rest) = figures rest
figures (Line.timeouts n ∷ rest) = figures rest
figures (line ∷ rest) = line ∷ figures rest

module _ (p : Platform) (literal : (digits places : ℕ) → p.Double) where
  -- The third frame, sent as one with a wrong checksum, is accepted, and the fourth, sent as the
  -- right next one, is refused for its counter; no checksum error is counted.
  fault_tolerance_test-figures :
      (time : ℕ → p.Time) (clock : ℕ → ℕ → p.Time)
      → (s : CanParser p) × (lines : List (Line p)) × (fault_tolerance_test p literal time clock
          ≡ some (s, lines))
        × (figures lines
            ≡ Line.frames 1 1 0
              ∷ Line.frames_and_errors 2 1 1 1
              ∷ Line.frames_and_errors 3 2 1 0
              ∷ Line.frames 4 2 2
              ∷ [])
  unfolding fault_tolerance_test can_from_scratch.Registry.lookup can_from_scratch.Registry.insert
      can_from_scratch.Parser.handle_frame can_from_scratch.Parser.is_in_whitelist
      can_from_scratch.Parser.handle_found can_from_scratch.Parser.handle_message
      can_from_scratch.Message.is_frame_valid can_from_scratch.Message.validate_rolling_counter
      can_from_scratch.Message.set_checksum can_from_scratch.Message.set_rolling_counter
      can_from_scratch.Protocol.extract_raw_signal can_from_scratch.Protocol.shifted_container
      can_from_scratch.Protocol.little_endian_loop can_from_scratch.Protocol.length_mask
      can_from_scratch.Protocol.extend_sign can_from_scratch.Message.validate_checksum
      can_from_scratch.Checksum.calculate_checksum can_from_scratch.Checksum.checksum_loop
      can_from_scratch.Message.add_signal can_from_scratch.Message.find_mux_value
      can_from_scratch.Message.parse can_from_scratch.Message.store_counter
      can_from_scratch.Message.update_signals can_from_scratch.Parser.register_signal
      can_from_scratch.Protocol.big_endian_loop can_from_scratch.Screen.show_data
      can_from_scratch.Signal.signal can_from_scratch.Signal.update can_from_scratch.Trials.adjust
  fault_tolerance_test-figures time clock = (_, _, refl, refl)
