-- ===== src/Examples/Streams.antt =====
-- A stream of frames, and the dashboard after it.
use mathlib.Core.Path.{subst}
use mathlib.Core.Option.{some-injective}
use can_from_scratch.Prelude.{
  ℕ, ◌+◌, ◌%◌, ◌^◌, ◌≡◌, refl, inl, inr, Bool, true, some, List, [], ◌∷◌, arith, Bool-cases, ◌==◌,
  length,
}
use can_from_scratch.Prelude.Int.{pos}
use can_from_scratch.Frame.{bytes8}
use can_from_scratch.Checksum.{ChecksumType}
use can_from_scratch.Registry.{lookup}
use can_from_scratch.Signal.{Signal}
use can_from_scratch.Message.{CanMessage, set_rolling_counter, set_checksum}
use can_from_scratch.Message.Counter.{counter}
use can_from_scratch.Message.SelfCheck.{validate_checksum-aligned}
use can_from_scratch.Message.WellFormed.{IsWellFormed}
use can_from_scratch.Parser.{CanParser, new_parser, is_in_whitelist}
use can_from_scratch.Parser.Safety.{IsSafe}
use can_from_scratch.Parser.Tally.{Tally, judge_all, handle_frames, frames_of, Follows}
use can_from_scratch.Parser.Verdict.{verdict-eq}
use can_from_scratch.Parser.Stream.{handle_frames-Follows}
use can_from_scratch.Parser.Reorder.{Handling, Reordered, handle_each, handle_each-Reordered}
use can_from_scratch.Parser.Timeouts.{all_signals, count}
use can_from_scratch.Screen.{render_dashboard}
use can_from_scratch.Screen.Marks.{marks, hidden, early, lapsed, revived, render_dashboard-marks}
use can_from_scratch.Examples.{sample, sample_frame, counted_message, sample_clock, sample_parser}

-- The counter in the last byte, and a checksum byte before it that covers itself.
abbrev checked_message : CanMessage sample
checked_message =
    set_checksum sample (set_rolling_counter sample counted_message (pos 56) (pos 8) 1) (pos 48)
      (pos 8) ChecksumType.xor

abbrev checked_parser : CanParser sample
checked_parser = record (new_parser sample) { message_registry = (0x200, checked_message) ∷ [] }

checked_message-IsWellFormed : IsWellFormed sample checked_message
unfolding set_checksum set_rolling_counter
checked_message-IsWellFormed = record {
  signals_defined = ground arith;
  counter_defined = λ e. ground arith;
  checksum_defined = λ e. ground arith;
}

checked_parser-IsSafe : IsSafe sample checked_parser
unfolding lookup
checked_parser-IsSafe id m e = elim (Bool-cases (0x200 == id)) [
  | inl here ↦
      subst (IsWellFormed sample) (some-injective _ _ (rw here at e)) checked_message-IsWellFormed
  | inr elsewhere ↦ absurd (ground (arith, e, elsewhere))
]

-- The frames of the second, third and fourth part of `fault_tolerance_test` after the first.
abbrev stream : List (List ℕ × ℕ × (ℕ → ℕ))
stream =
    (bytes8 0xFF 0xFF 0x80 0 0 0 0x7F 1, 10, sample_clock)
    ∷ (bytes8 0xFF 0xFF 0x80 0 0 0 0x7F 5, 20, sample_clock)
    ∷ (bytes8 0xFF 0xFF 0x80 0 0 0 0 2, 30, sample_clock)
    ∷ (bytes8 0xFF 0xFF 0x80 0 0 0 0x7F 2, 40, sample_clock)
    ∷ []

abbrev no_tally : Tally
no_tally = record { last = 0xFF; valid = 0; invalid = 0; counter_errors = 0; checksum_errors = 0 }

abbrev accepts_all : List ℕ → Bool
accepts_all frame = true

checked_parser-Follows : Follows sample 0x200 56 8 1 accepts_all checked_parser no_tally
unfolding lookup is_in_whitelist set_checksum set_rolling_counter
checked_parser-Follows = record {
  message = checked_message;
  registered = refl;
  set_up = record {
    has_counter = record {
      at_start = refl;
      at_length = refl;
      nonempty = omega arith;
      narrow = omega arith;
      inside = omega arith;
    };
    same_step = refl;
    same_checksum = λ frame v. verdict-eq sample 0x200 checked_message frame (
        validate_checksum-aligned sample
          (set_rolling_counter sample counted_message (pos 56) (pos 8) 1) ChecksumType.xor 6 frame v
          (omega arith));
  };
  same_last = refl;
  passed = refl;
  allowed = refl;
  safe = checked_parser-IsSafe;
  same_valid = refl;
  same_invalid = refl;
  same_counter_errors = refl;
  same_checksum_errors = refl;
}

handle_frames-Follows_example :
    (s' : CanParser sample) × (handle_frames sample 0x200 checked_parser stream ≡ some s')
    × Follows sample 0x200 56 8 1 accepts_all s' (
        judge_all
          (λ f. counter sample f 56 8)
          1
          (2 ^ 8)
          accepts_all
          no_tally
          (frames_of sample stream))
handle_frames-Follows_example =
    handle_frames-Follows sample 0x200 56 8 1 accepts_all checked_parser no_tally stream
      (ground arith) checked_parser-Follows

-- Two of the four are valid.
stream_judged :
    judge_all (λ f. counter sample f 56 8) 1 (2 ^ 8) accepts_all no_tally (frames_of sample stream)
    ≡ record { last = 2; valid = 2; invalid = 2; counter_errors = 2; checksum_errors = 0 }
stream_judged = refl

-- A clock that moves between two readings.
abbrev moving_clock : ℕ → ℕ
moving_clock i = 150 + i

abbrev shown : List (Signal sample)
shown = all_signals sample_parser.message_registry

render_dashboard-marks_example :
    ((render_dashboard sample sample_parser 7 moving_clock).timeout_signals
        + count sample (early sample moving_clock (length shown)) 0 shown
        + count sample (lapsed sample moving_clock (length shown)) 0 shown)
      % 2 ^ 64
    ≡ (marks (render_dashboard sample sample_parser 7 moving_clock).rows
        + count sample (hidden sample moving_clock (length shown)) 0 shown
        + count sample (revived sample moving_clock (length shown)) 0 shown)
      % 2 ^ 64
render_dashboard-marks_example = render_dashboard-marks sample moving_clock sample_parser 7

-- Frames of two identifiers, in two orders.
abbrev handling : ℕ → Handling sample
handling id = record { id = id; payload = sample_frame; now = 50; clock = sample_clock }

abbrev interleaved : List (Handling sample)
interleaved = handling 0x100 ∷ handling 0x200 ∷ handling 0x100 ∷ []

abbrev grouped : List (Handling sample)
grouped = handling 0x100 ∷ handling 0x100 ∷ handling 0x200 ∷ []

interleaved-Reordered : Reordered sample interleaved grouped
interleaved-Reordered =
    Reordered.cons (handling 0x100)
      (Reordered.swap (handling 0x200) (handling 0x100) [] (λ e. omega arith))

handle_each-Reordered_example :
    handle_each sample sample_parser interleaved ≡ handle_each sample sample_parser grouped
handle_each-Reordered_example =
    handle_each-Reordered sample sample_parser interleaved grouped refl interleaved-Reordered
