-- ===== src/Parser/Tally.antt =====
-- A checker of a stream of frames by their rolling counter and checksum, and what it means that a
-- parser agrees with it.
use can_from_scratch.Prelude.{
  ℕ, ◌+◌, ◌%◌, ◌^◌, ◌≡◌, Bool, true, false, ◌&&◌, ◌||◌, Option, none, some, ◌>>=◌, List, [], ◌∷◌,
  ◌==◌, if◌then◌else◌,
}
use can_from_scratch.Frame.{IsFrame}
use can_from_scratch.Platform.{Platform}
use can_from_scratch.Registry.{lookup}
use can_from_scratch.Message.{CanMessage, validate_checksum}
use can_from_scratch.Message.Counter.{HasCounter}
use can_from_scratch.Parser.{CanParser, is_diagnostic, is_in_whitelist, handle_frame}
use can_from_scratch.Parser.Safety.{IsSafe}

-- What a checker of the stream has to remember.
pub record Tally : Type 0 where
  pub last : ℕ
  pub valid : ℕ
  pub invalid : ℕ
  pub counter_errors : ℕ
  pub checksum_errors : ℕ

-- The checker: `carried` is the counter in a frame, `step` and `modulus` are what it counts by, and
-- `sound` is the verdict on the checksum.
module _ (carried : List ℕ → ℕ) (step modulus : ℕ) (sound : List ℕ → Bool) where
  -- 0xFF stands for no counter seen so far.
  abbrev pub is_expected : ℕ → List ℕ → Bool
  is_expected last frame = last == 0xFF || carried frame == (last + step) % modulus

  abbrev pub judge : Tally → List ℕ → Tally
  judge t frame =
      let expected = is_expected t.last frame in
      if expected && sound frame
      then record t { last = carried frame; valid = t.valid + 1 }
      else record t {
        invalid = t.invalid + 1;
        counter_errors = t.counter_errors + (if expected then 0 else 1);
        checksum_errors = t.checksum_errors + (if sound frame then 0 else 1);
      }

  abbrev pub judge_all : Tally → List (List ℕ) → Tally
  judge_all t [] = t
  judge_all t (frame ∷ rest) = judge_all (judge t frame) rest

module _ (p : Platform) where
  abbrev pub frames_of : List (List ℕ × p.Time × (ℕ → p.Time)) → List (List ℕ)
  frames_of [] = []
  frames_of ((frame, now, clock) ∷ rest) = frame ∷ frames_of rest

  -- The verdict of `validateChecksum`.
  abbrev pub verdict : CanMessage p → List ℕ → Bool
  verdict m frame = elim (validate_checksum p m frame) [ none ↦ false | some b ↦ b ]

  module _ (start len step : ℕ) (sound : List ℕ → Bool) where
    -- The message has the counter, and its checksum the verdict.
    pub record IsSetUp (m : CanMessage p) : Type 0 where
      pub has_counter : HasCounter p m start len
      pub same_step : m.expected_increment ≡ step
      pub same_checksum : (frame : List ℕ) → IsFrame frame → verdict m frame ≡ sound frame

module _ (p : Platform) (id : ℕ) where
  -- Each frame with its readings of the clock.
  unfoldable pub handle_frames :
      CanParser p → List (List ℕ × p.Time × (ℕ → p.Time)) → Option (CanParser p)
  handle_frames s [] = some s
  handle_frames s ((frame, now, clock) ∷ rest) = do
    (s', out) ← handle_frame p s id frame now clock
    handle_frames s' rest

  module _ (start len step : ℕ) (sound : List ℕ → Bool) where
    -- The parser's counters are those of the tally, and the message is set up for it.
    pub record Follows (s : CanParser p) (t : Tally) : Type 0 where
      pub message : CanMessage p
      pub registered : lookup id s.message_registry ≡ some message
      pub set_up : IsSetUp p start len step sound message
      pub same_last : message.last_rolling_counter ≡ t.last
      pub passed : (s.diagnostic_mode_enabled && is_diagnostic id) ≡ false
      pub allowed : is_in_whitelist p s id ≡ true
      pub safe : IsSafe p s
      pub same_valid : s.valid_frames ≡ t.valid % 2 ^ 64
      pub same_invalid : s.invalid_frames ≡ t.invalid % 2 ^ 64
      pub same_counter_errors : s.rolling_counter_errors ≡ t.counter_errors % 2 ^ 64
      pub same_checksum_errors : s.checksum_errors ≡ t.checksum_errors % 2 ^ 64
