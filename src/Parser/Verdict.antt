-- ===== src/Parser/Verdict.antt =====
-- What `handleFrame` does with a registered message, by the two verdicts of its validation.
use mathlib.Core.Option.{some-injective}
use can_from_scratch.Prelude.{
  ℕ, ◌≡◌, ap, sym, ◌∙◌, Bool, true, false, not, ◌&&◌, none, some, List, [], if◌then◌else◌,
}
use can_from_scratch.Frame.{IsFrame}
use can_from_scratch.Platform.{Platform}
use can_from_scratch.Registry.{lookup, insert}
use can_from_scratch.Message.{
  CanMessage, validate_rolling_counter, validate_checksum, is_frame_valid, parse,
}
use can_from_scratch.Message.Counter.{HasCounter, counter, store_counter-eq}
use can_from_scratch.Message.Parse.{parse-Accepted}
use can_from_scratch.Parser.{
  CanParser, increment, is_diagnostic, is_in_whitelist, handle_message, handle_found, handle_frame,
}
use can_from_scratch.Parser.Tally.{verdict}
use can_from_scratch.Parser.Accounting.{counted}

module _ (p : Platform) (id : ℕ) where
  pub verdict-eq :
      (m : CanMessage p) (frame : List ℕ) {b : Bool}
      → validate_checksum p m frame ≡ some b
      → verdict p m frame ≡ b
  verdict-eq m frame e = ap (λ o. elim o [ none ↦ false | some b ↦ b ]) e

  pub handle_frame-registered :
      (s : CanParser p) (m : CanMessage p) (frame : List ℕ) (now : p.Time) (clock : ℕ → p.Time)
      {s' : CanParser p}
      → (s.diagnostic_mode_enabled && is_diagnostic id) ≡ false
      → is_in_whitelist p s id ≡ true
      → lookup id s.message_registry ≡ some m
      → handle_message p (counted p s) id m frame clock ≡ some s'
      → handle_frame p s id frame now clock ≡ some (s', [])
  unfolding handle_frame handle_found is_in_whitelist
  handle_frame-registered s m frame now clock passed allowed registered e =
      simp (passed, allowed, registered, e)

  -- The parser after a frame that was accepted, or rejected with these two verdicts.
  abbrev pub accepting : CanParser p → CanMessage p → CanParser p
  accepting s m' = record s {
    message_registry = insert id m' s.message_registry;
    valid_frames = increment s.valid_frames;
  }

  abbrev pub rejecting : CanParser p → Bool → Bool → CanParser p
  rejecting s c b = record s {
    invalid_frames = increment s.invalid_frames;
    rolling_counter_errors =
        if not c then increment s.rolling_counter_errors else s.rolling_counter_errors;
    checksum_errors = if not b then increment s.checksum_errors else s.checksum_errors;
  }

  pub handle_message-accepts :
      (s : CanParser p) (m : CanMessage p) (frame : List ℕ) (clock : ℕ → p.Time) {m' : CanMessage p}
      → is_frame_valid p m frame ≡ some true
      → parse p m frame clock ≡ some m'
      → handle_message p s id m frame clock ≡ some (accepting s m')
  unfolding handle_message
  handle_message-accepts s m frame clock valid parsed = simp (valid, parsed)

  pub handle_message-rejects :
      (s : CanParser p) (m : CanMessage p) (frame : List ℕ) (clock : ℕ → p.Time) (c b : Bool)
      → validate_rolling_counter p m frame ≡ some c
      → validate_checksum p m frame ≡ some b
      → is_frame_valid p m frame ≡ some false
      → handle_message p s id m frame clock ≡ some (rejecting s c b)
  unfolding handle_message
  handle_message-rejects s m frame clock c b ec eb invalid = simp (invalid, ec, eb)

  pub is_frame_valid-both :
      (m : CanMessage p) (frame : List ℕ) (c b : Bool)
      → validate_rolling_counter p m frame ≡ some c
      → validate_checksum p m frame ≡ some b
      → is_frame_valid p m frame ≡ some (c && b)
  unfolding is_frame_valid
  is_frame_valid-both m frame true b ec eb = simp (ec, eb)
  is_frame_valid-both m frame false b ec eb = simp ec

  -- The message after an accepted frame.
  pub parsed_lem :
      (m : CanMessage p) (frame : List ℕ) (clock : ℕ → p.Time) (start len : ℕ) {m' : CanMessage p}
      → HasCounter p m start len
      → IsFrame frame
      → is_frame_valid p m frame ≡ some true
      → parse p m frame clock ≡ some m'
      → m' ≡ record m { signals = m'.signals; last_rolling_counter = counter p frame start len }
  parsed_lem m frame clock start len h v valid parsed =
      let a = parse-Accepted p m frame clock valid parsed in
      cc (
        a.result,
        some-injective _ _ (sym a.counter_stored ∙ store_counter-eq p m start len frame h v),
      )
