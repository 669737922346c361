-- ===== src/Parser/Stream.antt =====
-- Frames of one identifier, one after another, for a message with a rolling counter and a checksum.
use mathlib.Core.Path.{subst}
use can_from_scratch.Prelude.{
  ℕ, ◌+◌, ◌%◌, ◌^◌, ◌≡◌, refl, ap, ap₂, sym, ◌∙◌, inl, inr, Bool, true, false, ◌&&◌, ◌||◌, some,
  List, [], ◌∷◌, All, arith, Bool-cases, ◌==◌, if◌then◌else◌,
}
use can_from_scratch.Frame.{IsFrame}
use can_from_scratch.Platform.{Platform}
use can_from_scratch.Registry.{lookup-insert}
use can_from_scratch.Signal.{Signal}
use can_from_scratch.Message.{
  CanMessage, validate_rolling_counter, validate_checksum, is_frame_valid,
}
use can_from_scratch.Message.Counter.{counter, validate_rolling_counter-eq}
use can_from_scratch.Message.WellFormed.{validate_checksum-IsDone, parse-IsDone}
use can_from_scratch.Parser.{CanParser, is_in_whitelist, handle_frame}
use can_from_scratch.Parser.Tally.{
  Tally, is_expected, judge, judge_all, handle_frames, frames_of, IsSetUp, Follows,
}
use can_from_scratch.Parser.Verdict.{
  verdict-eq, handle_frame-registered, accepting, rejecting, handle_message-accepts,
  handle_message-rejects, is_frame_valid-both, parsed_lem,
}
use can_from_scratch.Parser.Accounting.{counted}
use can_from_scratch.Parser.Safety.{handle_frame-IsSafe_kept}

module _ (p : Platform) (id : ℕ) where
  module _ (start len step : ℕ) (sound : List ℕ → Bool) where
    IsSetUp-record :
        (m : CanMessage p) (sigs : List (Signal p)) (last : ℕ)
        → IsSetUp p start len step sound m
        → IsSetUp p start len step sound (record m { signals = sigs; last_rolling_counter = last })
    unfolding validate_checksum
    IsSetUp-record m sigs last i = record {
      has_counter = record {
        at_start = i.has_counter.at_start;
        at_length = i.has_counter.at_length;
        nonempty = i.has_counter.nonempty;
        narrow = i.has_counter.narrow;
        inside = i.has_counter.inside;
      };
      same_step = i.same_step;
      same_checksum = i.same_checksum;
    }

    -- The two verdicts of the parser are those of the checker.
    verdicts :
        (s : CanParser p) (t : Tally) (frame : List ℕ) (i : Follows p id start len step sound s t)
        → IsFrame frame
        → (validate_rolling_counter p i.message frame
            ≡ some (is_expected (λ f. counter p f start len) step (2 ^ len) sound t.last frame))
          × (validate_checksum p i.message frame ≡ some (sound frame))
    verdicts s t frame i v =
        let (b, e) =
          validate_checksum-IsDone frame v p i.message (i.safe id i.message i.registered) in
        (
          validate_rolling_counter-eq p i.message start len frame i.set_up.has_counter v
              ∙ ap₂ (λ l k. some (l == 0xFF || counter p frame start len == (l + k) % 2 ^ len))
                  i.same_last i.set_up.same_step,
          e ∙ ap some (sym (verdict-eq p id i.message frame e) ∙ i.set_up.same_checksum frame v),
        )

    accepting-Follows :
        (s : CanParser p) (t : Tally) (frame : List ℕ) (now : p.Time) (clock : ℕ → p.Time)
        (i : Follows p id start len step sound s t)
        → IsFrame frame
        → is_frame_valid p i.message frame ≡ some true
        → (s' : CanParser p) × (handle_frame p s id frame now clock ≡ some (s', []))
          × Follows p id start len step sound s'
              (record t { last = counter p frame start len; valid = t.valid + 1 })
    unfolding is_in_whitelist
    accepting-Follows s t frame now clock i v valid =
        let (m', parsed) =
          parse-IsDone frame v p i.message (i.safe id i.message i.registered) clock in
        let same =
          parsed_lem p id i.message frame clock start len i.set_up.has_counter v valid parsed in
        let e =
          handle_frame-registered p id s i.message frame now clock i.passed i.allowed i.registered
            (handle_message-accepts p id (counted p s) i.message frame clock valid parsed) in
        (
          accepting p id (counted p s) m',
          e,
          record {
            message = m';
            registered = ground (arith, lookup-insert id id m' s.message_registry);
            set_up =
                subst (IsSetUp p start len step sound) (sym same)
                  (IsSetUp-record i.message m'.signals (counter p frame start len) i.set_up);
            same_last = ap (λ (x : CanMessage p). x.last_rolling_counter) same;
            passed = i.passed;
            allowed = i.allowed;
            safe = handle_frame-IsSafe_kept frame v p id clock s now i.safe e;
            same_valid = omega (arith, i.same_valid);
            same_invalid = i.same_invalid;
            same_counter_errors = i.same_counter_errors;
            same_checksum_errors = i.same_checksum_errors;
          },
        )

    rejecting-Follows :
        (s : CanParser p) (t : Tally) (frame : List ℕ) (now : p.Time) (clock : ℕ → p.Time)
        (c b : Bool) (i : Follows p id start len step sound s t)
        → IsFrame frame
        → validate_rolling_counter p i.message frame ≡ some c
        → validate_checksum p i.message frame ≡ some b
        → is_frame_valid p i.message frame ≡ some false
        → (s' : CanParser p) × (handle_frame p s id frame now clock ≡ some (s', []))
          × Follows p id start len step sound s' (record t {
            invalid = t.invalid + 1;
            counter_errors = t.counter_errors + (if c then 0 else 1);
            checksum_errors = t.checksum_errors + (if b then 0 else 1);
          })
    unfolding is_in_whitelist
    rejecting-Follows s t frame now clock c b i v ec eb invalid =
        let e =
          handle_frame-registered p id s i.message frame now clock i.passed i.allowed i.registered
            (handle_message-rejects p id (counted p s) i.message frame clock c b ec eb invalid) in
        (
          rejecting p id (counted p s) c b,
          e,
          record {
            message = i.message;
            registered = i.registered;
            set_up = i.set_up;
            same_last = i.same_last;
            passed = i.passed;
            allowed = i.allowed;
            safe = i.safe;
            same_valid = i.same_valid;
            same_invalid = omega (arith, i.same_invalid);
            same_counter_errors = ground (arith, i.same_counter_errors);
            same_checksum_errors = ground (arith, i.same_checksum_errors);
          },
        )

    handle_frame-Follows :
        (s : CanParser p) (t : Tally) (frame : List ℕ) (now : p.Time) (clock : ℕ → p.Time)
        (i : Follows p id start len step sound s t)
        → IsFrame frame
        → (s' : CanParser p) × (handle_frame p s id frame now clock ≡ some (s', []))
          × Follows p id start len step sound s'
              (judge (λ f. counter p f start len) step (2 ^ len) sound t frame)
    handle_frame-Follows s t frame now clock i v =
        let (ec, eb) = verdicts s t frame i v in
        let expected : Bool =
          is_expected (λ f. counter p f start len) step (2 ^ len) sound t.last frame in
        let valid = is_frame_valid-both p id i.message frame expected (sound frame) ec eb in
        elim (Bool-cases (expected && sound frame)) [
          | inl good ↦ rw good (accepting-Follows s t frame now clock i v (valid ∙ ap some good))
          | inr bad ↦ rw bad (
              rejecting-Follows s t frame now clock expected (sound frame) i v ec eb
                (valid ∙ ap some bad))
        ]

    -- Let a message be registered, let through by the whitelist and not taken by the diagnostic
    -- plugin, with a rolling counter of 1 to 8 bits in the frame and a checksum whose verdict on an
    -- eight-byte frame is `sound`, and let the parser's messages have fields that can be read. Then
    -- any sequence of eight-byte frames with its identifier is handled with defined behaviour, and
    -- the last counter, the valid and invalid frames and the two counters of errors, modulo 2 ^ 64,
    -- are those of a checker that accepts a frame exactly if it is sound and its counter is the
    -- last accepted one plus the increment, or no counter was seen, and that counts each failed
    -- test of a frame that it refuses.
    pub handle_frames-Follows :
        (s : CanParser p) (t : Tally) (frames : List (List ℕ × p.Time × (ℕ → p.Time)))
        → All IsFrame (frames_of p frames)
        → Follows p id start len step sound s t
        → (s' : CanParser p) × (handle_frames p id s frames ≡ some s')
          × Follows p id start len step sound s'
              (judge_all (λ f. counter p f start len) step (2 ^ len) sound t (frames_of p frames))
    unfolding handle_frames
    handle_frames-Follows s t [] v i = (s, refl, i)
    handle_frames-Follows s t ((frame, now, clock) ∷ rest) v i =
        let (s1, e1, i1) = handle_frame-Follows s t frame now clock i v.0 in
        let (s2, e2, i2) = handle_frames-Follows s1 _ rest v.1 i1 in (s2, simp (e1, e2), i2)
