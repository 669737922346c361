-- ===== src/Message/Defined.antt =====
-- `CanMessage::parse` has defined behaviour on messages that are configured for the frame.
use can_from_scratch.Prelude.{ℕ, ◌≡◌, ◌∙◌, ap, inl, inr, Bool-cases, some, List}
use mathlib.Core.Path.{subst}
use mathlib.Core.Option.{some-injective}
use can_from_scratch.Prelude.{sym}
use can_from_scratch.Platform.{Platform}
use can_from_scratch.Frame.{IsFrame}
use can_from_scratch.Message.{CanMessage, parse}
use can_from_scratch.Message.Parse.{parse_rejected}
use can_from_scratch.Message.WellFormed.{
  IsWellFormed, is_frame_valid-IsDone, parse-IsDone, parse-IsWellFormed,
}

module _ (frame : List ℕ) (v : IsFrame frame) (p : Platform) (m : CanMessage p)
    (clock : ℕ → p.Time) where
  -- Let a message's counter and checksum, where configured, and its signals be fields that
  -- `extract_raw_signal` can read, the counter at most 31 bits long. Then `parse` has defined
  -- behaviour on every eight-byte frame, accepted or not, and the new message is configured so
  -- again.
  pub parse-defined :
      IsWellFormed p m → (m' : CanMessage p) × (parse p m frame clock ≡ some m') × IsWellFormed p m'
  parse-defined w =
      let (valid, tested) = is_frame_valid-IsDone frame v p m w in
      let (m', e) = parse-IsDone frame v p m w clock in
      elim (Bool-cases valid) [
        | inl accepted ↦
            (m', e, parse-IsWellFormed frame v p m clock w (tested ∙ ap some accepted) e)
        | inr rejected ↦
            let same = parse_rejected p m frame clock (tested ∙ ap some rejected) in
            (m', e, subst (IsWellFormed p) (some-injective _ _ (sym same ∙ e)) w)
      ]
