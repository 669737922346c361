-- ===== src/Parser/Safety.antt =====
-- `CanParser::handleFrame` has defined behaviour.
use mathlib.Core.Path.{subst}
use mathlib.Core.Option.{some-injective}
use can_from_scratch.Prelude.{
  ℕ, ◌<◌, ◌≤◌, ◌≡◌, refl, ap, sym, ◌∙◌, inl, inr, true, ◌&&◌, Option, none, some, List, [], arith,
  Bool-cases, Option-cases, ◌==◌, get_or,
}
use can_from_scratch.Frame.{IsFrame}
use can_from_scratch.Platform.{Platform}
use can_from_scratch.Registry.{lookup}
use can_from_scratch.Message.{CanMessage}
use can_from_scratch.Message.WellFormed.{
  IsWellFormed, IsDone, IsDone-of_ne, validate_rolling_counter-IsDone, validate_checksum-IsDone,
  is_frame_valid-IsDone, parse-IsDone, parse-IsWellFormed,
}
use can_from_scratch.Uds.{Output, handle_diagnostic_frame}
use can_from_scratch.Uds.Invariant.{handle_diagnostic_frame-none_iff}
use can_from_scratch.Parser.{
  CanParser, is_diagnostic, is_in_whitelist, get_diagnostic_message, handle_message,
  handle_diagnostic, handle_found, handle_frame,
}
use can_from_scratch.Parser.Accounting.{counted, handle_frame-Counted}
use can_from_scratch.Parser.Frames.{Answer, handle_frame-Answer}

-- Every registered message is configured with fields that `extract_raw_signal` can read.
abbrev pub IsSafe : (p : Platform) → CanParser p → Type 0
IsSafe p s = (id : ℕ) (m : CanMessage p) → lookup id s.message_registry ≡ some m → IsWellFormed p m

module _ (frame : List ℕ) (v : IsFrame frame) (p : Platform) (id : ℕ) (clock : ℕ → p.Time) where
  handle_message-IsDone :
      (s : CanParser p) (m : CanMessage p)
      → IsWellFormed p m
      → IsDone (handle_message p s id m frame clock)
  unfolding handle_message
  handle_message-IsDone s m w =
      let (valid, e) = is_frame_valid-IsDone frame v p m w in
      let (a, ea) = validate_rolling_counter-IsDone frame v p m w in
      let (b, eb) = validate_checksum-IsDone frame v p m w in
      let (m', em) = parse-IsDone frame v p m w clock in
      elim (Bool-cases valid) [
        | inl accepted ↦ IsDone-of_ne _ (ground (arith, e, accepted, em))
        | inr rejected ↦ IsDone-of_ne _ (ground (arith, e, rejected, ea, eb))
      ]

  handle_found-IsDone :
      (s : CanParser p) (found : Option (CanMessage p))
      → lookup id s.message_registry ≡ found
      → IsSafe p s
      → IsDone (handle_found p s id found frame clock)
  unfolding handle_found
  handle_found-IsDone s none l safe = (_, refl)
  handle_found-IsDone s (some m) l safe = handle_message-IsDone s m (safe id m l)

  handle_diagnostic-IsDone :
      (s : CanParser p) (now : p.Time)
      → ¬ ((8 ≤ get_or frame 0 0) × (get_or frame 0 0 < 16))
      → IsDone (handle_diagnostic p s id frame now)
  unfolding handle_diagnostic
  handle_diagnostic-IsDone s now fine =
      elim (Option-cases (handle_diagnostic_frame p (get_diagnostic_message p s id) frame now)) [
        | inl faults ↦ absurd (
            fine (
              (handle_diagnostic_frame-none_iff p (get_diagnostic_message p s id) frame now v).0
                faults))
        | inr (r, e) ↦ IsDone-of_ne _ (ground (arith, e))
      ]

  handle_frame-IsDone :
      (s : CanParser p) (now : p.Time)
      → IsSafe p s
      → ((s.diagnostic_mode_enabled && is_diagnostic id) ≡ true
          → ¬ ((8 ≤ get_or frame 0 0) × (get_or frame 0 0 < 16)))
      → IsDone (handle_frame p s id frame now clock)
  unfolding handle_frame
  handle_frame-IsDone s now safe fine =
      elim (Bool-cases (s.diagnostic_mode_enabled && is_diagnostic id)) [
        | inl taken ↦
            let (r, e) = handle_diagnostic-IsDone (counted p s) now (fine taken) in
            (r, simp (taken, e))
        | inr other ↦ elim (Bool-cases (is_in_whitelist p (counted p s) id)) [
          | inr barred ↦ IsDone-of_ne _ (ground (arith, other, barred))
          | inl allowed ↦
              let (s', e) =
                handle_found-IsDone (counted p s) (lookup id s.message_registry) refl safe in
              ((s', []), simp (other, allowed, e))
        ]
      ]

  Answer-IsSafe :
      (s s' : CanParser p)
      → Answer p id frame clock s.message_registry s'.message_registry
      → IsSafe p s
      → IsSafe p s'
  Answer-IsSafe s s' (inl same, others) safe other m l =
      safe other m (sym (ap (lookup other) same) ∙ l)
  Answer-IsSafe s s' (inr (old, new, a), others) safe other m l = elim (Bool-cases (other == id)) [
    | inl here ↦
        let same : lookup other s'.message_registry ≡ some new =
          ap (λ k. lookup k s'.message_registry) (ground arith) ∙ a.now_stored in
        subst (IsWellFormed p) (some-injective _ _ (sym same ∙ l))
          (parse-IsWellFormed frame v p old clock (safe id old a.registered) a.valid a.parsed)
    | inr elsewhere ↦ safe other m (sym (others other (ground arith)) ∙ l)
  ]

  pub handle_frame-IsSafe_kept :
      (s : CanParser p) (now : p.Time) {s' : CanParser p} {out : List Output}
      → IsSafe p s
      → handle_frame p s id frame now clock ≡ some (s', out)
      → IsSafe p s'
  handle_frame-IsSafe_kept s now {s'} safe e =
      elim (Bool-cases (s.diagnostic_mode_enabled && is_diagnostic id)) [
        | inl taken ↦
            let same : s'.message_registry ≡ s.message_registry =
              ground (arith, taken, handle_frame-Counted p id frame clock s now e) in
            λ other m l. safe other m (sym (ap (lookup other) same) ∙ l)
        | inr passed ↦ Answer-IsSafe s s' (handle_frame-Answer p id frame clock s now passed e) safe
      ]

  -- If every registered message is configured with fields that `extract_raw_signal` can read, and
  -- the frame is not one that the diagnostic plugin takes and whose first byte is 8 to 15, then
  -- `handleFrame` has defined behaviour on an eight-byte frame, and the new parser's messages are
  -- configured so again.
  pub handle_frame-IsSafe :
      (s : CanParser p) (now : p.Time)
      → IsSafe p s
      → ((s.diagnostic_mode_enabled && is_diagnostic id) ≡ true
          → ¬ ((8 ≤ get_or frame 0 0) × (get_or frame 0 0 < 16)))
      → (s' : CanParser p) × (out : List Output) × (handle_frame p s id frame now clock
          ≡ some (s', out))
        × IsSafe p s'
  handle_frame-IsSafe s now safe fine =
      let ((s', out), e) = handle_frame-IsDone s now safe fine in
      (s', out, e, handle_frame-IsSafe_kept s now safe e)
