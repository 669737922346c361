-- ===== src/Parser/Accounting.antt =====
-- The statistics of `CanParser::handleFrame`.
use can_from_scratch.Prelude.{
  ℕ, ◌+◌, ◌^◌, ◌%◌, ◌≡◌, ◌⊎◌, inl, inr, true, false, ◌&&◌, Option, none, some, List, [], arith,
  Bool-cases, if◌then◌else◌, >>=-eq-some,
}
use can_from_scratch.Platform.{Platform}
use can_from_scratch.Registry.{lookup}
use can_from_scratch.Message.{CanMessage, is_frame_valid}
use can_from_scratch.Uds.{Output}
use can_from_scratch.Parser.{
  CanParser, increment, is_diagnostic, is_in_whitelist, handle_message, handle_diagnostic,
  handle_found, handle_frame,
}

module _ (p : Platform) where
  -- The frame was counted as valid, or as invalid.
  abbrev pub Counted : CanParser p → CanParser p → Type 0
  Counted s s' =
      ((s'.valid_frames ≡ increment s.valid_frames) × (s'.invalid_frames ≡ s.invalid_frames))
      ⊎ ((s'.valid_frames ≡ s.valid_frames)
          × (s'.invalid_frames ≡ increment s.invalid_frames)
          × (s'.message_registry ≡ s.message_registry))

  -- What no call of the message part touches.
  abbrev pub SameRest : CanParser p → CanParser p → Type 0
  SameRest s s' =
      (s'.whitelist ≡ s.whitelist)
      × (s'.whitelist_enabled ≡ s.whitelist_enabled)
      × (s'.diagnostic_mode_enabled ≡ s.diagnostic_mode_enabled)
      × (s'.diagnostic_messages ≡ s.diagnostic_messages)

  -- The parser after the frame is counted in the total.
  abbrev pub counted : CanParser p → CanParser p
  counted s = record s { total_frames = increment s.total_frames }

  module _ (id : ℕ) (frame : List ℕ) (clock : ℕ → p.Time) where
    handle_message-Counted :
        (s : CanParser p) (m : CanMessage p) {s' : CanParser p}
        → handle_message p s id m frame clock ≡ some s'
        → Counted s s' × SameRest s s' × (s'.total_frames ≡ s.total_frames)
    unfolding handle_message
    handle_message-Counted s m e = ground arith

    handle_found-Counted :
        (s : CanParser p) (found : Option (CanMessage p)) {s' : CanParser p}
        → handle_found p s id found frame clock ≡ some s'
        → Counted s s' × SameRest s s' × (s'.total_frames ≡ s.total_frames)
    unfolding handle_found
    handle_found-Counted s (some m) e = handle_message-Counted s m e
    handle_found-Counted s none e = ground arith

    diagnostic-Counted :
        (s : CanParser p) (now : p.Time) {s' : CanParser p} {out : List Output}
        → handle_diagnostic p s id frame now ≡ some (s', out)
        → (s'.valid_frames ≡ s.valid_frames)
          × (s'.invalid_frames ≡ s.invalid_frames)
          × (s'.message_registry ≡ s.message_registry)
          × (s'.total_frames ≡ s.total_frames)
    unfolding handle_diagnostic
    diagnostic-Counted s now e = ground arith

    -- Every call of `handleFrame` that returns counts one frame in the total, modulo 2 ^ 64 as all
    -- counters are. A diagnostic frame counts as neither valid nor invalid and leaves the registry
    -- alone; any other frame counts as exactly one of the two, leaves the registry alone if it
    -- counts as invalid, and leaves the diagnostic messages, the whitelist and the modes alone and
    -- puts nothing out.
    pub handle_frame-Counted :
        (s : CanParser p) (now : p.Time) {s' : CanParser p} {out : List Output}
        → handle_frame p s id frame now clock ≡ some (s', out)
        → (s'.total_frames ≡ increment s.total_frames)
          × (((s.diagnostic_mode_enabled && is_diagnostic id) ≡ true)
                × (s'.valid_frames ≡ s.valid_frames)
                × (s'.invalid_frames ≡ s.invalid_frames)
                × (s'.message_registry ≡ s.message_registry)
              ⊎ ((s.diagnostic_mode_enabled && is_diagnostic id) ≡ false)
                × Counted s s'
                × SameRest s s'
                × (out ≡ []))
    unfolding handle_frame
    handle_frame-Counted s now e =
        elim (Bool-cases (s.diagnostic_mode_enabled && is_diagnostic id)) [
          | inl diagnostic ↦ ground (arith, diagnostic-Counted (counted s) now (rw diagnostic at e))
          | inr other ↦ elim (Bool-cases (is_in_whitelist p (counted s) id)) [
            | inr barred ↦ ground arith
            | inl allowed ↦
                let (s'', found, last) =
                  >>=-eq-some
                    (handle_found p (counted s) id (lookup id s.message_registry) frame clock) _
                    (rw (other, allowed) at e) in
                ground
                  (arith, handle_found-Counted (counted s) (lookup id s.message_registry) found)
          ]
        ]

    -- When a registered frame that fails the validation has been handled, the errors of the
    -- rolling counter or those of the checksum are one more, modulo 2 ^ 64.
    pub handle_message-explained :
        (s : CanParser p) (m : CanMessage p) {s' : CanParser p}
        → is_frame_valid p m frame ≡ some false
        → handle_message p s id m frame clock ≡ some s'
        → (s'.rolling_counter_errors ≡ increment s.rolling_counter_errors)
          ⊎ (s'.checksum_errors ≡ increment s.checksum_errors)
    unfolding handle_message is_frame_valid
    handle_message-explained s m e h = ground arith

  -- The three counters of frames agree, with `d` frames taken by the diagnostic plugin, modulo 2 ^
  -- 64.
  abbrev pub Balanced : CanParser p → ℕ → Type 0
  Balanced s d = s.total_frames ≡ (s.valid_frames + s.invalid_frames + d) % 2 ^ 64

  abbrev pub diagnostic_share : CanParser p → ℕ → ℕ
  diagnostic_share s id = if s.diagnostic_mode_enabled && is_diagnostic id then 1 else 0

  -- If the total is the sum of the valid, the invalid and `d` diagnostic frames, modulo 2 ^ 64,
  -- then it is so after a call of `handleFrame` that returns, with one more diagnostic frame if
  -- the plugin took it.
  pub handle_frame-Balanced :
      (s : CanParser p) (id : ℕ) (frame : List ℕ) (now : p.Time) (clock : ℕ → p.Time) (d : ℕ)
      {s' : CanParser p} {out : List Output}
      → Balanced s d
      → handle_frame p s id frame now clock ≡ some (s', out)
      → Balanced s' (d + diagnostic_share s id)
  handle_frame-Balanced s id frame now clock d b e =
      ground (arith, handle_frame-Counted id frame clock s now e)
