-- ===== src/Parser/Frames.antt =====
-- What `CanParser::handleFrame` does to the registry.
use mathlib.Core.Path.{subst}
use can_from_scratch.Prelude.{
  ℕ, ◌≡◌, ◌≢◌, refl, ap, ◌∙◌, true, false, not, ◌&&◌, ◌||◌, Option, none, some, List, arith,
  Bool-cases, ◌⊎◌, inl, inr, ◌==◌, >>=-eq-some,
}
use can_from_scratch.Prelude.Int.{ℤ}
use can_from_scratch.Platform.{Platform}
use can_from_scratch.Registry.{
  lookup, insert, lookup-insert, contains, contains-add, contains-erase,
}
use can_from_scratch.Message.{CanMessage, is_frame_valid, parse, find_mux_value}
use can_from_scratch.Message.Parse.{UpdatedFrom, parse-Updated}
use can_from_scratch.Uds.{Output, DiagnosticMessage, handle_diagnostic_frame}
use can_from_scratch.Parser.{
  CanParser, increment, is_diagnostic, is_in_whitelist, handle_message, handle_diagnostic,
  handle_found, handle_frame, get_diagnostic_message, add_to_whitelist, remove_from_whitelist,
  clear_whitelist, enable_whitelist,
}
use can_from_scratch.Parser.Accounting.{counted}

module _ (p : Platform) where
  module _ (id : ℕ) (frame : List ℕ) (clock : ℕ → p.Time) where
    -- The registry is left alone, or the message of an accepted frame is parsed and put back.
    abbrev pub Stored : CanParser p → CanMessage p → CanParser p → Type 0
    Stored s m s' =
        (s'.message_registry ≡ s.message_registry)
        ⊎ (m' : CanMessage p) × (is_frame_valid p m frame ≡ some true)
          × (parse p m frame clock ≡ some m')
          × (s'.message_registry ≡ insert id m' s.message_registry)

    handle_message-Stored :
        (s : CanParser p) (m : CanMessage p) {s' : CanParser p}
        → handle_message p s id m frame clock ≡ some s'
        → Stored s m s'
    unfolding handle_message
    handle_message-Stored s m e =
        let (valid, test, rest) = >>=-eq-some (is_frame_valid p m frame) _ e in
        elim (Bool-cases valid) [
          | inr rejected ↦ inl (ground arith)
          | inl accepted ↦
              let (m', parsed, last) =
                >>=-eq-some (parse p m frame clock) _ (rw accepted at rest) in
              inr (m', test ∙ ap some accepted, parsed, ground arith)
        ]

    -- The frame was accepted: in the registry, the message found is replaced by the parsed one.
    pub record Accepted (r r' : List (ℕ × CanMessage p)) (m m' : CanMessage p) : Type 0 where
      pub registered : lookup id r ≡ some m
      pub valid : is_frame_valid p m frame ≡ some true
      pub parsed : parse p m frame clock ≡ some m'
      pub now_stored : lookup id r' ≡ some m'
      pub selection : ℤ
      pub selects : find_mux_value p m.signals frame ≡ some selection
      pub updated : UpdatedFrom p frame selection clock 0 m.signals m'.signals

    -- What becomes of the registry.
    abbrev pub Answer : List (ℕ × CanMessage p) → List (ℕ × CanMessage p) → Type 0
    Answer r r' =
        ((r' ≡ r) ⊎ (m : CanMessage p) × (m' : CanMessage p) × Accepted r r' m m')
        × ((other : ℕ) → other ≢ id → lookup other r' ≡ lookup other r)

    same-Answer : (r r' : List (ℕ × CanMessage p)) → r' ≡ r → Answer r r'
    same-Answer r r' same = (inl same, λ other ne. ap (lookup other) same)

    found_here :
        (r : List (ℕ × CanMessage p)) (m' : CanMessage p) → lookup id (insert id m' r) ≡ some m'
    found_here r m' = ground (arith, lookup-insert id id m' r)

    found_elsewhere :
        (r : List (ℕ × CanMessage p)) (m' : CanMessage p) (other : ℕ)
        → other ≢ id
        → lookup other (insert id m' r) ≡ lookup other r
    found_elsewhere r m' other ne = ground (arith, lookup-insert id other m' r)

    Stored-Answer :
        (s : CanParser p) (m : CanMessage p) (s' : CanParser p)
        → lookup id s.message_registry ≡ some m
        → Stored s m s'
        → Answer s.message_registry s'.message_registry
    Stored-Answer s m s' l (inl same) = same-Answer s.message_registry s'.message_registry same
    Stored-Answer s m s' l (inr (m', valid, parsed, stored)) =
        let (selection, selects, updated) = parse-Updated p m frame clock valid parsed in
        (
          inr (
            m,
            m',
            record {
              registered = l;
              valid = valid;
              parsed = parsed;
              now_stored = ap (lookup id) stored ∙ found_here s.message_registry m';
              selection = selection;
              selects = selects;
              updated = updated;
            },
          ),
          λ other ne. ap (lookup other) stored ∙ found_elsewhere s.message_registry m' other ne,
        )

    handle_found-Answer :
        (s : CanParser p) (found : Option (CanMessage p)) {s' : CanParser p}
        → lookup id s.message_registry ≡ found
        → handle_found p s id found frame clock ≡ some s'
        → Answer s.message_registry s'.message_registry
    unfolding handle_found
    handle_found-Answer s none {s'} l e =
        same-Answer s.message_registry s'.message_registry (ground arith)
    handle_found-Answer s (some m) {s'} l e = Stored-Answer s m s' l (handle_message-Stored s m e)

    -- When `handleFrame` returns for a frame that the diagnostic plugin does not take, the
    -- registry is as it was, or the frame's identifier is registered, the frame is valid for its
    -- message, and exactly that message is replaced by the parsed one, with every signal updated
    -- for the frame's multiplexor value. The messages of all other identifiers stay as they were.
    pub handle_frame-Answer :
        (s : CanParser p) (now : p.Time) {s' : CanParser p} {out : List Output}
        → (s.diagnostic_mode_enabled && is_diagnostic id) ≡ false
        → handle_frame p s id frame now clock ≡ some (s', out)
        → Answer s.message_registry s'.message_registry
    unfolding handle_frame
    handle_frame-Answer s now {s'} other e =
        elim (Bool-cases (is_in_whitelist p (counted p s) id)) [
          | inr barred ↦ same-Answer s.message_registry s'.message_registry (ground arith)
          | inl allowed ↦
              let (s'', found, last) =
                >>=-eq-some
                  (handle_found p (counted p s) id (lookup id s.message_registry) frame clock) _
                  (rw (other, allowed) at e) in
              subst (λ (x : CanParser p). Answer s.message_registry x.message_registry) {x = s''}
                {y = s'} (ground arith)
                (handle_found-Answer (counted p s) (lookup id s.message_registry) refl found)
        ]

    -- In diagnostic mode, when `handleFrame` returns for a frame of 0x7E0 or 0x7E8, the plugin has
    -- handled it with the message assembled so far for its identifier, with the same outputs, and
    -- the result is stored there; the diagnostic messages of all other identifiers stay as they
    -- were.
    pub handle_frame-diagnostic :
        (s : CanParser p) (now : p.Time) {s' : CanParser p} {out : List Output}
        → (s.diagnostic_mode_enabled && is_diagnostic id) ≡ true
        → handle_frame p s id frame now clock ≡ some (s', out)
        → (diag : DiagnosticMessage p) × (handle_diagnostic_frame p
              (get_diagnostic_message p s id)
              frame
              now
            ≡ some (diag, out))
          × (get_diagnostic_message p s' id ≡ diag)
          × ((other : ℕ)
              → other ≢ id
              → get_diagnostic_message p s' other ≡ get_diagnostic_message p s other)
    unfolding handle_frame handle_diagnostic get_diagnostic_message
    handle_frame-diagnostic s now {s'} taken e =
        let ((diag, out'), handled, last) =
          >>=-eq-some (handle_diagnostic_frame p (get_diagnostic_message p s id) frame now) _
            (rw taken at e) in
        let stored : s'.diagnostic_messages ≡ insert id diag s.diagnostic_messages = ground arith in
        (
          diag,
          handled ∙ ground arith,
          ground (arith, stored, lookup-insert id id diag s.diagnostic_messages),
          λ other ne. ground (arith, stored, lookup-insert id other diag s.diagnostic_messages),
        )

    handle_message-Accepted :
        (s : CanParser p) (m : CanMessage p) {s' : CanParser p}
        → is_frame_valid p m frame ≡ some true
        → handle_message p s id m frame clock ≡ some s'
        → (parse p m frame clock ≡ lookup id s'.message_registry)
          × (s'.valid_frames ≡ increment s.valid_frames)
    unfolding handle_message
    handle_message-Accepted s m valid e =
        let (m', parsed, last) = >>=-eq-some (parse p m frame clock) _ (rw valid at e) in
        ground (arith, found_here s.message_registry m')

    -- Let a frame's identifier be registered, not taken by the diagnostic plugin and let through
    -- by the whitelist, and let the frame be valid for the registered message. When `handleFrame`
    -- returns, the message stored for the identifier is the parsed one, and the frame counts as
    -- valid, modulo 2 ^ 64.
    pub handle_frame-Accepted :
        (s : CanParser p) (now : p.Time) (m : CanMessage p) {s' : CanParser p} {out : List Output}
        → (s.diagnostic_mode_enabled && is_diagnostic id) ≡ false
        → is_in_whitelist p s id ≡ true
        → lookup id s.message_registry ≡ some m
        → is_frame_valid p m frame ≡ some true
        → handle_frame p s id frame now clock ≡ some (s', out)
        → (parse p m frame clock ≡ lookup id s'.message_registry)
          × (s'.valid_frames ≡ increment s.valid_frames)
    unfolding handle_frame handle_message is_in_whitelist handle_found
    handle_frame-Accepted s now m other allowed registered valid e =
        let (s'', found, last) =
          >>=-eq-some (handle_found p (counted p s) id (lookup id s.message_registry) frame clock) _
            (rw (other, allowed) at e) in
        let here : handle_message p (counted p s) id m frame clock ≡ some s'' =
          rw registered at found in
        ground (arith, handle_message-Accepted (counted p s) m valid here)

  -- The whitelist is a set: an added identifier is in, a removed one is out, a cleared list is
  -- empty, the others stay as they were, and a disabled whitelist lets every identifier through.
  pub whitelist_lem :
      (s : CanParser p) (id other : ℕ)
      → (is_in_whitelist p (add_to_whitelist p s id) other
          ≡ (is_in_whitelist p s other || id == other))
        × (is_in_whitelist p (remove_from_whitelist p s id) other
            ≡ (not s.whitelist_enabled || (is_in_whitelist p s other && not (id == other))))
        × (is_in_whitelist p (clear_whitelist p s) other ≡ not s.whitelist_enabled)
        × (is_in_whitelist p (enable_whitelist p s false) other ≡ true)
  unfolding is_in_whitelist add_to_whitelist remove_from_whitelist clear_whitelist enable_whitelist
      contains
  whitelist_lem s id other =
      ground (arith, contains-add id other s.whitelist, contains-erase id other s.whitelist)
