-- ===== src/Codegen/Unchecked.antt =====
-- The parser that the generated function sets up checks no counter and no checksum, and lets every
-- registered message pass: what the consumer does with a frame then.
use mathlib.Core.Path.{subst, subst₂}
use mathlib.Core.Option.{some-injective}
use can_from_scratch.Prelude.{
  ℕ, ◌+◌, ◌^◌, ◌%◌, ◌≡◌, refl, ap, sym, ◌∙◌, true, false, ◌&&◌, none, some, ◌⊎◌, List, [], ◌∷◌,
  ◌++◌, arith, Option-cases, inl, inr, >>=-eq-some,
}
use can_from_scratch.Prelude.Int.{negsuc}
use can_from_scratch.Platform.{Platform}
use can_from_scratch.Registry.{lookup, lookup-insert}
use can_from_scratch.Message.{
  CanMessage, is_frame_valid, validate_rolling_counter, validate_checksum, parse,
}
use can_from_scratch.Message.Parse.{parse-configuration}
use can_from_scratch.Uds.{Output}
use can_from_scratch.Ring.{CanFrame}
use can_from_scratch.Parser.{
  CanParser, is_diagnostic, is_in_whitelist, has_message, handle_message, handle_found,
  handle_frame, increment_frame,
}
use can_from_scratch.Parser.Accounting.{counted}
use can_from_scratch.Parser.Verdict.{accepting}
use can_from_scratch.Screen.{render_dashboard}
use can_from_scratch.Tasks.{Shown, consume}
use can_from_scratch.Tasks.Flow.{taken, parsed, taken-append, parsed-append}

module _ (p : Platform) where
  -- A message with no counter and no checksum.
  pub record Unchecked (m : CanMessage p) : Type 0 where
    pub no_counter : m.rolling_counter_start ≡ negsuc 0
    pub no_checksum : m.checksum_start ≡ negsuc 0

  pub Unchecked-valid :
      (m : CanMessage p) (frame : List ℕ) → Unchecked m → is_frame_valid p m frame ≡ some true
  unfolding is_frame_valid validate_rolling_counter validate_checksum
  Unchecked-valid m frame u = simp (u.no_counter, u.no_checksum)

  -- What the parser keeps once `init_generated_database` has run, whatever frames come.
  pub record Generated (s : CanParser p) : Type 0 where
    pub no_diagnosis : s.diagnostic_mode_enabled ≡ false
    pub unchecked :
        (id : ℕ) (m : CanMessage p) → lookup id s.message_registry ≡ some m → Unchecked m
    pub allowed :
        (id : ℕ) (m : CanMessage p)
        → lookup id s.message_registry ≡ some m
        → is_in_whitelist p s id ≡ true
    pub none_invalid : s.invalid_frames ≡ 0
    pub no_counter_errors : s.rolling_counter_errors ≡ 0
    pub no_checksum_errors : s.checksum_errors ≡ 0

  -- The frames counted as valid are those handed on, which count twice in the total.
  abbrev pub CountsAll : CanParser p → List (Shown p) → Type 0
  CountsAll s log =
      (s.valid_frames ≡ parsed log % 2 ^ 64) × (s.total_frames ≡ (taken log + parsed log) % 2 ^ 64)

  handle_message-Unchecked :
      (s : CanParser p) (id : ℕ) (m : CanMessage p) (frame : List ℕ) (clock : ℕ → p.Time)
      {s' : CanParser p}
      → Unchecked m
      → handle_message p s id m frame clock ≡ some s'
      → (m' : CanMessage p) × Unchecked m'
        × (parse p m frame clock ≡ some m')
        × (s' ≡ accepting p id s m')
  unfolding handle_message
  handle_message-Unchecked s id m frame clock u e =
      let valid = Unchecked-valid m frame u in
      let (m', parsed, last) = >>=-eq-some (parse p m frame clock) _ (rw valid at e) in
      let same = parse-configuration p m frame clock valid parsed in
      (
        m',
        record {
          no_counter = ap (λ (x : CanMessage p). x.rolling_counter_start) same ∙ u.no_counter;
          no_checksum = ap (λ (x : CanMessage p). x.checksum_start) same ∙ u.no_checksum;
        },
        parsed,
        sym (some-injective _ _ last),
      )

  pub handle_frame-Unchecked :
      (s : CanParser p) (id : ℕ) (m : CanMessage p) (frame : List ℕ) (now : p.Time)
      (clock : ℕ → p.Time) {s' : CanParser p} {out : List Output}
      → Generated s
      → lookup id s.message_registry ≡ some m
      → handle_frame p s id frame now clock ≡ some (s', out)
      → (m' : CanMessage p) × Unchecked m'
        × (parse p m frame clock ≡ some m')
        × (s' ≡ accepting p id (counted p s) m')
  unfolding handle_frame handle_found is_in_whitelist
  handle_frame-Unchecked s id m frame now clock g found e =
      let passed : (s.diagnostic_mode_enabled && is_diagnostic id) ≡ false = rw g.no_diagnosis in
      let (s'', handled, last) =
        >>=-eq-some (handle_message p (counted p s) id m frame clock) _
          (simp (passed, g.allowed id m found, found) at e) in
      let (m', u, parsed, same) =
        handle_message-Unchecked (counted p s) id m frame clock (g.unchecked id m found) handled in
      (m', u, parsed, ground (arith, last, same))

  pub incremented-Generated : (s : CanParser p) → Generated s → Generated (increment_frame p s)
  unfolding increment_frame is_in_whitelist
  incremented-Generated s g = record {
    no_diagnosis = g.no_diagnosis;
    unchecked = g.unchecked;
    allowed = g.allowed;
    none_invalid = g.none_invalid;
    no_counter_errors = g.no_counter_errors;
    no_checksum_errors = g.no_checksum_errors;
  }

  accepting-found :
      (s : CanParser p) (id other : ℕ) (m' found : CanMessage p)
      → lookup other (accepting p id s m').message_registry ≡ some found
      → ((id ≡ other) × (m' ≡ found)) ⊎ (lookup other s.message_registry ≡ some found)
  accepting-found s id other m' found e =
      ground (arith, lookup-insert id other m' s.message_registry, some-injective m' found)

  accepting-Generated :
      (s : CanParser p) (id : ℕ) (m m' : CanMessage p)
      → Generated s
      → lookup id s.message_registry ≡ some m
      → Unchecked m'
      → Generated (accepting p id (counted p s) m')
  unfolding is_in_whitelist
  accepting-Generated s id m m' g found u = record {
    no_diagnosis = g.no_diagnosis;
    unchecked = λ other m2 e. elim (accepting-found s id other m' m2 e) [
      | inl (_, same) ↦ subst Unchecked same u
      | inr before ↦ g.unchecked other m2 before
    ];
    allowed = λ other m2 e. elim (accepting-found s id other m' m2 e) [
      | inl (same, _) ↦ subst (λ k. is_in_whitelist p s k ≡ true) same (g.allowed id m found)
      | inr before ↦ g.allowed other m2 before
    ];
    none_invalid = g.none_invalid;
    no_counter_errors = g.no_counter_errors;
    no_checksum_errors = g.no_checksum_errors;
  }

  pub has_message-found :
      (s : CanParser p) (id : ℕ) {m : CanMessage p}
      → lookup id s.message_registry ≡ some m
      → has_message p (increment_frame p s) id ≡ true
  unfolding has_message increment_frame
  has_message-found s id found = ap (λ o. elim o [ none ↦ false | some m ↦ true ]) found

  pub has_message-missing :
      (s : CanParser p) (id : ℕ)
      → lookup id s.message_registry ≡ none
      → has_message p (increment_frame p s) id ≡ false
  unfolding has_message increment_frame
  has_message-missing s id missing = ap (λ o. elim o [ none ↦ false | some m ↦ true ]) missing

  -- An iteration of the consumer, from what is registered for the frame's identifier.
  pub consume-missing :
      (s : CanParser p) (f : CanFrame) (now : p.Time) (clock : ℕ → p.Time) (drawn : ℕ → p.Time)
      → lookup f.id s.message_registry ≡ none
      → consume p s f now clock drawn ≡ some (increment_frame p s, Shown.quiet)
  unfolding consume
  consume-missing s f now clock drawn missing = rw (has_message-missing s f.id missing) refl

  pub consume-found :
      (s : CanParser p) (f : CanFrame) (m : CanMessage p) (now : p.Time) (clock : ℕ → p.Time)
      (drawn : ℕ → p.Time) {s' : CanParser p} {shown : Shown p}
      → lookup f.id s.message_registry ≡ some m
      → consume p s f now clock drawn ≡ some (s', shown)
      → (s2 : CanParser p) × (out : List Output) × (handle_frame p
            (increment_frame p s)
            f.id
            f.payload
            now
            clock
          ≡ some (s2, out))
        × (◌≡◌ {A = CanParser p × Shown p}
            (s2, Shown.rendered out (render_dashboard p s2 f.timestamp drawn))
            (s', shown))
  unfolding consume
  consume-found s f m now clock drawn found e =
      let ((s2, out), handled, last) =
        >>=-eq-some (handle_frame p (increment_frame p s) f.id f.payload now clock) _
          (rw (has_message-found s f.id found) at e) in
      (s2, out, handled, some-injective _ _ last)

  pub consume-Generated :
      (s : CanParser p) (log : List (Shown p)) (f : CanFrame) (now : p.Time) (clock : ℕ → p.Time)
      (drawn : ℕ → p.Time) {s' : CanParser p} {shown : Shown p}
      → Generated s
      → CountsAll s log
      → consume p s f now clock drawn ≡ some (s', shown)
      → Generated s' × CountsAll s' (log ++ shown ∷ [])
  unfolding increment_frame
  consume-Generated s log f now clock drawn {s'} {shown} g c e =
      elim (Option-cases (lookup f.id s.message_registry)) [
        | inl missing ↦
            let same = some-injective _ _ (sym (consume-missing s f now clock drawn missing) ∙ e) in
            (
              subst Generated (ap (λ x. x.0) same) (incremented-Generated s g),
              subst₂ (λ x y. CountsAll x (log ++ y ∷ [])) (ap (λ x. x.0) same) (ap (λ x. x.1) same)
                  (omega (
                    arith,
                    c,
                    taken-append log (Shown.quiet ∷ []),
                    parsed-append log (Shown.quiet ∷ []),
                  )),
            )
        | inr (m, found) ↦
            let (s2, out, handled, last) = consume-found s f m now clock drawn found e in
            let (m', u, updated, same) =
              handle_frame-Unchecked (increment_frame p s) f.id m f.payload now clock
                (incremented-Generated s g) found handled in
            let shows = Shown.rendered out (render_dashboard p s2 f.timestamp drawn) in
            let stored : Generated (accepting p f.id (counted p (increment_frame p s)) m') =
              accepting-Generated (increment_frame p s) f.id m m' (incremented-Generated s g) found
                u in
            let counts : CountsAll (accepting p f.id (counted p (increment_frame p s)) m')
                (log ++ shows ∷ []) =
              omega (arith, c, taken-append log (shows ∷ []), parsed-append log (shows ∷ [])) in
            (
              subst Generated (sym same ∙ ap (λ x. x.0) last) stored,
              subst₂ (λ x y. CountsAll x (log ++ y ∷ [])) (sym same ∙ ap (λ x. x.0) last)
                  (ap (λ x. x.1) last) counts,
            )
      ]
