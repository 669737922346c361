-- ===== src/Codegen/Untimed.antt =====
-- The generated function sets no time-out, and no frame changes one: `getTimeoutSignals` on its
-- parser.
use mathlib.Core.Path.{subst}
use mathlib.Core.Option.{some-injective}
use can_from_scratch.Prelude.{
  ℕ, length, ◌+◌, ◌≡◌, refl, ap, sym, ◌∙◌, some, List, [], ◌∷◌, ◌++◌, ◌==◌, All, Bool-cases,
  Option-cases, inl, inr,
}
use can_from_scratch.Prelude.Int.{ℤ, pos}
use can_from_scratch.Platform.{Platform}
use can_from_scratch.Registry.{lookup, insert}
use can_from_scratch.Signal.{Signal, signal, is_timeout}
use can_from_scratch.Message.{CanMessage, new_message, add_signal}
use can_from_scratch.Message.Parse.{UpdatedFrom, parse-Updated}
use can_from_scratch.Ring.{CanFrame}
use can_from_scratch.Parser.{
  CanParser, new_parser, found_or, increment_frame, register_signal, enable_whitelist,
  add_to_whitelist, count_timeouts, count_all, get_timeout_signals,
}
use can_from_scratch.Tasks.{Shown, consume}
use can_from_scratch.Codegen.{
  Line, Statement, scan, generate, execute, execute_all, init_generated_database,
}
use can_from_scratch.Codegen.Unchecked.{
  Generated, Unchecked-valid, incremented-Generated, consume-missing, consume-found,
  handle_frame-Unchecked,
}

module _ (p : Platform) where
  -- No signal has a time-out.
  abbrev pub Untimed : List (Signal p) → Type 0
  Untimed sigs = All (λ (sig : Signal p). sig.timeout_threshold_ms ≡ 0) sigs

  abbrev pub UntimedAll : List (ℕ × CanMessage p) → Type 0
  UntimedAll r = All (λ (entry : ℕ × CanMessage p). Untimed entry.1.signals) r

  UntimedAll-insert :
      (id : ℕ) (m : CanMessage p) (r : List (ℕ × CanMessage p))
      → Untimed m.signals
      → UntimedAll r
      → UntimedAll (insert id m r)
  unfolding insert
  UntimedAll-insert id m [] h all = (h, tt)
  UntimedAll-insert id m ((k, v) ∷ rest) h all =
      let later = UntimedAll-insert id m rest h all.1 in
      elim (Bool-cases (k == id)) [
        | inl same ↦ rw same (h, all.1)
        | inr other ↦ rw other (all.0, later)
      ]

  Untimed-lookup :
      (id : ℕ) (r : List (ℕ × CanMessage p))
      → UntimedAll r
      → Untimed (found_or (new_message p) (lookup id r)).signals
  unfolding lookup
  Untimed-lookup id [] all = tt
  Untimed-lookup id ((k, v) ∷ rest) all =
      let later = Untimed-lookup id rest all.1 in
      elim (Bool-cases (k == id)) [ inl same ↦ rw same all.0 | inr other ↦ rw other later ]

  Untimed-add :
      (sigs : List (Signal p)) (sig : Signal p)
      → Untimed sigs
      → sig.timeout_threshold_ms ≡ 0
      → Untimed (sigs ++ sig ∷ [])
  Untimed-add [] sig all h = (h, tt)
  Untimed-add (x ∷ rest) sig all h = (all.0, Untimed-add rest sig all.1 h)

  execute_all-UntimedAll :
      (s : CanParser p) (statements : List (Statement p)) (time : ℕ → p.Time) (i : ℕ)
      → UntimedAll s.message_registry
      → UntimedAll (execute_all p s statements time i).message_registry
  unfolding execute_all execute register_signal add_to_whitelist enable_whitelist add_signal signal
  execute_all-UntimedAll s [] time i all = all
  execute_all-UntimedAll s (Statement.enable on ∷ rest) time i all =
      execute_all-UntimedAll (enable_whitelist p s on) rest time (i + 1) all
  execute_all-UntimedAll s (Statement.allow id ∷ rest) time i all =
      execute_all-UntimedAll (add_to_whitelist p s id) rest time (i + 1) all
  execute_all-UntimedAll s
        (Statement.register id name start len be sign factor offset mux muxed value ∷ rest) time i
        all =
      let sig =
        signal p name (pos start) (pos len) be sign factor offset mux muxed value 0 (time i) in
      let before = found_or (new_message p) (lookup id s.message_registry) in
      let added = Untimed-add before.signals sig (Untimed-lookup id s.message_registry all) refl in
      execute_all-UntimedAll (register_signal p s id sig) rest time (i + 1)
        (UntimedAll-insert id (add_signal p before sig) s.message_registry added all)

  pub init_generated_database-UntimedAll :
      (lines : List (Line p)) (time : ℕ → p.Time)
      → UntimedAll (init_generated_database p (new_parser p) lines time).message_registry
  unfolding init_generated_database
  init_generated_database-UntimedAll lines time =
      execute_all-UntimedAll (new_parser p) (generate p (scan p [] lines)) time 0 tt

  UpdatedFrom-Untimed :
      (frame : List ℕ) (mux : ℤ) (clock : ℕ → p.Time) (i : ℕ) (sigs sigs' : List (Signal p))
      → UpdatedFrom p frame mux clock i sigs sigs'
      → Untimed sigs
      → Untimed sigs'
  UpdatedFrom-Untimed frame mux clock i [] [] u all = tt
  UpdatedFrom-Untimed frame mux clock i [] (s' ∷ rest') u all = absurd u
  UpdatedFrom-Untimed frame mux clock i (s ∷ rest) [] u all = absurd u
  UpdatedFrom-Untimed frame mux clock i (s ∷ rest) (s' ∷ rest') u all =
      (u.0.same_threshold ∙ all.0, UpdatedFrom-Untimed frame mux clock (i + 1) rest rest' u.1 all.1)

  pub consume-UntimedAll :
      (s : CanParser p) (f : CanFrame) (now : p.Time) (clock : ℕ → p.Time) (drawn : ℕ → p.Time)
      {s' : CanParser p} {shown : Shown p}
      → Generated p s
      → UntimedAll s.message_registry
      → consume p s f now clock drawn ≡ some (s', shown)
      → UntimedAll s'.message_registry
  unfolding increment_frame
  consume-UntimedAll s f now clock drawn g all e =
      let registry : CanParser p → List (ℕ × CanMessage p) = λ x. x.message_registry in
      elim (Option-cases (lookup f.id s.message_registry)) [
        | inl missing ↦
            let same =
              some-injective _ _ (sym (consume-missing p s f now clock drawn missing) ∙ e) in
            subst UntimedAll (ap (λ x. registry x.0) same) all
        | inr (m, found) ↦
            let (s2, out, handled, last) = consume-found p s f m now clock drawn found e in
            let (m', u, parsed, same) =
              handle_frame-Unchecked p (increment_frame p s) f.id m f.payload now clock
                (incremented-Generated p s g) found handled in
            let valid = Unchecked-valid p m f.payload (g.unchecked f.id m found) in
            let (mux, _, updated) = parse-Updated p m f.payload clock valid parsed in
            let held : Untimed m.signals =
              subst (λ o. Untimed (found_or (new_message p) o).signals) found
                (Untimed-lookup f.id s.message_registry all) in
            let stored =
              UntimedAll-insert f.id m' s.message_registry
                (UpdatedFrom-Untimed f.payload mux clock 0 m.signals m'.signals updated held) all in
            subst UntimedAll (sym (ap registry same) ∙ ap (λ x. registry x.0) last) stored
      ]

  Untimed-count :
      (sigs : List (Signal p)) (clock : ℕ → p.Time) (i n : ℕ)
      → Untimed sigs
      → count_timeouts p sigs clock i n ≡ n
  unfolding count_timeouts is_timeout
  Untimed-count [] clock i n all = refl
  Untimed-count (sig ∷ rest) clock i n all = rw all.0 (Untimed-count rest clock (i + 1) n all.1)

  UntimedAll-count :
      (r : List (ℕ × CanMessage p)) (clock : ℕ → p.Time) (i : ℕ)
      → UntimedAll r
      → count_all p r clock i 0 ≡ 0
  unfolding count_all
  UntimedAll-count [] clock i all = refl
  UntimedAll-count ((id, m) ∷ rest) clock i all =
      rw (Untimed-count m.signals clock i 0 all.0)
        (UntimedAll-count rest clock (i + length m.signals) all.1)

  pub UntimedAll-get_timeout_signals :
      (s : CanParser p) (clock : ℕ → p.Time)
      → UntimedAll s.message_registry
      → get_timeout_signals p s clock ≡ 0
  unfolding get_timeout_signals
  UntimedAll-get_timeout_signals s clock all = UntimedAll-count s.message_registry clock 0 all
