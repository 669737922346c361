-- ===== src/Codegen/Display.antt =====
-- What the parser of the gateway that `main` sets up shows at any moment of a run.
use mathlib.Core.Path.{subst}
use mathlib.Core.Option.{some-injective}
use can_from_scratch.Prelude.{
  ℕ, ◌≡◌, refl, ap, sym, ◌∙◌, Bool, true, false, Option, none, some, List, [], ◌∷◌, ◌++◌, map, All,
  arith, Option-cases, inl, inr, ◌==◌, ==_iff, if◌then◌else◌,
}
use can_from_scratch.Frame.{IsFrame}
use can_from_scratch.Platform.{Platform}
use can_from_scratch.Registry.{lookup, lookup-insert}
use can_from_scratch.Signal.{Signal}
use can_from_scratch.Message.{CanMessage, parse}
use can_from_scratch.Message.Parse.{parse-Updated}
use can_from_scratch.Ring.{CanFrame}
use can_from_scratch.Parser.{CanParser, new_parser, increment_frame}
use can_from_scratch.Parser.Accounting.{counted}
use can_from_scratch.Parser.Verdict.{accepting}
use can_from_scratch.Tasks.{Shown, consume}
use can_from_scratch.Tasks.Interleaved.{Taking, System, new_system, Move, run_system}
use can_from_scratch.Tasks.Interleaved.Producing.{take_all}
use can_from_scratch.Tasks.Interleaved.Order.{IsMove, run_system-from, new_system-Whole}
use can_from_scratch.Codegen.{Line, DbcSignal, init_generated_database}
use can_from_scratch.Codegen.Lines.{signals_of}
use can_from_scratch.Codegen.Database.{
  Fits, LineFits, signals_of-Fits, message_of, init_generated_database-declared,
  init_generated_database-Ready,
}
use can_from_scratch.Codegen.Unchecked.{
  Generated, CountsAll, Unchecked-valid, handle_frame-Unchecked, consume-found, consume-missing,
  consume-Generated, incremented-Generated,
}
use can_from_scratch.Codegen.Gateway.{
  take_all-step, init_generated_database-Generated, init_generated_database-CountsAll,
}
use can_from_scratch.Codegen.Values.{Displays}
use can_from_scratch.Codegen.Reading.{matches_of, MeansAll, signals_of-Means}
use can_from_scratch.Codegen.Decoding.{
  Displays-Described, Displays-empty, UpdatedFrom-Displays, Constructed-Displays,
}

pub All-left : (P : CanFrame → Type 0) (xs ys : List CanFrame) → All P (xs ++ ys) → All P xs
All-left P [] ys h = tt
All-left P (x ∷ xs) ys h = (h.0, All-left P xs ys h.1)

module _ (p : Platform) (id : ℕ) where
  -- The signals that are registered for the identifier.
  abbrev pub signals_in : Option (CanMessage p) → List (Signal p)
  signals_in none = []
  signals_in (some m) = m.signals

  abbrev pub registered_signals : CanParser p → List (Signal p)
  registered_signals s = signals_in (lookup id s.message_registry)

  -- The payload of the last frame that had the identifier, after one more frame, or some.
  abbrev pub payload_after : Option (List ℕ) → CanFrame → Option (List ℕ)
  payload_after last f = if f.id == id then some f.payload else last

  abbrev pub last_payload : Option (List ℕ) → List CanFrame → Option (List ℕ)
  last_payload last [] = last
  last_payload last (f ∷ rest) = last_payload (payload_after last f) rest

  module _ (xs : List (DbcSignal p)) (fits : All (Fits p) xs) where
    tested-Displays :
        (own : Bool) (frame : List ℕ) (last : Option (List ℕ)) (sigs sigs' : List (Signal p))
        → (own ≡ true → Displays p (some frame) xs sigs')
        → (own ≡ false → sigs' ≡ sigs)
        → Displays p last xs sigs
        → Displays p (if own then some frame else last) xs sigs'
    tested-Displays true frame last sigs sigs' shows same h = shows refl
    tested-Displays false frame last sigs sigs' shows same h =
        subst (Displays p last xs) (sym (same refl)) h

    -- A frame with the identifier that is handed on.
    own-Displays :
        (s : CanParser p) (last : Option (List ℕ)) (f : CanFrame) (m m' : CanMessage p)
        (clock : ℕ → p.Time)
        → Generated p s
        → IsFrame f.payload
        → lookup id s.message_registry ≡ some m
        → parse p m f.payload clock ≡ some m'
        → Displays p last xs (registered_signals s)
        → Displays p (some f.payload) xs m'.signals
    own-Displays s last f m m' clock g v found parsed h =
        let valid = Unchecked-valid p m f.payload (g.unchecked id m found) in
        let (mux, selects, updated) = parse-Updated p m f.payload clock valid parsed in
        let before : Displays p last xs m.signals =
          subst (λ o. Displays p last xs (signals_in o)) found h in
        UpdatedFrom-Displays p f.payload mux clock xs m.signals m'.signals v fits
          (Displays-Described p last xs m.signals before) selects updated

    accepted-Displays :
        (s : CanParser p) (last : Option (List ℕ)) (f : CanFrame) (m m' : CanMessage p)
        (clock : ℕ → p.Time)
        → Generated p s
        → IsFrame f.payload
        → lookup f.id s.message_registry ≡ some m
        → parse p m f.payload clock ≡ some m'
        → Displays p last xs (registered_signals s)
        → Displays p
            (payload_after last f)
            xs
            (registered_signals (accepting p f.id (counted p (increment_frame p s)) m'))
    unfolding increment_frame
    accepted-Displays s last f m m' clock g v found parsed h =
        let stored = lookup-insert f.id id m' s.message_registry in
        tested-Displays (f.id == id) f.payload last (registered_signals s) _
          (λ own.
            let here : lookup id s.message_registry ≡ some m =
              ap (λ k. lookup k s.message_registry) (sym ((==_iff f.id id).0 own)) ∙ found in
            subst (λ o. Displays p (some f.payload) xs (signals_in o))
              (sym (stored ∙ ap (λ b. if b then some m' else lookup id s.message_registry) own))
              (own-Displays s last f m m' clock g v here parsed h))
          (λ other.
            ap signals_in
              (stored ∙ ap (λ b. if b then some m' else lookup id s.message_registry) other))
          h

    consume-Displays :
        (s : CanParser p) (last : Option (List ℕ)) (f : CanFrame) (now : p.Time)
        (clock : ℕ → p.Time) (drawn : ℕ → p.Time) {s' : CanParser p} {shown : Shown p}
        → Generated p s
        → IsFrame f.payload
        → consume p s f now clock drawn ≡ some (s', shown)
        → Displays p last xs (registered_signals s)
        → Displays p (payload_after last f) xs (registered_signals s')
    unfolding increment_frame
    consume-Displays s last f now clock drawn {s'} {shown} g v e h =
        elim (Option-cases (lookup f.id s.message_registry)) [
          | inl missing ↦
              let same : increment_frame p s ≡ s' =
                ap (λ x. x.0)
                  (some-injective _ _ (sym (consume-missing p s f now clock drawn missing) ∙ e)) in
              subst (λ x. Displays p (payload_after last f) xs (registered_signals x)) same
                (tested-Displays (f.id == id) f.payload last (registered_signals s)
                  (registered_signals s)
                  (λ own.
                    let none_here : registered_signals s ≡ [] = ap signals_in (
                      ap (λ k. lookup k s.message_registry) (sym ((==_iff f.id id).0 own))
                      ∙ missing) in
                    subst (Displays p (some f.payload) xs) (sym none_here)
                      (Displays-empty p last f.payload xs (subst (Displays p last xs) none_here h)))
                  (λ other. refl) h)
          | inr (m, found) ↦
              let (s2, out, handled, shows) = consume-found p s f m now clock drawn found e in
              let (m', u, parsed, same) =
                handle_frame-Unchecked p (increment_frame p s) f.id m f.payload now clock
                  (incremented-Generated p s g) found handled in
              subst (λ x. Displays p (payload_after last f) xs (registered_signals x))
                (sym same ∙ ap (λ x. x.0) shows)
                (accepted-Displays s last f m m' clock g v found parsed h)
        ]

  take_all-Displays :
      (xs : List (DbcSignal p)) (ts : List (Taking p)) (s : CanParser p) (log : List (Shown p))
      (last : Option (List ℕ)) {s' : CanParser p} {log' : List (Shown p)}
      → All (Fits p) xs
      → Generated p s
      → CountsAll p s log
      → All (λ f. IsFrame f.payload) (map (λ (t : Taking p). t.frame) ts)
      → take_all p (some (s, log)) ts ≡ some (s', log')
      → Displays p last xs (registered_signals s)
      → Displays p
          (last_payload last (map (λ (t : Taking p). t.frame) ts))
          xs
          (registered_signals s')
  take_all-Displays xs [] s log last fits g c v e h =
      subst (λ x. Displays p last xs (registered_signals x)) (ap (λ x. x.0) (some-injective _ _ e))
        h
  take_all-Displays xs (t ∷ ts) s log last {s'} {log'} fits g c v e h =
      let (s1, shown, handled, rest) = take_all-step p t ts s log e in
      let (g1, c1) = consume-Generated p s log t.frame t.now t.clock t.drawn g c handled in
      take_all-Displays xs ts s1 (log ++ shown ∷ []) (payload_after last t.frame) fits g1 c1 v.1
        rest (consume-Displays xs fits s last t.frame t.now t.clock t.drawn g v.0 handled h)

  message_of-signals : (sigs : List (Signal p)) → signals_in (message_of p sigs) ≡ sigs
  message_of-signals [] = refl
  message_of-signals (sig ∷ rest) = refl

  init_generated_database-Displays :
      (lines : List (Line p)) (time : ℕ → p.Time)
      → Displays p none
          (signals_of p id false lines)
          (registered_signals (init_generated_database p (new_parser p) lines time))
  init_generated_database-Displays lines time =
      let ((sigs, c, found), _, _) = init_generated_database-declared p lines time id in
      subst (Displays p none (signals_of p id false lines))
        (sym (ap signals_in found ∙ message_of-signals sigs))
        (Constructed-Displays p (signals_of p id false lines) sigs c)

  -- The signals that the script makes of the lines, at any moment of a run.
  pub run_system-Shows :
      (eff_mask : ℕ) (garbage : CanFrame) (lines : List (Line p)) (time : ℕ → p.Time)
      (moves : List (Move p))
      → All (LineFits p) lines
      → All (IsMove p) moves
      → (g : System p) × (queue : List CanFrame) × (run_system p eff_mask
            (new_system p 1024 garbage (init_generated_database p (new_parser p) lines time))
            moves
          ≡ some g)
        × (g.machine.sent ≡ map (λ (t : Taking p). t.frame) g.taken ++ queue)
        × Displays p
            (last_payload none (map (λ (t : Taking p). t.frame) g.taken))
            (signals_of p id false lines)
            (registered_signals g.parser)
  run_system-Shows eff_mask garbage lines time moves fits v =
      let start = init_generated_database p (new_parser p) lines time in
      let (g, queue, e, i) =
        run_system-from p eff_mask start (new_system p 1024 garbage start) [] moves
          (new_system-Whole p 1024 garbage start (omega arith)
            (init_generated_database-Ready p lines time fits))
          v in
      let sent = i.inv.in_order ∙ ap (λ r. r ++ queue) (sym i.frames) in
      (
        g,
        queue,
        e,
        sent,
        take_all-Displays (signals_of p id false lines) g.taken start [] none
            (signals_of-Fits p id false lines fits) (init_generated_database-Generated p lines time)
            (init_generated_database-CountsAll p lines time)
            (All-left _ (map (λ (t : Taking p). t.frame) g.taken) queue
              (subst (All (λ f. IsFrame f.payload)) sent i.payloads))
            i.handled (init_generated_database-Displays lines time),
      )

  -- Let `main` set up the gateway, with its ring of 1024 frames and the parser that
  -- `init_generated_database` fills from a DBC file whose signals all fit the frame, and let the
  -- accesses of the producer and the consumer to the ring be interleaved in any order, with
  -- payloads of eight bytes. Then the run has defined behaviour, the frames pushed are those
  -- handled followed by those that wait, and at any moment the signals that are registered for an
  -- identifier are those that the DBC file lists for it, in that order, and with the name, the
  -- place, the byte order, the sign, the scale and the mark of multiplexing that the line of each
  -- has. They are invalid if no frame with the identifier has been handled. Otherwise, in the last
  -- such frame, a signal is valid exactly if it is not multiplexed or has the multiplexor's value
  -- (that of the first multiplexor, -1 if there is none), and a valid signal has the value that its
  -- bits make in the numbering of the DBC file, scaled by its factor and offset.
  pub run_system-Displays :
      (eff_mask : ℕ) (garbage : CanFrame) (lines : List (Line p)) (time : ℕ → p.Time)
      (moves : List (Move p))
      → All (LineFits p) lines
      → All (IsMove p) moves
      → (g : System p) × (queue : List CanFrame) × (run_system p eff_mask
            (new_system p 1024 garbage (init_generated_database p (new_parser p) lines time))
            moves
          ≡ some g)
        × (g.machine.sent ≡ map (λ (t : Taking p). t.frame) g.taken ++ queue)
        × (xs : List (DbcSignal p)) × MeansAll p (matches_of p id false lines) xs
        × Displays p
            (last_payload none (map (λ (t : Taking p). t.frame) g.taken))
            xs
            (registered_signals g.parser)
  run_system-Displays eff_mask garbage lines time moves fits v =
      let (g, queue, e, sent, h) = run_system-Shows eff_mask garbage lines time moves fits v in
      (g, queue, e, sent, signals_of p id false lines, signals_of-Means p id false lines, h)
