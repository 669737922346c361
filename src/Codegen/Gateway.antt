-- ===== src/Codegen/Gateway.antt =====
-- The gateway as `main` sets it up: a ring of 1024 frames, and a parser with the generated
-- database.
use mathlib.Core.Path.{subst, subst₂}
use mathlib.Core.Option.{some-injective, none-ne-some}
use can_from_scratch.Prelude.{
  ℕ, ◌+◌, ◌^◌, ◌%◌, ◌<◌, ◌≡◌, refl, ap, sym, ◌∙◌, Option, none, some, ◌>>=◌, List, [], ◌∷◌, ◌++◌,
  length, map, All, arith, Option-cases, inl, inr,
}
use can_from_scratch.Platform.{Platform}
use can_from_scratch.Signal.{Signal}
use can_from_scratch.Message.{CanMessage}
use can_from_scratch.Ring.{CanFrame}
use can_from_scratch.Parser.{CanParser, new_parser, get_timeout_signals}
use can_from_scratch.Tasks.{Shown, consume}
use can_from_scratch.Tasks.Flow.{taken, parsed}
use can_from_scratch.Tasks.Interleaved.{Taking, System, new_system, Move, run_system}
use can_from_scratch.Tasks.Interleaved.Producing.{take_all}
use can_from_scratch.Tasks.Interleaved.Order.{IsMove, run_system-Whole}
use can_from_scratch.Codegen.{Line, init_generated_database}
use can_from_scratch.Codegen.Unchecked.{Unchecked, Generated, CountsAll, consume-Generated}
use can_from_scratch.Codegen.Untimed.{
  UntimedAll, consume-UntimedAll, init_generated_database-UntimedAll,
  UntimedAll-get_timeout_signals,
}
use can_from_scratch.Codegen.Database.{
  message_of, LineFits, init_generated_database-declared, registered_declared,
  init_generated_database-statistics, init_generated_database-Ready,
}

module _ (p : Platform) where
  take_all-none : (ts : List (Taking p)) → take_all p none ts ≡ none
  take_all-none [] = refl
  take_all-none (t ∷ ts) = take_all-none ts

  -- The first of the frames that were handled, and the others.
  pub take_all-step :
      (t : Taking p) (ts : List (Taking p)) (s : CanParser p) (log : List (Shown p))
      {r : CanParser p × List (Shown p)}
      → take_all p (some (s, log)) (t ∷ ts) ≡ some r
      → (s1 : CanParser p) × (shown : Shown p) × (consume p s t.frame t.now t.clock t.drawn
          ≡ some (s1, shown))
        × (take_all p (some (s1, log ++ shown ∷ [])) ts ≡ some r)
  take_all-step t ts s log e =
      let next : Option (CanParser p × Shown p) → Option (CanParser p × List (Shown p)) =
        λ o. take_all p (o >>= (λ r. some (r.0, log ++ r.1 ∷ []))) ts in
      elim (Option-cases (consume p s t.frame t.now t.clock t.drawn)) [
        | inl fails ↦ absurd (none-ne-some _ (sym (take_all-none ts) ∙ sym (ap next fails) ∙ e))
        | inr ((s1, shown), handled) ↦ (s1, shown, handled, sym (ap next handled) ∙ e)
      ]

  take_all-Generated :
      (ts : List (Taking p)) (s : CanParser p) (log : List (Shown p)) {s' : CanParser p}
      {log' : List (Shown p)}
      → Generated p s
      → CountsAll p s log
      → UntimedAll p s.message_registry
      → take_all p (some (s, log)) ts ≡ some (s', log')
      → Generated p s' × CountsAll p s' log' × UntimedAll p s'.message_registry
  take_all-Generated [] s log g c all e =
      let same = some-injective _ _ e in
      (
        subst (Generated p) (ap (λ x. x.0) same) g,
        subst₂ (CountsAll p) (ap (λ x. x.0) same) (ap (λ x. x.1) same) c,
        subst (λ x. UntimedAll p x.message_registry) (ap (λ x. x.0) same) all,
      )
  take_all-Generated (t ∷ ts) s log g c all e =
      let (s1, shown, handled, rest) = take_all-step t ts s log e in
      let (g1, c1) = consume-Generated p s log t.frame t.now t.clock t.drawn g c handled in
      let all1 = consume-UntimedAll p s t.frame t.now t.clock t.drawn g all handled in
      take_all-Generated ts s1 (log ++ shown ∷ []) g1 c1 all1 rest

  message_of-Unchecked :
      (sigs : List (Signal p)) (m : CanMessage p) → message_of p sigs ≡ some m → Unchecked p m
  message_of-Unchecked [] m e = absurd (none-ne-some _ e)
  message_of-Unchecked (sig ∷ rest) m e =
      subst (Unchecked p) (some-injective _ _ e) (record { no_counter = refl; no_checksum = refl })

  pub init_generated_database-Generated :
      (lines : List (Line p)) (time : ℕ → p.Time)
      → Generated p (init_generated_database p (new_parser p) lines time)
  init_generated_database-Generated lines time =
      let numbers = init_generated_database-statistics p lines time in
      record {
        no_diagnosis = (init_generated_database-declared p lines time 0).2;
        unchecked = λ id m e.
            let ((sigs, c, found), _, _) = init_generated_database-declared p lines time id in
            message_of-Unchecked sigs m (sym found ∙ e);
        allowed = λ id m e.
            (init_generated_database-declared p lines time id).1
            ∙ registered_declared p lines time id m e;
        none_invalid = ap (λ t. t.2) numbers;
        no_counter_errors = ap (λ t. t.3) numbers;
        no_checksum_errors = ap (λ t. t.4) numbers;
      }

  pub init_generated_database-CountsAll :
      (lines : List (Line p)) (time : ℕ → p.Time)
      → CountsAll p (init_generated_database p (new_parser p) lines time) []
  init_generated_database-CountsAll lines time =
      let numbers = init_generated_database-statistics p lines time in
      (ap (λ t. t.1) numbers, ap (λ t. t.0) numbers)

  -- Let `main` set up the gateway, with its ring of 1024 frames and the parser that
  -- `init_generated_database` fills from a DBC file whose signals all fit the frame, and let the
  -- accesses of the producer and the consumer to the ring be interleaved in any order, with
  -- payloads of eight bytes. Then the run has defined behaviour. At any moment the frames that were
  -- pushed are those that the parser has handled, in their order, followed by fewer than 1024 that
  -- wait; no frame has counted as invalid, there is no error of a rolling counter or a checksum,
  -- and `getTimeoutSignals` is 0 whenever it is called; and, modulo 2 ^ 64, the valid frames are
  -- those of the consumer's iterations that handed a frame to `handleFrame`, and the total of
  -- frames is the sum of these and of all iterations that took one.
  pub run_system-Generated :
      (eff_mask : ℕ) (garbage : CanFrame) (lines : List (Line p)) (time : ℕ → p.Time)
      (moves : List (Move p)) (at : ℕ → p.Time)
      → All (LineFits p) lines
      → All (IsMove p) moves
      → (g : System p) × (queue : List CanFrame) × (run_system p eff_mask
            (new_system p 1024 garbage (init_generated_database p (new_parser p) lines time))
            moves
          ≡ some g)
        × (g.machine.sent ≡ map (λ (t : Taking p). t.frame) g.taken ++ queue)
        × (length queue < 1024)
        × (g.parser.invalid_frames ≡ 0)
        × (g.parser.rolling_counter_errors ≡ 0)
        × (g.parser.checksum_errors ≡ 0)
        × (get_timeout_signals p g.parser at ≡ 0)
        × (g.parser.valid_frames ≡ parsed g.log % 2 ^ 64)
        × (g.parser.total_frames ≡ (taken g.log + parsed g.log) % 2 ^ 64)
  run_system-Generated eff_mask garbage lines time moves at fits v =
      let start = init_generated_database p (new_parser p) lines time in
      let (g, queue, e, sent, room, handled, received) =
        run_system-Whole p eff_mask 1024 garbage start moves (omega arith)
          (init_generated_database-Ready p lines time fits) v in
      let (i, c, all) =
        take_all-Generated g.taken start [] (init_generated_database-Generated lines time)
          (init_generated_database-CountsAll lines time)
          (init_generated_database-UntimedAll p lines time) handled in
      (
        g,
        queue,
        e,
        sent,
        room,
        i.none_invalid,
        i.no_counter_errors,
        i.no_checksum_errors,
        UntimedAll-get_timeout_signals p g.parser at all,
        c.0,
        c.1,
      )
