-- ===== src/Codegen/Database.antt =====
-- What a new parser holds after `init_generated_database`, in terms of the lines of the DBC file.
use can_from_scratch.Prelude.{
  ℕ, ◌+◌, ◌-◌, ◌*◌, ◌/◌, ◌%◌, ◌≤◌, if◌then◌else◌, ◌≡◌, refl, ap, sym, ◌∙◌, Bool, true, false,
  Option, none, some, List, [], ◌∷◌, ◌++◌, ◌==◌, arith, Bool-cases, inl, inr, All,
}
use mathlib.Core.Path.{subst}
use mathlib.Core.List.{append_assoc, append-nil}
use mathlib.Core.Option.{some-injective, none-ne-some}
use can_from_scratch.Prelude.Int.{pos}
use can_from_scratch.Platform.{Platform}
use can_from_scratch.Registry.{lookup, contains}
use can_from_scratch.Protocol.Defined.{IsDefined}
use can_from_scratch.Signal.{Signal, config, signal}
use can_from_scratch.Message.{CanMessage, new_message, add_signal}
use can_from_scratch.Message.WellFormed.{IsWellFormed}
use can_from_scratch.Parser.{new_parser, is_in_whitelist}
use can_from_scratch.Tasks.Flow.{Ready}
use can_from_scratch.Codegen.{
  Line, DbcSignal, scan, generate, final_start_bit, init_generated_database,
}
use can_from_scratch.Codegen.Lines.{signals_of, is_declared, scan-signals_under, scan-unique_ids}
use can_from_scratch.Codegen.Statements.{
  Constructed, construct, executed, extended, execute_all-extended, generate-Constructed,
}
use can_from_scratch.Codegen.Whitelist.{statistics, execute_all-Kept, generate-allowed}

module _ (p : Platform) where
  -- A message of its signals only, with no counter and no checksum; no message without signals.
  abbrev pub message_of : List (Signal p) → Option (CanMessage p)
  message_of [] = none
  message_of (sig ∷ rest) = some (record (new_message p) { signals = sig ∷ rest })

  extended-some :
      (before sigs : List (Signal p))
      → extended p (some (record (new_message p) { signals = before })) sigs
        ≡ some (record (new_message p) { signals = before ++ sigs })
  unfolding add_signal
  extended-some before [] =
      ap (λ l. some (record (new_message p) { signals = l })) (sym (append-nil before))
  extended-some before (sig ∷ rest) =
      extended-some (before ++ sig ∷ []) rest
      ∙ ap (λ l. some (record (new_message p) { signals = l }))
          (append_assoc before (sig ∷ []) rest)

  extended-none : (sigs : List (Signal p)) → extended p none sigs ≡ message_of sigs
  unfolding add_signal
  extended-none [] = refl
  extended-none (sig ∷ rest) = extended-some (sig ∷ []) rest

  -- On a new parser, `init_generated_database` registers under an identifier the signals that the
  -- DBC file lists under a message with it, in the order of the file and constructed from what the
  -- file says of them, in a message with no counter and no checksum, and no message where there are
  -- no signals; it lets exactly the identifiers pass that the file declares, and leaves the
  -- diagnostic mode off.
  pub init_generated_database-declared :
      (lines : List (Line p)) (time : ℕ → p.Time) (id : ℕ)
      → ((sigs : List (Signal p)) × Constructed p (signals_of p id false lines) sigs
          × (lookup id (init_generated_database p (new_parser p) lines time).message_registry
              ≡ message_of sigs))
        × (is_in_whitelist p (init_generated_database p (new_parser p) lines time) id
            ≡ is_declared p id lines)
        × ((init_generated_database p (new_parser p) lines time).diagnostic_mode_enabled ≡ false)
  unfolding init_generated_database is_in_whitelist lookup contains
  init_generated_database-declared lines time id =
      let ms = scan p [] lines in
      let kept = execute_all-Kept p (new_parser p) (generate p ms) time 0 in
      let (allowed, on) = generate-allowed p id ms false in
      (
        (
          executed p id (generate p ms) time 0,
          subst (λ xs. Constructed p xs (executed p id (generate p ms) time 0))
              (scan-signals_under p id [] lines) (generate-Constructed p id ms time 0),
          execute_all-extended p (new_parser p) (generate p ms) time 0 id
              ∙ extended-none (executed p id (generate p ms) time 0),
        ),
        ground (arith, kept.enabled, on, kept.allowed id, allowed, scan-unique_ids p id [] lines),
        kept.same_mode,
      )

  pub init_generated_database-statistics :
      (lines : List (Line p)) (time : ℕ → p.Time)
      → statistics p (init_generated_database p (new_parser p) lines time) ≡ (0, 0, 0, 0, 0)
  unfolding init_generated_database
  init_generated_database-statistics lines time =
      (execute_all-Kept p (new_parser p) (generate p (scan p [] lines)) time 0).same_statistics

  -- An identifier that is not declared has no signals.
  signals_of-undeclared :
      (id : ℕ) (lines : List (Line p))
      → is_declared p id lines ≡ false
      → signals_of p id false lines ≡ []
  signals_of-undeclared id [] h = refl
  signals_of-undeclared id (Line.bo own name ∷ rest) h =
      let other : (own == id) ≡ false = ground (arith, h) in
      rw other (signals_of-undeclared id rest (ground (arith, h)))
  signals_of-undeclared id (Line.sg x ∷ rest) h = signals_of-undeclared id rest h
  signals_of-undeclared id (Line.other ∷ rest) h = signals_of-undeclared id rest h

  Constructed-empty : (sigs : List (Signal p)) → Constructed p [] sigs → message_of sigs ≡ none
  Constructed-empty [] c = refl
  Constructed-empty (sig ∷ sigs) c = absurd c

  -- A message that `init_generated_database` registers on a new parser is declared.
  pub registered_declared :
      (lines : List (Line p)) (time : ℕ → p.Time) (id : ℕ) (m : CanMessage p)
      → lookup id (init_generated_database p (new_parser p) lines time).message_registry ≡ some m
      → is_declared p id lines ≡ true
  registered_declared lines time id m e =
      let ((sigs, c, found), _, _) = init_generated_database-declared lines time id in
      elim (Bool-cases (is_declared p id lines)) [
        | inl declared ↦ declared
        | inr undeclared ↦
            let missing =
              Constructed-empty sigs (
                subst (λ xs. Constructed p xs sigs) (signals_of-undeclared id lines undeclared)
                  c) in
            absurd (none-ne-some m (sym missing ∙ sym found ∙ e))
      ]

  -- A signal of at least one bit that ends within the 64 bits of a frame, as the parser numbers
  -- them: from the highest bit of byte 0 for a big-endian signal.
  abbrev pub Fits : DbcSignal p → Type 0
  Fits x = (1 ≤ x.length) × (final_start_bit x.is_be x.start_bit + x.length ≤ 64)

  abbrev pub LineFits : Line p → Type 0
  LineFits (Line.sg x) =
      (1 ≤ x.length)
      × ((if x.byte_order == 0 then x.start_bit / 8 * 8 + (7 - x.start_bit % 8) else x.start_bit)
            + x.length
          ≤ 64)
  LineFits _ = Unit

  pub signals_of-Fits :
      (id : ℕ) (under : Bool) (lines : List (Line p))
      → All LineFits lines
      → All Fits (signals_of p id under lines)
  signals_of-Fits id under [] h = tt
  signals_of-Fits id under (Line.bo own name ∷ rest) h = signals_of-Fits id (own == id) rest h.1
  signals_of-Fits id true (Line.sg x ∷ rest) h = (h.0, signals_of-Fits id true rest h.1)
  signals_of-Fits id false (Line.sg x ∷ rest) h = signals_of-Fits id false rest h.1
  signals_of-Fits id under (Line.other ∷ rest) h = signals_of-Fits id under rest h.1

  field-IsDefined :
      (start len : ℕ) (be sign : Bool)
      → 1 ≤ len
      → start + len ≤ 64
      → IsDefined
          (record { start_bit = pos start; length = pos len; is_big_endian = be; is_signed = sign })
  field-IsDefined start len be sign h k = ground arith

  construct-IsDefined :
      (x : DbcSignal p) (now : p.Time) → Fits x → IsDefined (config p (construct p x now))
  unfolding signal
  construct-IsDefined x now h =
      field-IsDefined (final_start_bit x.is_be x.start_bit) x.length x.is_be x.is_signed h.0 h.1

  Constructed-IsDefined :
      (xs : List (DbcSignal p)) (sigs : List (Signal p))
      → Constructed p xs sigs
      → All Fits xs
      → All (λ s. IsDefined (config p s)) sigs
  Constructed-IsDefined [] [] c h = tt
  Constructed-IsDefined [] (sig ∷ sigs) c h = absurd c
  Constructed-IsDefined (x ∷ xs) [] c h = absurd c
  Constructed-IsDefined (x ∷ xs) (sig ∷ sigs) c h =
      let (now, e) = c.0 in
      (
        subst (λ s. IsDefined (config p s)) (sym e) (construct-IsDefined x now h.0),
        Constructed-IsDefined xs sigs c.1 h.1,
      )

  message_of-IsWellFormed :
      (sigs : List (Signal p)) (m : CanMessage p)
      → All (λ s. IsDefined (config p s)) sigs
      → message_of sigs ≡ some m
      → IsWellFormed p m
  message_of-IsWellFormed [] m h e = absurd (ground arith)
  message_of-IsWellFormed (sig ∷ rest) m h e =
      subst (IsWellFormed p) (some-injective _ _ e) (record {
        signals_defined = h;
        counter_defined = λ on. absurd (ground arith);
        checksum_defined = λ on. absurd (ground arith);
      })

  -- If every signal of the DBC file fits the frame, the parser that `init_generated_database` sets
  -- up can take every frame.
  pub init_generated_database-Ready :
      (lines : List (Line p)) (time : ℕ → p.Time)
      → All LineFits lines
      → Ready p (init_generated_database p (new_parser p) lines time)
  init_generated_database-Ready lines time h = record {
    safe = λ id m e.
        let ((sigs, c, found), _, _) = init_generated_database-declared lines time id in
        message_of-IsWellFormed sigs m
          (Constructed-IsDefined (signals_of p id false lines) sigs c
            (signals_of-Fits id false lines h))
          (sym found ∙ e);
    no_diagnosis = (init_generated_database-declared lines time 0).2;
  }
