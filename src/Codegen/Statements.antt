-- ===== src/Codegen/Statements.antt =====
-- What the statements of the generated function register for one identifier.
use can_from_scratch.Prelude.{
  ℕ, ◌+◌, ◌≡◌, refl, ap, ◌∙◌, Bool, true, false, Option, some, List, [], ◌∷◌, ◌++◌, ◌==◌,
  if◌then◌else◌, ==_iff,
}
use can_from_scratch.Prelude.Int.{pos}
use can_from_scratch.Platform.{Platform}
use can_from_scratch.Registry.{lookup, lookup-insert}
use can_from_scratch.Signal.{Signal, signal}
use can_from_scratch.Message.{CanMessage, new_message, add_signal}
use can_from_scratch.Parser.{
  CanParser, found_or, register_signal, add_to_whitelist, enable_whitelist,
}
use can_from_scratch.Codegen.{
  DbcSignal, DbcMessage, Statement, final_start_bit, allow_all, register_all, register_messages,
  generate, unique_ids, execute, execute_all,
}

module _ (p : Platform) where
  -- The signal that a registration constructs for an entry.
  abbrev pub construct : DbcSignal p → p.Time → Signal p
  construct x now =
      signal p x.name (pos (final_start_bit x.is_be x.start_bit)) (pos x.length) x.is_be x.is_signed
        x.factor x.offset x.is_multiplexor x.is_multiplexed x.mux_value 0 now

  -- Signals that are constructed for the entries, in their order, at some time each.
  abbrev pub Constructed : List (DbcSignal p) → List (Signal p) → Type 0
  Constructed [] [] = Unit
  Constructed [] (sig ∷ sigs) = ⊥
  Constructed (x ∷ xs) [] = ⊥
  Constructed (x ∷ xs) (sig ∷ sigs) =
      ((now : p.Time) × (sig ≡ construct x now)) × Constructed xs sigs

  -- The entries of the messages with an identifier.
  abbrev pub signals_under : ℕ → List (DbcMessage p) → List (DbcSignal p)
  signals_under id [] = []
  signals_under id (m ∷ rest) = (if m.id == id then m.signals else []) ++ signals_under id rest

  -- The signals that the statements construct for an identifier, from the i-th statement on.
  abbrev pub executed : ℕ → List (Statement p) → (ℕ → p.Time) → ℕ → List (Signal p)
  executed id [] time i = []
  executed id (Statement.enable on ∷ rest) time i = executed id rest time (i + 1)
  executed id (Statement.allow other ∷ rest) time i = executed id rest time (i + 1)
  executed id (Statement.register other name start len be sign factor offset mux muxed value ∷ rest)
        time i =
      (if other == id
        then signal p name (pos start) (pos len) be sign factor offset mux muxed value 0 (time i)
          ∷ []
        else [])
      ++ executed id rest time (i + 1)

  -- What is registered, with further signals.
  abbrev pub extended : Option (CanMessage p) → List (Signal p) → Option (CanMessage p)
  extended found [] = found
  extended found (sig ∷ rest) =
      extended (some (add_signal p (found_or (new_message p) found) sig)) rest

  extended-tested :
      (same : Bool) (found other : Option (CanMessage p))
      → (same ≡ true → found ≡ other)
      → (sig : Signal p) (rest : List (Signal p))
      → extended
          (if same then some (add_signal p (found_or (new_message p) found) sig) else other)
          rest
        ≡ extended other ((if same then sig ∷ [] else []) ++ rest)
  extended-tested true found other h sig rest =
      ap (λ o. extended (some (add_signal p (found_or (new_message p) o) sig)) rest) (h refl)
  extended-tested false found other h sig rest = refl

  pub execute_all-extended :
      (s : CanParser p) (statements : List (Statement p)) (time : ℕ → p.Time) (i id : ℕ)
      → lookup id (execute_all p s statements time i).message_registry
        ≡ extended (lookup id s.message_registry) (executed id statements time i)
  unfolding execute_all execute register_signal add_to_whitelist enable_whitelist
  execute_all-extended s [] time i id = refl
  execute_all-extended s (Statement.enable on ∷ rest) time i id =
      execute_all-extended (enable_whitelist p s on) rest time (i + 1) id
  execute_all-extended s (Statement.allow other ∷ rest) time i id =
      execute_all-extended (add_to_whitelist p s other) rest time (i + 1) id
  execute_all-extended s
        (Statement.register other name start len be sign factor offset mux muxed value ∷ rest) time
        i id =
      let sig =
        signal p name (pos start) (pos len) be sign factor offset mux muxed value 0 (time i) in
      execute_all-extended (register_signal p s other sig) rest time (i + 1) id
      ∙ ap (λ o. extended o (executed id rest time (i + 1))) (lookup-insert other id _ _)
      ∙ extended-tested (other == id) (lookup other s.message_registry)
          (lookup id s.message_registry)
          (λ e. ap (λ k. lookup k s.message_registry) ((==_iff other id).0 e)) sig
          (executed id rest time (i + 1))

  Constructed-none :
      (same : Bool) (others : List (DbcSignal p)) (sigs : List (Signal p))
      → Constructed others sigs
      → Constructed ((if same then [] else []) ++ others) sigs
  Constructed-none true others sigs h = h
  Constructed-none false others sigs h = h

  Constructed-tested :
      (same : Bool) (x : DbcSignal p) (xs others : List (DbcSignal p)) (now : p.Time)
      (sigs : List (Signal p))
      → Constructed ((if same then xs else []) ++ others) sigs
      → Constructed
          ((if same then x ∷ xs else []) ++ others)
          ((if same then construct x now ∷ [] else []) ++ sigs)
  Constructed-tested true x xs others now sigs h = ((now, refl), h)
  Constructed-tested false x xs others now sigs h = h

  -- What is constructed by the registrations of one message, before those that follow.
  register_all-Constructed :
      (id own : ℕ) (xs : List (DbcSignal p)) (after : List (Statement p))
      (others : List (DbcSignal p)) (time : ℕ → p.Time)
      → ((i : ℕ) → Constructed others (executed id after time i))
      → (i : ℕ)
      → Constructed
          ((if own == id then xs else []) ++ others)
          (executed id (register_all p own xs ++ after) time i)
  unfolding register_all
  register_all-Constructed id own [] after others time h i =
      Constructed-none (own == id) others _ (h i)
  register_all-Constructed id own (x ∷ xs) after others time h i =
      let rest = register_all-Constructed id own xs after others time h (i + 1) in
      Constructed-tested (own == id) x xs others (time i) _ rest

  register_messages-Constructed :
      (id : ℕ) (messages : List (DbcMessage p)) (time : ℕ → p.Time) (i : ℕ)
      → Constructed (signals_under id messages) (executed id (register_messages p messages) time i)
  unfolding register_messages
  register_messages-Constructed id [] time i = tt
  register_messages-Constructed id (m ∷ rest) time i =
      register_all-Constructed id m.id m.signals (register_messages p rest) (signals_under id rest)
        time (register_messages-Constructed id rest time) i

  allow_all-Constructed :
      (id : ℕ) (ids : List ℕ) (after : List (Statement p)) (xs : List (DbcSignal p))
      (time : ℕ → p.Time)
      → ((i : ℕ) → Constructed xs (executed id after time i))
      → (i : ℕ) → Constructed xs (executed id (allow_all p ids ++ after) time i)
  unfolding allow_all
  allow_all-Constructed id [] after xs time h i = h i
  allow_all-Constructed id (a ∷ ids) after xs time h i =
      allow_all-Constructed id ids after xs time h (i + 1)

  pub generate-Constructed :
      (id : ℕ) (messages : List (DbcMessage p)) (time : ℕ → p.Time) (i : ℕ)
      → Constructed (signals_under id messages) (executed id (generate p messages) time i)
  unfolding generate
  generate-Constructed id messages time i =
      allow_all-Constructed id (unique_ids p messages) (register_messages p messages) _ time
        (register_messages-Constructed id messages time) (i + 1)
