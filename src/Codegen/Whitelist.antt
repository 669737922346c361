-- ===== src/Codegen/Whitelist.antt =====
-- What the statements of the generated function do to the whitelist.
use can_from_scratch.Prelude.{
  ℕ, ◌+◌, ◌≡◌, refl, ◌∙◌, Bool, true, false, ◌||◌, List, [], ◌∷◌, ◌++◌, ◌==◌, arith,
}
use can_from_scratch.Prelude.Int.{pos}
use can_from_scratch.Platform.{Platform}
use can_from_scratch.Registry.{contains, contains-add}
use can_from_scratch.Signal.{signal}
use can_from_scratch.Parser.{CanParser, register_signal, add_to_whitelist, enable_whitelist}
use can_from_scratch.Codegen.{
  DbcSignal, DbcMessage, Statement, unique_ids, allow_all, register_all, register_messages,
  generate, execute, execute_all,
}

module _ (p : Platform) where
  -- The identifiers that the statements allow, and whether the whitelist is on after them.
  abbrev pub is_allowed : ℕ → List (Statement p) → Bool
  is_allowed id [] = false
  is_allowed id (Statement.allow own ∷ rest) = own == id || is_allowed id rest
  is_allowed id (x ∷ rest) = is_allowed id rest

  abbrev pub switched : Bool → List (Statement p) → Bool
  switched on [] = on
  switched on (Statement.enable on' ∷ rest) = switched on' rest
  switched on (x ∷ rest) = switched on rest

  abbrev pub statistics : CanParser p → ℕ × ℕ × ℕ × ℕ × ℕ
  statistics s = (
    s.total_frames, s.valid_frames, s.invalid_frames, s.rolling_counter_errors, s.checksum_errors,
  )

  pub record Kept (s : CanParser p) (statements : List (Statement p)) (s' : CanParser p)
      : Type 0 where
    pub same_mode : s'.diagnostic_mode_enabled ≡ s.diagnostic_mode_enabled
    pub same_statistics : statistics s' ≡ statistics s
    pub enabled : s'.whitelist_enabled ≡ switched s.whitelist_enabled statements
    pub allowed :
        (id : ℕ) → contains id s'.whitelist ≡ (is_allowed id statements || contains id s.whitelist)

  pub execute_all-Kept :
      (s : CanParser p) (statements : List (Statement p)) (time : ℕ → p.Time) (i : ℕ)
      → Kept s statements (execute_all p s statements time i)
  unfolding execute_all execute register_signal add_to_whitelist enable_whitelist
  execute_all-Kept s [] time i = record {
    same_mode = refl;
    same_statistics = refl;
    enabled = refl;
    allowed = λ id. refl;
  }
  execute_all-Kept s (Statement.enable on ∷ rest) time i =
      let k = execute_all-Kept (enable_whitelist p s on) rest time (i + 1) in
      record {
        same_mode = k.same_mode;
        same_statistics = k.same_statistics;
        enabled = k.enabled;
        allowed = k.allowed;
      }
  execute_all-Kept s (Statement.allow own ∷ rest) time i =
      let k = execute_all-Kept (add_to_whitelist p s own) rest time (i + 1) in
      record {
        same_mode = k.same_mode;
        same_statistics = k.same_statistics;
        enabled = k.enabled;
        allowed = λ id. ground (arith, k.allowed id, contains-add own id s.whitelist);
      }
  execute_all-Kept s
        (Statement.register other name start len be sign factor offset mux muxed value ∷ rest) time
        i =
      let sig =
        signal p name (pos start) (pos len) be sign factor offset mux muxed value 0 (time i) in
      let k = execute_all-Kept (register_signal p s other sig) rest time (i + 1) in
      record {
        same_mode = k.same_mode;
        same_statistics = k.same_statistics;
        enabled = k.enabled;
        allowed = k.allowed;
      }

  register_all-silent :
      (id own : ℕ) (xs : List (DbcSignal p)) (after : List (Statement p)) (on : Bool)
      → (is_allowed id (register_all p own xs ++ after) ≡ is_allowed id after)
        × (switched on (register_all p own xs ++ after) ≡ switched on after)
  unfolding register_all
  register_all-silent id own [] after on = (refl, refl)
  register_all-silent id own (x ∷ xs) after on = register_all-silent id own xs after on

  register_messages-silent :
      (id : ℕ) (ms : List (DbcMessage p)) (on : Bool)
      → (is_allowed id (register_messages p ms) ≡ false)
        × (switched on (register_messages p ms) ≡ on)
  unfolding register_messages
  register_messages-silent id [] on = (refl, refl)
  register_messages-silent id (m ∷ rest) on =
      let (a, b) = register_all-silent id m.id m.signals (register_messages p rest) on in
      let (a', b') = register_messages-silent id rest on in (a ∙ a', b ∙ b')

  allow_all-allowed :
      (id : ℕ) (ids : List ℕ) (after : List (Statement p)) (on : Bool)
      → (is_allowed id (allow_all p ids ++ after) ≡ (contains id ids || is_allowed id after))
        × (switched on (allow_all p ids ++ after) ≡ switched on after)
  unfolding allow_all contains
  allow_all-allowed id [] after on = (refl, refl)
  allow_all-allowed id (a ∷ ids) after on =
      let (e, e') = allow_all-allowed id ids after on in (ground (arith, e), e')

  pub generate-allowed :
      (id : ℕ) (ms : List (DbcMessage p)) (on : Bool)
      → (is_allowed id (generate p ms) ≡ contains id (unique_ids p ms))
        × (switched on (generate p ms) ≡ true)
  unfolding generate
  generate-allowed id ms on =
      let (a, b) = allow_all-allowed id (unique_ids p ms) (register_messages p ms) true in
      let (a', b') = register_messages-silent id ms true in (ground (arith, a, a'), b ∙ b')
