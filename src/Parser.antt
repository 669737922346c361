-- ===== src/Parser.antt =====
-- src/can_parser.cpp and include/can_parser.hpp: the class `CanParser`. A call takes the readings
-- of the clock as arguments and returns the new parser with its outputs; `none` is undefined
-- behaviour.
pub mod Accounting
pub mod Frames
pub mod Safety
pub mod Timeouts
pub mod Tally
pub mod Verdict
pub mod Stream
pub mod View
pub mod Reorder
use can_from_scratch.Prelude.{
  length, ℕ, suc, ◌+◌, ◌%◌, ◌^◌, Bool, true, false, not, ◌&&◌, ◌||◌, Option, none, some, ◌>>=◌,
  List, [], ◌∷◌, ◌==◌, if◌then◌else◌,
}
use can_from_scratch.Platform.{Platform}
use can_from_scratch.Registry.{lookup, insert, contains, add, erase}
use can_from_scratch.Signal.{Signal, is_timeout}
use can_from_scratch.Message.{
  CanMessage, new_message, add_signal, validate_rolling_counter, validate_checksum, is_frame_valid,
  parse,
}
use can_from_scratch.Uds.{DiagnosticMessage, Output, new_diagnostic, handle_diagnostic_frame}

pub record CanParser (p : Platform) : Type 0 where
  pub message_registry : List (ℕ × CanMessage p)
  pub total_frames : ℕ
  pub valid_frames : ℕ
  pub invalid_frames : ℕ
  pub rolling_counter_errors : ℕ
  pub checksum_errors : ℕ
  pub whitelist : List ℕ
  pub whitelist_enabled : Bool
  pub diagnostic_mode_enabled : Bool
  pub diagnostic_messages : List (ℕ × DiagnosticMessage p)

-- `++` on a `uint64_t`
abbrev pub increment : ℕ → ℕ
increment n = (n + 1) % 2 ^ 64

-- The value, or the one that `operator[]` inserts for a missing key.
abbrev pub found_or {ℓ} : {A : Type ℓ} → A → Option A → A
found_or d none = d
found_or d (some a) = a

abbrev pub is_diagnostic : ℕ → Bool
is_diagnostic id = id == 0x7E0 || id == 0x7E8

module _ (p : Platform) where
  abbrev pub new_parser : CanParser p
  new_parser = record {
    message_registry = [];
    total_frames = 0;
    valid_frames = 0;
    invalid_frames = 0;
    rolling_counter_errors = 0;
    checksum_errors = 0;
    whitelist = [];
    whitelist_enabled = false;
    diagnostic_mode_enabled = false;
    diagnostic_messages = [];
  }

  unfoldable pub register_signal : CanParser p → ℕ → Signal p → CanParser p
  register_signal s id sig = record s {
    message_registry =
        insert id (add_signal p (found_or (new_message p) (lookup id s.message_registry)) sig)
          s.message_registry;
  }

  unfoldable pub increment_frame : CanParser p → CanParser p
  increment_frame s = record s { total_frames = increment s.total_frames }

  unfoldable pub has_message : CanParser p → ℕ → Bool
  has_message s id = elim (lookup id s.message_registry) [ none ↦ false | some m ↦ true ]

  unfoldable pub add_to_whitelist : CanParser p → ℕ → CanParser p
  add_to_whitelist s id = record s { whitelist = add id s.whitelist }

  unfoldable pub remove_from_whitelist : CanParser p → ℕ → CanParser p
  remove_from_whitelist s id = record s { whitelist = erase id s.whitelist }

  unfoldable pub clear_whitelist : CanParser p → CanParser p
  clear_whitelist s = record s { whitelist = [] }

  unfoldable pub is_in_whitelist : CanParser p → ℕ → Bool
  is_in_whitelist s id = if not s.whitelist_enabled then true else contains id s.whitelist

  unfoldable pub enable_whitelist : CanParser p → Bool → CanParser p
  enable_whitelist s enable = record s { whitelist_enabled = enable }

  unfoldable pub enable_diagnostic_mode : CanParser p → Bool → CanParser p
  enable_diagnostic_mode s enable = record s { diagnostic_mode_enabled = enable }

  unfoldable pub get_diagnostic_message : CanParser p → ℕ → DiagnosticMessage p
  get_diagnostic_message s id = found_or (new_diagnostic p) (lookup id s.diagnostic_messages)

  -- The signals of one message that have timed out, counted on from `n`; the first of them is the
  -- i-th for the clock.
  unfoldable pub count_timeouts : List (Signal p) → (ℕ → p.Time) → (i n : ℕ) → ℕ
  count_timeouts [] clock i n = n
  count_timeouts (sig ∷ rest) clock i n =
      count_timeouts rest clock (i + 1) (if is_timeout p sig (clock i) then increment n else n)

  unfoldable pub count_all : List (ℕ × CanMessage p) → (ℕ → p.Time) → (i n : ℕ) → ℕ
  unfolding count_timeouts
  count_all [] clock i n = n
  count_all ((id, m) ∷ rest) clock i n =
      count_all rest clock (i + length m.signals) (count_timeouts m.signals clock i n)

  -- `clock i` is what the clock reads for the i-th of all signals.
  unfoldable pub get_timeout_signals : CanParser p → (ℕ → p.Time) → ℕ
  unfolding count_all
  get_timeout_signals s clock = count_all s.message_registry clock 0 0

  -- A frame of a registered message.
  unfoldable pub handle_message :
      CanParser p → ℕ → CanMessage p → List ℕ → (ℕ → p.Time) → Option (CanParser p)
  handle_message s id m frame clock = do
    valid ← is_frame_valid p m frame
    if not valid
        then (do
          counter_valid ← validate_rolling_counter p m frame
          checksum_valid ← validate_checksum p m frame
          some (record s {
            invalid_frames = increment s.invalid_frames;
            rolling_counter_errors =
                if not counter_valid
                then increment s.rolling_counter_errors
                else s.rolling_counter_errors;
            checksum_errors =
                if not checksum_valid then increment s.checksum_errors else s.checksum_errors;
          }))
        else (do
          m' ← parse p m frame clock
          some (record s {
            message_registry = insert id m' s.message_registry;
            valid_frames = increment s.valid_frames;
          }))

  -- The diagnostic plugin's part of `handleFrame`.
  unfoldable pub handle_diagnostic :
      CanParser p → ℕ → List ℕ → p.Time → Option (CanParser p × List Output)
  unfolding get_diagnostic_message
  handle_diagnostic s id frame now = do
    (diag, out) ← handle_diagnostic_frame p (get_diagnostic_message s id) frame now
    some (record s { diagnostic_messages = insert id diag s.diagnostic_messages }, out)

  -- What was found in the registry.
  unfoldable pub handle_found :
      CanParser p → ℕ → Option (CanMessage p) → List ℕ → (ℕ → p.Time) → Option (CanParser p)
  handle_found s id (some m) frame clock = handle_message s id m frame clock
  handle_found s id none frame clock =
      some (record s { invalid_frames = increment s.invalid_frames })

  unfoldable pub handle_frame :
      CanParser p → ℕ → List ℕ → p.Time → (ℕ → p.Time) → Option (CanParser p × List Output)
  handle_frame old id frame now clock =
      let s = record old { total_frames = increment old.total_frames } in
      if s.diagnostic_mode_enabled && is_diagnostic id
      then handle_diagnostic s id frame now
      else if not (is_in_whitelist s id)
      then some (record s { invalid_frames = increment s.invalid_frames }, [])
      else (do s' ← handle_found s id (lookup id s.message_registry) frame clock; some (s', []))
