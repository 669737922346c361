-- ===== src/Screen.antt =====
-- src/can_parser.cpp: what the parser shows, `Signal::print`, `CanMessage::display`,
-- `CanParser::showData` and `CanParser::renderDashboard`. The result is what is printed, without
-- the fixed text. The clock is read anew for each signal: `clock i` is the reading for the i-th.
pub mod Marks
use Prim.Native.String.{String}
use can_from_scratch.Prelude.{
  ℕ, ◌+◌, length, Bool, true, false, Option, none, some, List, [], ◌∷◌, ◌++◌, ltb, if◌then◌else◌,
}
use can_from_scratch.Platform.{Platform}
use can_from_scratch.Registry.{lookup}
use can_from_scratch.Signal.{Signal, is_timeout}
use can_from_scratch.Message.{CanMessage}
use can_from_scratch.Parser.{CanParser, get_timeout_signals}

-- What stands behind the colon: the physical value, or one of two texts.
pub data Reading (p : Platform) : Type 0 where
  physical : p.Double → Reading p
  invalid not_updated : Reading p

-- The line for a signal, with whether ` [TIMEOUT]` stands at its end.
pub record Row (p : Platform) : Type 0 where
  pub name : String
  pub reading : Reading p
  pub timeout : Bool

pub record Dashboard (p : Platform) : Type 0 where
  pub total_frames : ℕ
  pub valid_frames : ℕ
  pub invalid_frames : ℕ
  pub rolling_counter_errors : ℕ
  pub checksum_errors : ℕ
  pub timeout_signals : ℕ
  pub latest_ts : ℕ
  pub rows : List (Row p)

module _ (p : Platform) where
  unfoldable pub print : Signal p → p.Time → Row p
  print sig now =
      if sig.is_valid
      then record {
        name = sig.name;
        reading = Reading.physical sig.phys_value;
        timeout = is_timeout p sig now;
      }
      else if sig.is_multiplexed
      then record { name = sig.name; reading = Reading.invalid; timeout = false }
      else record {
        name = sig.name;
        reading = Reading.not_updated;
        timeout = ltb 0 sig.timeout_threshold_ms;
      }

  -- The loop of `display`.
  unfoldable pub print_all : List (Signal p) → (ℕ → p.Time) → ℕ → List (Row p)
  unfolding print
  print_all [] clock i = []
  print_all (sig ∷ rest) clock i = print sig (clock i) ∷ print_all rest clock (i + 1)

  unfoldable pub display : CanMessage p → (ℕ → p.Time) → ℕ → List (Row p)
  unfolding print_all
  display m clock i = print_all m.signals clock i

  -- The identifier and the lines, or nothing at all.
  unfoldable pub show_data : CanParser p → ℕ → (ℕ → p.Time) → Option (ℕ × List (Row p))
  unfolding display
  show_data s id clock = elim (lookup id s.message_registry) [
    | none ↦ none
    | some m ↦ some (id, display m clock 0)
  ]

  -- The loop of `renderDashboard`; the order of the list is the order of iteration of the map.
  unfoldable pub display_all : List (ℕ × CanMessage p) → (ℕ → p.Time) → ℕ → List (Row p)
  unfolding display
  display_all [] clock i = []
  display_all ((id, m) ∷ rest) clock i =
      display m clock i ++ display_all rest clock (i + length m.signals)

  -- How many signals are registered.
  unfoldable pub number_of_signals : List (ℕ × CanMessage p) → ℕ
  number_of_signals [] = 0
  number_of_signals ((id, m) ∷ rest) = length m.signals + number_of_signals rest

  -- The clock is first read for every signal by `getTimeoutSignals`, and then once more for every
  -- signal that is displayed.
  unfoldable pub render_dashboard : CanParser p → ℕ → (ℕ → p.Time) → Dashboard p
  unfolding display_all number_of_signals
  render_dashboard s latest_ts clock = record {
    total_frames = s.total_frames;
    valid_frames = s.valid_frames;
    invalid_frames = s.invalid_frames;
    rolling_counter_errors = s.rolling_counter_errors;
    checksum_errors = s.checksum_errors;
    timeout_signals = get_timeout_signals p s clock;
    latest_ts = latest_ts;
    rows = display_all s.message_registry clock (number_of_signals s.message_registry);
  }
