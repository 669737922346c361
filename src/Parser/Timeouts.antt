-- ===== src/Parser/Timeouts.antt =====
-- What `CanParser::getTimeoutSignals` counts.
use can_from_scratch.Prelude.{
  ℕ, ◌+◌, ◌%◌, ◌^◌, ◌<◌, ◌≡◌, ◌∙◌, ap, Bool, ◌&&◌, List, [], ◌∷◌, ◌++◌, length, ltb, arith,
  if◌then◌else◌,
}
use can_from_scratch.Prelude.Int.{pos, ltb_ℤ}
use can_from_scratch.Platform.{Platform}
use can_from_scratch.Signal.{Signal, is_timeout}
use can_from_scratch.Message.{CanMessage}
use can_from_scratch.Parser.{CanParser, increment, count_timeouts, count_all, get_timeout_signals}

-- The signals of all messages.
abbrev pub all_signals : {p : Platform} → List (ℕ × CanMessage p) → List (Signal p)
all_signals [] = []
all_signals ((id, m) ∷ rest) = m.signals ++ all_signals rest

module _ (p : Platform) where
  -- The signal is monitored, and more milliseconds than its threshold have passed since its last
  -- update.
  abbrev pub is_expired : Signal p → p.Time → Bool
  is_expired sig now =
      ltb 0 sig.timeout_threshold_ms
      && ltb_ℤ (pos sig.timeout_threshold_ms) (p.elapsed_ms now sig.last_update_time)

  pub is_timeout_lem : (sig : Signal p) (now : p.Time) → is_timeout p sig now ≡ is_expired sig now
  unfolding is_timeout
  is_timeout_lem sig now = ground arith

  -- How many signals pass a test, the first of them as the i-th.
  abbrev pub count : (ℕ → Signal p → Bool) → ℕ → List (Signal p) → ℕ
  count test i [] = 0
  count test i (sig ∷ rest) = (if test i sig then 1 else 0) + count test (i + 1) rest

  pub count-append :
      (test : ℕ → Signal p → Bool) (i : ℕ) (xs ys : List (Signal p))
      → count test i (xs ++ ys) ≡ count test i xs + count test (i + length xs) ys
  count-append test i [] ys =
      let place : count test i ys ≡ count test (i + 0) ys =
        ap (λ j. count test j ys) (omega arith) in
      omega (arith, place)
  count-append test i (x ∷ xs) ys =
      let place : count test (i + 1 + length xs) ys ≡ count test (i + length (x ∷ xs)) ys =
        ap (λ j. count test j ys) (omega arith) in
      omega (arith, count-append test (i + 1) xs ys, place)

  module _ (clock : ℕ → p.Time) where
    -- Each signal with its own reading of the clock.
    abbrev pub expired : ℕ → Signal p → Bool
    expired i sig = is_expired sig (clock i)

    count_timeouts-eq :
        (sigs : List (Signal p)) (i n : ℕ)
        → n < 2 ^ 64
        → count_timeouts p sigs clock i n ≡ (n + count expired i sigs) % 2 ^ 64
    unfolding count_timeouts
    count_timeouts-eq [] i n h = omega arith
    count_timeouts-eq (sig ∷ rest) i n h =
        let next = if is_timeout p sig (clock i) then increment n else n in
        let one : next ≡ (n + (if is_expired sig (clock i) then 1 else 0)) % 2 ^ 64 =
          ground (arith, is_timeout_lem sig (clock i)) in
        omega (arith, one, count_timeouts-eq rest (i + 1) next (omega (arith, one)))

    count_all-eq :
        (r : List (ℕ × CanMessage p)) (i n : ℕ)
        → n < 2 ^ 64
        → count_all p r clock i n ≡ (n + count expired i (all_signals r)) % 2 ^ 64
    unfolding count_all
    count_all-eq [] i n h = omega arith
    count_all-eq ((id, m) ∷ rest) i n h =
        let here = count_timeouts-eq m.signals i n h in
        omega (
          arith,
          here,
          count_all-eq rest (i + length m.signals) (count_timeouts p m.signals clock i n)
              (omega (arith, here)),
          count-append expired i m.signals (all_signals rest),
        )

    -- `getTimeoutSignals` is, modulo 2 ^ 64, the number of the signals of all registered messages
    -- that are monitored and whose last update was more milliseconds ago than their threshold, each
    -- by its own reading of the clock.
    pub get_timeout_signals-eq-count :
        (s : CanParser p)
        → get_timeout_signals p s clock ≡ count expired 0 (all_signals s.message_registry) % 2 ^ 64
    unfolding get_timeout_signals
    get_timeout_signals-eq-count s = count_all-eq s.message_registry 0 0 (omega arith) ∙ omega arith
