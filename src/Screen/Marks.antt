-- ===== src/Screen/Marks.antt =====
-- The number of time-outs on the dashboard, and the ` [TIMEOUT]` marks below it.
use can_from_scratch.Prelude.{
  ℕ, ◌+◌, ◌%◌, ◌^◌, ◌≡◌, refl, ap, Bool, not, ◌&&◌, List, [], ◌∷◌, ◌++◌, length, ltb, if◌then◌else◌,
  arith, length-append,
}
use can_from_scratch.Platform.{Platform}
use can_from_scratch.Signal.{Signal}
use can_from_scratch.Message.{CanMessage}
use can_from_scratch.Parser.{CanParser}
use can_from_scratch.Parser.Timeouts.{
  all_signals, is_expired, is_timeout_lem, count, count-append, get_timeout_signals-eq-count,
}
use can_from_scratch.Screen.{
  Row, print, print_all, display, display_all, number_of_signals, render_dashboard,
}

abbrev pub marks : {p : Platform} → List (Row p) → ℕ
marks [] = 0
marks (row ∷ rest) = (if row.timeout then 1 else 0) + marks rest

module _ (p : Platform) (clock : ℕ → p.Time) where
  marks-append : (xs ys : List (Row p)) → marks (xs ++ ys) ≡ marks xs + marks ys
  marks-append [] ys = omega arith
  marks-append (x ∷ xs) ys = omega (arith, marks-append xs ys)

  -- In what follows a signal is counted at its place `i`, and displayed `n` readings later.
  module _ (n : ℕ) where
    -- A multiplexed signal that the last frame did not carry, and that has timed out when it is
    -- displayed.
    abbrev pub hidden : ℕ → Signal p → Bool
    hidden i sig = not sig.is_valid && (sig.is_multiplexed && is_expired p sig (clock (n + i)))

    -- A signal that is monitored and waits for its first frame, and that has not timed out when it
    -- is displayed.
    abbrev pub early : ℕ → Signal p → Bool
    early i sig =
        not sig.is_valid
        && (not sig.is_multiplexed
            && (ltb 0 sig.timeout_threshold_ms && not (is_expired p sig (clock (n + i)))))

    -- A signal that has timed out when it is displayed and had not when it was counted, and the
    -- other way round.
    abbrev pub lapsed : ℕ → Signal p → Bool
    lapsed i sig = is_expired p sig (clock (n + i)) && not (is_expired p sig (clock i))

    abbrev pub revived : ℕ → Signal p → Bool
    revived i sig = is_expired p sig (clock i) && not (is_expired p sig (clock (n + i)))

    abbrev counted : ℕ → Signal p → Bool
    counted i sig = is_expired p sig (clock i)

    abbrev tally : Bool → ℕ
    tally b = if b then 1 else 0

    -- One line.
    marks-print :
        (sig : Signal p) (i : ℕ)
        → tally (print p sig (clock (n + i))).timeout + tally (hidden i sig) + tally (revived i sig)
          ≡ tally (counted i sig) + tally (early i sig) + tally (lapsed i sig)
    unfolding print
    marks-print sig i = ground (arith, is_timeout_lem p sig (clock (n + i)))

    marks-print_all :
        (sigs : List (Signal p)) (i j : ℕ)
        → j ≡ n + i
        → marks (print_all p sigs clock j) + count p hidden i sigs + count p revived i sigs
          ≡ count p counted i sigs + count p early i sigs + count p lapsed i sigs
    unfolding print_all
    marks-print_all [] i j e = refl
    marks-print_all (sig ∷ rest) i j e =
        let line : tally (print p sig (clock j)).timeout
            ≡ tally (print p sig (clock (n + i))).timeout =
          ap (λ k. tally (print p sig (clock k)).timeout) e in
        omega
          (arith, line, marks-print sig i, marks-print_all rest (i + 1) (j + 1) (omega (arith, e)))

    marks-display_all :
        (r : List (ℕ × CanMessage p)) (i j : ℕ)
        → j ≡ n + i
        → marks (display_all p r clock j)
            + count p hidden i (all_signals r)
            + count p revived i (all_signals r)
          ≡ count p counted i (all_signals r)
            + count p early i (all_signals r)
            + count p lapsed i (all_signals r)
    unfolding display_all display
    marks-display_all [] i j e = refl
    marks-display_all ((id, m) ∷ rest) i j e = omega (
      arith,
      marks-append (print_all p m.signals clock j)
          (display_all p rest clock (j + length m.signals)),
      count-append p hidden i m.signals (all_signals rest),
      count-append p revived i m.signals (all_signals rest),
      count-append p counted i m.signals (all_signals rest),
      count-append p early i m.signals (all_signals rest),
      count-append p lapsed i m.signals (all_signals rest),
      marks-print_all m.signals i j e,
      marks-display_all rest (i + length m.signals) (j + length m.signals) (omega (arith, e)),
    )

  number_of_signals-eq-length :
      (r : List (ℕ × CanMessage p)) → number_of_signals p r ≡ length (all_signals r)
  unfolding number_of_signals
  number_of_signals-eq-length [] = refl
  number_of_signals-eq-length ((id, m) ∷ rest) =
      omega (arith, number_of_signals-eq-length rest, length-append m.signals (all_signals rest))

  -- On the dashboard, where the clock is read once for every signal to count the time-outs and once
  -- more for every line, two sums are equal modulo 2 ^ 64. One is the number of time-outs, with the
  -- monitored signals, not multiplexed, that are not valid and have not timed out at the second
  -- reading, and those that time out between the two readings. The other is the number of lines
  -- marked ` [TIMEOUT]`, with the multiplexed signals that are not valid and have timed out at the
  -- second reading, and those that had timed out at the first reading only.
  pub render_dashboard-marks :
      (s : CanParser p) (latest_ts : ℕ)
      → (let sigs = all_signals s.message_registry in
          let n = length sigs in
          ((render_dashboard p s latest_ts clock).timeout_signals
              + count p (early n) 0 sigs
              + count p (lapsed n) 0 sigs)
            % 2 ^ 64
          ≡ (marks (render_dashboard p s latest_ts clock).rows
              + count p (hidden n) 0 sigs
              + count p (revived n) 0 sigs)
            % 2 ^ 64)
  unfolding render_dashboard
  render_dashboard-marks s latest_ts =
      let r = s.message_registry in
      omega (
        arith,
        get_timeout_signals-eq-count p clock s,
        marks-display_all (length (all_signals r)) r 0 (number_of_signals p r)
            (omega (arith, number_of_signals-eq-length r)),
      )
