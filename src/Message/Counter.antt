-- ===== src/Message/Counter.antt =====
-- The rolling counter: which frames it accepts, and what an accepted frame leaves behind.
use native.Mathlib.Nat.{mod-lt, one-le-pow, pow-le-pow_right}
use can_from_scratch.Prelude.{
  ℕ, ◌+◌, ◌%◌, ◌^◌, ◌≤◌, ◌<◌, ◌≡◌, ap, ap₂, ◌∙◌, false, some, ◌||◌, List, arith, ◌==◌,
}
use can_from_scratch.Prelude.Int.{pos}
use can_from_scratch.Frame.{IsFrame}
use can_from_scratch.Platform.{Platform}
use can_from_scratch.Protocol.{extract_raw_signal}
use can_from_scratch.Protocol.Field.{config_of, field, extract-eq-field}
use can_from_scratch.Message.{
  CanMessage, field_config, mod_shifted, validate_rolling_counter, store_counter,
}

module _ (p : Platform) where
  -- A counter of 1 to 8 bits that lies in the frame, as `setRollingCounter` is meant to be called.
  pub record HasCounter (m : CanMessage p) (start len : ℕ) : Type 0 where
    pub at_start : m.rolling_counter_start ≡ pos start
    pub at_length : m.rolling_counter_length ≡ pos len
    pub nonempty : 1 ≤ len
    pub narrow : len ≤ 8
    pub inside : start + len ≤ 64

  -- The counter that a frame carries.
  abbrev pub counter : List ℕ → ℕ → ℕ → ℕ
  counter frame start len = field frame start len false

  counter-lt : (frame : List ℕ) (start len : ℕ) → len ≤ 8 → counter frame start len < 256
  counter-lt frame start len h = omega (
    arith,
    pow-le-pow_right {n = 2} (omega arith) h,
    mod-lt (can_from_scratch.Protocol.Field.moved frame start len false)
        (one-le-pow len 2 (omega arith)),
  )

  module _ (m : CanMessage p) (start len : ℕ) (frame : List ℕ) (h : HasCounter m start len)
      (v : IsFrame frame) where
    extract_counter :
        extract_raw_signal frame (field_config m.rolling_counter_start m.rolling_counter_length)
        ≡ some (counter frame start len)
    extract_counter =
        ap₂ (λ s l. extract_raw_signal frame (field_config s l)) h.at_start h.at_length
        ∙ extract-eq-field frame start len false v h.nonempty h.inside

    next_counter : (x : ℕ) → mod_shifted x m.rolling_counter_length ≡ some (x % 2 ^ len)
    next_counter x = ap (mod_shifted x) h.at_length ∙ ground arith

    next_small : (x : ℕ) → x % 2 ^ len < 256
    next_small x = omega (
      arith,
      pow-le-pow_right {n = 2} (omega arith) h.narrow,
      mod-lt x (one-le-pow len 2 (omega arith)),
    )

    -- For a message with a rolling counter of 1 to 8 bits in the frame, the test of the counter is
    -- defined on an eight-byte frame, and passes exactly when the last counter is 0xFF or the
    -- frame's counter is the last one plus the increment, modulo 2 to the counter's length.
    pub validate_rolling_counter-eq :
        validate_rolling_counter p m frame
        ≡ some (
            m.last_rolling_counter == 0xFF
            || counter frame start len == (m.last_rolling_counter + m.expected_increment) % 2 ^ len)
    unfolding validate_rolling_counter
    validate_rolling_counter-eq = ground (
      arith,
      extract_counter,
      next_counter (m.last_rolling_counter + m.expected_increment),
      next_small (m.last_rolling_counter + m.expected_increment),
      counter-lt frame start len h.narrow,
    )

    pub store_counter-eq :
        store_counter p m frame ≡ some (record m { last_rolling_counter = counter frame start len })
    unfolding store_counter
    store_counter-eq = ground (arith, extract_counter, counter-lt frame start len h.narrow)
