-- ===== src/Platform.antt =====
-- What the C++ code takes from its platform: the type `double` with the operations that
-- src/can_parser.cpp uses, and the points in time of `std::chrono::steady_clock`.
use can_from_scratch.Prelude.{ℕ}
use can_from_scratch.Prelude.Int.{ℤ}

pub record Platform : Type 1 where
  pub Double : Type 0
  -- `0.0`, the conversions of integers to `double`, and the two operations
  pub zero_double : Double
  pub from_int64 : ℤ → Double
  pub from_uint64 : ℕ → Double
  pub times : Double → Double → Double
  pub plus : Double → Double → Double
  -- a `time_point`, the one that value-initialisation gives, and the milliseconds from the second
  -- argument to the first, as `duration_cast<milliseconds>(now - then).count()`
  pub Time : Type 0
  pub epoch : Time
  pub elapsed_ms : Time → Time → ℤ
