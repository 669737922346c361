-- ===== src/Signal.antt =====
-- src/can_parser.cpp and include/can_parser.hpp: the class `Signal`. A call of
-- `steady_clock::now()` is the argument `now`.
use Prim.Native.String.{String}
use can_from_scratch.Prelude.{
  ℕ, Bool, true, false, not, ◌&&◌, Option, some, ◌>>=◌, List, ◌==◌, if◌then◌else◌,
}
use can_from_scratch.Prelude.Int.{ℤ, pos, ltb_ℤ, eqb_ℤ}
use can_from_scratch.Platform.{Platform}
use can_from_scratch.Protocol.{SignalConfig, extract_raw_signal}
use can_from_scratch.Protocol.Word.{int64_of}

pub record Signal (p : Platform) : Type 0 where
  pub name : String
  pub start : ℤ
  pub len : ℤ
  pub is_be : Bool
  pub is_signed : Bool
  pub factor : p.Double
  pub offset : p.Double
  pub phys_value : p.Double
  pub is_multiplexor : Bool
  pub is_multiplexed : Bool
  pub mux_value : ℤ
  pub is_valid : Bool
  pub timeout_threshold_ms : ℕ
  pub last_update_time : p.Time

module _ (p : Platform) where
  -- The constructor; the last four arguments have defaults in the header.
  unfoldable pub signal :
      String → ℤ → ℤ → Bool → Bool → p.Double → p.Double → Bool → Bool → ℤ → ℕ → p.Time → Signal p
  signal name start len be sign factor offset is_multiplexor is_multiplexed mux_value timeout_ms
        now =
      record {
        name = name;
        start = start;
        len = len;
        is_be = be;
        is_signed = sign;
        factor = factor;
        offset = offset;
        phys_value = p.zero_double;
        is_multiplexor = is_multiplexor;
        is_multiplexed = is_multiplexed;
        mux_value = mux_value;
        is_valid = false;
        timeout_threshold_ms = timeout_ms;
        last_update_time = now;
      }

  -- `{start_, len_, is_be_, is_signed_}`
  abbrev pub config : Signal p → SignalConfig
  config s = record {
    start_bit = s.start;
    length = s.len;
    is_big_endian = s.is_be;
    is_signed = s.is_signed;
  }

  -- `raw * factor_ + offset_`, with `raw` read as an `int64_t` for a signed signal
  unfoldable pub physical : Signal p → ℕ → p.Double
  physical s raw =
      if s.is_signed
      then p.plus (p.times (p.from_int64 (int64_of raw)) s.factor) s.offset
      else p.plus (p.times (p.from_uint64 raw) s.factor) s.offset

  unfoldable pub update : Signal p → List ℕ → ℤ → p.Time → Option (Signal p)
  update s frame current_mux_value now =
      if s.is_multiplexed && not (eqb_ℤ current_mux_value s.mux_value)
      then some (record s { is_valid = false })
      else (do
        raw ← extract_raw_signal frame (config s)
        some (record s { phys_value = physical s raw; is_valid = true; last_update_time = now }))

  -- `elapsed.count() > timeout_threshold_ms_`: the threshold is converted to the 64-bit type of the
  -- count.
  unfoldable pub is_timeout : Signal p → p.Time → Bool
  is_timeout s now =
      if s.timeout_threshold_ms == 0
      then false
      else ltb_ℤ (pos s.timeout_threshold_ms) (p.elapsed_ms now s.last_update_time)

  unfoldable pub set_timeout_threshold : Signal p → ℕ → Signal p
  set_timeout_threshold s timeout_ms = record s { timeout_threshold_ms = timeout_ms }
