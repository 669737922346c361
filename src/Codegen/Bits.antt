-- ===== src/Codegen/Bits.antt =====
-- Which bits of a frame a generated signal is made of, in the numbering of the DBC file.
use mathlib.Core.Option.{some-injective}
use can_from_scratch.Prelude.{
  ℕ, zero, suc, ◌+◌, ◌-◌, ◌/◌, ◌%◌, ◌^◌, ◌≤◌, ◌<◌, ◌≡◌, refl, ap, ap₂, sym, get_or, ◌∙◌, Bool, true,
  false, some, List, arith, ◌==◌, if◌then◌else◌,
}
use can_from_scratch.Bits.{bit}
use can_from_scratch.Frame.{IsFrame, intel_bit, motorola_bit}
use can_from_scratch.Protocol.{extract_raw_signal}
use can_from_scratch.Protocol.Word.{int64_of}
use can_from_scratch.Protocol.Sign.{twos_complement, extract_raw_signal-signed}
use can_from_scratch.Protocol.Field.{config_of, extract_raw_signal-bits, frame_bit}
use can_from_scratch.Codegen.{final_start_bit}

-- The DBC format numbers the bits of a frame from the lowest of byte 0. The bits of a big-endian
-- signal go down within a byte, and on to the highest of the next one.
abbrev pub next_bit : ℕ → ℕ
next_bit n = if n % 8 == 0 then n + 15 else n - 1

abbrev pub walk : ℕ → ℕ → ℕ
walk zero n = n
walk (suc k) n = walk k (next_bit n)

-- Bit `k` of a signal, counted from its lowest one: a little-endian signal starts with the lowest
-- bit, a big-endian one with the highest.
abbrev pub dbc_bit : List ℕ → Bool → ℕ → ℕ → ℕ → ℕ
dbc_bit frame true start len k = intel_bit frame (walk (len - 1 - k) start)
dbc_bit frame false start len k = intel_bit frame (start + k)

next_bit-converted : (n : ℕ) → final_start_bit true (next_bit n) ≡ final_start_bit true n + 1
next_bit-converted n = ground arith

walk-converted : (k n : ℕ) → final_start_bit true (walk k n) ≡ final_start_bit true n + k
walk-converted zero n = omega arith
walk-converted (suc k) n = omega (arith, walk-converted k (next_bit n), next_bit-converted n)

intel_bit-converted :
    (frame : List ℕ) (n : ℕ) → intel_bit frame n ≡ motorola_bit frame (final_start_bit true n)
intel_bit-converted frame n =
    ap₂ (λ byte bit_in_byte. get_or frame byte 0 / 2 ^ bit_in_byte % 2) (omega arith) (omega arith)

dbc_bit-converted :
    (frame : List ℕ) (be : Bool) (start len k : ℕ)
    → k < len
    → frame_bit frame (final_start_bit be start) len be k ≡ dbc_bit frame be start len k
dbc_bit-converted frame true start len k h = sym (
    intel_bit-converted frame (walk (len - 1 - k) start)
    ∙ ap (motorola_bit frame) (omega (arith, walk-converted (len - 1 - k) start)))
dbc_bit-converted frame false start len k h = refl

-- The unsigned number that the bits of a signal make, as the DBC file lays them out.
abbrev pub IsRaw : List ℕ → Bool → ℕ → ℕ → ℕ → Type 0
IsRaw frame be start len raw =
    (raw < 2 ^ len) × ((k : ℕ) → k < len → bit raw k ≡ dbc_bit frame be start len k)

module _ (frame : List ℕ) (be : Bool) (start len : ℕ) (v : IsFrame frame) (h : 1 ≤ len)
    (j : final_start_bit be start + len ≤ 64) where
  -- With the start bit that the script writes, the extraction of an unsigned signal returns the
  -- number that the bits make in the numbering of the DBC file.
  pub extract_raw_signal-dbc :
      (raw : ℕ) × (extract_raw_signal frame (config_of (final_start_bit be start) len be false)
        ≡ some raw)
      × IsRaw frame be start len raw
  extract_raw_signal-dbc =
      let (raw, e, bound, bits) =
        extract_raw_signal-bits frame (final_start_bit be start) len be v h j in
      (raw, e, (bound, λ k lt. bits k lt ∙ dbc_bit-converted frame be start len k lt))

  -- That of a signed one returns a word that is, as an `int64_t`, the two's complement number of
  -- these bits.
  pub extract_raw_signal-dbc_signed :
      (raw : ℕ) × (r : ℕ) × (extract_raw_signal frame
          (config_of (final_start_bit be start) len be true)
        ≡ some r)
      × (int64_of r ≡ twos_complement len raw)
      × IsRaw frame be start len raw
  extract_raw_signal-dbc_signed =
      let (raw, e, is_raw) = extract_raw_signal-dbc in
      let (raw', r, e', signed, bound, value) =
        extract_raw_signal-signed frame (final_start_bit be start) len be v h j in
      (raw, r, signed, value ∙ ap (twos_complement len) (some-injective _ _ (sym e' ∙ e)), is_raw)
