-- ===== src/Protocol/Field.antt =====
-- What `extract_raw_signal` returns for an unsigned signal: the field of the frame, bit by bit.
use native.Mathlib.Nat.{one-le-pow, mod-lt}
use native.Mathlib.Decide.{ℕ_discrete}
use can_from_scratch.Prelude.{
  ℕ, ◌+◌, ◌-◌, ◌/◌, ◌%◌, ◌^◌, ◌≤◌, ◌<◌, ◌≡◌, ap, ◌∙◌, Bool, true, false, some, List, arith,
}
use can_from_scratch.Prelude.Int.{pos}
use can_from_scratch.Bits.{bit_and_mask, bit, bit-mod, bit-div, pow-lt-word}
use can_from_scratch.Frame.{IsFrame, intel_bit, motorola_bit}
use can_from_scratch.Protocol.{
  SignalConfig, shifted_container, length_mask, extend_sign, extract_raw_signal,
}
use can_from_scratch.Protocol.Container.{
  little_value, big_value, little_endian_loop-eq-value, big_endian_loop-eq-value, little_value-bit,
  big_value-bit,
}

-- A configuration with in-range numbers, as a C++ brace initialiser writes it.
abbrev pub config_of : ℕ → ℕ → Bool → Bool → SignalConfig
config_of start len be sign = record {
  start_bit = pos start;
  length = pos len;
  is_big_endian = be;
  is_signed = sign;
}

pub length_mask_lem : (l : ℕ) → l ≤ 64 → length_mask (pos l) ≡ some (2 ^ l - 1)
unfolding length_mask
length_mask_lem l h = elim (ℕ_discrete l 64) [
  | yes e ↦ ground (arith, ap (λ t. 2 ^ t) e)
  | no ne ↦ ground (arith, pow-lt-word l (omega arith), one-le-pow l 2)
]

-- The container of a signal that fits the frame, moved to the signal's lowest bit.
abbrev pub moved : List ℕ → ℕ → ℕ → Bool → ℕ
moved frame start len true = big_value 0 frame / 2 ^ (64 - start - len)
moved frame start len false = little_value frame / 2 ^ start

pub shifted_container_lem :
    (frame : List ℕ) (start len : ℕ) (be sign : Bool)
    → IsFrame frame
    → 1 ≤ len
    → start + len ≤ 64
    → shifted_container frame (config_of start len be sign) ≡ some (moved frame start len be)
unfolding shifted_container
shifted_container_lem frame start len true sign v h k =
    rw (big_endian_loop-eq-value frame v) (ground arith)
shifted_container_lem frame start len false sign v h k =
    rw (little_endian_loop-eq-value frame v) (ground arith)

-- The unsigned value of the field.
abbrev pub field : List ℕ → ℕ → ℕ → Bool → ℕ
field frame start len be = moved frame start len be % 2 ^ len

-- An unsigned signal that fits the frame is its field.
pub extract-eq-field :
    (frame : List ℕ) (start len : ℕ) (be : Bool)
    → IsFrame frame
    → 1 ≤ len
    → start + len ≤ 64
    → extract_raw_signal frame (config_of start len be false) ≡ some (field frame start len be)
unfolding extract_raw_signal extend_sign
extract-eq-field frame start len be v h k =
    rw (shifted_container_lem frame start len be false v h k, length_mask_lem len (omega arith))
      (ap some (bit_and_mask len (moved frame start len be)))

-- The bit of the frame that bit `k` of a signal stands for, in the numbering of its byte order.
abbrev pub frame_bit : List ℕ → ℕ → ℕ → Bool → ℕ → ℕ
frame_bit frame start len true k = motorola_bit frame (start + len - 1 - k)
frame_bit frame start len false k = intel_bit frame (start + k)

moved-bit :
    (frame : List ℕ) (start len k : ℕ) (be : Bool)
    → IsFrame frame
    → start + len ≤ 64
    → k < len
    → bit (moved frame start len be) k ≡ frame_bit frame start len be k
moved-bit frame start len k true v h p =
    bit-div (64 - start - len) k (big_value 0 frame)
    ∙ big_value-bit frame v (64 - start - len + k) (omega arith)
    ∙ ap (motorola_bit frame) (omega arith)
moved-bit frame start len k false v h p =
    bit-div start k (little_value frame) ∙ little_value-bit frame (start + k) v.1

-- For an unsigned signal of 1 to 64 bits that lies in an eight-byte frame, `extract_raw_signal` is
-- defined, its result fits the signal's length, and each of its bits is the bit of the frame that
-- the byte order names.
pub extract_raw_signal-bits :
    (frame : List ℕ) (start len : ℕ) (be : Bool)
    → IsFrame frame
    → 1 ≤ len
    → start + len ≤ 64
    → (raw : ℕ) × (extract_raw_signal frame (config_of start len be false) ≡ some raw)
      × (raw < 2 ^ len)
      × ((k : ℕ) → k < len → bit raw k ≡ frame_bit frame start len be k)
extract_raw_signal-bits frame start len be v h j = (
  field frame start len be,
  extract-eq-field frame start len be v h j,
  mod-lt (moved frame start len be) (one-le-pow len 2 (omega arith)),
  λ k p. bit-mod len k (moved frame start len be) p ∙ moved-bit frame start len k be v j p,
)
