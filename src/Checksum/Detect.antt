-- ===== src/Checksum/Detect.antt =====
-- Which corruptions of a frame change its checksum.
use native.Mathlib.Nat.{add-zero}
use mathlib.Core.Option.{some-injective}
use can_from_scratch.Prelude.{
  ℕ, zero, suc, ◌+◌, ◌%◌, ◌<◌, ◌≡◌, ◌≢◌, sym, ap, length-set, ◌∙◌, bit_xor, true, List, [], ◌∷◌,
  All, length, get_or, set, Bool-cases, inl, inr, arith,
}
use can_from_scratch.Prelude.Int.{ℤ}
use can_from_scratch.Bits.{bit_xor-lt}
use can_from_scratch.Frame.{IsByte, IsFrame}
use can_from_scratch.Checksum.{ChecksumType, is_covered, crc8_step, calculate_checksum}
use can_from_scratch.Checksum.Steps.{
  crc8_step-lt, crc8_step_injective, crc8_step_injective_right, xor_step_injective,
  bit_xor_injective_right,
}
use can_from_scratch.Checksum.Covered.{
  covered, fold, total, reference, calculate_checksum-eq-reference,
}

-- A step that stays among the bytes and is one to one in either argument.
record IsLossless (step : ℕ → ℕ → ℕ) : Type 0 where
  stays : (x b : ℕ) → IsByte x → IsByte b → IsByte (step x b)
  left : (x y b : ℕ) → IsByte x → IsByte y → IsByte b → step x b ≡ step y b → x ≡ y
  right : (x b c : ℕ) → IsByte x → IsByte b → IsByte c → step x b ≡ step x c → b ≡ c

module _ (step : ℕ → ℕ → ℕ) (h : IsLossless step) (start len : ℤ) where
  -- Two values of the accumulator stay apart.
  fold_apart :
      (bs : List ℕ) (k x y : ℕ)
      → All IsByte bs
      → IsByte x
      → IsByte y
      → fold step x (covered start len k bs) ≡ fold step y (covered start len k bs)
      → x ≡ y
  fold_apart [] k x y v hx hy = λ e. e
  fold_apart (b ∷ bs) k x y v hx hy = elim (Bool-cases (is_covered start len k)) [
    | inl c ↦ rw c λ e. h.left x y b hx hy v.0 (
        fold_apart bs (k + 1) (step x b) (step y b) v.1 (h.stays x b hx v.0) (h.stays y b hy v.0) e)
    | inr c ↦ rw c λ e. fold_apart bs (k + 1) x y v.1 hx hy e
  ]

  fold_detects :
      (bs : List ℕ) (k x t b' : ℕ)
      → All IsByte bs
      → IsByte x
      → IsByte b'
      → t < length bs
      → is_covered start len (k + t) ≡ true
      → fold step x (covered start len k bs) ≡ fold step x (covered start len k (set bs t b'))
      → get_or bs t 0 ≡ b'
  fold_detects [] k x t b' v hx hb lt c = absurd (omega arith)
  fold_detects (b ∷ bs) k x zero b' v hx hb lt c = rw here λ e.
      h.right x b b' hx v.0 hb (
        fold_apart bs (k + 1) (step x b) (step x b') v.1 (h.stays x b hx v.0) (h.stays x b' hx hb)
          e)
    where
      here : is_covered start len k ≡ true
      here = ap (is_covered start len) (sym (add-zero k)) ∙ c
  fold_detects (b ∷ bs) k x (suc t) b' v hx hb lt c = elim (Bool-cases (is_covered start len k)) [
    | inl y ↦
        rw y
          (fold_detects bs (k + 1) (step x b) t b' v.1 (h.stays x b hx v.0) hb (omega arith) later)
    | inr n ↦ rw n (fold_detects bs (k + 1) x t b' v.1 hx hb (omega arith) later)
  ]
    where
      later : is_covered start len (k + 1 + t) ≡ true
      later = ap (is_covered start len) (omega arith) ∙ c

add8 : ℕ → ℕ → ℕ
add8 x b = (x + b) % 256

add8-IsLossless : IsLossless add8
unfolding add8
add8-IsLossless = record {
  stays = λ x b hx hb. omega arith;
  left = λ x y b hx hy hb e. omega arith;
  right = λ x b c hx hb hc e. omega arith;
}

xor-IsLossless : IsLossless bit_xor
xor-IsLossless = record {
  stays = λ x b hx hb. bit_xor-lt 8 x b hx hb;
  left = λ x y b hx hy hb e. xor_step_injective x y b e;
  right = λ x b c hx hb hc e. bit_xor_injective_right b c x e;
}

crc8-IsLossless : IsLossless crc8_step
crc8-IsLossless = record {
  stays = crc8_step-lt;
  left = crc8_step_injective;
  right = crc8_step_injective_right;
}

total-eq-fold : (bs : List ℕ) (acc : ℕ) → (acc + total bs) % 256 ≡ fold add8 (acc % 256) bs
unfolding add8
total-eq-fold [] acc = omega arith
total-eq-fold (b ∷ bs) acc =
    omega (arith, total-eq-fold bs (acc + b), ap (λ x. fold add8 x bs) shift)
  where
    shift : (acc + b) % 256 ≡ (acc % 256 + b) % 256
    shift = omega arith

sum-eq-fold : (bs : List ℕ) → total bs % 256 ≡ fold add8 0 bs
sum-eq-fold bs = omega (arith, total-eq-fold bs 0)

-- The types whose checksum is a lossless fold.
abbrev pub Detects : ChecksumType → Type 0
Detects ChecksumType.xor = Unit
Detects ChecksumType.sum = Unit
Detects ChecksumType.crc8 = Unit
Detects ChecksumType.crc16 = ⊥
Detects ChecksumType.custom = ⊥

from_zero :
    (start len : ℤ) (i : ℕ) → is_covered start len i ≡ true → is_covered start len (0 + i) ≡ true
from_zero start len i c = ap (is_covered start len) (omega arith) ∙ c

reference-detects :
    (type : ChecksumType) (start len : ℤ) (frame : List ℕ) (i b : ℕ)
    → Detects type
    → All IsByte frame
    → IsByte b
    → i < length frame
    → is_covered start len i ≡ true
    → reference type (covered start len 0 frame)
      ≡ reference type (covered start len 0 (set frame i b))
    → get_or frame i 0 ≡ b
reference-detects ChecksumType.xor start len frame i b d v hb lt c =
    fold_detects bit_xor xor-IsLossless start len frame 0 0 i b v (omega arith) hb lt
      (from_zero start len i c)
reference-detects ChecksumType.crc8 start len frame i b d v hb lt c =
    fold_detects crc8_step crc8-IsLossless start len frame 0 0 i b v (omega arith) hb lt
      (from_zero start len i c)
reference-detects ChecksumType.sum start len frame i b d v hb lt c = λ e.
    fold_detects add8 add8-IsLossless start len frame 0 0 i b v (omega arith) hb lt
      (from_zero start len i c)
      (sym (sum-eq-fold (covered start len 0 frame))
        ∙ e
        ∙ sum-eq-fold (covered start len 0 (set frame i b)))
reference-detects ChecksumType.crc16 start len frame i b d v hb lt c = λ e. absurd d
reference-detects ChecksumType.custom start len frame i b d v hb lt c = λ e. absurd d

-- Replacing one covered byte of an eight-byte frame by another value changes its XOR, SUM and CRC8
-- checksum.
pub calculate_checksum-detects :
    (type : ChecksumType) (start len : ℤ) (frame : List ℕ) (i b : ℕ)
    → Detects type
    → IsFrame frame
    → IsByte b
    → i < 8
    → is_covered start len i ≡ true
    → get_or frame i 0 ≢ b
    → calculate_checksum start len type frame ≢ calculate_checksum start len type (set frame i b)
calculate_checksum-detects type start len frame i b d v hb lt c ne e = ne (
    reference-detects type start len frame i b d v.1 hb (omega arith) c (
      some-injective _ _ (
        sym (calculate_checksum-eq-reference start len type frame v.0)
        ∙ e
        ∙ calculate_checksum-eq-reference start len type (set frame i b)
            (length-set frame i b ∙ v.0))))
