-- ===== src/Checksum/Polynomial.antt =====
-- The rounds of the CRCs as products by x in polynomials over two elements, as numbers whose bits
-- are the coefficients.
use native.Mathlib.Nat.{pow-suc}
use mathlib.Core.Path.{subst}
use native.Mathlib.Decide.{dec_lt}
use can_from_scratch.Prelude.{
  ℕ, zero, suc, ◌+◌, ◌-◌, ◌*◌, ◌/◌, ◌^◌, ◌<◌, ◌≡◌, refl, ap, ap₂, ◌∙◌, bit_and, bit_xor, true, ltb,
  ◌==◌, ==_iff, if◌then◌else◌, arith,
}
use can_from_scratch.Bits.Step.{bit_and_lowest, bit_xor_lowest}
use can_from_scratch.Bits.{all_below, all_below_sound, bit_xor-lt}
use can_from_scratch.Checksum.{crc8_round, crc16_round}

-- The product by x of a polynomial of degree below `w`, where x ^ w is `g`.
abbrev pub times_x : (w g r : ℕ) → ℕ
times_x w g r = if ltb (2 * r) (2 ^ w) then 2 * r else bit_xor (2 * r - 2 ^ w) g

half_power : (k a : ℕ) → (2 ^ suc k + a) / 2 ≡ 2 ^ k + a / 2
half_power k a = omega (arith, pow-suc 2 k)

power_half : (k : ℕ) → 2 ^ suc k / 2 ≡ 2 ^ k
power_half k = omega (arith, pow-suc 2 k)

bit_xor-above : (k a b : ℕ) → a < 2 ^ k → b < 2 ^ k → bit_xor (2 ^ k + a) b ≡ 2 ^ k + bit_xor a b
bit_xor-above zero zero zero h h' = refl
bit_xor-above zero zero (suc b) h h' = absurd (omega arith)
bit_xor-above zero (suc a) b h h' = absurd (omega arith)
bit_xor-above (suc k) a b h h' = omega (
  arith,
  pow-suc 2 k,
  bit_xor_lowest (2 ^ suc k + a) b,
  bit_xor_lowest a b,
  ap (λ x. bit_xor x (b / 2)) (half_power k a),
  bit_xor-above k (a / 2) (b / 2) (omega (arith, pow-suc 2 k)) (omega (arith, pow-suc 2 k)),
)

bit_and-below : (k a : ℕ) → a < 2 ^ k → bit_and a (2 ^ k) ≡ 0
bit_and-below zero zero h = refl
bit_and-below zero (suc a) h = absurd (omega arith)
bit_and-below (suc k) a h = omega (
  arith,
  pow-suc 2 k,
  bit_and_lowest a (2 ^ suc k),
  ap (bit_and (a / 2)) (power_half k),
  bit_and-below k (a / 2) (omega (arith, pow-suc 2 k)),
)

bit_and-above : (k a : ℕ) → a < 2 ^ k → bit_and (2 ^ k + a) (2 ^ k) ≡ 2 ^ k
bit_and-above zero zero h = refl
bit_and-above zero (suc a) h = absurd (omega arith)
bit_and-above (suc k) a h = omega (
  arith,
  pow-suc 2 k,
  bit_and_lowest (2 ^ suc k + a) (2 ^ suc k),
  ap₂ bit_and (half_power k a) (power_half k),
  bit_and-above k (a / 2) (omega (arith, pow-suc 2 k)),
)

round_table : all_below 256 (λ r. crc8_round r == times_x 8 (2 ^ 2 + 2 + 1) r) ≡ true
unfolding all_below crc8_round
round_table = refl

pub crc8_round-eq-times_x : (r : ℕ) → r < 2 ^ 8 → crc8_round r ≡ times_x 8 (2 ^ 2 + 2 + 1) r
crc8_round-eq-times_x r h = (==_iff _ _).0 (all_below_sound _ 256 r h round_table)

crc16_round-low : (r : ℕ) → r < 2 ^ 15 → crc16_round r ≡ times_x 16 (2 ^ 12 + 2 ^ 5 + 1) r
unfolding crc16_round
crc16_round-low r h = ground (arith, bit_and-below 15 r h)

crc16_round-high :
    (a : ℕ) → a < 2 ^ 15 → crc16_round (2 ^ 15 + a) ≡ times_x 16 (2 ^ 12 + 2 ^ 5 + 1) (2 ^ 15 + a)
unfolding crc16_round
crc16_round-high a h =
    let top = bit_and-above 15 a h in
    let twice : bit_xor ((2 ^ 15 + a) * 2) 0x1021 ≡ 2 ^ 16 + bit_xor (2 * a) 0x1021 =
      ap (λ x. bit_xor x 0x1021) (omega arith)
      ∙ bit_xor-above 16 (2 * a) 0x1021 (omega arith) (omega arith) in
    let less : bit_xor (2 * (2 ^ 15 + a) - 2 ^ 16) 0x1021 ≡ bit_xor (2 * a) 0x1021 =
      ap (λ x. bit_xor x 0x1021) (omega arith) in
    ground (arith, top, twice, less, bit_xor-lt 16 (2 * a) 0x1021 (omega arith) (omega arith))

pub crc16_round-eq-times_x :
    (r : ℕ) → r < 2 ^ 16 → crc16_round r ≡ times_x 16 (2 ^ 12 + 2 ^ 5 + 1) r
crc16_round-eq-times_x r h = elim (dec_lt r (2 ^ 15)) [
  | yes low ↦ crc16_round-low r low
  | no high ↦
      let split : 2 ^ 15 + (r - 2 ^ 15) ≡ r = omega arith in
      subst (λ x. crc16_round x ≡ times_x 16 (2 ^ 12 + 2 ^ 5 + 1) x) split
        (crc16_round-high (r - 2 ^ 15) (omega arith))
]
