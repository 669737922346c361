-- ===== src/Protocol/Sign.antt =====
-- Sign extension: a signed signal is the two's complement number of its field.
use native.Mathlib.Nat.{one-le-pow, mod-lt, pow-succ'}
use native.Mathlib.Decide.{dec_lt}
use mathlib.Core.Path.{subst}
use can_from_scratch.Prelude.{
  ℕ, zero, suc, ◌+◌, ◌-◌, ◌*◌, ◌/◌, ◌%◌, ◌^◌, ◌≤◌, ◌<◌, ◌≡◌, refl, ap, ◌∙◌, sym, Bool, true, false,
  some, List, arith, ltb, if◌then◌else◌,
}
use can_from_scratch.Prelude.Int.{ℤ, pos, negsuc}
use can_from_scratch.Bits.{pow-add, bit_and_mask}
use can_from_scratch.Frame.{IsFrame}
use can_from_scratch.Protocol.{extend_sign, extract_raw_signal}
use can_from_scratch.Protocol.Word.{int64_of}
use can_from_scratch.Protocol.Field.{
  config_of, moved, field, extract-eq-field, shifted_container_lem, length_mask_lem,
}

-- The number that `len` bits stand for in two's complement.
abbrev pub twos_complement : ℕ → ℕ → ℤ
twos_complement len x = if ltb x (2 ^ (len - 1)) then pos x else negsuc (2 ^ len - x - 1)

-- The pattern that the two shifts give, for a word split as `q * p`.
abbrev extended : ℕ → ℕ → ℕ
extended p x = if ltb (x * p) (2 ^ 63) then x * p / p else 2 ^ 64 - 1 - (2 ^ 64 - 1 - x * p) / p

div_below : (p x m : ℕ) → 1 ≤ p → m < p → (x * p + m) / p ≡ x
div_below p x m h k = grind arith

mul_step : (p x y : ℕ) → x < y → x * p + p ≤ y * p
mul_step p x y h = grind arith

mul_mono : (p x y : ℕ) → x ≤ y → x * p ≤ y * p
mul_mono p x y h = grind arith

module _ (p q half x : ℕ) (split : q * p ≡ 2 ^ 64) (halves : q ≡ 2 * half) (pp : 1 ≤ p)
    (fits : x < q) where
  half_word : half * p ≡ 2 ^ 63
  half_word = omega (arith, ap (λ (t : ℕ). t * p) halves)

  -- The number of patterns above `x`, and the quotient by which the code finds it.
  above : (2 ^ 64 - 1 - x * p) / p ≡ q - x - 1
  above = ap (λ t. t / p) place ∙ div_below p (q - x - 1) (p - 1) pp (omega arith)
    where
      gap : (d : ℕ) → q ≡ x + 1 + d → q * p ≡ x * p + p + d * p
      gap d e = omega (arith, ap (λ (t : ℕ). t * p) e)

      place : 2 ^ 64 - 1 - x * p ≡ (q - x - 1) * p + (p - 1)
      place = omega (arith, gap (q - x - 1) (omega arith))

  -- The shifts in the middle of a word: the sign bit of `x` is the bit of weight `half`.
  extended_lem :
      (extended p x < 2 ^ 64)
      × (int64_of (extended p x) ≡ (if ltb x half then pos x else negsuc (q - x - 1)))
  extended_lem = elim (dec_lt x half) [
    | yes low ↦ ground (
      arith,
      half_word,
      mul_step p x half low,
      mul_mono x 1 p pp,
      div_below p x 0 pp (omega arith),
    )
    | no high ↦ ground (
      arith,
      half_word,
      above,
      mul_mono p half x (omega arith),
      mul_step p x q fits,
      mul_mono half 1 p pp,
    )
  ]

word_split : (len : ℕ) → len ≤ 64 → 2 ^ len * 2 ^ (64 - len) ≡ 2 ^ 64
word_split len h = sym (pow-add len (64 - len)) ∙ ap (λ t. 2 ^ t) whole
  where
    whole : len + (64 - len) ≡ 64
    whole = omega arith

two_halves : (len : ℕ) → 1 ≤ len → 2 ^ len ≡ 2 * 2 ^ (len - 1)
two_halves zero h = absurd (omega arith)
two_halves (suc l) h = pow-succ' 2 l ∙ ap (λ t. 2 * 2 ^ t) less
  where
    less : l ≡ suc l - 1
    less = omega arith

-- `extend_sign` of a field of `len` bits.
extend_sign_lem :
    (len x : ℕ) (start : ℕ) (be : Bool)
    → 1 ≤ len
    → len < 64
    → x < 2 ^ len
    → extend_sign (config_of start len be true) x ≡ some (extended (2 ^ (64 - len)) x)
unfolding extend_sign
extend_sign_lem len x start be h k fits = ground (arith, word_split len, scaled)
  where
    scaled : x * 2 ^ (64 - len) % 2 ^ 64 ≡ x * 2 ^ (64 - len)
    scaled = omega (
      arith,
      word_split len (omega arith),
      mul_step (2 ^ (64 - len)) x (2 ^ len) fits,
      one-le-pow (64 - len) 2,
    )

field-lt : (frame : List ℕ) (start len : ℕ) (be : Bool) → field frame start len be < 2 ^ len
field-lt frame start len be = mod-lt (moved frame start len be) (one-le-pow len 2 (omega arith))

-- A signed signal shorter than 64 bits, before its value is read as an `int64_t`.
extract-eq-extended :
    (frame : List ℕ) (start len : ℕ) (be : Bool)
    → IsFrame frame
    → 1 ≤ len
    → len < 64
    → start + len ≤ 64
    → extract_raw_signal frame (config_of start len be true)
      ≡ some (extended (2 ^ (64 - len)) (field frame start len be))
unfolding extract_raw_signal
extract-eq-extended frame start len be v h k j =
    rw
      (
        shifted_container_lem frame start len be true v h j,
        length_mask_lem len (omega arith),
        bit_and_mask len (moved frame start len be),
      )
      (extend_sign_lem len (field frame start len be) start be h k (field-lt frame start len be))

extract_whole :
    (frame : List ℕ) (start : ℕ) (be : Bool)
    → IsFrame frame
    → start + 64 ≤ 64
    → extract_raw_signal frame (config_of start 64 be true) ≡ some (field frame start 64 be)
unfolding extract_raw_signal extend_sign
extract_whole frame start be v j = rw (
  shifted_container_lem frame start 64 be true v (omega arith) j,
  length_mask_lem 64 (omega arith),
  bit_and_mask 64 (moved frame start 64 be),
)

-- For a signal of 1 to 64 bits that lies in an eight-byte frame, the signed and the unsigned
-- extraction are both defined, and the `int64_t` that the signed one returns is the two's
-- complement number of the bits that the unsigned one returns.
pub extract_raw_signal-signed :
    (frame : List ℕ) (start len : ℕ) (be : Bool)
    → IsFrame frame
    → 1 ≤ len
    → start + len ≤ 64
    → (raw : ℕ) × (r : ℕ) × (extract_raw_signal frame (config_of start len be false) ≡ some raw)
      × (extract_raw_signal frame (config_of start len be true) ≡ some r)
      × (r < 2 ^ 64)
      × (int64_of r ≡ twos_complement len raw)
extract_raw_signal-signed frame start len be v h j = elim (dec_lt len 64) [
  | yes short ↦ (
    x,
    extended (2 ^ (64 - len)) x,
    extract-eq-field frame start len be v h j,
    extract-eq-extended frame start len be v h short j,
    (read short).0,
    (read short).1,
  )
  | no long ↦ (
    x,
    x,
    extract-eq-field frame start len be v h j,
    subst
        (λ l. extract_raw_signal frame (config_of start l be true) ≡ some (field frame start l be))
        (sym (whole long)) (extract_whole frame start be v (omega arith)),
    omega (arith, bound, ap (λ t. 2 ^ t) (whole long)),
    subst (λ l. int64_of x ≡ twos_complement l x) (sym (whole long)) refl,
  )
]
  where
    x : ℕ
    x = field frame start len be

    bound : x < 2 ^ len
    bound = field-lt frame start len be

    whole : ¬ (len < 64) → len ≡ 64
    whole l = omega arith

    read :
        len < 64
        → (extended (2 ^ (64 - len)) x < 2 ^ 64)
          × (int64_of (extended (2 ^ (64 - len)) x) ≡ twos_complement len x)
    read short =
        extended_lem (2 ^ (64 - len)) (2 ^ len) (2 ^ (len - 1)) x (word_split len (omega arith))
          (two_halves len h) (one-le-pow (64 - len) 2 (omega arith)) bound
