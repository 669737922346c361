-- ===== src/Protocol/Container.antt =====
-- The containers of `extract_raw_signal` as sums of bytes.
use can_from_scratch.Prelude.{
  ℕ, zero, suc, ◌+◌, ◌-◌, ◌*◌, ◌/◌, ◌%◌, ◌^◌, ◌<◌, ◌≡◌, refl, ap, ◌∙◌, some, List, [], ◌∷◌, All,
  get_or, arith,
}
use native.Mathlib.Nat.{div-div-eq-div-mul, zero-div}
use native.Mathlib.Numerals.{towards_suc}
use native.Mathlib.Decide.{dec_lt}
use can_from_scratch.Bits.{bit_or_above, bit_or_below}
use can_from_scratch.Frame.{IsByte, IsFrame, bytes8, frame_cases, intel_bit, motorola_bit}
use can_from_scratch.Protocol.{big_endian_loop, little_endian_loop}

-- The number whose lowest byte comes first.
abbrev pub little_value : List ℕ → ℕ
little_value [] = 0
little_value (b ∷ bs) = b + 256 * little_value bs

-- The number whose highest byte comes first, behind what was read before.
abbrev pub big_value : ℕ → List ℕ → ℕ
big_value acc [] = acc
big_value acc (b ∷ bs) = big_value (acc * 256 + b) bs

little_endian_container :
    (a b c d e f g h : ℕ)
    → All IsByte (bytes8 a b c d e f g h)
    → little_endian_loop 8 (bytes8 a b c d e f g h) 0 0
      ≡ some (little_value (bytes8 a b c d e f g h))
unfolding little_endian_loop
little_endian_container a b c d e f g h v = ground (
  arith,
  bit_or_above 0 a 0,
  bit_or_above 8 b a,
  bit_or_above 16 c (a + b * 2 ^ 8),
  bit_or_above 24 d (a + b * 2 ^ 8 + c * 2 ^ 16),
  bit_or_above 32 e (a + b * 2 ^ 8 + c * 2 ^ 16 + d * 2 ^ 24),
  bit_or_above 40 f (a + b * 2 ^ 8 + c * 2 ^ 16 + d * 2 ^ 24 + e * 2 ^ 32),
  bit_or_above 48 g (a + b * 2 ^ 8 + c * 2 ^ 16 + d * 2 ^ 24 + e * 2 ^ 32 + f * 2 ^ 40),
  bit_or_above 56 h
      (a + b * 2 ^ 8 + c * 2 ^ 16 + d * 2 ^ 24 + e * 2 ^ 32 + f * 2 ^ 40 + g * 2 ^ 48),
)

big_endian_container :
    (a b c d e f g h : ℕ)
    → All IsByte (bytes8 a b c d e f g h)
    → big_endian_loop 8 (bytes8 a b c d e f g h) 0 0 ≡ some (big_value 0 (bytes8 a b c d e f g h))
unfolding big_endian_loop
big_endian_container a b c d e f g h v = ground (
  arith,
  bit_or_below 64 0 (a * 2 ^ 56),
  bit_or_below 56 a (b * 2 ^ 48),
  bit_or_below 48 (a * 2 ^ 8 + b) (c * 2 ^ 40),
  bit_or_below 40 (a * 2 ^ 16 + b * 2 ^ 8 + c) (d * 2 ^ 32),
  bit_or_below 32 (a * 2 ^ 24 + b * 2 ^ 16 + c * 2 ^ 8 + d) (e * 2 ^ 24),
  bit_or_below 24 (a * 2 ^ 32 + b * 2 ^ 24 + c * 2 ^ 16 + d * 2 ^ 8 + e) (f * 2 ^ 16),
  bit_or_below 16 (a * 2 ^ 40 + b * 2 ^ 32 + c * 2 ^ 24 + d * 2 ^ 16 + e * 2 ^ 8 + f) (g * 2 ^ 8),
  bit_or_below 8 (a * 2 ^ 48 + b * 2 ^ 40 + c * 2 ^ 32 + d * 2 ^ 24 + e * 2 ^ 16 + f * 2 ^ 8 + g) h,
)

-- The loops put the eight bytes together without loss.
pub little_endian_loop-eq-value :
    (frame : List ℕ) → IsFrame frame → little_endian_loop 8 frame 0 0 ≡ some (little_value frame)
little_endian_loop-eq-value =
    frame_cases (λ frame. little_endian_loop 8 frame 0 0 ≡ some (little_value frame))
      little_endian_container

pub big_endian_loop-eq-value :
    (frame : List ℕ) → IsFrame frame → big_endian_loop 8 frame 0 0 ≡ some (big_value 0 frame)
big_endian_loop-eq-value =
    frame_cases (λ frame. big_endian_loop 8 frame 0 0 ≡ some (big_value 0 frame))
      big_endian_container

pow-add-eight : (m : ℕ) → 2 ^ (m + 8) ≡ 256 * 2 ^ m
pow-add-eight m = simp towards_suc (omega arith)

-- The lowest byte of a sum decides the eight lowest bits.
low_byte_bit : (n b v : ℕ) → n < 8 → (b + 256 * v) / 2 ^ n % 2 ≡ b / 2 ^ n % 2
low_byte_bit zero b v h = omega arith
low_byte_bit (suc zero) b v h = omega arith
low_byte_bit (suc (suc zero)) b v h = omega arith
low_byte_bit (suc (suc (suc zero))) b v h = omega arith
low_byte_bit (suc (suc (suc (suc zero)))) b v h = omega arith
low_byte_bit (suc (suc (suc (suc (suc zero))))) b v h = omega arith
low_byte_bit (suc (suc (suc (suc (suc (suc zero)))))) b v h = omega arith
low_byte_bit (suc (suc (suc (suc (suc (suc (suc zero))))))) b v h = omega arith
low_byte_bit (suc (suc (suc (suc (suc (suc (suc (suc n)))))))) b v h = absurd (omega arith)

-- The other bytes decide the rest.
high_bytes_bit : (m b v : ℕ) → IsByte b → (b + 256 * v) / 2 ^ (m + 8) ≡ v / 2 ^ m
high_bytes_bit m b v h =
    rw (pow-add-eight m, ← div-div-eq-div-mul (b + 256 * v) 256 (2 ^ m))
      (ap (λ t. t / 2 ^ m) (omega arith))

-- Bit `n` of a sum of bytes is bit `n % 8` of byte `n / 8`.
pub little_value-bit :
    (bs : List ℕ) (n : ℕ) → All IsByte bs → little_value bs / 2 ^ n % 2 ≡ intel_bit bs n
little_value-bit [] n v = simp zero-div
little_value-bit (b ∷ bs) n v = elim (dec_lt n 8) [
  | yes p ↦
      ground (arith, low_byte_bit n b (little_value bs) p, small p, ap (λ t. 2 ^ t) (small p).1)
  | no p ↦ ground (
    arith,
    little_value-bit bs (n - 8) v.1,
    high_bytes_bit (n - 8) b (little_value bs) v.0,
    large p,
  )
]
  where
    small : n < 8 → (n / 8 ≡ 0) × (n % 8 ≡ n)
    small p = omega arith

    large : ¬ (n < 8) → (n / 8 ≡ suc ((n - 8) / 8)) × (n % 8 ≡ (n - 8) % 8) × (n ≡ n - 8 + 8)
    large p = omega arith

-- The big-endian number of eight bytes is the little-endian one of the bytes in reverse.
byte_reversed :
    (a b c d e f g h q : ℕ)
    → q < 8
    → get_or (bytes8 h g f e d c b a) q 0 ≡ get_or (bytes8 a b c d e f g h) (7 - q) 0
byte_reversed a b c d e f g h zero p = refl
byte_reversed a b c d e f g h (suc zero) p = refl
byte_reversed a b c d e f g h (suc (suc zero)) p = refl
byte_reversed a b c d e f g h (suc (suc (suc zero))) p = refl
byte_reversed a b c d e f g h (suc (suc (suc (suc zero)))) p = refl
byte_reversed a b c d e f g h (suc (suc (suc (suc (suc zero))))) p = refl
byte_reversed a b c d e f g h (suc (suc (suc (suc (suc (suc zero)))))) p = refl
byte_reversed a b c d e f g h (suc (suc (suc (suc (suc (suc (suc zero))))))) p = refl
byte_reversed a b c d e f g h (suc (suc (suc (suc (suc (suc (suc (suc q)))))))) p =
    absurd (omega arith)

big_value-bit_bytes :
    (a b c d e f g h n : ℕ)
    → All IsByte (bytes8 a b c d e f g h)
    → n < 64
    → big_value 0 (bytes8 a b c d e f g h) / 2 ^ n % 2
      ≡ motorola_bit (bytes8 a b c d e f g h) (63 - n)
big_value-bit_bytes a b c d e f g h n v p =
    ap (λ t. t / 2 ^ n % 2) same
    ∙ little_value-bit (bytes8 h g f e d c b a) n (omega arith)
    ∙ rw (byte_reversed a b c d e f g h (n / 8) (omega arith), place.0, place.1)
  where
    same : big_value 0 (bytes8 a b c d e f g h) ≡ little_value (bytes8 h g f e d c b a)
    same = omega arith

    place : (7 - n / 8 ≡ (63 - n) / 8) × (n % 8 ≡ 7 - (63 - n) % 8)
    place = omega arith

-- Bit `n` of the big-endian container is bit `63 - n` in the Motorola numbering.
pub big_value-bit :
    (frame : List ℕ)
    → IsFrame frame
    → (n : ℕ) → n < 64
    → big_value 0 frame / 2 ^ n % 2 ≡ motorola_bit frame (63 - n)
big_value-bit =
    frame_cases
      (λ frame. (n : ℕ) → n < 64 → big_value 0 frame / 2 ^ n % 2 ≡ motorola_bit frame (63 - n))
      (λ a b c d e f g h v n p. big_value-bit_bytes a b c d e f g h n v p)
