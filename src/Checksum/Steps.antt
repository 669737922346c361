-- ===== src/Checksum/Steps.antt =====
-- The steps of the checksums as maps of bytes: which of them lose information.
use can_from_scratch.Prelude.{
  ℕ, zero, suc, ◌+◌, ◌/◌, ◌%◌, ◌^◌, ◌<◌, ◌≡◌, refl, sym, ap, ◌∙◌, bit_xor, Bool, true, false, ◌||◌,
  not, ◌==◌, ==_iff, arith,
}
use can_from_scratch.Bits.{all_below, all_below_sound, bit_xor_cancel, bit_xor_comm, bit_xor-lt}
use can_from_scratch.Checksum.{crc8_round, iterate, crc8_step, crc16_step}

-- One round of CRC-8 backwards: the polynomial 0x07 is odd, so the lowest bit tells which branch
-- was taken.
unround : ℕ → ℕ
unround y = elim (y % 2 == 0) [ true ↦ y / 2 | false ↦ bit_xor y 0x07 / 2 + 0x80 ]

round_table : all_below 256 (λ x. unround (crc8_round x) == x) ≡ true
unfolding all_below unround crc8_round
round_table = refl

-- CRC-8 maps the bytes one to one.
crc8_round_injective : (x y : ℕ) → x < 256 → y < 256 → crc8_round x ≡ crc8_round y → x ≡ y
crc8_round_injective x y hx hy e = sym (back x hx) ∙ ap unround e ∙ back y hy
  where
    back : (z : ℕ) → z < 256 → unround (crc8_round z) ≡ z
    back z hz = (==_iff _ z).0 (all_below_sound _ 256 z hz round_table)

crc8_round-lt : (x : ℕ) → crc8_round x < 256
unfolding crc8_round
crc8_round-lt x = ground arith

rounds_injective :
    (n x y : ℕ) → x < 256 → y < 256 → iterate crc8_round n x ≡ iterate crc8_round n y → x ≡ y
unfolding iterate
rounds_injective zero x y hx hy e = e
rounds_injective (suc n) x y hx hy e =
    crc8_round_injective x y hx hy
      (rounds_injective n (crc8_round x) (crc8_round y) (crc8_round-lt x) (crc8_round-lt y) e)

rounds-lt : (n x : ℕ) → x < 256 → iterate crc8_round n x < 256
unfolding iterate
rounds-lt zero x h = h
rounds-lt (suc n) x h = rounds-lt n (crc8_round x) (crc8_round-lt x)

pub crc8_step-lt : (crc byte : ℕ) → crc < 256 → byte < 256 → crc8_step crc byte < 256
unfolding crc8_step
crc8_step-lt crc byte h k = rounds-lt 8 (bit_xor crc byte) (bit_xor-lt 8 crc byte h k)

bit_xor_injective : (a b c : ℕ) → bit_xor a c ≡ bit_xor b c → a ≡ b
bit_xor_injective a b c e = sym (bit_xor_cancel a c) ∙ ap (λ x. bit_xor x c) e ∙ bit_xor_cancel b c

pub bit_xor_injective_right : (a b c : ℕ) → bit_xor c a ≡ bit_xor c b → a ≡ b
bit_xor_injective_right a b c e = bit_xor_injective a b c (bit_xor_comm a c ∙ e ∙ bit_xor_comm c b)

-- For one byte the step tells two values of the accumulator apart, and for one value of the
-- accumulator two bytes.
pub crc8_step_injective :
    (x y byte : ℕ) → x < 256 → y < 256 → byte < 256 → crc8_step x byte ≡ crc8_step y byte → x ≡ y
unfolding crc8_step
crc8_step_injective x y byte hx hy hb e =
    bit_xor_injective x y byte
      (rounds_injective 8 _ _ (bit_xor-lt 8 x byte hx hb) (bit_xor-lt 8 y byte hy hb) e)

pub crc8_step_injective_right :
    (crc b c : ℕ) → crc < 256 → b < 256 → c < 256 → crc8_step crc b ≡ crc8_step crc c → b ≡ c
unfolding crc8_step
crc8_step_injective_right crc b c h hb hc e =
    bit_xor_injective_right b c crc
      (rounds_injective 8 _ _ (bit_xor-lt 8 crc b h hb) (bit_xor-lt 8 crc c h hc) e)

pub xor_step_injective : (x y byte : ℕ) → bit_xor x byte ≡ bit_xor y byte → x ≡ y
xor_step_injective x y byte e = bit_xor_injective x y byte e

-- CRC-8 of a single byte is that byte for 0 and 0xFD only.
abbrev pub is_crc8_fixed : ℕ → Bool
is_crc8_fixed b = b == 0 || b == 0xFD

same : Bool → Bool → Bool
same true b = b
same false b = not b

same_sound : (a b : Bool) → same a b ≡ true → a ≡ b
unfolding same
same_sound a b h = ground arith

crc8_table : all_below 256 (λ x. same (x == crc8_step 0 x) (is_crc8_fixed x)) ≡ true
unfolding all_below crc8_step same
crc8_table = refl

pub crc8_byte_fixed : (b : ℕ) → b < 256 → (b == crc8_step 0 b) ≡ is_crc8_fixed b
crc8_byte_fixed b h = same_sound _ _ (all_below_sound _ 256 b h crc8_table)

-- The low byte of CRC-16 of a single byte is never that byte.
crc16_table : all_below 256 (λ x. same (x == crc16_step 0xFFFF x % 2 ^ 8) false) ≡ true
unfolding all_below crc16_step same
crc16_table = refl

pub crc16_byte_fixed : (b : ℕ) → b < 256 → (b == crc16_step 0xFFFF b % 2 ^ 8) ≡ false
crc16_byte_fixed b h = same_sound _ _ (all_below_sound _ 256 b h crc16_table)
