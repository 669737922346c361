-- ===== src/Checksum/Named.antt =====
-- The checksums of `calculateChecksum` as the ones of these names: the bytes are cut out of the
-- frame, and the CRCs are computed with the polynomials over two elements, as numbers whose bits
-- are the coefficients.
use can_from_scratch.Prelude.{
  ℕ, ◌≤◌, zero, suc, ◌+◌, ◌-◌, ◌*◌, ◌/◌, ◌%◌, ◌^◌, ◌<◌, ◌≡◌, refl, sym, ap, ap₂, ◌∙◌, bit_xor, some,
  List, [], ◌∷◌, take, drop, All, Bool-cases, inl, inr, arith,
}
use native.Mathlib.Decide.{dec_lt}
use can_from_scratch.Prelude.Int.{ℤ, pos}
use can_from_scratch.Checksum.Polynomial.{times_x, crc8_round-eq-times_x, crc16_round-eq-times_x}
use can_from_scratch.Bits.{bit_xor-lt}
use can_from_scratch.Checksum.{
  ChecksumType, is_covered, crc8_round, crc16_round, iterate, crc8_step, crc16_step,
  calculate_checksum,
}
use can_from_scratch.Frame.{IsByte, IsFrame}
use can_from_scratch.Checksum.Covered.{
  covered, fold, total, reference, calculate_checksum-eq-reference,
}

-- The bytes of the frame whose first bit is one of `len` bits from `start` on: from the first byte
-- that begins at `start` or after it, to the last that begins before the end.
abbrev pub bytes_in : (start len : ℕ) → List ℕ → List ℕ
bytes_in start len frame =
    take ((start + len + 7) / 8 - (start + 7) / 8) (drop ((start + 7) / 8) frame)

module _ (s l : ℕ) where
  abbrev from : ℕ
  from = (s + 7) / 8

  abbrev to : ℕ
  to = (s + l + 7) / 8

  covered_from :
      (i : ℕ) (bs : List ℕ)
      → covered (pos s) (pos l) i bs ≡ take (to - (i + (from - i))) (drop (from - i) bs)
  covered_from i [] = nothing (to - (i + (from - i))) (from - i)
    where
      nothing : (n k : ℕ) → ◌≡◌ {A = List ℕ} [] (take n (drop k []))
      nothing zero zero = refl
      nothing zero (suc k) = refl
      nothing (suc n) zero = refl
      nothing (suc n) (suc k) = refl
  covered_from i (b ∷ bs) = elim (Bool-cases (is_covered (pos s) (pos l) i)) [
    | inl inside ↦
        let none_left : from - i ≡ 0 = ground (arith, inside) in
        let more : to - (i + (from - i)) ≡ suc (to - (i + 1 + (from - (i + 1)))) =
          ground (arith, inside) in
        let still : from - (i + 1) ≡ 0 = ground (arith, inside) in
        rw inside (
          ap (λ r. b ∷ r)
            (covered_from (i + 1) bs
              ∙ ap (λ k. take (to - (i + 1 + (from - (i + 1)))) (drop k bs)) still)
          ∙ ap₂ (λ n k. take n (drop k (b ∷ bs))) (sym more) (sym none_left))
    | inr outside ↦ elim (dec_lt i from) [
      | yes before ↦
          let skips : from - i ≡ suc (from - (i + 1)) = omega arith in
          let same : to - (i + (from - i)) ≡ to - (i + 1 + (from - (i + 1))) = omega arith in
          rw outside
            (covered_from (i + 1) bs ∙ ap₂ (λ n k. take n (drop k (b ∷ bs))) (sym same) (sym skips))
      | no after ↦
          let past : to - (i + (from - i)) ≡ 0 = ground (arith, outside, after) in
          let later : to - (i + 1 + (from - (i + 1))) ≡ 0 = omega (arith, past) in
          rw outside (
            covered_from (i + 1) bs
            ∙ ap (λ n. take n (drop (from - (i + 1)) bs)) later
            ∙ ap (λ n. take n (drop (from - i) (b ∷ bs))) (sym past))
    ]
  ]

  pub covered-eq-bytes_in : (bs : List ℕ) → covered (pos s) (pos l) 0 bs ≡ bytes_in s l bs
  covered-eq-bytes_in bs =
      covered_from 0 bs ∙ ap₂ (λ n k. take n (drop k bs)) (omega arith) (omega arith)

-- The product by x to the eighth.
abbrev pub times_x8 : (w g r : ℕ) → ℕ
times_x8 w g r = let t = times_x w g in t (t (t (t (t (t (t (t r)))))))

-- A CRC of width `w`: what is left of the division by x ^ w + g, byte by byte.
abbrev pub crc : (w g init : ℕ) → List ℕ → ℕ
crc w g init [] = init
crc w g init (b ∷ bs) = crc w g (times_x8 w g (bit_xor init (b * 2 ^ (w - 8)))) bs

-- CRC-8 with x^8 + x^2 + x + 1 from 0, and CRC-16 with x^16 + x^12 + x^5 + 1 from 0xFFFF.
abbrev pub named : ChecksumType → List ℕ → ℕ
named ChecksumType.xor bs = fold bit_xor 0 bs
named ChecksumType.sum bs = total bs % 2 ^ 8
named ChecksumType.crc8 bs = crc 8 (2 ^ 2 + 2 + 1) 0 bs
named ChecksumType.crc16 bs = crc 16 (2 ^ 12 + 2 ^ 5 + 1) 0xFFFF bs % 2 ^ 8
named ChecksumType.custom bs = 0

-- A round that multiplies by x on the numbers of `w` bits, and the step made of eight of it.
module _ (w g : ℕ) (round : ℕ → ℕ) (small : (r : ℕ) → round r < 2 ^ w)
    (times : (r : ℕ) → r < 2 ^ w → round r ≡ times_x w g r) where
  eight-eq : (r : ℕ) → r < 2 ^ w → iterate round 8 r ≡ times_x8 w g r
  unfolding iterate
  eight-eq r h =
      let t = times_x w g in
      let next : (x y : ℕ) → round x ≡ y → round (round x) ≡ t y =
        λ x y e. times (round x) (small x) ∙ ap t e in
      let r1 = round r in
      let r2 = round r1 in
      let r3 = round r2 in
      let r4 = round r3 in
      let r5 = round r4 in
      let r6 = round r5 in
      next r6 _ (next r5 _ (next r4 _ (next r3 _ (next r2 _ (next r1 _ (next r _ (times r h)))))))

  eight-lt : (r : ℕ) → iterate round 8 r < 2 ^ w
  unfolding iterate
  eight-lt r = small (round (round (round (round (round (round (round r)))))))

  fold-eq-crc :
      (acc : ℕ) (bs : List ℕ)
      → 8 ≤ w
      → acc < 2 ^ w
      → All (λ b. b * 2 ^ (w - 8) < 2 ^ w) bs
      → fold (λ c b. iterate round 8 (bit_xor c (b * 2 ^ (w - 8)))) acc bs ≡ crc w g acc bs
  fold-eq-crc acc [] wide h v = refl
  fold-eq-crc acc (b ∷ bs) wide h v =
      let mixed = bit_xor acc (b * 2 ^ (w - 8)) in
      let fits = bit_xor-lt w acc (b * 2 ^ (w - 8)) h v.0 in
      fold-eq-crc (iterate round 8 mixed) bs wide (eight-lt mixed) v.1
      ∙ ap (λ c. crc w g c bs) (eight-eq mixed fits)

covered-bytes :
    (start len : ℤ) (i : ℕ) (bs : List ℕ) → All IsByte bs → All IsByte (covered start len i bs)
covered-bytes start len i [] h = tt
covered-bytes start len i (b ∷ bs) h =
    let later = covered-bytes start len (i + 1) bs h.1 in
    elim (Bool-cases (is_covered start len i)) [
      | inl inside ↦ rw inside (h.0, later)
      | inr outside ↦ rw outside later
    ]

bytes-lt :
    (w : ℕ)
    → ((b : ℕ) → IsByte b → b * 2 ^ (w - 8) < 2 ^ w)
    → (bs : List ℕ) → All IsByte bs
    → All (λ b. b * 2 ^ (w - 8) < 2 ^ w) bs
bytes-lt w fits [] h = tt
bytes-lt w fits (b ∷ bs) h = (fits b h.0, bytes-lt w fits bs h.1)

crc8_round-lt : (r : ℕ) → crc8_round r < 2 ^ 8
unfolding crc8_round
crc8_round-lt r = ground arith

crc16_round-lt : (r : ℕ) → crc16_round r < 2 ^ 16
unfolding crc16_round
crc16_round-lt r = ground arith

reference-named :
    (type : ChecksumType) (bs : List ℕ) → All IsByte bs → reference type bs ≡ named type bs
unfolding crc8_step crc16_step
reference-named ChecksumType.xor bs v = refl
reference-named ChecksumType.sum bs v = refl
reference-named ChecksumType.crc8 bs v =
    fold_shift bs 0
    ∙ fold-eq-crc 8 (2 ^ 2 + 2 + 1) crc8_round crc8_round-lt crc8_round-eq-times_x 0 bs
        (omega arith) (omega arith) (bytes-lt 8 (λ b h. omega arith) bs v)
  where
    fold_shift :
        (xs : List ℕ) (acc : ℕ)
        → fold crc8_step acc xs
          ≡ fold (λ c b. iterate crc8_round 8 (bit_xor c (b * 2 ^ (8 - 8)))) acc xs
    fold_shift [] acc = refl
    fold_shift (x ∷ xs) acc =
        fold_shift xs (crc8_step acc x)
        ∙ ap
            (λ n.
              fold (λ c b. iterate crc8_round 8 (bit_xor c (b * 2 ^ (8 - 8))))
                (iterate crc8_round 8 (bit_xor acc n)) xs)
            (omega arith)
reference-named ChecksumType.crc16 bs v =
    ap (λ x. x % 2 ^ 8)
      (fold-eq-crc 16 (2 ^ 12 + 2 ^ 5 + 1) crc16_round crc16_round-lt crc16_round-eq-times_x 0xFFFF
        bs (omega arith) (omega arith) (bytes-lt 16 (λ b h. omega arith) bs v))
reference-named ChecksumType.custom bs v = refl

-- On a frame of eight bytes, for every range with its start and length not negative,
-- `calculateChecksum` is defined, and is of the bytes that begin in the range, cut out of the frame
-- as one piece: the exclusive or, the sum modulo 256, the CRC-8 of the polynomial x^8 + x^2 + x + 1
-- with initial value 0, or the low byte of the CRC-16 of x^16 + x^12 + x^5 + 1 with initial value
-- 0xFFFF; and 0 for the type CUSTOM.
pub calculate_checksum-named :
    (start len : ℕ) (type : ChecksumType) (frame : List ℕ)
    → IsFrame frame
    → calculate_checksum (pos start) (pos len) type frame
      ≡ some (named type (bytes_in start len frame))
calculate_checksum-named start len type frame v =
    calculate_checksum-eq-reference (pos start) (pos len) type frame v.0
    ∙ ap some (
        reference-named type (covered (pos start) (pos len) 0 frame)
          (covered-bytes (pos start) (pos len) 0 frame v.1)
        ∙ ap (named type) (covered-eq-bytes_in start len frame))
