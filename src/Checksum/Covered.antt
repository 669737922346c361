-- ===== src/Checksum/Covered.antt =====
-- `calculateChecksum` as a fold over the covered bytes of the frame.
use native.Mathlib.Nat.{add-zero}
use mathlib.Core.Path.{subst}
use can_from_scratch.Prelude.{
  ℕ, suc, ◌+◌, ◌%◌, ◌^◌, ◌≡◌, refl, ap, ◌∙◌, bit_xor, some, List, [], ◌∷◌, length, get_elem?,
  if◌then◌else◌, Bool-cases, inl, inr, arith,
}
use can_from_scratch.Prelude.Int.{ℤ}
use can_from_scratch.Bits.{bit_and_mask}
use can_from_scratch.Checksum.{
  ChecksumType, is_covered, checksum_loop, xor_step, sum_step, crc8_step, crc16_step,
  calculate_checksum,
}

-- The bytes from index `i` on whose first bit lies in the range.
abbrev pub covered : ℤ → ℤ → ℕ → List ℕ → List ℕ
covered start len i [] = []
covered start len i (b ∷ bs) =
    if is_covered start len i
    then b ∷ covered start len (i + 1) bs
    else covered start len (i + 1) bs

abbrev pub fold : (ℕ → ℕ → ℕ) → ℕ → List ℕ → ℕ
fold step acc [] = acc
fold step acc (b ∷ bs) = fold step (step acc b) bs

module _ (step : ℕ → ℕ → ℕ) (start len : ℤ) (frame : List ℕ) where
  -- The loop from index `k` on, where `rest` is what the frame holds from there.
  loop_from :
      (rest : List ℕ) (k acc : ℕ)
      → ((j : ℕ) → get_elem? frame (k + j) ≡ get_elem? rest j)
      → checksum_loop step start len frame (length rest) k acc
        ≡ some (fold step acc (covered start len k rest))
  unfolding checksum_loop
  loop_from [] k acc here = refl
  loop_from (b ∷ bs) k acc here = elim (Bool-cases (is_covered start len k)) [
    | inl c ↦ rw (c, first) (loop_from bs (k + 1) (step acc b) later)
    | inr c ↦ rw c (loop_from bs (k + 1) acc later)
  ]
    where
      first : get_elem? frame k ≡ some b
      first = rw add-zero at (here 0)

      later : (j : ℕ) → get_elem? frame (k + 1 + j) ≡ get_elem? bs j
      later j = ap (get_elem? frame) (omega arith) ∙ here (suc j)

  pub checksum_loop-eq-fold :
      (acc : ℕ)
      → length frame ≡ 8
      → checksum_loop step start len frame 8 0 acc
        ≡ some (fold step acc (covered start len 0 frame))
  checksum_loop-eq-fold acc v =
      subst
        (λ n.
          checksum_loop step start len frame n 0 acc
          ≡ some (fold step acc (covered start len 0 frame)))
        v (loop_from frame 0 acc (λ j. ap (get_elem? frame) (omega arith)))

abbrev pub total : List ℕ → ℕ
total [] = 0
total (b ∷ bs) = b + total bs

sum_fold : (bs : List ℕ) (acc : ℕ) → fold sum_step acc bs % 2 ^ 8 ≡ (acc + total bs) % 2 ^ 8
sum_fold [] acc = omega arith
sum_fold (b ∷ bs) acc = omega (arith, sum_fold bs ((acc + b) % 2 ^ 16))

-- The checksums as folds over the covered bytes.
abbrev pub reference : ChecksumType → List ℕ → ℕ
reference ChecksumType.xor bs = fold bit_xor 0 bs
reference ChecksumType.sum bs = total bs % 2 ^ 8
reference ChecksumType.crc8 bs = fold crc8_step 0 bs
reference ChecksumType.crc16 bs = fold crc16_step 0xFFFF bs % 2 ^ 8
reference ChecksumType.custom bs = 0

-- On an eight-byte frame `calculateChecksum` is defined for every range and every type, and is the
-- fold of the type's step over the covered bytes, for the sum taken modulo 256 at the end only.
pub calculate_checksum-eq-reference :
    (start len : ℤ) (type : ChecksumType) (frame : List ℕ)
    → length frame ≡ 8
    → calculate_checksum start len type frame ≡ some (reference type (covered start len 0 frame))
unfolding calculate_checksum
calculate_checksum-eq-reference start len ChecksumType.xor frame v =
    checksum_loop-eq-fold xor_step start len frame 0 v
calculate_checksum-eq-reference start len ChecksumType.crc8 frame v =
    checksum_loop-eq-fold crc8_step start len frame 0 v
calculate_checksum-eq-reference start len ChecksumType.sum frame v =
    rw (checksum_loop-eq-fold sum_step start len frame 0 v) (
      ap some (
        ap (λ x. x % 2 ^ 8) (bit_and_mask 8 (fold sum_step 0 (covered start len 0 frame)))
        ∙ omega (arith, sum_fold (covered start len 0 frame) 0)))
calculate_checksum-eq-reference start len ChecksumType.crc16 frame v =
    rw (checksum_loop-eq-fold crc16_step start len frame 0xFFFF v)
      (ap some (ap (λ x. x % 2 ^ 8) (bit_and_mask 8 _) ∙ omega arith))
calculate_checksum-eq-reference start len ChecksumType.custom frame v = refl
