-- ===== src/Message/SelfCheck.antt =====
-- A checksum field of one whole byte: the range over which `calculateChecksum` runs is the range of
-- the field itself, so the field is checked against itself and no other byte takes part.
use can_from_scratch.Prelude.{
  ℕ, zero, suc, ◌*◌, ◌<◌, ◌≡◌, refl, ap, Bool, true, false, some, List, [], ◌∷◌, All, get_or, arith,
  ◌==◌,
}
use can_from_scratch.Prelude.Int.{pos}
use can_from_scratch.Bits.{bit_xor_zero}
use can_from_scratch.Frame.{IsByte, IsFrame, bytes8, frame_cases}
use can_from_scratch.Platform.{Platform}
use can_from_scratch.Checksum.{ChecksumType}
use can_from_scratch.Checksum.Steps.{is_crc8_fixed, crc8_byte_fixed, crc16_byte_fixed}
use can_from_scratch.Checksum.Covered.{covered, reference, calculate_checksum-eq-reference}
use can_from_scratch.Protocol.Field.{field, extract-eq-field}
use can_from_scratch.Message.{CanMessage, set_checksum, validate_checksum}

-- The verdict on a field of one byte, by the type of the checksum.
abbrev pub self_check : ChecksumType → ℕ → Bool
self_check ChecksumType.xor b = true
self_check ChecksumType.sum b = true
self_check ChecksumType.crc8 b = is_crc8_fixed b
self_check ChecksumType.crc16 b = false
self_check ChecksumType.custom b = b == 0

-- The byte at `k`, as a field and as what is covered.
record FieldByte (k : ℕ) (frame : List ℕ) : Type 0 where
  value : field frame (8 * k) 8 false ≡ get_or frame k 0
  alone : covered (pos (8 * k)) (pos 8) 0 frame ≡ get_or frame k 0 ∷ []
  small : IsByte (get_or frame k 0)

field_byte :
    (a b c d e f g h k : ℕ)
    → All IsByte (bytes8 a b c d e f g h)
    → k < 8
    → FieldByte k (bytes8 a b c d e f g h)
field_byte a b c d e f g h zero v lt = record { value = omega arith; alone = refl; small = v.0 }
field_byte a b c d e f g h (suc zero) v lt = record {
  value = omega arith;
  alone = refl;
  small = omega arith;
}
field_byte a b c d e f g h (suc (suc zero)) v lt = record {
  value = omega arith;
  alone = refl;
  small = omega arith;
}
field_byte a b c d e f g h (suc (suc (suc zero))) v lt = record {
  value = omega arith;
  alone = refl;
  small = omega arith;
}
field_byte a b c d e f g h (suc (suc (suc (suc zero)))) v lt = record {
  value = omega arith;
  alone = refl;
  small = omega arith;
}
field_byte a b c d e f g h (suc (suc (suc (suc (suc zero))))) v lt = record {
  value = omega arith;
  alone = refl;
  small = omega arith;
}
field_byte a b c d e f g h (suc (suc (suc (suc (suc (suc zero)))))) v lt = record {
  value = omega arith;
  alone = refl;
  small = omega arith;
}
field_byte a b c d e f g h (suc (suc (suc (suc (suc (suc (suc zero))))))) v lt = record {
  value = omega arith;
  alone = refl;
  small = omega arith;
}
field_byte a b c d e f g h (suc (suc (suc (suc (suc (suc (suc (suc k)))))))) v lt =
    absurd (omega arith)

self_check_lem :
    (type : ChecksumType) (b : ℕ) → IsByte b → (b == reference type (b ∷ [])) ≡ self_check type b
self_check_lem ChecksumType.xor b h = rw bit_xor_zero (ground arith)
self_check_lem ChecksumType.sum b h = ground arith
self_check_lem ChecksumType.crc8 b h = crc8_byte_fixed b h
self_check_lem ChecksumType.crc16 b h = crc16_byte_fixed b h
self_check_lem ChecksumType.custom b h = refl

-- With the checksum field set to byte `k`, from 0 to 7, of an eight-byte frame, `validateChecksum`
-- decides on that byte alone: XOR and SUM accept every frame, CRC8 the bytes 0 and 0xFD, CRC16
-- none, and CUSTOM the byte 0.
pub validate_checksum-aligned :
    (p : Platform) (m : CanMessage p) (type : ChecksumType) (k : ℕ) (frame : List ℕ)
    → IsFrame frame
    → k < 8
    → validate_checksum p (set_checksum p m (pos (8 * k)) (pos 8) type) frame
      ≡ some (self_check type (get_or frame k 0))
unfolding validate_checksum set_checksum
validate_checksum-aligned p m type k frame v lt = ground (
  arith,
  extract-eq-field frame (8 * k) 8 false v,
  calculate_checksum-eq-reference (pos (8 * k)) (pos 8) type frame v.0,
  at.value,
  ap (reference type) at.alone,
  self_check_lem type (get_or frame k 0) at.small,
)
  where
    at : FieldByte k frame
    at =
        frame_cases (λ f. k < 8 → FieldByte k f)
          (λ a b c d e f g h v lt. field_byte a b c d e f g h k v lt) frame v lt
