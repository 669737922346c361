-- ===== src/Examples/Fields.antt =====
-- The extraction of signals and the checksums on one frame.
use can_from_scratch.Prelude.{
  ℕ, ◌^◌, ◌-◌, ◌<◌, ◌≡◌, ◌≢◌, ◌↔◌, refl, true, false, none, some, [], ◌∷◌, set, arith,
}
use can_from_scratch.Prelude.Int.{pos}
use can_from_scratch.Bits.{bit}
use can_from_scratch.Protocol.{SignalConfig, extract_raw_signal}
use can_from_scratch.Protocol.Word.{int64_of}
use can_from_scratch.Protocol.Field.{config_of, frame_bit, extract_raw_signal-bits}
use can_from_scratch.Protocol.Sign.{twos_complement, extract_raw_signal-signed}
use can_from_scratch.Protocol.Defined.{IsDefined, extract_raw_signal-IsDefined_iff}
use can_from_scratch.Checksum.{ChecksumType, calculate_checksum}
use can_from_scratch.Checksum.Named.{bytes_in, named, calculate_checksum-named}
use can_from_scratch.Checksum.Detect.{calculate_checksum-detects}
use can_from_scratch.Examples.{sample_frame, sample_frame-IsFrame}

-- The two inputs of `extract_raw_signal_test`.
mock_data :
    extract_raw_signal (0 ∷ 0 ∷ 0xDE ∷ 0xAD ∷ 0 ∷ 0 ∷ 0 ∷ 0 ∷ []) (config_of 16 16 true false)
    ≡ some 0xDEAD
unfolding extract_raw_signal can_from_scratch.Protocol.shifted_container
    can_from_scratch.Protocol.big_endian_loop can_from_scratch.Protocol.length_mask
    can_from_scratch.Protocol.extend_sign
mock_data = refl

temp_sensor :
    extract_raw_signal (0x0F ∷ 0xFF ∷ 0 ∷ 0 ∷ 0 ∷ 0 ∷ 0 ∷ 0 ∷ []) (config_of 4 12 true true)
    ≡ some (2 ^ 64 - 1)
unfolding extract_raw_signal can_from_scratch.Protocol.shifted_container
    can_from_scratch.Protocol.big_endian_loop can_from_scratch.Protocol.length_mask
    can_from_scratch.Protocol.extend_sign
temp_sensor = refl

extract_raw_signal-bits_example :
    (raw : ℕ) × (extract_raw_signal sample_frame (config_of 4 12 true false) ≡ some raw)
    × (raw < 2 ^ 12)
    × ((k : ℕ) → k < 12 → bit raw k ≡ frame_bit sample_frame 4 12 true k)
extract_raw_signal-bits_example =
    extract_raw_signal-bits sample_frame 4 12 true sample_frame-IsFrame (omega arith) (omega arith)

extract_raw_signal-signed_example :
    (raw : ℕ) × (r : ℕ) × (extract_raw_signal sample_frame (config_of 16 8 false false) ≡ some raw)
    × (extract_raw_signal sample_frame (config_of 16 8 false true) ≡ some r)
    × (r < 2 ^ 64)
    × (int64_of r ≡ twos_complement 8 raw)
extract_raw_signal-signed_example =
    extract_raw_signal-signed sample_frame 16 8 false sample_frame-IsFrame (omega arith)
      (omega arith)

extract_raw_signal-IsDefined_iff_example :
    IsDefined (config_of 60 8 true false)
    ↔ (extract_raw_signal sample_frame (config_of 60 8 true false) ≢ none)
extract_raw_signal-IsDefined_iff_example =
    extract_raw_signal-IsDefined_iff sample_frame (config_of 60 8 true false) sample_frame-IsFrame

calculate_checksum-named_example :
    calculate_checksum (pos 5) (pos 50) ChecksumType.crc16 sample_frame
    ≡ some (named ChecksumType.crc16 (bytes_in 5 50 sample_frame))
calculate_checksum-named_example =
    calculate_checksum-named 5 50 ChecksumType.crc16 sample_frame sample_frame-IsFrame

calculate_checksum-detects_example :
    calculate_checksum (pos 0) (pos 56) ChecksumType.crc8 sample_frame
    ≢ calculate_checksum (pos 0) (pos 56) ChecksumType.crc8 (set sample_frame 1 101)
calculate_checksum-detects_example =
    calculate_checksum-detects ChecksumType.crc8 (pos 0) (pos 56) sample_frame 1 101 tt
      sample_frame-IsFrame (omega arith) (omega arith) refl (omega arith)
