-- ===== src/Checksum.antt =====
-- src/can_parser.cpp: `CanMessage::calculateChecksum`, over the bytes whose first bit lies in the
-- configured range. `start` and `len` are `checksum_start_` and `checksum_length_`.
pub mod Steps
pub mod Covered
pub mod Polynomial
pub mod Named
pub mod Detect
use can_from_scratch.Prelude.{
  ℕ, zero, suc, ◌+◌, ◌*◌, ◌%◌, ◌^◌, bit_and, bit_xor, Bool, ◌&&◌, Option, none, some, ◌>>=◌, List,
  get_elem?, if◌then◌else◌, ◌==◌,
}
use can_from_scratch.Prelude.Int.{ℤ, pos, ◌+ℤ◌, ltb_ℤ, leb_ℤ}

pub data ChecksumType : Type 0 where
  xor crc8 crc16 sum custom : ChecksumType

-- `i * 8 >= checksum_start_ && i * 8 < checksum_start_ + checksum_length_`
abbrev pub is_covered : ℤ → ℤ → ℕ → Bool
is_covered start len i = leb_ℤ start (pos (i * 8)) && ltb_ℤ (pos (i * 8)) (start +ℤ len)

-- `for (int i = 0; i < 8; ++i) if (covered) acc = step(acc, data[i]);` with `left` rounds to go
unfoldable pub checksum_loop : (ℕ → ℕ → ℕ) → ℤ → ℤ → List ℕ → ℕ → ℕ → ℕ → Option ℕ
checksum_loop step start len frame zero i acc = some acc
checksum_loop step start len frame (suc left) i acc = do
  acc' ←
      if is_covered start len i
      then (do byte ← get_elem? frame i; some (step acc byte))
      else some acc
  checksum_loop step start len frame left (i + 1) acc'

-- `checksum ^= data[i]`
abbrev pub xor_step : ℕ → ℕ → ℕ
xor_step checksum byte = bit_xor checksum byte

-- `sum += data[i]` in a `uint16_t`
abbrev pub sum_step : ℕ → ℕ → ℕ
sum_step total byte = (total + byte) % 2 ^ 16

-- One round of the inner loop of CRC-8, in a `uint8_t`.
unfoldable pub crc8_round : ℕ → ℕ
crc8_round crc = if bit_and crc 0x80 == 0 then crc * 2 % 2 ^ 8 else bit_xor (crc * 2) 0x07 % 2 ^ 8

-- One round of the inner loop of CRC-16, in a `uint16_t`.
unfoldable pub crc16_round : ℕ → ℕ
crc16_round crc =
    if bit_and crc 0x8000 == 0 then crc * 2 % 2 ^ 16 else bit_xor (crc * 2) 0x1021 % 2 ^ 16

unfoldable pub iterate : (ℕ → ℕ) → ℕ → ℕ → ℕ
iterate f zero x = x
iterate f (suc n) x = iterate f n (f x)

-- `crc ^= data[i]` and the eight rounds
unfoldable pub crc8_step : ℕ → ℕ → ℕ
unfolding iterate crc8_round
crc8_step crc byte = iterate crc8_round 8 (bit_xor crc byte)

-- `crc ^= (data[i] << 8)` and the eight rounds
unfoldable pub crc16_step : ℕ → ℕ → ℕ
unfolding iterate crc16_round
crc16_step crc byte = iterate crc16_round 8 (bit_xor crc (byte * 2 ^ 8))

unfoldable pub calculate_checksum : ℤ → ℤ → ChecksumType → List ℕ → Option ℕ
unfolding checksum_loop
calculate_checksum start len ChecksumType.xor frame = checksum_loop xor_step start len frame 8 0 0
calculate_checksum start len ChecksumType.sum frame = do
  total ← checksum_loop sum_step start len frame 8 0 0
  some (bit_and total 0xFF % 2 ^ 8)
calculate_checksum start len ChecksumType.crc8 frame = checksum_loop crc8_step start len frame 8 0 0
calculate_checksum start len ChecksumType.crc16 frame = do
  crc ← checksum_loop crc16_step start len frame 8 0 0xFFFF
  some (bit_and crc 0xFF % 2 ^ 8)
calculate_checksum start len ChecksumType.custom frame = some 0
