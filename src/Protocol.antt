-- ===== src/Protocol.antt =====
-- src/protocol.cpp and include/protocol.hpp: `SignalConfig` and `extract_raw_signal`.
-- The fields of the configuration are C++ `int`s, so they may be negative; shifts by a negative
-- count or by 64 and more are undefined, and so is a read past the bytes of `data`.
pub mod Word
pub mod Container
pub mod Field
pub mod Sign
pub mod Defined
use can_from_scratch.Prelude.{
  ℕ, zero, suc, ◌+◌, ◌-◌, ◌*◌, ◌%◌, ◌^◌, ◌≡◌, refl, bit_and, bit_or, Bool, true, false, ◌&&◌,
  Option, none, some, ◌>>=◌, List, [], ◌∷◌, get_elem?, if◌then◌else◌,
}
use can_from_scratch.Prelude.Int.{ℤ, pos, negsuc, ◌+ℤ◌, ◌-ℤ◌, ltb_ℤ, eqb_ℤ}
use Word.{shl64, shr64, sar64}

pub record SignalConfig : Type 0 where
  pub start_bit : ℤ
  pub length : ℤ
  pub is_big_endian : Bool
  pub is_signed : Bool

-- The loop that builds the big-endian container, from round `i` on.
unfoldable pub big_endian_loop : ℕ → List ℕ → ℕ → ℕ → Option ℕ
big_endian_loop zero frame i container = some container
big_endian_loop (suc left) frame i container = do
  byte ← get_elem? frame i
  part ← shl64 byte (pos (8 * (7 - i)))
  big_endian_loop left frame (i + 1) (bit_or container part)

-- The loop that builds the little-endian container.
unfoldable pub little_endian_loop : ℕ → List ℕ → ℕ → ℕ → Option ℕ
little_endian_loop zero frame i container = some container
little_endian_loop (suc left) frame i container = do
  byte ← get_elem? frame i
  part ← shl64 byte (pos (8 * i))
  little_endian_loop left frame (i + 1) (bit_or container part)

-- The container of either byte order, moved so that the signal's lowest bit is bit 0.
unfoldable pub shifted_container : List ℕ → SignalConfig → Option ℕ
shifted_container frame config =
    if config.is_big_endian
    then (do
      container ← big_endian_loop 8 frame 0 0
      let shift = pos 63 -ℤ config.start_bit
      shr64 container (shift -ℤ config.length +ℤ pos 1))
    else (do container ← little_endian_loop 8 frame 0 0; shr64 container config.start_bit)

-- `(length == 64) ? ~0ULL : (1ULL << length) - 1`
unfoldable pub length_mask : ℤ → Option ℕ
length_mask len =
    if eqb_ℤ len (pos 64)
    then some (2 ^ 64 - 1)
    else (do one ← shl64 1 len; some ((one + 2 ^ 64 - 1) % 2 ^ 64))

-- The sign extension: up to the top of the word, and back with an arithmetic shift.
unfoldable pub extend_sign : SignalConfig → ℕ → Option ℕ
extend_sign config raw_val =
    if config.is_signed && ltb_ℤ config.length (pos 64)
    then (do
      let shift_bits = pos 64 -ℤ config.length
      up ← shl64 raw_val shift_bits
      sar64 up shift_bits)
    else some raw_val

unfoldable pub extract_raw_signal : List ℕ → SignalConfig → Option ℕ
extract_raw_signal frame config = do
  raw_val ← shifted_container frame config
  mask ← length_mask config.length
  extend_sign config (bit_and raw_val mask)
