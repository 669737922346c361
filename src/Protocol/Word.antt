-- ===== src/Protocol/Word.antt =====
-- Shifts of `uint64_t` by an `int`: defined for a count from 0 to 63 only.
use can_from_scratch.Prelude.{ℕ, ◌-◌, ◌*◌, ◌/◌, ◌%◌, ◌^◌, Option, none, some, ltb, if◌then◌else◌}
use can_from_scratch.Prelude.Int.{ℤ, pos, negsuc}

abbrev pub shl64 : ℕ → ℤ → Option ℕ
shl64 x (pos k) = if ltb k 64 then some (x * 2 ^ k % 2 ^ 64) else none
shl64 x (negsuc k) = none

abbrev pub shr64 : ℕ → ℤ → Option ℕ
shr64 x (pos k) = if ltb k 64 then some (x / 2 ^ k) else none
shr64 x (negsuc k) = none

-- `x` read as an `int64_t` and shifted right: the sign bit comes in from the left, as the compilers
-- named in the Makefile do it. The result is the bit pattern again.
abbrev pub sar64 : ℕ → ℤ → Option ℕ
sar64 x (pos k) =
    if ltb k 64
    then some (if ltb x (2 ^ 63) then x / 2 ^ k else 2 ^ 64 - 1 - (2 ^ 64 - 1 - x) / 2 ^ k)
    else none
sar64 x (negsuc k) = none

-- The `int64_t` that a 64-bit pattern stands for.
abbrev pub int64_of : ℕ → ℤ
int64_of x = if ltb x (2 ^ 63) then pos x else negsuc (2 ^ 64 - x - 1)
