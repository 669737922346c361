-- ===== src/Bits.antt =====
-- The bit operations of C++ on unsigned words, as arithmetic.
pub mod Step
use Step.{bit_or_lowest, bit_and_lowest, bit_xor_lowest}
use Prim.Native.Nat.{bit_or-bitwise, bit_xor-bitwise}
use native.Mathlib.Nat.{
  add-zero, add-suc, pow-suc, pow-succ', one-le-pow, pow-le-pow_right, div-div-eq-div-mul,
  div-add-mod,
}
use can_from_scratch.Prelude.{
  ℕ, zero, suc, ◌+◌, ◌-◌, ◌*◌, ◌/◌, ◌%◌, ◌^◌, ◌≤◌, ◌<◌, ◌≡◌, refl, sym, ap, bit_and, bit_or,
  bit_xor, arith, Bool, true, ◌&&◌, ◌==◌, ==_iff,
}

twice_shifted : (k q : ℕ) → 2 * (q * 2 ^ k) ≡ q * 2 ^ suc k
twice_shifted k q = omega (arith, ap (λ (p : ℕ). q * p) (pow-suc 2 k))

-- A second number of which nothing is left changes nothing, or clears everything.
or-zero_below : (n a : ℕ) → a ≤ n → bit_or a 0 ≡ a
or-zero_below n zero h = refl
or-zero_below zero (suc a) h = absurd (omega arith)
or-zero_below (suc n) (suc a) h =
    omega (arith, bit_or_lowest (suc a) 0, or-zero_below n (suc a / 2) (omega arith))

and-zero_below : (n a : ℕ) → a ≤ n → bit_and a 0 ≡ 0
and-zero_below n zero h = refl
and-zero_below zero (suc a) h = absurd (omega arith)
and-zero_below (suc n) (suc a) h =
    omega (arith, bit_and_lowest (suc a) 0, and-zero_below n (suc a / 2) (omega arith))

-- `(q << k) | r` is a sum where `r` fits the `k` bits below.
pub bit_or_below : (k q r : ℕ) → r < 2 ^ k → bit_or (q * 2 ^ k) r ≡ q * 2 ^ k + r
bit_or_below zero q zero fits =
    omega (arith, or-zero_below (q * 2 ^ zero) (q * 2 ^ zero) (omega arith))
bit_or_below zero q (suc r) fits = absurd (omega arith)
bit_or_below (suc k) q r fits = ground (
  arith,
  bit_or_lowest (q * 2 ^ suc k) r,
  twice_shifted k q,
  pow-suc 2 k,
  bit_or_below k q (r / 2) (omega (arith, pow-suc 2 k)),
)

-- `r | (q << k)` too.
pub bit_or_above : (k q r : ℕ) → r < 2 ^ k → bit_or r (q * 2 ^ k) ≡ r + q * 2 ^ k
bit_or_above zero q zero fits = omega (arith, bit_or-bitwise 0 (q * 2 ^ zero))
bit_or_above zero q (suc r) fits = absurd (omega arith)
bit_or_above (suc k) q r fits = ground (
  arith,
  bit_or_lowest r (q * 2 ^ suc k),
  twice_shifted k q,
  pow-suc 2 k,
  bit_or_above k q (r / 2) (omega (arith, pow-suc 2 k)),
)

low_bits : (k q r : ℕ) → r < 2 ^ k → bit_and (q * 2 ^ k + r) (2 ^ k - 1) ≡ r
low_bits zero q r fits = omega (arith, and-zero_below (q * 1 + r) (q * 1 + r) (omega arith))
low_bits (suc k) q r fits = ground (
  arith,
  bit_and_lowest (q * 2 ^ suc k + r) (2 ^ suc k - 1),
  twice_shifted k q,
  pow-suc 2 k,
  one-le-pow k 2,
  low_bits k q (r / 2) (omega (arith, pow-suc 2 k)),
)

-- A mask of the `k` low bits is the remainder by `2 ^ k`.
pub bit_and_mask : (k a : ℕ) → bit_and a (2 ^ k - 1) ≡ a % 2 ^ k
bit_and_mask k a = ground (arith, one-le-pow k 2, low_bits k (a / 2 ^ k) (a % 2 ^ k))

-- An exclusive or fits the width of both numbers.
pub bit_xor-lt : (k a b : ℕ) → a < 2 ^ k → b < 2 ^ k → bit_xor a b < 2 ^ k
bit_xor-lt zero zero zero ha hb = omega (arith, bit_xor_lowest 0 0)
bit_xor-lt zero zero (suc b) ha hb = absurd (omega arith)
bit_xor-lt zero (suc a) b ha hb = absurd (omega arith)
bit_xor-lt (suc k) a b ha hb = omega (
  arith,
  bit_xor_lowest a b,
  pow-suc 2 k,
  bit_xor-lt k (a / 2) (b / 2) (omega (arith, pow-suc 2 k)) (omega (arith, pow-suc 2 k)),
)

-- The exclusive or with one number is undone by another one with it.
xor_cancel_below : (n a b : ℕ) → a ≤ n → b ≤ n → bit_xor (bit_xor a b) b ≡ a
xor_cancel_below zero zero zero ha hb = refl
xor_cancel_below zero (suc a) b ha hb = absurd (omega arith)
xor_cancel_below zero zero (suc b) ha hb = absurd (omega arith)
xor_cancel_below (suc n) a b ha hb = ground (
  arith,
  bit_xor_lowest a b,
  bit_xor_lowest (bit_xor a b) b,
  xor_cancel_below n (a / 2) (b / 2) (omega arith) (omega arith),
)

pub bit_xor_cancel : (a b : ℕ) → bit_xor (bit_xor a b) b ≡ a
bit_xor_cancel a b = xor_cancel_below (a + b) a b (omega arith) (omega arith)

xor_comm_below : (n a b : ℕ) → a ≤ n → b ≤ n → bit_xor a b ≡ bit_xor b a
xor_comm_below zero zero zero ha hb = refl
xor_comm_below zero (suc a) b ha hb = absurd (omega arith)
xor_comm_below zero zero (suc b) ha hb = absurd (omega arith)
xor_comm_below (suc n) a b ha hb = omega (
  arith,
  bit_xor_lowest a b,
  bit_xor_lowest b a,
  xor_comm_below n (a / 2) (b / 2) (omega arith) (omega arith),
)

pub bit_xor_comm : (a b : ℕ) → bit_xor a b ≡ bit_xor b a
bit_xor_comm a b = xor_comm_below (a + b) a b (omega arith) (omega arith)

-- Bit `k` of a number.
abbrev pub bit : ℕ → ℕ → ℕ
bit x k = x / 2 ^ k % 2

pub pow-add : (m n : ℕ) → 2 ^ (m + n) ≡ 2 ^ m * 2 ^ n
pow-add m zero = rw add-zero (omega arith)
pow-add m (suc n) =
    rw (add-suc m n)
      (omega (arith, pow-suc 2 (m + n), ap (λ (t : ℕ). 2 ^ m * t) (pow-suc 2 n), pow-add m n))

pub pow-lt-word : (l : ℕ) → l < 64 → 2 ^ l < 2 ^ 64
pow-lt-word l h =
    omega (arith, pow-suc 2 l, one-le-pow l 2, pow-le-pow_right {n = 2} (omega arith) h)

-- Moving a number down by `m` moves its bits.
pub bit-div : (m k x : ℕ) → bit (x / 2 ^ m) k ≡ bit x (m + k)
bit-div m k x = rw (div-div-eq-div-mul x (2 ^ m) (2 ^ k), pow-add m k)

half-mod : (p x : ℕ) → x % (2 * p) / 2 ≡ x / 2 % p
half-mod p x = omega (
  arith,
  div-add-mod x (2 * p),
  div-add-mod (x / 2) p,
  ap (λ (t : ℕ). p * t) (div-div-eq-div-mul x 2 p),
)

halved : (k x : ℕ) → x / 2 ^ suc k ≡ x / 2 / 2 ^ k
halved k x = rw (pow-succ' 2 k) (sym (div-div-eq-div-mul x 2 (2 ^ k)))

-- A remainder by `2 ^ l` keeps the bits below `l`.
pub bit-mod : (l k x : ℕ) → k < l → bit (x % 2 ^ l) k ≡ bit x k
bit-mod zero k x h = absurd (omega arith)
bit-mod (suc l) zero x h = rw (pow-succ' 2 l) (omega (arith, div-add-mod x (2 * 2 ^ l)))
bit-mod (suc l) (suc k) x h =
    rw (halved k (x % 2 ^ suc l), halved k x, pow-succ' 2 l, half-mod (2 ^ l) x)
      (bit-mod l k (x / 2) (omega arith))

pub bit_xor_zero : (b : ℕ) → bit_xor 0 b ≡ b
bit_xor_zero b = bit_xor-bitwise 0 b

-- A test that is true of every number below a bound.
unfoldable pub all_below : ℕ → (ℕ → Bool) → Bool
all_below zero test = true
all_below (suc bound) test = all_below bound test && test bound

pub all_below_sound :
    (test : ℕ → Bool) (bound k : ℕ) → k < bound → all_below bound test ≡ true → test k ≡ true
unfolding all_below
all_below_sound test zero k lt all = absurd (omega arith)
all_below_sound test (suc bound) k lt all = ground (arith, all_below_sound test bound k)

high_nibble_table : all_below 256 (λ b. bit_and b 0xF0 / 2 ^ 4 == b / 16) ≡ true
unfolding all_below
high_nibble_table = refl

-- `(b & 0xF0) >> 4` of a byte.
pub high_nibble : (b : ℕ) → b < 256 → bit_and b 0xF0 / 2 ^ 4 ≡ b / 16
high_nibble b h = (==_iff _ _).0 (all_below_sound _ 256 b h high_nibble_table)

-- `b & 0x0F`.
pub low_nibble : (b : ℕ) → bit_and b 0x0F ≡ b % 16
low_nibble b = bit_and_mask 4 b
