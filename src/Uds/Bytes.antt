-- ===== src/Uds/Bytes.antt =====
-- `vector::assign` and `insert` from a range of the frame. A range that runs past the eight bytes
-- is undefined.
use can_from_scratch.Prelude.{
  ℕ, zero, suc, ◌+◌, ◌≤◌, ◌<◌, ◌≡◌, refl, ◌∙◌, Option, none, some, ◌>>=◌, List, [], ◌∷◌, length,
  get_elem?, take, drop, arith,
}

unfoldable pub read_range : List ℕ → ℕ → ℕ → Option (List ℕ)
read_range frame from zero = some []
read_range frame from (suc n) = do
  byte ← get_elem? frame from
  rest ← read_range frame (from + 1) n
  some (byte ∷ rest)

-- The range does not depend on what stands before it.
read_range-tail :
    (b : ℕ) (frame : List ℕ) (from n : ℕ)
    → read_range (b ∷ frame) (suc from) n ≡ read_range frame from n
unfolding read_range
read_range-tail b frame from zero = refl
read_range-tail b frame from (suc n) = rw (next, read_range-tail b frame (from + 1) n)
  where
    next : suc from + 1 ≡ suc (from + 1)
    next = omega arith

read_range-first :
    (b : ℕ) (frame : List ℕ) (n : ℕ)
    → read_range (b ∷ frame) 0 (suc n) ≡ (read_range frame 0 n >>= λ rest. some (b ∷ rest))
unfolding read_range
read_range-first b frame n = rw (read_range-tail b frame 0 n)

-- A range inside the frame.
pub read_range-eq-take :
    (frame : List ℕ) (from n : ℕ)
    → from + n ≤ length frame
    → read_range frame from n ≡ some (take n (drop from frame))
read_range-eq-take frame zero zero h = unfold read_range in refl
read_range-eq-take [] zero (suc n) h = absurd (omega arith)
read_range-eq-take (b ∷ bs) zero (suc n) h =
    read_range-first b bs n ∙ rw (read_range-eq-take bs zero n (omega arith))
read_range-eq-take [] (suc from) n h = absurd (omega arith)
read_range-eq-take (b ∷ bs) (suc from) n h =
    read_range-tail b bs from n ∙ read_range-eq-take bs from n (omega arith)

-- A range that runs past the end.
pub read_range-eq-none :
    (frame : List ℕ) (from n : ℕ) → length frame < from + n → 0 < n → read_range frame from n ≡ none
read_range-eq-none frame from zero h k = absurd (omega arith)
read_range-eq-none [] from (suc n) h k = unfold read_range in refl
read_range-eq-none (b ∷ bs) zero (suc zero) h k = absurd (omega arith)
read_range-eq-none (b ∷ bs) zero (suc (suc n)) h k =
    read_range-first b bs (suc n)
    ∙ rw (read_range-eq-none bs zero (suc n) (omega arith) (omega arith))
read_range-eq-none (b ∷ bs) (suc from) (suc n) h k =
    read_range-tail b bs from (suc n)
    ∙ read_range-eq-none bs from (suc n) (omega arith) (omega arith)
