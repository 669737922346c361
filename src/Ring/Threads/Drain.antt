-- ===== src/Ring/Threads/Drain.antt =====
-- How many steps of the consumer take out what is in the ring.
use mathlib.Core.Path.{subst}
use mathlib.Core.Option.{some-injective}
use can_from_scratch.Prelude.{
  ℕ, zero, suc, ◌+◌, ◌-◌, ◌*◌, ◌<◌, ◌≤◌, ◌≡◌, refl, ap, ◌∙◌, some, List, [], ◌∷◌, if◌then◌else◌,
  ◌==◌, get_elem?, length, arith, length-append, >>=-eq-some,
}
use can_from_scratch.Ring.{CanFrame, next_index}
use can_from_scratch.Ring.Threads.{Consumer, Machine, pop_step}
use can_from_scratch.Ring.Refine.{cell}
use can_from_scratch.Ring.Threads.Inv.{ConsumerReady, Inv}

-- How many steps of the consumer take out `n` frames.
abbrev pub cost : ℕ → Consumer → ℕ → ℕ
cost head c zero = 0
cost head Consumer.ready (suc n) = 4 * suc n
cost head (Consumer.checking tail) (suc n) = if head == tail then 4 * suc n + 1 else 4 * n + 3
cost head (Consumer.copying h) (suc n) = 4 * n + 2
cost head (Consumer.releasing frame h) (suc n) = 4 * n + 1

pub length-queue :
    {n : ℕ} (m : Machine) (q : List CanFrame)
    → Inv n m q
    → length m.sent ≡ length m.received + length q
length-queue m q i = ap length i.in_order ∙ length-append m.received q

pub cost_le : (head : ℕ) (c : Consumer) (n : ℕ) → cost head c n ≤ 4 * n + 1
cost_le head c zero = omega arith
cost_le head Consumer.ready (suc n) = omega arith
cost_le head (Consumer.checking tail) (suc n) = ground arith
cost_le head (Consumer.copying h) (suc n) = omega arith
cost_le head (Consumer.releasing frame h) (suc n) = omega arith

pub cost_pos : (head : ℕ) (c : Consumer) (n : ℕ) → 0 < cost head c (suc n)
cost_pos head Consumer.ready n = omega arith
cost_pos head (Consumer.checking tail) n = ground arith
cost_pos head (Consumer.copying h) n = omega arith
cost_pos head (Consumer.releasing frame h) n = omega arith

-- What a step of the consumer leaves.
abbrev pub Closer : ℕ → Machine → ℕ → Machine → Type 0
Closer before m n m' =
    (m'.sent ≡ m.sent)
    × (length m'.sent ≡ length m'.received + n → cost m'.ring.head m'.consumer n ≤ before - 1)

-- The costs of the four steps, with `n` frames in the ring.
loaded_le :
    (size head tail n : ℕ)
    → head < size
    → n < size
    → tail ≡ cell size head n
    → cost head (Consumer.checking tail) n ≤ cost head Consumer.ready n - 1
loaded_le size head tail zero h r e = omega arith
loaded_le size head tail (suc n) h r e = ground arith

tested_le :
    (head tail n : ℕ)
    → cost head (if head == tail then Consumer.ready else Consumer.copying head) n
      ≤ cost head (Consumer.checking tail) n - 1
tested_le head tail zero = ground arith
tested_le head tail (suc n) = ground arith

copied_le :
    (head h n : ℕ) (f : CanFrame)
    → cost head (Consumer.releasing f h) n ≤ cost head (Consumer.copying h) n - 1
copied_le head h zero f = omega arith
copied_le head h (suc n) f = omega arith

released_le :
    (head next h n : ℕ) (f : CanFrame)
    → cost next Consumer.ready n ≤ cost head (Consumer.releasing f h) (suc n) - 1
released_le head next h zero f = omega arith
released_le head next h (suc n) f = omega arith

pub pop_step-Closer :
    {k : ℕ} (m : Machine) (q : List CanFrame) (c : Consumer) (n : ℕ) {m' : Machine}
    → Inv k m q
    → ConsumerReady m.ring q c
    → pop_step m c ≡ some m'
    → Closer (cost m.ring.head c (length q)) m n m'
unfolding pop_step
pop_step-Closer m q Consumer.ready n i ready e =
    let sum = length-queue m q i in
    subst (Closer (cost m.ring.head Consumer.ready (length q)) m n) (some-injective _ _ e) (
      refl,
      λ h.
          let same : n ≡ length q = omega (arith, h, sum) in
          rw same (
            loaded_le m.ring.size m.ring.head m.ring.tail (length q) i.represents.head_inside
              i.represents.room i.represents.ends),
    )
pop_step-Closer m q (Consumer.checking tail) n i ready e =
    let sum = length-queue m q i in
    subst (Closer (cost m.ring.head (Consumer.checking tail) (length q)) m n) (some-injective _ _ e)
      (
        refl,
        λ h.
            let same : n ≡ length q = omega (arith, h, sum) in
            rw same (tested_le m.ring.head tail (length q)),
      )
pop_step-Closer m q (Consumer.copying head) n i ready e =
    let sum = length-queue m q i in
    let (f, found, last) = >>=-eq-some (get_elem? m.ring.buffer head) _ e in
    subst (Closer (cost m.ring.head (Consumer.copying head) (length q)) m n)
      (some-injective _ _ last)
      (
        refl,
        λ h.
            let same : n ≡ length q = omega (arith, h, sum) in
            rw same (copied_le m.ring.head head (length q) f),
      )
pop_step-Closer m q (Consumer.releasing f head) n i ready e =
    let sum = length-queue m q i in
    subst (Closer (cost m.ring.head (Consumer.releasing f head) (length q)) m n)
      (some-injective _ _ e)
      (
        refl,
        λ h.
            let fewer : length q ≡ suc n =
              omega (arith, h, sum, length-append m.received (f ∷ [])) in
            rw fewer (released_le m.ring.head (next_index m.ring.size head) head n f),
      )
