-- ===== src/Registry.antt =====
-- `std::unordered_map<uint32_t, V>` and `std::unordered_set<uint32_t>` as the parser uses them: an
-- association list with at most one entry for a key, in an order that no result depends on, and a
-- list of members.
use can_from_scratch.Prelude.{
  ℕ, ◌≡◌, refl, ap, Bool, true, false, not, ◌||◌, ◌&&◌, Option, none, some, List, [], ◌∷◌, ◌==◌,
  if◌then◌else◌, arith,
}

module _ {ℓ} {V : Type ℓ} where
  unfoldable pub lookup : ℕ → List (ℕ × V) → Option V
  lookup key [] = none
  lookup key ((k, v) ∷ rest) = if k == key then some v else lookup key rest

  -- `m[key] = value`
  unfoldable pub insert : ℕ → V → List (ℕ × V) → List (ℕ × V)
  insert key value [] = (key, value) ∷ []
  insert key value ((k, v) ∷ rest) =
      if k == key then (k, value) ∷ rest else (k, v) ∷ insert key value rest

  pub lookup-insert :
      (key other : ℕ) (value : V) (m : List (ℕ × V))
      → lookup other (insert key value m) ≡ (if key == other then some value else lookup other m)
  unfolding lookup insert
  lookup-insert key other value [] = refl
  lookup-insert key other value ((k, v) ∷ rest) = ground (arith, lookup-insert key other value rest)

-- `s.find(x) != s.end()`
unfoldable pub contains : ℕ → List ℕ → Bool
contains x [] = false
contains x (y ∷ rest) = y == x || contains x rest

-- `s.insert(x)`
unfoldable pub add : ℕ → List ℕ → List ℕ
unfolding contains
add x s = if contains x s then s else x ∷ s

-- `s.erase(x)`
unfoldable pub erase : ℕ → List ℕ → List ℕ
erase x [] = []
erase x (y ∷ rest) = if y == x then erase x rest else y ∷ erase x rest

pub contains-add : (x z : ℕ) (s : List ℕ) → contains z (add x s) ≡ (x == z || contains z s)
unfolding add
contains-add x z s = ground (arith, same_key)
  where
    same_key : (x == z) ≡ true → contains x s ≡ contains z s
    same_key e = ap (λ k. contains k s) (ground arith)

pub contains-erase :
    (x z : ℕ) (s : List ℕ) → contains z (erase x s) ≡ (not (x == z) && contains z s)
unfolding contains erase
contains-erase x z [] = ground arith
contains-erase x z (y ∷ rest) = ground (arith, contains-erase x z rest)
