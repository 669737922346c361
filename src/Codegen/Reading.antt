-- ===== src/Codegen/Reading.antt =====
-- What the lines of a DBC file mean, in the format's words and without the script: the signals that
-- stand under a message, with the order of their bytes, their sign, their scale and their mark.
use can_from_scratch.Prelude.{
  ℕ, zero, suc, ◌≡◌, refl, Bool, true, false, List, [], ◌∷◌, ◌==◌, arith,
}
use can_from_scratch.Prelude.Int.{pos}
use can_from_scratch.Platform.{Platform}
use can_from_scratch.Codegen.{Mark, SignalMatch, Line, DbcSignal, entry}
use can_from_scratch.Codegen.Lines.{signals_of}

module _ (p : Platform) where
  -- The signals that stand under a message with the identifier, in the order of the file.
  abbrev pub matches_of : (id : ℕ) (under : Bool) → List (Line p) → List (SignalMatch p)
  matches_of id under [] = []
  matches_of id under (Line.bo own name ∷ rest) = matches_of id (own == id) rest
  matches_of id true (Line.sg x ∷ rest) = x ∷ matches_of id true rest
  matches_of id false (Line.sg x ∷ rest) = matches_of id false rest
  matches_of id under (Line.other ∷ rest) = matches_of id under rest

  -- `M` marks the multiplexor, and `m` with a number a signal of that multiplexor value.
  abbrev pub MeansMark : Mark → DbcSignal p → Type 0
  MeansMark Mark.no_mark d = (d.is_multiplexor ≡ false) × (d.is_multiplexed ≡ false)
  MeansMark Mark.multiplexor d = (d.is_multiplexor ≡ true) × (d.is_multiplexed ≡ false)
  MeansMark (Mark.multiplexed n) d =
      (d.is_multiplexor ≡ false) × (d.is_multiplexed ≡ true) × (d.mux_value ≡ pos n)

  -- The byte order 0 is big-endian, and any other little-endian.
  abbrev pub MeansOrder : ℕ → Bool → Type 0
  MeansOrder zero is_be = is_be ≡ true
  MeansOrder _ is_be = is_be ≡ false

  pub record Means (x : SignalMatch p) (d : DbcSignal p) : Type 0 where
    pub name : d.name ≡ x.name
    pub place : (d.start_bit ≡ x.start_bit) × (d.length ≡ x.length)
    pub order : MeansOrder x.byte_order d.is_be
    pub sign : d.is_signed ≡ x.minus
    pub scale : (d.factor ≡ x.factor) × (d.offset ≡ x.offset)
    pub mark : MeansMark x.mark d

  abbrev pub MeansAll : List (SignalMatch p) → List (DbcSignal p) → Type 0
  MeansAll [] [] = Unit
  MeansAll [] (d ∷ ds) = ⊥
  MeansAll (x ∷ xs) [] = ⊥
  MeansAll (x ∷ xs) (d ∷ ds) = Means x d × MeansAll xs ds

  entry-Mark :
      (mark : Mark) (x : SignalMatch p) → MeansMark mark (entry p (record x { mark = mark }))
  entry-Mark Mark.no_mark x = (refl, refl)
  entry-Mark Mark.multiplexor x = (refl, refl)
  entry-Mark (Mark.multiplexed n) x = (refl, refl, refl)

  order-Means : (n : ℕ) → MeansOrder n (n == 0)
  order-Means zero = refl
  order-Means (suc n) = ground arith

  entry-Means : (x : SignalMatch p) → Means x (entry p x)
  entry-Means x = record {
    name = refl;
    place = (refl, refl);
    order = order-Means x.byte_order;
    sign = refl;
    scale = (refl, refl);
    mark = entry-Mark x.mark x;
  }

  pub signals_of-Means :
      (id : ℕ) (under : Bool) (lines : List (Line p))
      → MeansAll (matches_of id under lines) (signals_of p id under lines)
  signals_of-Means id under [] = tt
  signals_of-Means id under (Line.bo own name ∷ rest) = signals_of-Means id (own == id) rest
  signals_of-Means id true (Line.sg x ∷ rest) = (entry-Means x, signals_of-Means id true rest)
  signals_of-Means id false (Line.sg x ∷ rest) = signals_of-Means id false rest
  signals_of-Means id under (Line.other ∷ rest) = signals_of-Means id under rest
