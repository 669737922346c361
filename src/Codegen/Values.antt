-- ===== src/Codegen/Values.antt =====
-- The signals of a generated message after a frame, as the DBC file describes them.
use can_from_scratch.Prelude.{
  ℕ, ◌≡◌, true, false, not, ◌||◌, Option, none, some, List, [], ◌∷◌, if◌then◌else◌,
}
use can_from_scratch.Prelude.Int.{ℤ, negsuc, eqb_ℤ}
use can_from_scratch.Platform.{Platform}
use can_from_scratch.Protocol.Sign.{twos_complement}
use can_from_scratch.Protocol.Field.{config_of}
use can_from_scratch.Signal.{Signal, config}
use can_from_scratch.Message.{int32_of}
use can_from_scratch.Codegen.{DbcSignal, final_start_bit}
use can_from_scratch.Codegen.Bits.{IsRaw}

module _ (p : Platform) where
  abbrev pub IsRawOf : List ℕ → DbcSignal p → ℕ → Type 0
  IsRawOf frame x raw = IsRaw frame x.is_be x.start_bit x.length raw

  -- `raw * factor + offset`, with the raw value of a signed signal in two's complement.
  abbrev pub dbc_value : DbcSignal p → ℕ → p.Double
  dbc_value x raw =
      p.plus
        (p.times
          (if x.is_signed then p.from_int64 (twos_complement x.length raw) else p.from_uint64 raw)
          x.factor)
        x.offset

  -- The value that the bits of a frame give the signal.
  abbrev pub Decoded : List ℕ → DbcSignal p → p.Double → Type 0
  Decoded frame x value = (raw : ℕ) × IsRawOf frame x raw × (value ≡ dbc_value x raw)

  -- The signal is configured as the file says.
  pub record Described (x : DbcSignal p) (s : Signal p) : Type 0 where
    pub same_name : s.name ≡ x.name
    pub same_config :
        config p s ≡ config_of (final_start_bit x.is_be x.start_bit) x.length x.is_be x.is_signed
    pub same_scale : (s.factor ≡ x.factor) × (s.offset ≡ x.offset)
    pub same_mux :
        (s.is_multiplexor ≡ x.is_multiplexor)
        × (s.is_multiplexed ≡ x.is_multiplexed)
        × (s.mux_value ≡ x.mux_value)

  -- The value of the first multiplexor in a frame, or -1.
  abbrev pub Selects : List ℕ → List (DbcSignal p) → ℤ → Type 0
  Selects frame [] mux = mux ≡ negsuc 0
  Selects frame (x ∷ rest) mux =
      if x.is_multiplexor
      then ((raw : ℕ) × IsRawOf frame x raw × (mux ≡ int32_of raw))
      else Selects frame rest mux

  -- A signal after a frame: valid if it is not multiplexed or the multiplexor has its value, and
  -- then with the value that the frame gives it.
  pub record Showing (frame : List ℕ) (mux : ℤ) (x : DbcSignal p) (s : Signal p) : Type 0 where
    pub described : Described x s
    pub valid : s.is_valid ≡ (not x.is_multiplexed || eqb_ℤ mux x.mux_value)
    pub value : s.is_valid ≡ true → Decoded frame x s.phys_value

  -- The same in each place.
  abbrev pub Pairwise :
      (DbcSignal p → Signal p → Type 0) → List (DbcSignal p) → List (Signal p) → Type 0
  Pairwise R [] [] = Unit
  Pairwise R [] (s ∷ sigs) = ⊥
  Pairwise R (x ∷ xs) [] = ⊥
  Pairwise R (x ∷ xs) (s ∷ sigs) = R x s × Pairwise R xs sigs

  pub record Unseen (x : DbcSignal p) (s : Signal p) : Type 0 where
    pub described : Described x s
    pub invalid : s.is_valid ≡ false

  -- The signals of a message with the last frame that had its identifier.
  abbrev pub Displays : Option (List ℕ) → List (DbcSignal p) → List (Signal p) → Type 0
  Displays none xs sigs = Pairwise Unseen xs sigs
  Displays (some frame) xs sigs =
      (mux : ℤ) × Selects frame xs mux × Pairwise (Showing frame mux) xs sigs
