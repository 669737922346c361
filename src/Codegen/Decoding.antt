-- ===== src/Codegen/Decoding.antt =====
-- The signals of a generated message show the values of the frame that it parses.
use mathlib.Core.Path.{subst}
use mathlib.Core.Option.{some-injective}
use can_from_scratch.Prelude.{
  ℕ, ◌+◌, ◌≡◌, refl, ap, ap₂, sym, ◌∙◌, Bool, true, false, not, ◌||◌, Option, none, some, List, [],
  ◌∷◌, All, arith, Bool-cases, inl, inr, >>=-eq-some, if◌then◌else◌,
}
use can_from_scratch.Prelude.Int.{ℤ, negsuc, eqb_ℤ}
use can_from_scratch.Frame.{IsFrame}
use can_from_scratch.Platform.{Platform}
use can_from_scratch.Protocol.{SignalConfig, extract_raw_signal}
use can_from_scratch.Protocol.Word.{int64_of}
use can_from_scratch.Protocol.Sign.{twos_complement}
use can_from_scratch.Protocol.Field.{config_of}
use can_from_scratch.Signal.{Signal, config, physical, signal}
use can_from_scratch.Message.{int32_of, find_mux_value}
use can_from_scratch.Message.Parse.{Updated, UpdatedFrom, selected}
use can_from_scratch.Codegen.{DbcSignal, final_start_bit}
use can_from_scratch.Codegen.Bits.{extract_raw_signal-dbc, extract_raw_signal-dbc_signed}
use can_from_scratch.Codegen.Statements.{construct, Constructed}
use can_from_scratch.Codegen.Database.{Fits}
use can_from_scratch.Codegen.Values.{
  IsRawOf, Decoded, Described, Selects, Showing, Pairwise, Unseen, Displays,
}

module _ (p : Platform) where
  abbrev number : Bool → ℤ → ℕ → p.Double
  number sign z n = if sign then p.from_int64 z else p.from_uint64 n

  decoded_number :
      (frame : List ℕ) (x : DbcSignal p) (sign : Bool) (r : ℕ)
      → IsFrame frame
      → Fits p x
      → extract_raw_signal frame
          (config_of (final_start_bit x.is_be x.start_bit) x.length x.is_be sign)
        ≡ some r
      → (raw : ℕ) × IsRawOf p frame x raw
        × (number sign (int64_of r) r ≡ number sign (twos_complement x.length raw) raw)
  decoded_number frame x false r v h e =
      let (raw, e', is_raw) = extract_raw_signal-dbc frame x.is_be x.start_bit x.length v h.0 h.1 in
      (raw, is_raw, ap p.from_uint64 (some-injective _ _ (sym e ∙ e')))
  decoded_number frame x true r v h e =
      let (raw, r', e', value, is_raw) =
        extract_raw_signal-dbc_signed frame x.is_be x.start_bit x.length v h.0 h.1 in
      (raw, is_raw, ap p.from_int64 (ap int64_of (some-injective _ _ (sym e ∙ e')) ∙ value))

  physical_lem :
      (s : Signal p) (r : ℕ)
      → physical p s r ≡ p.plus (p.times (number s.is_signed (int64_of r) r) s.factor) s.offset
  unfolding physical
  physical_lem s r = ground arith

  physical-Decoded :
      (frame : List ℕ) (x : DbcSignal p) (s : Signal p) (r : ℕ)
      → IsFrame frame
      → Fits p x
      → Described p x s
      → extract_raw_signal frame (config p s) ≡ some r
      → Decoded p frame x (physical p s r)
  physical-Decoded frame x s r v h d e =
      let (raw, is_raw, same) =
        decoded_number frame x x.is_signed r v h
          (ap (extract_raw_signal frame) (sym d.same_config) ∙ e) in
      let sign : s.is_signed ≡ x.is_signed = ap (λ (c : SignalConfig). c.is_signed) d.same_config in
      (
        raw,
        is_raw,
        physical_lem s r
            ∙ ap₂ p.plus
                (ap₂ p.times (ap (λ b. number b (int64_of r) r) sign ∙ same) d.same_scale.0)
                d.same_scale.1,
      )

  Updated-Showing :
      (frame : List ℕ) (mux : ℤ) (now : p.Time) (x : DbcSignal p) (s s' : Signal p)
      → IsFrame frame
      → Fits p x
      → Described p x s
      → Updated p frame mux now s s'
      → Showing p frame mux x s'
  Updated-Showing frame mux now x s s' v h d u =
      let test : selected p mux s ≡ (not x.is_multiplexed || eqb_ℤ mux x.mux_value) =
        ap₂ (λ b z. not b || eqb_ℤ mux z) d.same_mux.1 d.same_mux.2 in
      record {
        described = record {
          same_name = u.same_name ∙ d.same_name;
          same_config = u.same_config ∙ d.same_config;
          same_scale = (u.same_scale.0 ∙ d.same_scale.0, u.same_scale.1 ∙ d.same_scale.1);
          same_mux = (
            u.same_mux.0 ∙ d.same_mux.0,
            u.same_mux.1 ∙ d.same_mux.1,
            u.same_mux.2 ∙ d.same_mux.2,
          );
        };
        valid = u.valid ∙ test;
        value = λ is_valid.
            let (r, e, same, _) = u.fresh (sym u.valid ∙ is_valid) in
            subst (Decoded p frame x) (sym same) (physical-Decoded frame x s r v h d e);
      }

  UpdatedFrom-Showing :
      (frame : List ℕ) (mux : ℤ) (clock : ℕ → p.Time) (i : ℕ) (xs : List (DbcSignal p))
      (sigs sigs' : List (Signal p))
      → IsFrame frame
      → All (Fits p) xs
      → Pairwise p (Described p) xs sigs
      → UpdatedFrom p frame mux clock i sigs sigs'
      → Pairwise p (Showing p frame mux) xs sigs'
  UpdatedFrom-Showing frame mux clock i [] [] [] v h d u = tt
  UpdatedFrom-Showing frame mux clock i [] [] (s' ∷ sigs') v h d u = absurd u
  UpdatedFrom-Showing frame mux clock i [] (s ∷ sigs) sigs' v h d u = absurd d
  UpdatedFrom-Showing frame mux clock i (x ∷ xs) [] sigs' v h d u = absurd d
  UpdatedFrom-Showing frame mux clock i (x ∷ xs) (s ∷ sigs) [] v h d u = absurd u
  UpdatedFrom-Showing frame mux clock i (x ∷ xs) (s ∷ sigs) (s' ∷ sigs') v h d u = (
    Updated-Showing frame mux (clock i) x s s' v h.0 d.0 u.0,
    UpdatedFrom-Showing frame mux clock (i + 1) xs sigs sigs' v h.1 d.1 u.1,
  )

  abbrev unsigned : Signal p → SignalConfig
  unsigned s = record {
    start_bit = s.start;
    length = s.len;
    is_big_endian = s.is_be;
    is_signed = false;
  }

  find_mux_value-Selects :
      (frame : List ℕ) (mux : ℤ) (xs : List (DbcSignal p)) (sigs : List (Signal p))
      → IsFrame frame
      → All (Fits p) xs
      → Pairwise p (Described p) xs sigs
      → find_mux_value p sigs frame ≡ some mux
      → Selects p frame xs mux
  unfolding find_mux_value
  find_mux_value-Selects frame mux [] [] v h d e = sym (some-injective _ _ e)
  find_mux_value-Selects frame mux [] (s ∷ sigs) v h d e = absurd d
  find_mux_value-Selects frame mux (x ∷ xs) [] v h d e = absurd d
  find_mux_value-Selects frame mux (x ∷ xs) (s ∷ sigs) v h d e =
      let here : s.is_multiplexor ≡ x.is_multiplexor = d.0.same_mux.0 in
      elim (Bool-cases x.is_multiplexor) [
        | inl yes_mux ↦
            let (r, extracted, last) =
              >>=-eq-some (extract_raw_signal frame (unsigned s)) _ (rw (here ∙ yes_mux) at e) in
            let (raw, e', is_raw) =
              extract_raw_signal-dbc frame x.is_be x.start_bit x.length v h.0.0 h.0.1 in
            let same : raw ≡ r = some-injective _ _ (
              sym e'
              ∙ ap (λ (c : SignalConfig). extract_raw_signal frame (record c { is_signed = false }))
                  (sym d.0.same_config)
              ∙ extracted) in
            rw yes_mux (raw, is_raw, sym (some-injective _ _ last) ∙ ap int32_of (sym same))
        | inr no_mux ↦
            rw no_mux (find_mux_value-Selects frame mux xs sigs v h.1 d.1 (rw (here ∙ no_mux) at e))
      ]

  -- A message after one more frame.
  pub UpdatedFrom-Displays :
      (frame : List ℕ) (mux : ℤ) (clock : ℕ → p.Time) (xs : List (DbcSignal p))
      (sigs sigs' : List (Signal p))
      → IsFrame frame
      → All (Fits p) xs
      → Pairwise p (Described p) xs sigs
      → find_mux_value p sigs frame ≡ some mux
      → UpdatedFrom p frame mux clock 0 sigs sigs'
      → Displays p (some frame) xs sigs'
  UpdatedFrom-Displays frame mux clock xs sigs sigs' v h d e u = (
    mux,
    find_mux_value-Selects frame mux xs sigs v h d e,
    UpdatedFrom-Showing frame mux clock 0 xs sigs sigs' v h d u,
  )

  Pairwise-map :
      {R S : DbcSignal p → Signal p → Type 0}
      (each : (x : DbcSignal p) (s : Signal p) → R x s → S x s) (xs : List (DbcSignal p))
      (sigs : List (Signal p))
      → Pairwise p R xs sigs
      → Pairwise p S xs sigs
  Pairwise-map each [] [] h = tt
  Pairwise-map each [] (s ∷ sigs) h = absurd h
  Pairwise-map each (x ∷ xs) [] h = absurd h
  Pairwise-map each (x ∷ xs) (s ∷ sigs) h = (each x s h.0, Pairwise-map each xs sigs h.1)

  pub Displays-Described :
      (last : Option (List ℕ)) (xs : List (DbcSignal p)) (sigs : List (Signal p))
      → Displays p last xs sigs
      → Pairwise p (Described p) xs sigs
  Displays-Described none xs sigs h = Pairwise-map (λ x s u. u.described) xs sigs h
  Displays-Described (some frame) xs sigs (mux, selects, h) =
      Pairwise-map (λ x s u. u.described) xs sigs h

  construct-Unseen : (x : DbcSignal p) (now : p.Time) → Unseen p x (construct p x now)
  unfolding signal
  construct-Unseen x now = record {
    described = record {
      same_name = refl;
      same_config = refl;
      same_scale = (refl, refl);
      same_mux = (refl, refl, refl);
    };
    invalid = refl;
  }

  -- Before the first frame.
  pub Constructed-Displays :
      (xs : List (DbcSignal p)) (sigs : List (Signal p))
      → Constructed p xs sigs
      → Displays p none xs sigs
  Constructed-Displays [] [] c = tt
  Constructed-Displays [] (s ∷ sigs) c = absurd c
  Constructed-Displays (x ∷ xs) [] c = absurd c
  Constructed-Displays (x ∷ xs) (s ∷ sigs) c =
      let (now, e) = c.0 in
      (subst (Unseen p x) (sym e) (construct-Unseen x now), Constructed-Displays xs sigs c.1)

  -- A message without signals shows nothing, whatever frame was the last.
  pub Displays-empty :
      (last : Option (List ℕ)) (frame : List ℕ) (xs : List (DbcSignal p))
      → Displays p last xs []
      → Displays p (some frame) xs []
  Displays-empty last frame [] h = (negsuc 0, refl, tt)
  Displays-empty none frame (x ∷ xs) h = absurd h
  Displays-empty (some old) frame (x ∷ xs) h = absurd h.2
