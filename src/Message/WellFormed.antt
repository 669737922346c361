-- ===== src/Message/WellFormed.antt =====
-- Messages whose configuration keeps `parse` within defined behaviour.
use can_from_scratch.Prelude.{
  ℕ, ◌+◌, ◌^◌, ◌%◌, ◌≡◌, ◌≢◌, inl, inr, refl, ap, sym, Bool, true, false, ◌||◌, Option, none, some,
  List, [], ◌∷◌, All, arith, Bool-cases,
}
use mathlib.Core.Path.{subst, subst₂}
use can_from_scratch.Prelude.Int.{ℤ, pos, negsuc, ltb_ℤ, eqb_ℤ, ◌≤ℤ◌}
use can_from_scratch.Platform.{Platform}
use can_from_scratch.Frame.{IsFrame}
use can_from_scratch.Protocol.{SignalConfig, extract_raw_signal}
use can_from_scratch.Protocol.Defined.{IsDefined, extract_raw_signal-IsDefined_iff}
use can_from_scratch.Checksum.Covered.{calculate_checksum-eq-reference}
use can_from_scratch.Signal
use can_from_scratch.Signal.{Signal, config}
use can_from_scratch.Message.Parse.{UpdatedFrom, parse-Updated, parse-configuration}
use can_from_scratch.Message.{
  CanMessage, field_config, validate_rolling_counter, validate_checksum, is_frame_valid,
  store_counter, parse, find_mux_value, update_signals,
}

-- A result that is defined.
abbrev pub IsDone {ℓ} : {A : Type ℓ} → Option A → Type ℓ
IsDone {A = A} o = (a : A) × (o ≡ some a)

pub IsDone-of_ne {ℓ} : {A : Type ℓ} (o : Option A) → o ≢ none → IsDone o
IsDone-of_ne none h = absurd (h refl)
IsDone-of_ne (some a) h = (a, refl)

-- A field that is not configured.
abbrev pub is_off : ℤ → ℤ → Bool
is_off start len = ltb_ℤ start (pos 0) || eqb_ℤ len (pos 0)

abbrev pub FieldDefined : ℤ → ℤ → Type 0
FieldDefined start len = is_off start len ≡ false → IsDefined (field_config start len)

abbrev pub CounterDefined : ℤ → ℤ → Type 0
CounterDefined start len =
    is_off start len ≡ false → IsDefined (field_config start len) × (len ≤ℤ pos 31)

module _ (p : Platform) where
  -- Fields that are configured lie in the frame, a counter is shorter than 32 bits, and every
  -- signal's configuration is one for which the extraction is defined.
  pub record IsWellFormed (m : CanMessage p) : Type 0 where
    pub signals_defined : All (λ s. IsDefined (config p s)) m.signals
    pub counter_defined : CounterDefined m.rolling_counter_start m.rolling_counter_length
    pub checksum_defined : FieldDefined m.checksum_start m.checksum_length

module _ (frame : List ℕ) (v : IsFrame frame) where
  extract-IsDone : (c : SignalConfig) → IsDefined c → IsDone (extract_raw_signal frame c)
  extract-IsDone c h = IsDone-of_ne _ ((extract_raw_signal-IsDefined_iff frame c v).0 h)

  -- The extraction of a multiplexor drops the sign.
  unsigned-IsDefined :
      (start len : ℤ) (be sign : Bool)
      → IsDefined (record { start_bit = start; length = len; is_big_endian = be; is_signed = sign })
      → IsDefined
          (record { start_bit = start; length = len; is_big_endian = be; is_signed = false })
  unsigned-IsDefined start len be true h = (h.0, omega arith, h.2)
  unsigned-IsDefined start len be false h = h

  module _ (p : Platform) where
    update-IsDone :
        (s : Signal p) (mux : ℤ) (now : p.Time)
        → IsDefined (config p s)
        → IsDone (Signal.update p s frame mux now)
    unfolding Signal.update
    update-IsDone s mux now h =
        let (raw, e) = extract-IsDone (config p s) h in IsDone-of_ne _ (ground arith)

    update_signals-IsDone :
        (sigs : List (Signal p)) (mux : ℤ) (clock : ℕ → p.Time) (i : ℕ)
        → All (λ s. IsDefined (config p s)) sigs
        → IsDone (update_signals p sigs frame mux clock i)
    unfolding update_signals
    update_signals-IsDone [] mux clock i h = ([], refl)
    update_signals-IsDone (s ∷ rest) mux clock i h =
        let (s', e) = update-IsDone s mux (clock i) h.0 in
        let (rest', e') = update_signals-IsDone rest mux clock (i + 1) h.1 in
        (s' ∷ rest', rw (e, e'))

    find_mux_value-IsDone :
        (sigs : List (Signal p))
        → All (λ s. IsDefined (config p s)) sigs
        → IsDone (find_mux_value p sigs frame)
    unfolding find_mux_value
    find_mux_value-IsDone [] h = (negsuc 0, refl)
    find_mux_value-IsDone (s ∷ rest) h =
        let (raw, e) =
          extract-IsDone
            (record {
              start_bit = s.start;
              length = s.len;
              is_big_endian = s.is_be;
              is_signed = false;
            })
            (unsigned-IsDefined s.start s.len s.is_be s.is_signed h.0) in
        let (mux, e') = find_mux_value-IsDone rest h.1 in IsDone-of_ne _ (ground arith)

    module _ (m : CanMessage p) (w : IsWellFormed p m) where
      pub validate_rolling_counter-IsDone : IsDone (validate_rolling_counter p m frame)
      unfolding validate_rolling_counter
      validate_rolling_counter-IsDone =
          elim (Bool-cases (is_off m.rolling_counter_start m.rolling_counter_length)) [
            | inl off ↦ (true, rw off)
            | inr on ↦
                let (raw, e) =
                  extract-IsDone (field_config m.rolling_counter_start m.rolling_counter_length)
                    (w.counter_defined on).0 in
                IsDone-of_ne _ (ground (arith, (w.counter_defined on).1))
          ]

      pub validate_checksum-IsDone : IsDone (validate_checksum p m frame)
      unfolding validate_checksum
      validate_checksum-IsDone = elim (Bool-cases (is_off m.checksum_start m.checksum_length)) [
        | inl off ↦ (true, rw off)
        | inr on ↦
            let (raw, e) =
              extract-IsDone (field_config m.checksum_start m.checksum_length)
                (w.checksum_defined on) in
            IsDone-of_ne _ (
              ground (
                arith,
                calculate_checksum-eq-reference m.checksum_start m.checksum_length m.checksum_type
                    frame v.0,
              ))
      ]

      pub is_frame_valid-IsDone : IsDone (is_frame_valid p m frame)
      unfolding is_frame_valid
      is_frame_valid-IsDone =
          let (a, e) = validate_rolling_counter-IsDone in
          let (b, e') = validate_checksum-IsDone in IsDone-of_ne _ (ground arith)

      store_counter-done :
          (m' : CanMessage p) × (store_counter p m frame ≡ some m') × (m'.signals ≡ m.signals)
      unfolding store_counter
      store_counter-done =
          elim (Bool-cases (is_off m.rolling_counter_start m.rolling_counter_length)) [
            | inl off ↦ (m, ground arith, refl)
            | inr on ↦
                let (raw, e) =
                  extract-IsDone (field_config m.rolling_counter_start m.rolling_counter_length)
                    (w.counter_defined on).0 in
                (
                  record m { last_rolling_counter = raw % 2 ^ 8 },
                  ground (arith, (w.counter_defined on).0),
                  refl,
                )
          ]

      pub parse-IsDone : (clock : ℕ → p.Time) → IsDone (parse p m frame clock)
      unfolding parse
      parse-IsDone clock =
          let (valid, e) = is_frame_valid-IsDone in
          let (stored, e1, same) = store_counter-done in
          let (mux, e2) =
            find_mux_value-IsDone stored.signals
              (subst (All (λ s. IsDefined (config p s))) (sym same) w.signals_defined) in
          let (sigs, e3) =
            update_signals-IsDone stored.signals mux clock 0
              (subst (All (λ s. IsDefined (config p s))) (sym same) w.signals_defined) in
          elim (Bool-cases valid) [
            | inl accepted ↦ (record stored { signals = sigs }, rw (e, accepted, e1, e2, e3))
            | inr rejected ↦ (m, rw (e, rejected))
          ]

  UpdatedFrom-IsDefined :
      (p : Platform) (mux : ℤ) (clock : ℕ → p.Time) (i : ℕ) (sigs sigs' : List (Signal p))
      → UpdatedFrom p frame mux clock i sigs sigs'
      → All (λ s. IsDefined (config p s)) sigs
      → All (λ s. IsDefined (config p s)) sigs'
  UpdatedFrom-IsDefined p mux clock i [] [] u h = tt
  UpdatedFrom-IsDefined p mux clock i [] (s' ∷ rest') u h = absurd u
  UpdatedFrom-IsDefined p mux clock i (s ∷ rest) [] u h = absurd u
  UpdatedFrom-IsDefined p mux clock i (s ∷ rest) (s' ∷ rest') u h = (
    subst IsDefined (sym u.0.same_config) h.0,
    UpdatedFrom-IsDefined p mux clock (i + 1) rest rest' u.1 h.1,
  )

  -- `parse` keeps what the message is configured for.
  pub parse-IsWellFormed :
      (p : Platform) (m : CanMessage p) (clock : ℕ → p.Time) {m' : CanMessage p}
      → IsWellFormed p m
      → is_frame_valid p m frame ≡ some true
      → parse p m frame clock ≡ some m'
      → IsWellFormed p m'
  parse-IsWellFormed p m clock {m'} w valid e =
      let (mux, found, updated) = parse-Updated p m frame clock valid e in
      let same = parse-configuration p m frame clock valid e in
      record {
        signals_defined =
            UpdatedFrom-IsDefined p mux clock 0 m.signals m'.signals updated w.signals_defined;
        counter_defined =
            subst₂ CounterDefined (sym (ap (λ (x : CanMessage p). x.rolling_counter_start) same))
              (sym (ap (λ (x : CanMessage p). x.rolling_counter_length) same)) w.counter_defined;
        checksum_defined =
            subst₂ FieldDefined (sym (ap (λ (x : CanMessage p). x.checksum_start) same))
              (sym (ap (λ (x : CanMessage p). x.checksum_length) same)) w.checksum_defined;
      }
