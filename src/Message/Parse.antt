-- ===== src/Message/Parse.antt =====
-- `CanMessage::parse` on an accepted frame: every signal is updated, or marked invalid because
-- another multiplexor value is selected.
use mathlib.Core.Path.{subst, subst₂}
use mathlib.Core.Option.{some-injective}
use can_from_scratch.Prelude.{
  ℕ, ◌+◌, ◌≡◌, ap, sym, ◌∙◌, Bool, true, false, some, not, ◌||◌, List, [], ◌∷◌, arith, >>=-eq-some,
}
use can_from_scratch.Prelude.Int.{ℤ, eqb_ℤ}
use can_from_scratch.Platform.{Platform}
use can_from_scratch.Protocol.{extract_raw_signal}
use can_from_scratch.Signal
use can_from_scratch.Signal.{Signal, config, physical}
use can_from_scratch.Message.{
  CanMessage, is_frame_valid, store_counter, parse, find_mux_value, update_signals,
}

module _ (p : Platform) where
  -- The signal takes part in a frame with this multiplexor value.
  abbrev pub selected : ℤ → Signal p → Bool
  selected mux s = not s.is_multiplexed || eqb_ℤ mux s.mux_value

  -- What the update of one signal leaves behind.
  pub record Updated (frame : List ℕ) (mux : ℤ) (now : p.Time) (s s' : Signal p) : Type 0 where
    pub valid : s'.is_valid ≡ selected mux s
    pub kept :
        selected mux s ≡ false
        → (s'.phys_value ≡ s.phys_value) × (s'.last_update_time ≡ s.last_update_time)
    pub fresh :
        selected mux s ≡ true
        → (raw : ℕ) × (extract_raw_signal frame (config p s) ≡ some raw)
          × (s'.phys_value ≡ physical p s raw)
          × (s'.last_update_time ≡ now)
    pub same_config : config p s' ≡ config p s
    pub same_mux :
        (s'.is_multiplexor ≡ s.is_multiplexor)
        × (s'.is_multiplexed ≡ s.is_multiplexed)
        × (s'.mux_value ≡ s.mux_value)
    pub same_name : s'.name ≡ s.name
    pub same_scale : (s'.factor ≡ s.factor) × (s'.offset ≡ s.offset)
    pub same_threshold : s'.timeout_threshold_ms ≡ s.timeout_threshold_ms

  update-Updated :
      (frame : List ℕ) (mux : ℤ) (now : p.Time) (s : Signal p) {s' : Signal p}
      → Signal.update p s frame mux now ≡ some s'
      → Updated frame mux now s s'
  unfolding Signal.update
  update-Updated frame mux now s e = ground arith

  -- The same for all signals, the i-th with the i-th reading of the clock.
  abbrev pub UpdatedFrom :
      List ℕ → ℤ → (ℕ → p.Time) → ℕ → List (Signal p) → List (Signal p) → Type 0
  UpdatedFrom frame mux clock i [] [] = Unit
  UpdatedFrom frame mux clock i [] (s' ∷ rest') = ⊥
  UpdatedFrom frame mux clock i (s ∷ rest) [] = ⊥
  UpdatedFrom frame mux clock i (s ∷ rest) (s' ∷ rest') =
      Updated frame mux (clock i) s s' × UpdatedFrom frame mux clock (i + 1) rest rest'

  update_signals-Updated :
      (frame : List ℕ) (mux : ℤ) (clock : ℕ → p.Time) (i : ℕ) (sigs sigs' : List (Signal p))
      → update_signals p sigs frame mux clock i ≡ some sigs'
      → UpdatedFrom frame mux clock i sigs sigs'
  unfolding update_signals
  update_signals-Updated frame mux clock i [] [] e = tt
  update_signals-Updated frame mux clock i [] (s' ∷ rest') e = cc
  update_signals-Updated frame mux clock i (s ∷ rest) sigs' e =
      let (s', here, later) = >>=-eq-some (Signal.update p s frame mux (clock i)) _ e in
      let (rest', there, last) =
        >>=-eq-some (update_signals p rest frame mux clock (i + 1)) _ later in
      subst (UpdatedFrom frame mux clock i (s ∷ rest)) (some-injective _ _ last) (
        update-Updated frame mux (clock i) s here,
        update_signals-Updated frame mux clock (i + 1) rest rest' there,
      )

  -- The value by which the multiplexed signals are selected.
  abbrev pub MuxValue : List ℕ → List (Signal p) → ℤ → Type 0
  MuxValue frame sigs mux = find_mux_value p sigs frame ≡ some mux

  -- A frame that fails the validation changes nothing.
  pub parse_rejected :
      (m : CanMessage p) (frame : List ℕ) (clock : ℕ → p.Time)
      → is_frame_valid p m frame ≡ some false
      → parse p m frame clock ≡ some m
  unfolding parse
  parse_rejected m frame clock e = rw e

  pub record Accepted (m : CanMessage p) (frame : List ℕ) (clock : ℕ → p.Time) (m' : CanMessage p)
      : Type 0 where
    pub stored : CanMessage p
    pub mux : ℤ
    pub sigs : List (Signal p)
    pub counter_stored : store_counter p m frame ≡ some stored
    pub mux_found : find_mux_value p stored.signals frame ≡ some mux
    pub updated : update_signals p stored.signals frame mux clock 0 ≡ some sigs
    pub result : m' ≡ record stored { signals = sigs }

  pub parse-Accepted :
      (m : CanMessage p) (frame : List ℕ) (clock : ℕ → p.Time) {m' : CanMessage p}
      → is_frame_valid p m frame ≡ some true
      → parse p m frame clock ≡ some m'
      → Accepted m frame clock m'
  unfolding parse
  parse-Accepted m frame clock {m'} valid e =
      let (stored, e1, rest1) = >>=-eq-some (store_counter p m frame) _ (rw valid at e) in
      let (mux, e2, rest2) = >>=-eq-some (find_mux_value p stored.signals frame) _ rest1 in
      let (sigs, e3, rest3) =
        >>=-eq-some (update_signals p stored.signals frame mux clock 0) _ rest2 in
      record {
        stored = stored;
        mux = mux;
        sigs = sigs;
        counter_stored = e1;
        mux_found = e2;
        updated = e3;
        result = sym (some-injective _ _ rest3);
      }

  store_counter-signals :
      (m : CanMessage p) (frame : List ℕ) {m' : CanMessage p}
      → store_counter p m frame ≡ some m'
      → m'.signals ≡ m.signals
  unfolding store_counter
  store_counter-signals m frame e = ground arith

  -- After `parse` accepts a frame, every signal, in its place, is updated for the value of the
  -- multiplexor that the frame carries: it is valid exactly when it is not multiplexed or its
  -- multiplexor value is that one; a valid signal has the physical value of its raw bits and the
  -- time of the clock, an invalid one keeps both; and no configuration of a signal changes.
  pub parse-Updated :
      (m : CanMessage p) (frame : List ℕ) (clock : ℕ → p.Time) {m' : CanMessage p}
      → is_frame_valid p m frame ≡ some true
      → parse p m frame clock ≡ some m'
      → (mux : ℤ) × (find_mux_value p m.signals frame ≡ some mux)
        × UpdatedFrom frame mux clock 0 m.signals m'.signals
  parse-Updated m frame clock {m'} valid e =
      let a = parse-Accepted m frame clock valid e in
      let same = store_counter-signals m frame a.counter_stored in
      (
        a.mux,
        ap (λ s. find_mux_value p s frame) (sym same) ∙ a.mux_found,
        subst₂ (UpdatedFrom frame a.mux clock 0) same
            (sym (ap (λ (x : CanMessage p). x.signals) a.result))
            (update_signals-Updated frame a.mux clock 0 a.stored.signals a.sigs a.updated),
      )

  store_counter-configuration :
      (m : CanMessage p) (frame : List ℕ) {m' : CanMessage p}
      → store_counter p m frame ≡ some m'
      → m' ≡ record m { last_rolling_counter = m'.last_rolling_counter }
  unfolding store_counter
  store_counter-configuration m frame e = ground arith

  -- Only the signals and the last counter change.
  pub parse-configuration :
      (m : CanMessage p) (frame : List ℕ) (clock : ℕ → p.Time) {m' : CanMessage p}
      → is_frame_valid p m frame ≡ some true
      → parse p m frame clock ≡ some m'
      → m' ≡ record m { signals = m'.signals; last_rolling_counter = m'.last_rolling_counter }
  parse-configuration m frame clock {m'} valid e =
      let a = parse-Accepted m frame clock valid e in
      cc (a.result, store_counter-configuration m frame a.counter_stored)
