-- ===== src/Parser/Reorder.antt =====
-- A sequence of frames may be reordered, as long as the frames of each identifier keep their order.
use mathlib.Core.Option.{is_set}
use mathlib.Core.Quot
use mathlib.Core.Quot.{Quot, Quot-set}
use can_from_scratch.Prelude.{
  ℕ, ◌≡◌, ◌≢◌, refl, ap, ap₂, sym, ◌∙◌, true, false, not, ◌&&◌, Option, none, some, ◌>>=◌, List, [],
  ◌∷◌, if◌then◌else◌,
}
use can_from_scratch.Platform.{Platform}
use can_from_scratch.Parser.{CanParser, is_diagnostic, is_in_whitelist, handle_frame}
use can_from_scratch.Parser.View.{
  Effect, effect, apply, SameView, View, handle_frame-effect, bump, picked, lookup-picked,
  verdict_in, verdict_in-apply, apply_comm, >>=-assoc, >>=-swap,
}

-- A frame that is handled: its identifier, its payload, and the readings of the clock.
pub record Handling (p : Platform) : Type 0 where
  pub id : ℕ
  pub payload : List ℕ
  pub now : p.Time
  pub clock : ℕ → p.Time

-- Neighbours of different identifiers change places, again and again.
pub data Reordered (p : Platform) : List (Handling p) → List (Handling p) → Type 0 where
  same : (xs : List (Handling p)) → Reordered p xs xs
  swap :
      (x y : Handling p) (rest : List (Handling p))
      → x.id ≢ y.id
      → Reordered p (x ∷ y ∷ rest) (y ∷ x ∷ rest)
  cons :
      (x : Handling p) {xs ys : List (Handling p)}
      → Reordered p xs ys
      → Reordered p (x ∷ xs) (x ∷ ys)
  trans : {xs ys zs : List (Handling p)} → Reordered p xs ys → Reordered p ys zs → Reordered p xs zs

>>=-ap {ℓ κ} :
    {A : Type ℓ} {B : Type κ} (o : Option A) (f g : A → Option B)
    → ((a : A) → f a ≡ g a)
    → (o >>= f) ≡ (o >>= g)
>>=-ap none f g h = refl
>>=-ap (some a) f g h = h a

module _ (p : Platform) where
  View_option-set : IsSet (Option (View p))
  View_option-set = is_set Quot-set

  verdict_in-SameView :
      (s s' : CanParser p) (id : ℕ) (frame : List ℕ) (clock : ℕ → p.Time)
      → SameView p s s'
      → verdict_in p s id frame clock ≡ verdict_in p s' id frame clock
  unfolding is_in_whitelist
  verdict_in-SameView s s' id frame clock v =
      ap₂ (λ allowed found. effect p allowed found frame clock)
        (ap₂ (λ on found. if not on then true else found) v.same_modes.0 (v.same_whitelist id))
        (v.same_messages id)

  apply-SameView :
      (id : ℕ) (e : Effect p) (s s' : CanParser p)
      → SameView p s s'
      → SameView p (apply p id e s) (apply p id e s')
  apply-SameView id e s s' v = record {
    same_messages = λ other.
        lookup-picked p id other e.stored s.message_registry
        ∙ ap (picked p id e.stored other) (v.same_messages other)
        ∙ sym (lookup-picked p id other e.stored s'.message_registry);
    same_diagnosis = v.same_diagnosis;
    same_whitelist = v.same_whitelist;
    same_modes = v.same_modes;
    same_frames = (
      ap can_from_scratch.Parser.increment v.same_frames.0,
      ap (bump p e.accepted) v.same_frames.1,
      ap (bump p (not e.accepted)) v.same_frames.2,
    );
    same_errors =
        (ap (bump p e.counter_error) v.same_errors.0, ap (bump p e.checksum_error) v.same_errors.1);
  }

  abbrev judge_in : Handling p → CanParser p → Option (View p)
  judge_in x s = verdict_in p s x.id x.payload x.clock >>= (λ e. some (Quot.mk (apply p x.id e s)))

  judge_in-SameView :
      (x : Handling p) (s s' : CanParser p) → SameView p s s' → judge_in x s ≡ judge_in x s'
  judge_in-SameView x s s' v =
      ap (λ o. o >>= (λ e. some (Quot.mk (apply p x.id e s))))
        (verdict_in-SameView s s' x.id x.payload x.clock v)
      ∙ >>=-ap (verdict_in p s' x.id x.payload x.clock) _ _
          (λ e. ap some (Quot.sound (apply-SameView x.id e s s' v)))

  -- A frame handled by the parser up to the order of its containers.
  judge : Handling p → View p → Option (View p)
  judge x = Quot.lift View_option-set (judge_in x) (judge_in-SameView x)

  abbrev judge_all : View p → List (Handling p) → Option (View p)
  judge_all v [] = some v
  judge_all v (x ∷ rest) = judge x v >>= (λ v'. judge_all v' rest)

  judge_two :
      (x y : Handling p) (s : CanParser p)
      → x.id ≢ y.id
      → (judge x (Quot.mk s) >>= judge y) ≡ (
          verdict_in p s x.id x.payload x.clock >>= (λ e.
            verdict_in p s y.id y.payload y.clock
            >>= (λ e2. some (Quot.mk (apply p y.id e2 (apply p x.id e s))))))
  unfolding judge
  judge_two x y s ne =
      >>=-assoc (verdict_in p s x.id x.payload x.clock) _ (judge y)
      ∙ >>=-ap (verdict_in p s x.id x.payload x.clock) _ _ (λ e.
        ap (λ o. o >>= (λ e2. some (Quot.mk (apply p y.id e2 (apply p x.id e s)))))
          (verdict_in-apply p s x.id y.id e y.payload y.clock ne))

  judge_comm_in :
      (x y : Handling p) (s : CanParser p)
      → x.id ≢ y.id
      → (judge x (Quot.mk s) >>= judge y) ≡ (judge y (Quot.mk s) >>= judge x)
  unfolding judge
  judge_comm_in x y s ne =
      judge_two x y s ne
      ∙ >>=-swap (verdict_in p s x.id x.payload x.clock) (verdict_in p s y.id y.payload y.clock) _
          (λ e e2. Quot.mk (apply p x.id e (apply p y.id e2 s)))
          (λ e e2. Quot.sound (apply_comm p x.id y.id e e2 s ne))
      ∙ sym (judge_two y x s (λ same. ne (sym same)))

  judge_comm :
      (x y : Handling p)
      → x.id ≢ y.id
      → (v : View p) → (judge x v >>= judge y) ≡ (judge y v >>= judge x)
  unfolding judge
  judge_comm x y ne = Quot.ind (λ v. View_option-set _ _) (λ s. judge_comm_in x y s ne)

  Reordered-judge_all :
      (xs ys : List (Handling p))
      → Reordered p xs ys
      → (v : View p) → judge_all v xs ≡ judge_all v ys
  Reordered-judge_all xs ys (Reordered.same zs) v = refl
  Reordered-judge_all xs ys (Reordered.swap x y rest ne) v =
      sym (>>=-assoc (judge x v) (judge y) (λ v'. judge_all v' rest))
      ∙ ap (λ o. o >>= (λ v'. judge_all v' rest)) (judge_comm x y ne v)
      ∙ >>=-assoc (judge y v) (judge x) (λ v'. judge_all v' rest)
  Reordered-judge_all xs ys (Reordered.cons x {xs = zs} {ys = ws} r) v =
      >>=-ap (judge x v) _ _ (Reordered-judge_all zs ws r)
  Reordered-judge_all xs ys (Reordered.trans {ys = zs} r r') v =
      Reordered-judge_all xs zs r v ∙ Reordered-judge_all zs ys r' v

  -- The frames handled in order by `handleFrame`, and the parser that results, up to the order of
  -- its containers.
  abbrev pub handle_each : CanParser p → List (Handling p) → Option (View p)
  handle_each s [] = some (Quot.mk s)
  handle_each s (x ∷ rest) =
      handle_frame p s x.id x.payload x.now x.clock >>= (λ r. handle_each r.0 rest)

  handle_each-judge_all :
      (s : CanParser p) (xs : List (Handling p))
      → s.diagnostic_mode_enabled ≡ false
      → handle_each s xs ≡ judge_all (Quot.mk s) xs
  unfolding judge
  handle_each-judge_all s [] off = refl
  handle_each-judge_all s (x ∷ rest) off =
      ap (λ o. o >>= (λ r. handle_each r.0 rest))
        (handle_frame-effect p s x.id x.payload x.now x.clock
          (ap (λ b. b && is_diagnostic x.id) off))
      ∙ >>=-assoc (verdict_in p s x.id x.payload x.clock) _ _
      ∙ >>=-ap (verdict_in p s x.id x.payload x.clock) _ _
          (λ e. handle_each-judge_all (apply p x.id e s) rest off)
      ∙ sym (>>=-assoc (verdict_in p s x.id x.payload x.clock) _ _)

  -- With the diagnostic mode off, two sequences of frames that differ only in how the frames of
  -- different identifiers are interleaved, each identifier's frames being in the same order, have
  -- the same result: both are defined or neither is, and the parsers at the end have the same
  -- messages, signals and counters.
  pub handle_each-Reordered :
      (s : CanParser p) (xs ys : List (Handling p))
      → s.diagnostic_mode_enabled ≡ false
      → Reordered p xs ys
      → handle_each s xs ≡ handle_each s ys
  handle_each-Reordered s xs ys off r =
      handle_each-judge_all s xs off
      ∙ Reordered-judge_all xs ys r (Quot.mk s)
      ∙ sym (handle_each-judge_all s ys off)
