-- ===== src/Parser/View.antt =====
-- `CanParser::handleFrame` as a verdict on the frame and its effect on the parser, and the parser
-- up to the order of its registry: frames of different identifiers may change places.
use mathlib.Core.Quot.{Quot}
use can_from_scratch.Prelude.{
  ℕ, ◌≡◌, ◌≢◌, refl, ap, sym, ◌∙◌, Bool, true, false, not, ◌&&◌, Option, none, some, ◌>>=◌, List,
  [], if◌then◌else◌, arith, ◌==◌,
}
use can_from_scratch.Platform.{Platform}
use can_from_scratch.Registry.{lookup, insert, lookup-insert, contains}
use can_from_scratch.Message.{
  CanMessage, validate_rolling_counter, validate_checksum, is_frame_valid, parse,
}
use can_from_scratch.Parser.{
  CanParser, increment, is_diagnostic, is_in_whitelist, handle_message, handle_found, handle_frame,
}

pub >>=-assoc {ℓ κ μ} :
    {A : Type ℓ} {B : Type κ} {C : Type μ} (o : Option A) (f : A → Option B) (g : B → Option C)
    → (o >>= f >>= g) ≡ (o >>= (λ x. f x >>= g))
>>=-assoc none f g = refl
>>=-assoc (some a) f g = refl

pub >>=-swap {ℓ κ μ} :
    {A : Type ℓ} {B : Type κ} {C : Type μ} (o : Option A) (o2 : Option B) (f g : A → B → C)
    → ((a : A) (b : B) → f a b ≡ g a b)
    → (o >>= (λ a. o2 >>= (λ b. some (f a b)))) ≡ (o2 >>= (λ b. o >>= (λ a. some (g a b))))
>>=-swap none none f g h = refl
>>=-swap none (some b) f g h = refl
>>=-swap (some a) none f g h = refl
>>=-swap (some a) (some b) f g h = ap some (h a b)

module _ (p : Platform) where
  -- What a frame does: the message to store, if it is accepted, and the errors that are counted.
  pub record Effect : Type 0 where
    pub stored : Option (CanMessage p)
    pub accepted : Bool
    pub counter_error : Bool
    pub checksum_error : Bool

  abbrev pub refused : Effect
  refused = record {
    stored = none;
    accepted = false;
    counter_error = false;
    checksum_error = false;
  }

  -- The verdict on a frame of a registered message, and on one that was let through or not.
  abbrev pub judged : CanMessage p → List ℕ → (ℕ → p.Time) → Option Effect
  judged m frame clock = do
    valid ← is_frame_valid p m frame
    if not valid
        then (do
          c ← validate_rolling_counter p m frame
          b ← validate_checksum p m frame
          some (record {
            stored = none;
            accepted = false;
            counter_error = not c;
            checksum_error = not b;
          }))
        else (do
          m' ← parse p m frame clock
          some (record {
            stored = some m';
            accepted = true;
            counter_error = false;
            checksum_error = false;
          }))

  abbrev pub effect : Bool → Option (CanMessage p) → List ℕ → (ℕ → p.Time) → Option Effect
  effect false found frame clock = some refused
  effect true none frame clock = some refused
  effect true (some m) frame clock = judged m frame clock

  abbrev pub bump : Bool → ℕ → ℕ
  bump b n = if b then increment n else n

  abbrev pub replaced :
      ℕ → Option (CanMessage p) → List (ℕ × CanMessage p) → List (ℕ × CanMessage p)
  replaced id none registry = registry
  replaced id (some m) registry = insert id m registry

  abbrev pub apply : ℕ → Effect → CanParser p → CanParser p
  apply id e s = record s {
    message_registry = replaced id e.stored s.message_registry;
    total_frames = increment s.total_frames;
    valid_frames = bump e.accepted s.valid_frames;
    invalid_frames = bump (not e.accepted) s.invalid_frames;
    rolling_counter_errors = bump e.counter_error s.rolling_counter_errors;
    checksum_errors = bump e.checksum_error s.checksum_errors;
  }

  -- `handleFrame` applies the verdict.
  pub handle_frame-effect :
      (s : CanParser p) (id : ℕ) (frame : List ℕ) (now : p.Time) (clock : ℕ → p.Time)
      → (s.diagnostic_mode_enabled && is_diagnostic id) ≡ false
      → handle_frame p s id frame now clock ≡ (
          effect (is_in_whitelist p s id) (lookup id s.message_registry) frame clock
          >>= (λ e. some (apply id e s, [])))
  unfolding handle_frame handle_found handle_message is_in_whitelist
  handle_frame-effect s id frame now clock off = ground arith

  -- Two parsers that no lookup and no counter tells apart.
  pub record SameView (s s' : CanParser p) : Type 0 where
    pub same_messages : (id : ℕ) → lookup id s.message_registry ≡ lookup id s'.message_registry
    pub same_diagnosis :
        (id : ℕ) → lookup id s.diagnostic_messages ≡ lookup id s'.diagnostic_messages
    pub same_whitelist : (id : ℕ) → contains id s.whitelist ≡ contains id s'.whitelist
    pub same_modes :
        (s.whitelist_enabled ≡ s'.whitelist_enabled)
        × (s.diagnostic_mode_enabled ≡ s'.diagnostic_mode_enabled)
    pub same_frames :
        (s.total_frames ≡ s'.total_frames)
        × (s.valid_frames ≡ s'.valid_frames)
        × (s.invalid_frames ≡ s'.invalid_frames)
    pub same_errors :
        (s.rolling_counter_errors ≡ s'.rolling_counter_errors)
        × (s.checksum_errors ≡ s'.checksum_errors)

  -- The parser without the order of its containers.
  abbrev pub View : Type 0
  View = Quot SameView

  bump_comm : (a b : Bool) (n : ℕ) → bump a (bump b n) ≡ bump b (bump a n)
  bump_comm true true n = refl
  bump_comm true false n = refl
  bump_comm false true n = refl
  bump_comm false false n = refl

  lookup-replaced :
      (id other : ℕ) (o : Option (CanMessage p)) (r : List (ℕ × CanMessage p))
      → id ≢ other
      → lookup other (replaced id o r) ≡ lookup other r
  lookup-replaced id other none r ne = refl
  lookup-replaced id other (some m) r ne = ground (arith, lookup-insert id other m r)

  -- What a key finds after two replacements, as a test of the keys.
  abbrev pub picked : ℕ → Option (CanMessage p) → ℕ → Option (CanMessage p) → Option (CanMessage p)
  picked id none other found = found
  picked id (some m) other found = if id == other then some m else found

  pub lookup-picked :
      (id other : ℕ) (o : Option (CanMessage p)) (r : List (ℕ × CanMessage p))
      → lookup other (replaced id o r) ≡ picked id o other (lookup other r)
  lookup-picked id other none r = refl
  lookup-picked id other (some m) r = lookup-insert id other m r

  picked_comm :
      (id id2 other : ℕ) (o o2 found : Option (CanMessage p))
      → id ≢ id2
      → picked id2 o2 other (picked id o other found)
        ≡ picked id o other (picked id2 o2 other found)
  picked_comm id id2 other none o2 found ne = refl
  picked_comm id id2 other (some m) none found ne = refl
  picked_comm id id2 other (some m) (some m2) found ne = ground arith

  pub apply_comm :
      (id id2 : ℕ) (e e2 : Effect) (s : CanParser p)
      → id ≢ id2
      → SameView (apply id2 e2 (apply id e s)) (apply id e (apply id2 e2 s))
  apply_comm id id2 e e2 s ne = record {
    same_messages = λ other.
        lookup-picked id2 other e2.stored _
        ∙ ap (picked id2 e2.stored other) (lookup-picked id other e.stored s.message_registry)
        ∙ picked_comm id id2 other e.stored e2.stored _ ne
        ∙ sym (
            lookup-picked id other e.stored _
            ∙ ap (picked id e.stored other) (lookup-picked id2 other e2.stored s.message_registry));
    same_diagnosis = λ other. refl;
    same_whitelist = λ other. refl;
    same_modes = (refl, refl);
    same_frames = (
      refl,
      bump_comm e2.accepted e.accepted s.valid_frames,
      bump_comm (not e2.accepted) (not e.accepted) s.invalid_frames,
    );
    same_errors = (
      bump_comm e2.counter_error e.counter_error s.rolling_counter_errors,
      bump_comm e2.checksum_error e.checksum_error s.checksum_errors,
    );
  }

  -- The verdict on a frame, and on one that comes after a frame of another identifier.
  abbrev pub verdict_in : CanParser p → ℕ → List ℕ → (ℕ → p.Time) → Option Effect
  verdict_in s id frame clock =
      effect (is_in_whitelist p s id) (lookup id s.message_registry) frame clock

  pub verdict_in-apply :
      (s : CanParser p) (id id2 : ℕ) (e : Effect) (frame : List ℕ) (clock : ℕ → p.Time)
      → id ≢ id2
      → verdict_in (apply id e s) id2 frame clock ≡ verdict_in s id2 frame clock
  unfolding is_in_whitelist
  verdict_in-apply s id id2 e frame clock ne =
      ap (λ found. effect (is_in_whitelist p s id2) found frame clock)
        (lookup-replaced id id2 e.stored s.message_registry ne)
