-- ===== src/Tasks/Lossless.antt =====
-- No frame is dropped as long as the consumer keeps up.
use mathlib.Core.Path.{subst}
use mathlib.Core.Option.{some-injective}
use can_from_scratch.Prelude.{
  ℕ, ◌+◌, ◌-◌, ◌%◌, ◌^◌, ◌≡◌, refl, ap, sym, ◌∙◌, Bool, true, false, ◌&&◌, Option, none, some, List,
  [], ◌∷◌, length, All, ltb, arith, length-append, >>=-eq-some, bit_and, ◌==◌,
}
use can_from_scratch.Platform.{Platform}
use can_from_scratch.Ring.{CanFrame}
use can_from_scratch.Tasks.{Gateway, Arrival, Shown, Turn, run_tasks, consume}
use can_from_scratch.Tasks.Flow.{IsTurn, Flow, taken}
use can_from_scratch.Tasks.Run.{run_tasks-Flow}
use can_from_scratch.Tasks.Plain.{Plain, plain_offer, plain_take, plain_turn, run_plain}
use can_from_scratch.Tasks.Refine.{Agree, run_tasks-refines}

module _ (p : Platform) where
  -- With `waiting` frames in the ring before the iterations, there is room for every frame that
  -- arrives; an iteration of the consumer takes one away if there is any.
  abbrev pub keeps_up : (capacity waiting : ℕ) → List (Turn p) → Bool
  keeps_up capacity waiting [] = true
  keeps_up capacity waiting (Turn.produce (Arrival.raw_frame can_id dlc payload) timestamp ∷ rest) =
      ltb waiting capacity && keeps_up capacity (waiting + 1) rest
  keeps_up capacity waiting (Turn.produce arrival timestamp ∷ rest) = keeps_up capacity waiting rest
  keeps_up capacity waiting (Turn.consume_next now clock drawn ∷ rest) =
      keeps_up capacity (waiting - 1) rest

  module _ (capacity eff_mask : ℕ) where
    -- An iteration that drops nothing, and after which the others keep up.
    abbrev Kept : Plain p → List (Turn p) → Plain p → Type 0
    Kept s rest s' = (s'.dropped ≡ s.dropped) × (keeps_up capacity (length s'.queue) rest ≡ true)

    offered-Kept :
        (s : Plain p) (f : CanFrame) (rest : List (Turn p))
        → (ltb (length s.queue) capacity && keeps_up capacity (length s.queue + 1) rest) ≡ true
        → Kept s rest (plain_offer p capacity eff_mask s f)
    offered-Kept s f rest h =
        let room : (length s.queue == capacity) ≡ false = ground (arith, h) in
        let later : keeps_up capacity (length s.queue + 1) rest ≡ true = ground (arith, h) in
        rw room (refl, ap (λ n. keeps_up capacity n rest) (length-append s.queue (f ∷ [])) ∙ later)

    taken-Kept :
        (s : Plain p) (queue : List CanFrame) (now : p.Time) (clock : ℕ → p.Time)
        (drawn : ℕ → p.Time) (rest : List (Turn p)) {s' : Plain p} {log : List (Shown p)}
        → s.queue ≡ queue
        → keeps_up capacity (length queue - 1) rest ≡ true
        → plain_take p capacity eff_mask s queue now clock drawn ≡ some (s', log)
        → Kept s rest s'
    taken-Kept s [] now clock drawn rest at h e =
        subst (Kept s rest) (ap (λ x. x.0) (some-injective _ _ e))
          (refl, ap (λ q. keeps_up capacity (length q) rest) at ∙ h)
    taken-Kept s (f ∷ queue) now clock drawn rest at h e =
        let (r, handled, last) = >>=-eq-some (consume p s.parser f now clock drawn) _ e in
        subst (Kept s rest) (ap (λ x. x.0) (some-injective _ _ last))
          (refl, ap (λ n. keeps_up capacity n rest) (omega arith) ∙ h)

    plain_turn-Kept :
        (s : Plain p) (t : Turn p) (rest : List (Turn p)) {s' : Plain p} {log : List (Shown p)}
        → keeps_up capacity (length s.queue) (t ∷ rest) ≡ true
        → plain_turn p capacity eff_mask s t ≡ some (s', log)
        → Kept s rest s'
    plain_turn-Kept s (Turn.produce Arrival.read_error timestamp) rest h e =
        subst (Kept s rest) (ap (λ x. x.0) (some-injective _ _ e)) (refl, h)
    plain_turn-Kept s (Turn.produce Arrival.other_size timestamp) rest h e =
        subst (Kept s rest) (ap (λ x. x.0) (some-injective _ _ e)) (refl, h)
    plain_turn-Kept s (Turn.produce (Arrival.raw_frame can_id dlc payload) timestamp) rest h e =
        subst (Kept s rest) (ap (λ x. x.0) (some-injective _ _ e)) (
          offered-Kept s
            (record {
              id = bit_and can_id eff_mask;
              dlc = dlc;
              payload = payload;
              timestamp = timestamp;
            })
            rest h)
    plain_turn-Kept s (Turn.consume_next now clock drawn) rest h e =
        taken-Kept s s.queue now clock drawn rest refl h e

    run_plain-dropped :
        (s : Plain p) (turns : List (Turn p)) {s' : Plain p} {log : List (Shown p)}
        → keeps_up capacity (length s.queue) turns ≡ true
        → run_plain p capacity eff_mask s turns ≡ some (s', log)
        → s'.dropped ≡ s.dropped
    unfolding run_plain
    run_plain-dropped s [] h e = sym (ap (λ x. x.0.dropped) (some-injective _ _ e))
    run_plain-dropped s (t ∷ rest) h e =
        let ((s1, log1), now, later) = >>=-eq-some (plain_turn p capacity eff_mask s t) _ e in
        let ((s2, log2), then_, last) =
          >>=-eq-some (run_plain p capacity eff_mask s1 rest) _ later in
        let (same, kept) = plain_turn-Kept s t rest h now in
        sym (ap (λ x. x.0.dropped) (some-injective _ _ last))
        ∙ run_plain-dropped s1 rest kept then_
        ∙ same

    agreed-dropped :
        (g' : Gateway p) (log : List (Shown p)) (s : Plain p) (turns : List (Turn p))
        (o : Option (Plain p × List (Shown p)))
        → run_plain p capacity eff_mask s turns ≡ o
        → keeps_up capacity (length s.queue) turns ≡ true
        → Agree p capacity eff_mask (some (g', log)) o
        → g'.total_dropped ≡ s.dropped
    agreed-dropped g' log s turns none e h a = absurd a
    agreed-dropped g' log s turns (some (s', log')) e h a =
        a.0.same_dropped ∙ run_plain-dropped s turns h e

    -- Let the gateway start with an empty ring of `capacity + 1` cells and a parser that can take
    -- every frame, and let payloads have eight bytes. If each frame that arrives finds fewer than
    -- `capacity` frames that arrived before it and were not yet taken, counting an iteration of the
    -- consumer as taking one, then no frame is dropped, whatever the frames are: modulo 2 ^ 64, the
    -- frames received are those dropped before, those that wait and those taken.
    pub run_tasks-lossless :
        (g : Gateway p) (turns : List (Turn p))
        → All (IsTurn p) turns
        → Flow p g [] []
        → g.ring.size ≡ capacity + 1
        → keeps_up capacity 0 turns ≡ true
        → (g' : Gateway p) × (queue : List CanFrame) × (log : List (Shown p)) × (run_tasks p
              eff_mask g turns
            ≡ some (g', log))
          × (g'.total_dropped ≡ g.total_dropped)
          × (g'.total_received ≡ (g.total_dropped + length queue + taken log) % 2 ^ 64)
    run_tasks-lossless g turns v i sized h =
        let (g', queue, log, e, flow) = run_tasks-Flow p eff_mask g turns v i in
        let s : Plain p = record {
          queue = [];
          parser = g.parser;
          received = g.total_received;
          dropped = g.total_dropped;
        } in
        let agreed = run_tasks-refines p capacity eff_mask g s turns (record {
          represents = i.represents;
          sized = sized;
          same_parser = refl;
          same_received = refl;
          same_dropped = refl;
        }) in
        let same : g'.total_dropped ≡ g.total_dropped =
          agreed-dropped g' log s turns (run_plain p capacity eff_mask s turns) refl h (
            subst (λ o. Agree p capacity eff_mask o (run_plain p capacity eff_mask s turns)) e
              agreed) in
        (g', queue, log, e, same, omega (arith, flow.received, same))
