-- ===== src/Tasks/Bounds.antt =====
-- The counters of the gateway do not wrap around in any run that is not absurdly long.
use mathlib.Core.Path.{subst}
use mathlib.Core.Option.{some-injective}
use can_from_scratch.Prelude.{
  ℕ, ◌+◌, ◌^◌, ◌<◌, ◌≤◌, ◌≡◌, refl, ap, inl, inr, Option, none, some, List, [], ◌∷◌, length, All,
  arith, Bool-cases, >>=-eq-some,
}
use can_from_scratch.Platform.{Platform}
use can_from_scratch.Ring.{CanFrame, push, pop}
use can_from_scratch.Parser.{CanParser, increment_frame, has_message, handle_frame}
use can_from_scratch.Parser.Accounting.{handle_frame-Counted}
use can_from_scratch.Tasks.{
  Gateway, Arrival, Shown, offer, producer_task, consume, on_popped, consumer_task, Turn, turn,
  run_tasks,
}
use can_from_scratch.Tasks.Flow.{taken, parsed, taken-append, parsed-append, IsTurn, Flow}
use can_from_scratch.Tasks.Run.{run_tasks-from, run_tasks-Flow}
use can_from_scratch.Tasks.Errors.{run_tasks-Bounded}
use can_from_scratch.Tasks.Monitor.{monitor_task}

module _ (p : Platform) where
  -- What at most `n` iterations add.
  record Grows (n : ℕ) (g g' : Gateway p) (more : List (Shown p)) : Type 0 where
    dropped : g'.total_dropped ≤ g.total_dropped + n
    popped : taken more ≤ n
    handled : parsed more ≤ taken more
    valid : g'.parser.valid_frames ≤ g.parser.valid_frames + n
    invalid : g'.parser.invalid_frames ≤ g.parser.invalid_frames + n

  offer-dropped :
      (g : Gateway p) (f : CanFrame) {g' : Gateway p}
      → offer p g f ≡ some g'
      → (g'.total_dropped ≤ g.total_dropped + 1) × (g'.parser ≡ g.parser)
  unfolding offer
  offer-dropped g f e =
      let (pair, found, last) = >>=-eq-some (push g.ring f) _ e in
      ground (
        arith,
        ap (λ (x : Gateway p). x.total_dropped) (some-injective _ _ last),
        ap (λ (x : Gateway p). x.parser) (some-injective _ _ last),
      )

  still : (g : Gateway p) → Grows 1 g g []
  still g = record {
    dropped = omega arith;
    popped = omega arith;
    handled = omega arith;
    valid = omega arith;
    invalid = omega arith;
  }

  -- What the parser and the log may count for a frame that was popped.
  abbrev Little : CanParser p → CanParser p × Shown p → Type 0
  Little parser (s, shown) =
      (s.valid_frames ≤ parser.valid_frames + 1)
      × (s.invalid_frames ≤ parser.invalid_frames + 1)
      × (taken (shown ∷ []) ≡ 1)
      × (parsed (shown ∷ []) ≤ 1)

  consume-Little :
      (parser : CanParser p) (f : CanFrame) (now : p.Time) (clock : ℕ → p.Time) (drawn : ℕ → p.Time)
      {result : CanParser p × Shown p}
      → consume p parser f now clock drawn ≡ some result
      → Little parser result
  unfolding consume increment_frame
  consume-Little parser f now clock drawn e =
      let s : CanParser p = increment_frame p parser in
      elim (Bool-cases (has_message p s f.id)) [
        | inr unknown ↦
            subst (Little parser) (some-injective _ _ (rw unknown at e))
              (omega arith, omega arith, refl, omega arith)
        | inl known ↦
            let (pair, found, last) =
              >>=-eq-some (handle_frame p s f.id f.payload now clock) _ (rw known at e) in
            let counts = handle_frame-Counted p f.id f.payload clock s now found in
            subst (Little parser) (some-injective _ _ last)
              (ground (arith, counts), ground (arith, counts), refl, omega arith)
      ]

  on_popped-Grows :
      (g : Gateway p) (popped : Option CanFrame) (now : p.Time) (clock : ℕ → p.Time)
      (drawn : ℕ → p.Time) {result : Gateway p × Shown p}
      → on_popped p g popped now clock drawn ≡ some result
      → Grows 1 g result.0 (result.1 ∷ [])
  unfolding on_popped
  on_popped-Grows g none now clock drawn e =
      subst (λ r. Grows 1 g r.0 (r.1 ∷ [])) (some-injective _ _ e)
        (record {
          dropped = omega arith;
          popped = omega arith;
          handled = omega arith;
          valid = omega arith;
          invalid = omega arith;
        })
  on_popped-Grows g (some f) now clock drawn e =
      let ((s, shown), found, last) = >>=-eq-some (consume p g.parser f now clock drawn) _ e in
      let (v, i, one, handled) = consume-Little g.parser f now clock drawn found in
      subst (λ r. Grows 1 g r.0 (r.1 ∷ [])) (some-injective _ _ last)
        (record {
          dropped = omega arith;
          popped = omega (arith, one);
          handled = omega (arith, one, handled);
          valid = v;
          invalid = i;
        })

  turn-Grows :
      (eff_mask : ℕ) (g : Gateway p) (t : Turn p) {result : Gateway p × List (Shown p)}
      → turn p eff_mask g t ≡ some result
      → Grows 1 g result.0 result.1
  unfolding turn producer_task consumer_task on_popped
  turn-Grows eff_mask g (Turn.produce Arrival.read_error timestamp) e =
      subst (λ r. Grows 1 g r.0 r.1) (some-injective _ _ e) (still g)
  turn-Grows eff_mask g (Turn.produce Arrival.other_size timestamp) e =
      subst (λ r. Grows 1 g r.0 r.1) (some-injective _ _ e) (still g)
  turn-Grows eff_mask g (Turn.produce (Arrival.raw_frame can_id dlc payload) timestamp) e =
      let (g', found, last) = >>=-eq-some _ _ e in
      let (d, same) = offer-dropped _ _ found in
      subst (λ r. Grows 1 g r.0 r.1) (some-injective _ _ last)
        (record {
          dropped = d;
          popped = omega arith;
          handled = omega arith;
          valid = ground (arith, same);
          invalid = ground (arith, same);
        })
  turn-Grows eff_mask g (Turn.consume_next now clock drawn) e =
      let ((g1, shown), found, last) = >>=-eq-some (consumer_task p g now clock drawn) _ e in
      let ((ring, popped), found', last') = >>=-eq-some (pop g.ring) _ found in
      let grows = on_popped-Grows (record g { ring = ring }) popped now clock drawn last' in
      subst (λ r. Grows 1 g r.0 r.1) (some-injective _ _ last)
        (record {
          dropped = grows.dropped;
          popped = grows.popped;
          handled = grows.handled;
          valid = grows.valid;
          invalid = grows.invalid;
        })

  run_tasks-Grows :
      (eff_mask : ℕ) (g : Gateway p) (turns : List (Turn p)) {result : Gateway p × List (Shown p)}
      → run_tasks p eff_mask g turns ≡ some result
      → Grows (length turns) g result.0 result.1
  unfolding run_tasks
  run_tasks-Grows eff_mask g [] e =
      subst (λ r. Grows 0 g r.0 r.1) (some-injective _ _ e)
        (record {
          dropped = omega arith;
          popped = omega arith;
          handled = omega arith;
          valid = omega arith;
          invalid = omega arith;
        })
  run_tasks-Grows eff_mask g (t ∷ rest) e =
      let ((g1, more1), found, last) = >>=-eq-some (turn p eff_mask g t) _ e in
      let ((g2, more2), found', last') = >>=-eq-some (run_tasks p eff_mask g1 rest) _ last in
      let first = turn-Grows eff_mask g t found in
      let later = run_tasks-Grows eff_mask g1 rest found' in
      subst (λ r. Grows (length (t ∷ rest)) g r.0 r.1) (some-injective _ _ last')
        (record {
          dropped = omega (arith, first.dropped, later.dropped);
          popped = omega (arith, first.popped, later.popped, taken-append more1 more2);
          handled = omega (
            arith,
            first.handled,
            later.handled,
            taken-append more1 more2,
            parsed-append more1 more2,
          );
          valid = omega (arith, first.valid, later.valid);
          invalid = omega (arith, first.invalid, later.invalid);
        })

  -- The counters that a run starts from.
  abbrev pub Fresh : Gateway p → Type 0
  Fresh g =
      (g.total_dropped ≡ 0)
      × (g.parser.valid_frames ≡ 0)
      × (g.parser.invalid_frames ≡ 0)
      × (g.parser.rolling_counter_errors ≡ 0)
      × (g.parser.checksum_errors ≡ 0)

  -- Let the gateway start with the empty queue in its ring, with no frame counted as received,
  -- dropped, total, valid or invalid, no error counted, the diagnostic mode off, and messages whose
  -- fields can be read. Then after any sequence of fewer than 2 ^ 62 iterations of the producer and
  -- the consumer, when the payloads read have eight bytes, these equations hold without a modulus:
  -- the frames received are those dropped, those queued, fewer than the cells of the ring, and
  -- those popped; the parser's total is the popped frames and once more the registered ones; and
  -- its valid and invalid frames are the registered ones. The errors of the rolling counter are at
  -- most as many as the invalid frames, and so are those of the checksum.
  pub run_tasks-exact :
      (eff_mask : ℕ) (g : Gateway p) (turns : List (Turn p))
      → All (IsTurn p) turns
      → Flow p g [] []
      → Fresh g
      → length turns < 2 ^ 62
      → (g' : Gateway p) × (queue : List CanFrame) × (log : List (Shown p)) × (run_tasks p eff_mask
            g turns
          ≡ some (g', log))
        × (g'.total_received ≡ g'.total_dropped + length queue + taken log)
        × (g'.parser.total_frames ≡ taken log + parsed log)
        × (g'.parser.valid_frames + g'.parser.invalid_frames ≡ parsed log)
        × (parsed log ≤ taken log)
        × (length queue < g'.ring.size)
        × (g'.parser.rolling_counter_errors ≤ g'.parser.invalid_frames)
        × (g'.parser.checksum_errors ≤ g'.parser.invalid_frames)
  run_tasks-exact eff_mask g turns v i fresh few =
      let (g', queue, log, e, flow) = run_tasks-Flow p eff_mask g turns v i in
      let grows = run_tasks-Grows eff_mask g turns e in
      let errors =
        run_tasks-Bounded p eff_mask 0 g turns
          (omega (arith, fresh), omega (arith, fresh), omega (arith, fresh)) (omega arith) e in
      (
        g',
        queue,
        log,
        e,
        omega (
          arith, flow.received, flow.represents.room, flow.represents.fits, grows.dropped,
          grows.popped,
        ),
        omega (arith, flow.total, grows.popped, grows.handled),
        omega (arith, flow.judged, grows.popped, grows.handled, grows.valid, grows.invalid),
        grows.handled,
        flow.represents.room,
        errors.1,
        errors.2,
      )

  -- Let the gateway start as for `run_tasks-exact`, and let `monitor_task` load the received frames
  -- after `turns`, fewer than 2 ^ 62, and the dropped frames after `more`. Then the received frames
  -- it shows are those dropped, queued and popped by the first load, and the dropped frames it
  -- shows are at most those received that it shows and one for each iteration in between.
  pub monitor_task-bounded :
      (divide : p.Double → p.Double → p.Double) (eff_mask : ℕ) (g : Gateway p)
      (turns more : List (Turn p))
      → All (IsTurn p) turns
      → All (IsTurn p) more
      → Flow p g [] []
      → Fresh g
      → length turns < 2 ^ 62
      → (g1 : Gateway p) × (queue : List CanFrame) × (log : List (Shown p)) × (run_tasks p eff_mask
            g turns
          ≡ some (g1, log))
        × (g2 : Gateway p) × (log2 : List (Shown p)) × (run_tasks p eff_mask g1 more
            ≡ some (g2, log2))
        × ((monitor_task p divide g1 g2).received ≡ g1.total_dropped + length queue + taken log)
        × ((monitor_task p divide g1 g2).dropped
            ≤ (monitor_task p divide g1 g2).received + length more)
  unfolding monitor_task
  monitor_task-bounded divide eff_mask g turns more v v' i fresh few =
      let (g1, queue, log, e, flow) = run_tasks-Flow p eff_mask g turns v i in
      let (g2, queue2, log2, e2, flow2) = run_tasks-from p eff_mask g1 queue log more v' flow in
      let grows = run_tasks-Grows eff_mask g turns e in
      let later = run_tasks-Grows eff_mask g1 more e2 in
      let exact : g1.total_received ≡ g1.total_dropped + length queue + taken log = omega (
        arith, flow.received, flow.represents.room, flow.represents.fits, grows.dropped,
        grows.popped,
      ) in
      (g1, queue, log, e, g2, log2, e2, exact, omega (arith, exact, later.dropped))
