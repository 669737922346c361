-- ===== src/Tasks/Interleaved/Order.antt =====
-- What the parser has handled at any moment of an interleaved run.
use mathlib.Core.Path.{subst}
use mathlib.Core.List.{append-nil}
use mathlib.Core.Option.{some-injective}
use can_from_scratch.Prelude.{
  ℕ, ◌+◌, ◌%◌, ◌^◌, ◌<◌, ◌≡◌, refl, ap, sym, ◌∙◌, some, List, [], ◌∷◌, ◌++◌, ◌==◌, if◌then◌else◌,
  get_elem?, length, map, All, arith,
}
use can_from_scratch.Frame.{IsFrame}
use can_from_scratch.Platform.{Platform}
use can_from_scratch.Ring.{CanFrame}
use can_from_scratch.Ring.Threads.{Consumer, Machine, new_machine, pop_step}
use can_from_scratch.Ring.Threads.Inv.{ConsumerReady}
use can_from_scratch.Ring.Threads.Fifo.{pop_step-Inv, new_machine-Inv}
use can_from_scratch.Parser.{CanParser}
use can_from_scratch.Tasks.Flow.{IsArrival, Ready, consume-Taken}
use can_from_scratch.Tasks.Interleaved.{
  Taking, System, new_system, consumer_move, Move, move, run_system,
}
use can_from_scratch.Tasks.Interleaved.Producing.{
  take_one, take_all, take_all-append, Carries, in_flight, Whole, producer_move-Whole,
}

module _ (p : Platform) where
  -- The frame that an access of the consumer hands out.
  abbrev pub handed : Consumer → List CanFrame
  handed (Consumer.releasing frame head) = frame ∷ []
  handed _ = []

  pub pop_step-frames :
      (m : Machine) (c : Consumer) {m' : Machine}
      → pop_step m c ≡ some m'
      → (m'.sent ≡ m.sent) × (m'.producer ≡ m.producer) × (m'.received ≡ m.received ++ handed c)
  unfolding pop_step
  pop_step-frames m Consumer.ready e = ground (arith, append-nil m.received)
  pop_step-frames m (Consumer.checking tail) e = ground (arith, append-nil m.received)
  pop_step-frames m (Consumer.copying head) e = ground (arith, append-nil m.received)
  pop_step-frames m (Consumer.releasing frame head) e = ground arith

  map-append :
      (ts : List (Taking p)) (t : Taking p)
      → map (λ (x : Taking p). x.frame) (ts ++ t ∷ [])
        ≡ map (λ (x : Taking p). x.frame) ts ++ t.frame ∷ []
  map-append [] t = refl
  map-append (x ∷ ts) t = ap (λ r. x.frame ∷ r) (map-append ts t)

  abbrev pub IsMove : Move p → Type 0
  IsMove (Move.produce arrival timestamp) = IsArrival arrival
  IsMove (Move.consume_next now clock drawn) = Unit

  All-front :
      (xs ys : List CanFrame) {f : CanFrame}
      → All (λ x. IsFrame x.payload) (xs ++ ys)
      → get_elem? ys 0 ≡ some f
      → IsFrame f.payload
  All-front [] [] h e = absurd (cc)
  All-front [] (y ∷ ys) h e = subst (λ x. IsFrame x.payload) (some-injective _ _ e) h.0
  All-front (x ∷ xs) ys h e = All-front xs ys h.1 e

  -- An access that hands out no frame.
  idle-Whole :
      {n : ℕ} (start : CanParser p) (g : System p) (q : List CanFrame) (c : Consumer)
      → Whole p n start g q
      → g.machine.consumer ≡ c
      → handed c ≡ []
      → (m' : Machine) × (q' : List CanFrame) × (pop_step g.machine c ≡ some m')
        × Whole p n start (record g { machine = m' }) q'
  idle-Whole start g q c i at none_handed =
      let (m', q', e, inv') =
        pop_step-Inv g.machine q c i.inv
          (subst (ConsumerReady g.machine.ring q) at i.inv.consumer_ready) in
      let (sent, producer, received) = pop_step-frames g.machine c e in
      (
        m',
        q',
        e,
        record {
          inv = inv';
          payloads = subst (All (λ f. IsFrame f.payload)) (sym sent) i.payloads;
          carried = subst (Carries p) (sym producer) i.carried;
          ready = i.ready;
          frames =
              i.frames
              ∙ sym (
                  received
                  ∙ ap (λ x. g.machine.received ++ x) none_handed
                  ∙ append-nil g.machine.received);
          handled = i.handled;
          counted = omega (arith, i.counted, ap length sent, ap (in_flight p) producer);
        },
      )

  pub consumer_move-Whole :
      {n : ℕ} (start : CanParser p) (g : System p) (q : List CanFrame) (c : Consumer) (now : p.Time)
      (clock : ℕ → p.Time) (drawn : ℕ → p.Time)
      → Whole p n start g q
      → g.machine.consumer ≡ c
      → (g' : System p) × (q' : List CanFrame) × (consumer_move p g c now clock drawn ≡ some g')
        × Whole p n start g' q'
        × (pop_step g.machine c ≡ some g'.machine)
  unfolding consumer_move
  consumer_move-Whole start g q Consumer.ready now clock drawn i at =
      let (m', q', e, i') = idle-Whole start g q Consumer.ready i at refl in
      (record g { machine = m' }, q', simp e, i', e)
  consumer_move-Whole start g q (Consumer.checking tail) now clock drawn i at =
      let (m', q', e, i') = idle-Whole start g q (Consumer.checking tail) i at refl in
      (record g { machine = m' }, q', simp e, i', e)
  consumer_move-Whole start g q (Consumer.copying head) now clock drawn i at =
      let (m', q', e, i') = idle-Whole start g q (Consumer.copying head) i at refl in
      (record g { machine = m' }, q', simp e, i', e)
  consumer_move-Whole start g q (Consumer.releasing frame head) now clock drawn i at =
      let places : ConsumerReady g.machine.ring q (Consumer.releasing frame head) =
        subst (ConsumerReady g.machine.ring q) at i.inv.consumer_ready in
      let (m', q', e, inv') =
        pop_step-Inv g.machine q (Consumer.releasing frame head) i.inv places in
      let (sent, producer, received) =
        pop_step-frames g.machine (Consumer.releasing frame head) e in
      let payload : IsFrame frame.payload =
        All-front g.machine.received q
          (subst (All (λ f. IsFrame f.payload)) i.inv.in_order i.payloads) places.1 in
      let (s, shown, e', t) = consume-Taken p g.parser frame now clock drawn payload i.ready in
      let taking : Taking p = record { frame = frame; now = now; clock = clock; drawn = drawn } in
      (
        record g {
          machine = m';
          parser = s;
          taken = g.taken ++ taking ∷ [];
          log = g.log ++ shown ∷ [];
        },
        q',
        simp (e, e'),
        record {
          inv = inv';
          payloads = subst (All (λ f. IsFrame f.payload)) (sym sent) i.payloads;
          carried = subst (Carries p) (sym producer) i.carried;
          ready = t.ready;
          frames = map-append g.taken taking ∙ ap (λ x. x ++ frame ∷ []) i.frames ∙ sym received;
          handled =
              take_all-append p (some (start, [])) g.taken taking
              ∙ ap (λ r. take_one p r taking) i.handled
              ∙ simp e' refl;
          counted = omega (arith, i.counted, ap length sent, ap (in_flight p) producer);
        },
        e,
      )

  move-Whole :
      {n : ℕ} (eff_mask : ℕ) (start : CanParser p) (g : System p) (q : List CanFrame) (t : Move p)
      → Whole p n start g q
      → IsMove t
      → (g' : System p) × (q' : List CanFrame) × (move p eff_mask g t ≡ some g')
        × Whole p n start g' q'
  unfolding move
  move-Whole eff_mask start g q (Move.produce arrival timestamp) i v =
      producer_move-Whole p eff_mask start g q g.machine.producer arrival timestamp i v refl
  move-Whole eff_mask start g q (Move.consume_next now clock drawn) i v =
      let (g', q', e, i', stepped) =
        consumer_move-Whole start g q g.machine.consumer now clock drawn i refl in
      (g', q', e, i')

  pub run_system-from :
      {n : ℕ} (eff_mask : ℕ) (start : CanParser p) (g : System p) (q : List CanFrame)
      (moves : List (Move p))
      → Whole p n start g q
      → All IsMove moves
      → (g' : System p) × (q' : List CanFrame) × (run_system p eff_mask g moves ≡ some g')
        × Whole p n start g' q'
  unfolding run_system
  run_system-from eff_mask start g q [] i v = (g, q, refl, i)
  run_system-from eff_mask start g q (t ∷ rest) i v =
      let (g1, q1, e1, i1) = move-Whole eff_mask start g q t i v.0 in
      let (g2, q2, e2, i2) = run_system-from eff_mask start g1 q1 rest i1 v.1 in
      (g2, q2, simp (e1, e2), i2)

  pub new_system-Whole :
      (size : ℕ) (garbage : CanFrame) (parser : CanParser p)
      → size < 2 ^ 32
      → Ready p parser
      → Whole p (if size == 0 then 1 else size) parser (new_system p size garbage parser) []
  unfolding new_system new_machine
  new_system-Whole size garbage parser w ready = record {
    inv = new_machine-Inv size garbage w;
    payloads = tt;
    carried = tt;
    ready = ready;
    frames = refl;
    handled = refl;
    counted = omega arith;
  }

  -- Let the producer's and the consumer's accesses to a new ring, whose size is a `uint32_t`, be
  -- interleaved in any order, with payloads of eight bytes, and let the parser's messages have
  -- fields that can be read and its diagnostic mode be off. Then the run has defined behaviour. At
  -- any moment the frames that were pushed are those that the parser has handled, once each and in
  -- their order, followed by fewer than `max 1 size` that wait; the parser and what was shown are
  -- what comes of handling just these frames one after another; and, modulo 2 ^ 64, the frames
  -- received are those pushed, those dropped and the one that is being pushed.
  pub run_system-Whole :
      (eff_mask size : ℕ) (garbage : CanFrame) (parser : CanParser p) (moves : List (Move p))
      → size < 2 ^ 32
      → Ready p parser
      → All IsMove moves
      → (g : System p) × (queue : List CanFrame) × (run_system p eff_mask
            (new_system p size garbage parser)
            moves
          ≡ some g)
        × (g.machine.sent ≡ map (λ (t : Taking p). t.frame) g.taken ++ queue)
        × (length queue < (if size == 0 then 1 else size))
        × (take_all p (some (parser, [])) g.taken ≡ some (g.parser, g.log))
        × (g.total_received
            ≡ (length g.machine.sent + g.total_dropped + in_flight p g.machine.producer) % 2 ^ 64)
  run_system-Whole eff_mask size garbage parser moves w ready v =
      let (g, queue, e, i) =
        run_system-from eff_mask parser (new_system p size garbage parser) [] moves
          (new_system-Whole size garbage parser w ready) v in
      (
        g,
        queue,
        e,
        i.inv.in_order ∙ ap (λ r. r ++ queue) (sym i.frames),
        ground (arith, i.inv.sized, i.inv.represents.room),
        i.handled,
        i.counted,
      )
