-- ===== src/Tasks/Interleaved/Producing.antt =====
-- What an interleaved run keeps, and that the accesses of the producer keep it.
use mathlib.Core.Path.{subst}
use can_from_scratch.Prelude.{
  ℕ, ◌+◌, ◌%◌, ◌^◌, ◌≡◌, refl, ap, sym, ◌∙◌, Bool, true, false, Option, some, ◌>>=◌, List, [], ◌∷◌,
  ◌++◌, bit_and, ◌==◌, if◌then◌else◌, length, map, All, arith, length-append,
}
use can_from_scratch.Frame.{IsFrame}
use can_from_scratch.Platform.{Platform}
use can_from_scratch.Ring.{CanFrame, next_index}
use can_from_scratch.Ring.Threads.{Producer, Machine, push_step}
use can_from_scratch.Ring.Threads.Inv.{Inv, ProducerReady}
use can_from_scratch.Ring.Threads.Fifo.{push_step-Inv}
use can_from_scratch.Parser.{CanParser, increment}
use can_from_scratch.Tasks.{Arrival, Shown, consume}
use can_from_scratch.Tasks.Flow.{All-append_last, IsArrival, Ready}
use can_from_scratch.Tasks.Interleaved.{Taking, System, start_push, producer_move}

module _ (p : Platform) where
  -- The parser handles one frame more, or the frames of a list, and what it shows is logged.
  abbrev pub take_one :
      Option (CanParser p × List (Shown p)) → Taking p → Option (CanParser p × List (Shown p))
  take_one r t = do
    (s, log) ← r
    (s', shown) ← consume p s t.frame t.now t.clock t.drawn
    some (s', log ++ shown ∷ [])

  abbrev pub take_all :
      Option (CanParser p × List (Shown p))
      → List (Taking p)
      → Option (CanParser p × List (Shown p))
  take_all r [] = r
  take_all r (t ∷ rest) = take_all (take_one r t) rest

  pub take_all-append :
      (r : Option (CanParser p × List (Shown p))) (ts : List (Taking p)) (t : Taking p)
      → take_all r (ts ++ t ∷ []) ≡ take_one (take_all r ts) t
  take_all-append r [] t = refl
  take_all-append r (x ∷ ts) t = take_all-append (take_one r x) ts t

  -- A frame that is being pushed.
  abbrev pub Carries : Producer → Type 0
  Carries Producer.ready = Unit
  Carries (Producer.checking frame head) = IsFrame frame.payload
  Carries (Producer.writing frame tail) = IsFrame frame.payload
  Carries (Producer.publishing frame tail) = IsFrame frame.payload

  abbrev pub in_flight : Producer → ℕ
  in_flight Producer.ready = 0
  in_flight (Producer.checking frame head) = 1
  in_flight (Producer.writing frame tail) = 1
  in_flight (Producer.publishing frame tail) = 1

  -- The ring is in order, and the parser has handled what came out of it.
  pub record Whole (n : ℕ) (start : CanParser p) (g : System p) (q : List CanFrame) : Type 0 where
    pub inv : Inv n g.machine q
    pub payloads : All (λ f. IsFrame f.payload) g.machine.sent
    pub carried : Carries g.machine.producer
    pub ready : Ready p g.parser
    pub frames : map (λ (t : Taking p). t.frame) g.taken ≡ g.machine.received
    pub handled : take_all (some (start, [])) g.taken ≡ some (g.parser, g.log)
    pub counted :
        g.total_received
        ≡ (length g.machine.sent + g.total_dropped + in_flight g.machine.producer) % 2 ^ 64

  -- What an access of the producer does to the frames.
  abbrev pub PushedFrames : Machine → Producer → CanFrame → Machine → Type 0
  PushedFrames m Producer.ready next m' =
      (m'.sent ≡ m.sent)
      × (m'.received ≡ m.received)
      × (m'.producer ≡ Producer.checking next m.ring.head)
  PushedFrames m (Producer.checking frame head) next m' =
      (m'.sent ≡ m.sent)
      × (m'.received ≡ m.received)
      × (m'.producer ≡ (
          if next_index m.ring.size m.ring.tail == head
          then Producer.ready
          else Producer.writing frame (next_index m.ring.size m.ring.tail)))
  PushedFrames m (Producer.writing frame tail) next m' =
      (m'.sent ≡ m.sent)
      × (m'.received ≡ m.received)
      × (m'.producer ≡ Producer.publishing frame tail)
  PushedFrames m (Producer.publishing frame tail) next m' =
      (m'.sent ≡ m.sent ++ frame ∷ []) × (m'.received ≡ m.received) × (m'.producer ≡ Producer.ready)

  pub push_step-frames :
      (m : Machine) (w : Producer) (next : CanFrame) {m' : Machine}
      → push_step m w next ≡ some m'
      → PushedFrames m w next m'
  unfolding push_step
  push_step-frames m Producer.ready next e = ground arith
  push_step-frames m (Producer.checking frame head) next e = ground arith
  push_step-frames m (Producer.writing frame tail) next e = ground arith
  push_step-frames m (Producer.publishing frame tail) next e = ground arith

  start_push-Whole :
      {n : ℕ} (eff_mask : ℕ) (start : CanParser p) (g : System p) (q : List CanFrame)
      (arrival : Arrival) (timestamp : ℕ)
      → Whole n start g q
      → IsArrival arrival
      → in_flight g.machine.producer ≡ 0
      → (g' : System p) × (q' : List CanFrame) × (start_push p eff_mask g arrival timestamp
          ≡ some g')
        × Whole n start g' q'
  unfolding start_push
  start_push-Whole eff_mask start g q Arrival.read_error timestamp i v z = (g, q, refl, i)
  start_push-Whole eff_mask start g q Arrival.other_size timestamp i v z = (g, q, refl, i)
  start_push-Whole eff_mask start g q (Arrival.raw_frame can_id dlc payload) timestamp i v z =
      let frame : CanFrame = record {
        id = bit_and can_id eff_mask;
        dlc = dlc;
        payload = payload;
        timestamp = timestamp;
      } in
      let (m', q', e, inv') = push_step-Inv g.machine q frame Producer.ready i.inv tt in
      let (sent, received, producer) = push_step-frames g.machine Producer.ready frame e in
      (
        record g { machine = m'; total_received = increment g.total_received },
        q',
        simp e,
        record {
          inv = inv';
          payloads = subst (All (λ f. IsFrame f.payload)) (sym sent) i.payloads;
          carried = subst Carries (sym producer) v;
          ready = i.ready;
          frames = i.frames ∙ sym received;
          handled = i.handled;
          counted = omega (arith, i.counted, z, ap length sent, ap in_flight producer);
        },
      )

  Carries-tested :
      (frame : CanFrame) (full : Bool) (tail : ℕ)
      → IsFrame frame.payload
      → Carries (if full then Producer.ready else Producer.writing frame tail)
  Carries-tested frame true tail v = tt
  Carries-tested frame false tail v = v

  pub producer_move-Whole :
      {n : ℕ} (eff_mask : ℕ) (start : CanParser p) (g : System p) (q : List CanFrame) (w : Producer)
      (arrival : Arrival) (timestamp : ℕ)
      → Whole n start g q
      → IsArrival arrival
      → g.machine.producer ≡ w
      → (g' : System p) × (q' : List CanFrame) × (producer_move p eff_mask g w arrival timestamp
          ≡ some g')
        × Whole n start g' q'
  unfolding producer_move
  producer_move-Whole eff_mask start g q Producer.ready arrival timestamp i v at =
      start_push-Whole eff_mask start g q arrival timestamp i v (ap in_flight at)
  producer_move-Whole eff_mask start g q (Producer.checking frame head) arrival timestamp i v at =
      let (m', q', e, inv') =
        push_step-Inv g.machine q frame (Producer.checking frame head) i.inv
          (subst (ProducerReady g.machine.ring q) at i.inv.producer_ready) in
      let (sent, received, producer) =
        push_step-frames g.machine (Producer.checking frame head) frame e in
      let carried : IsFrame frame.payload = subst Carries at i.carried in
      let test = next_index g.machine.ring.size g.machine.ring.tail == head in
      (
        record g {
          machine = m';
          total_dropped = if test then increment g.total_dropped else g.total_dropped;
        },
        q',
        simp e,
        record {
          inv = inv';
          payloads = subst (All (λ f. IsFrame f.payload)) (sym sent) i.payloads;
          carried = subst Carries (sym producer) (Carries-tested frame test _ carried);
          ready = i.ready;
          frames = i.frames ∙ sym received;
          handled = i.handled;
          counted =
              ground (arith, i.counted, ap length sent, ap in_flight producer, ap in_flight at);
        },
      )
  producer_move-Whole eff_mask start g q (Producer.writing frame tail) arrival timestamp i v at =
      let (m', q', e, inv') =
        push_step-Inv g.machine q frame (Producer.writing frame tail) i.inv
          (subst (ProducerReady g.machine.ring q) at i.inv.producer_ready) in
      let (sent, received, producer) =
        push_step-frames g.machine (Producer.writing frame tail) frame e in
      (
        record g { machine = m' },
        q',
        simp e,
        record {
          inv = inv';
          payloads = subst (All (λ f. IsFrame f.payload)) (sym sent) i.payloads;
          carried = subst Carries (sym producer) (subst Carries at i.carried);
          ready = i.ready;
          frames = i.frames ∙ sym received;
          handled = i.handled;
          counted =
              omega (arith, i.counted, ap length sent, ap in_flight producer, ap in_flight at);
        },
      )
  producer_move-Whole eff_mask start g q (Producer.publishing frame tail) arrival timestamp i v at =
      let (m', q', e, inv') =
        push_step-Inv g.machine q frame (Producer.publishing frame tail) i.inv
          (subst (ProducerReady g.machine.ring q) at i.inv.producer_ready) in
      let (sent, received, producer) =
        push_step-frames g.machine (Producer.publishing frame tail) frame e in
      (
        record g { machine = m' },
        q',
        simp e,
        record {
          inv = inv';
          payloads =
              subst (All (λ f. IsFrame f.payload)) (sym sent)
                (All-append_last p g.machine.sent frame i.payloads (subst Carries at i.carried));
          carried = subst Carries (sym producer) tt;
          ready = i.ready;
          frames = i.frames ∙ sym received;
          handled = i.handled;
          counted = omega (
            arith,
            i.counted,
            ap length sent,
            length-append g.machine.sent (frame ∷ []),
            ap in_flight producer,
            ap in_flight at,
          );
        },
      )
