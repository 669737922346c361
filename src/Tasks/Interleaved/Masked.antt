-- ===== src/Tasks/Interleaved/Masked.antt =====
-- The identifiers that come out of the ring: `CAN_EFF_MASK` keeps 29 bits.
use mathlib.Core.Path.{subst}
use mathlib.Core.Option.{some-injective}
use can_from_scratch.Prelude.{
  ℕ, ◌-◌, ◌^◌, ◌<◌, ◌≡◌, refl, sym, Bool, true, false, some, List, [], ◌∷◌, ◌++◌, bit_and,
  if◌then◌else◌, All, arith, >>=-eq-some,
}
use can_from_scratch.Bits.{bit_and_mask}
use can_from_scratch.Platform.{Platform}
use can_from_scratch.Ring.{CanFrame}
use can_from_scratch.Ring.Threads.{Producer, Consumer, Machine, new_machine, push_step, pop_step}
use can_from_scratch.Parser.{CanParser}
use can_from_scratch.Tasks.{Arrival, consume}
use can_from_scratch.Tasks.Interleaved.{
  System, new_system, start_push, producer_move, consumer_move, Move, move, run_system,
}
use can_from_scratch.Tasks.Interleaved.Producing.{push_step-frames}
use can_from_scratch.Tasks.Interleaved.Order.{pop_step-frames}

abbrev pub can_eff_mask : ℕ
can_eff_mask = 2 ^ 29 - 1

abbrev pub HasShortId : CanFrame → Type 0
HasShortId f = f.id < 2 ^ 29

masked-lt : (can_id : ℕ) → bit_and can_id can_eff_mask < 2 ^ 29
masked-lt can_id = omega (arith, bit_and_mask 29 can_id)

abbrev CarriesShortId : Producer → Type 0
CarriesShortId Producer.ready = Unit
CarriesShortId (Producer.checking frame head) = HasShortId frame
CarriesShortId (Producer.writing frame tail) = HasShortId frame
CarriesShortId (Producer.publishing frame tail) = HasShortId frame

All-append :
    (xs : List CanFrame) (f : CanFrame)
    → All HasShortId xs
    → HasShortId f
    → All HasShortId (xs ++ f ∷ [])
All-append [] f h v = (v, tt)
All-append (x ∷ xs) f h v = (h.0, All-append xs f h.1 v)

tested :
    (full : Bool) (frame : CanFrame) (tail : ℕ)
    → HasShortId frame
    → CarriesShortId (if full then Producer.ready else Producer.writing frame tail)
tested true frame tail v = tt
tested false frame tail v = v

module _ (p : Platform) where
  pub record ShortIds (m : Machine) : Type 0 where
    pub sent : All HasShortId m.sent
    pub carried : CarriesShortId m.producer

  result-ShortIds : {g g' : System p} → some g ≡ some g' → ShortIds g.machine → ShortIds g'.machine
  result-ShortIds e i = subst (λ (x : System p). ShortIds x.machine) (some-injective _ _ e) i

  push_step-ShortIds :
      (m : Machine) (w : Producer) (next : CanFrame) {m' : Machine}
      → ShortIds m
      → m.producer ≡ w
      → HasShortId next
      → push_step m w next ≡ some m'
      → ShortIds m'
  push_step-ShortIds m Producer.ready next i at v e =
      let (sent, received, producer) = push_step-frames p m Producer.ready next e in
      record {
        sent = subst (All HasShortId) (sym sent) i.sent;
        carried = subst CarriesShortId (sym producer) v;
      }
  push_step-ShortIds m (Producer.checking frame head) next i at v e =
      let (sent, received, producer) = push_step-frames p m (Producer.checking frame head) next e in
      record {
        sent = subst (All HasShortId) (sym sent) i.sent;
        carried =
            subst CarriesShortId (sym producer)
              (tested _ frame _ (subst CarriesShortId at i.carried));
      }
  push_step-ShortIds m (Producer.writing frame tail) next i at v e =
      let (sent, received, producer) = push_step-frames p m (Producer.writing frame tail) next e in
      record {
        sent = subst (All HasShortId) (sym sent) i.sent;
        carried = subst CarriesShortId (sym producer) (subst CarriesShortId at i.carried);
      }
  push_step-ShortIds m (Producer.publishing frame tail) next i at v e =
      let (sent, received, producer) =
        push_step-frames p m (Producer.publishing frame tail) next e in
      record {
        sent =
            subst (All HasShortId) (sym sent)
              (All-append m.sent frame i.sent (subst CarriesShortId at i.carried));
        carried = subst CarriesShortId (sym producer) tt;
      }

  producer_move-ShortIds :
      (g : System p) (w : Producer) (arrival : Arrival) (timestamp : ℕ) {g' : System p}
      → ShortIds g.machine
      → g.machine.producer ≡ w
      → producer_move p can_eff_mask g w arrival timestamp ≡ some g'
      → ShortIds g'.machine
  unfolding producer_move start_push
  producer_move-ShortIds g Producer.ready Arrival.read_error timestamp i at e = result-ShortIds e i
  producer_move-ShortIds g Producer.ready Arrival.other_size timestamp i at e = result-ShortIds e i
  producer_move-ShortIds g Producer.ready (Arrival.raw_frame can_id dlc payload) timestamp i at e =
      let frame : CanFrame = record {
        id = bit_and can_id can_eff_mask;
        dlc = dlc;
        payload = payload;
        timestamp = timestamp;
      } in
      let (m', stepped, last) = >>=-eq-some (push_step g.machine Producer.ready frame) _ e in
      result-ShortIds last
        (push_step-ShortIds g.machine Producer.ready frame i at (masked-lt can_id) stepped)
  producer_move-ShortIds g (Producer.checking frame head) arrival timestamp i at e =
      let w = Producer.checking frame head in
      let (m', stepped, last) = >>=-eq-some (push_step g.machine w frame) _ e in
      result-ShortIds last
        (push_step-ShortIds g.machine w frame i at (subst CarriesShortId at i.carried) stepped)
  producer_move-ShortIds g (Producer.writing frame tail) arrival timestamp i at e =
      let w = Producer.writing frame tail in
      let (m', stepped, last) = >>=-eq-some (push_step g.machine w frame) _ e in
      result-ShortIds last
        (push_step-ShortIds g.machine w frame i at (subst CarriesShortId at i.carried) stepped)
  producer_move-ShortIds g (Producer.publishing frame tail) arrival timestamp i at e =
      let w = Producer.publishing frame tail in
      let (m', stepped, last) = >>=-eq-some (push_step g.machine w frame) _ e in
      result-ShortIds last
        (push_step-ShortIds g.machine w frame i at (subst CarriesShortId at i.carried) stepped)

  -- The consumer's accesses leave the frames pushed and the producer alone.
  pop_step-ShortIds :
      (m : Machine) (c : Consumer) {m' : Machine}
      → ShortIds m
      → pop_step m c ≡ some m'
      → ShortIds m'
  pop_step-ShortIds m c i e =
      let (sent, producer, received) = pop_step-frames p m c e in
      record {
        sent = subst (All HasShortId) (sym sent) i.sent;
        carried = subst CarriesShortId (sym producer) i.carried;
      }

  consumer_move-ShortIds :
      (g : System p) (c : Consumer) (now : p.Time) (clock : ℕ → p.Time) (drawn : ℕ → p.Time)
      {g' : System p}
      → ShortIds g.machine
      → consumer_move p g c now clock drawn ≡ some g'
      → ShortIds g'.machine
  unfolding consumer_move
  consumer_move-ShortIds g (Consumer.releasing frame head) now clock drawn i e =
      let c = Consumer.releasing frame head in
      let (m', stepped, rest) = >>=-eq-some (pop_step g.machine c) _ e in
      let (r, handled, last) = >>=-eq-some (consume p g.parser frame now clock drawn) _ rest in
      result-ShortIds last (pop_step-ShortIds g.machine c i stepped)
  consumer_move-ShortIds g Consumer.ready now clock drawn i e =
      let (m', stepped, last) = >>=-eq-some (pop_step g.machine Consumer.ready) _ e in
      result-ShortIds last (pop_step-ShortIds g.machine Consumer.ready i stepped)
  consumer_move-ShortIds g (Consumer.checking tail) now clock drawn i e =
      let (m', stepped, last) = >>=-eq-some (pop_step g.machine (Consumer.checking tail)) _ e in
      result-ShortIds last (pop_step-ShortIds g.machine (Consumer.checking tail) i stepped)
  consumer_move-ShortIds g (Consumer.copying head) now clock drawn i e =
      let (m', stepped, last) = >>=-eq-some (pop_step g.machine (Consumer.copying head)) _ e in
      result-ShortIds last (pop_step-ShortIds g.machine (Consumer.copying head) i stepped)

  move-ShortIds :
      (g : System p) (t : Move p) {g' : System p}
      → ShortIds g.machine
      → move p can_eff_mask g t ≡ some g'
      → ShortIds g'.machine
  unfolding move
  move-ShortIds g (Move.produce arrival timestamp) i e =
      producer_move-ShortIds g g.machine.producer arrival timestamp i refl e
  move-ShortIds g (Move.consume_next now clock drawn) i e =
      consumer_move-ShortIds g g.machine.consumer now clock drawn i e

  pub run_system-ShortIds :
      (g : System p) (moves : List (Move p)) {g' : System p}
      → ShortIds g.machine
      → run_system p can_eff_mask g moves ≡ some g'
      → ShortIds g'.machine
  unfolding run_system
  run_system-ShortIds g [] i e = result-ShortIds e i
  run_system-ShortIds g (t ∷ rest) i e =
      let (g1, moved, later) = >>=-eq-some (move p can_eff_mask g t) _ e in
      run_system-ShortIds g1 rest (move-ShortIds g t i moved) later

  pub new_system-ShortIds :
      (size : ℕ) (garbage : CanFrame) (parser : CanParser p)
      → ShortIds (new_system p size garbage parser).machine
  unfolding new_system new_machine
  new_system-ShortIds size garbage parser = record { sent = tt; carried = tt }
