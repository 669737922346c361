-- ===== src/Tasks/Plain.antt =====
-- The gateway's loops over a plain bounded queue in place of the ring: the program as it is meant.
use can_from_scratch.Prelude.{
  ℕ, Option, some, ◌>>=◌, List, [], ◌∷◌, ◌++◌, length, ◌==◌, if◌then◌else◌, bit_and,
}
use can_from_scratch.Platform.{Platform}
use can_from_scratch.Ring.{CanFrame}
use can_from_scratch.Parser.{CanParser, increment}
use can_from_scratch.Tasks.{Arrival, Shown, consume, Turn}

pub record Plain (p : Platform) : Type 0 where
  pub queue : List CanFrame
  pub parser : CanParser p
  pub received : ℕ
  pub dropped : ℕ

module _ (p : Platform) (capacity : ℕ) (eff_mask : ℕ) where
  -- A frame is queued if there is room, and counted as dropped if not.
  abbrev pub plain_offer : Plain p → CanFrame → Plain p
  plain_offer s f =
      if length s.queue == capacity
      then record s { received = increment s.received; dropped = increment s.dropped }
      else record s { received = increment s.received; queue = s.queue ++ f ∷ [] }

  abbrev pub plain_arrival : Plain p → Arrival → ℕ → Plain p
  plain_arrival s Arrival.read_error timestamp = s
  plain_arrival s Arrival.other_size timestamp = s
  plain_arrival s (Arrival.raw_frame can_id dlc payload) timestamp =
      plain_offer s (record {
        id = bit_and can_id eff_mask;
        dlc = dlc;
        payload = payload;
        timestamp = timestamp;
      })

  -- The oldest frame goes to the parser.
  abbrev pub plain_take :
      Plain p
      → List CanFrame
      → p.Time
      → (ℕ → p.Time)
      → (ℕ → p.Time)
      → Option (Plain p × List (Shown p))
  plain_take s [] now clock drawn = some (s, Shown.slept ∷ [])
  plain_take s (f ∷ rest) now clock drawn = do
    (parser, shown) ← consume p s.parser f now clock drawn
    some (record s { queue = rest; parser = parser }, shown ∷ [])

  abbrev pub plain_turn : Plain p → Turn p → Option (Plain p × List (Shown p))
  plain_turn s (Turn.produce arrival timestamp) = some (plain_arrival s arrival timestamp, [])
  plain_turn s (Turn.consume_next now clock drawn) = plain_take s s.queue now clock drawn

  unfoldable pub run_plain : Plain p → List (Turn p) → Option (Plain p × List (Shown p))
  run_plain s [] = some (s, [])
  run_plain s (t ∷ rest) = do
    (s', log) ← plain_turn s t
    (s'', log') ← run_plain s' rest
    some (s'', log ++ log')
