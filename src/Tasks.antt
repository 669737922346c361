-- ===== src/Tasks.antt =====
-- src/main.cpp: the bodies of the loops of `producer_task` and `consumer_task`, which pass frames
-- from the socket through the ring to the parser, and, in `Monitor`, that of `monitor_task`. An
-- iteration of either loop is one step here; `Ring/Threads` has the interleavings within `push` and
-- `pop`.
pub mod Flow
pub mod Run
pub mod Plain
pub mod Refine
pub mod Monitor
pub mod Errors
pub mod Bounds
pub mod Lossless
pub mod Interleaved
use can_from_scratch.Prelude.{
  ℕ, ◌+◌, ◌*◌, Bool, true, false, Option, none, some, ◌>>=◌, List, [], ◌∷◌, ◌++◌, ◌==◌, bit_and,
  leb, if◌then◌else◌,
}
use can_from_scratch.Platform.{Platform}
use can_from_scratch.Uds.{Output}
use can_from_scratch.Ring.{CanFrame, RingBuffer, push, pop}
use can_from_scratch.Screen.{Dashboard, render_dashboard}
use can_from_scratch.Parser.{CanParser, increment, increment_frame, has_message, handle_frame}

-- What the threads share: the ring, the consumer's parser, and the two global counters.
pub record Gateway (p : Platform) : Type 0 where
  pub ring : RingBuffer
  pub parser : CanParser p
  pub total_received : ℕ
  pub total_dropped : ℕ

-- What `read` gives: an error, a number of bytes that is not a frame's, or a `can_frame`.
pub data Arrival : Type 0 where
  read_error other_size : Arrival
  raw_frame : (can_id dlc : ℕ) (payload : List ℕ) → Arrival

-- What an iteration of the consumer does besides.
pub data Shown (p : Platform) : Type 0 where
  slept quiet : Shown p
  rendered : List Output → Dashboard p → Shown p

module _ (p : Platform) where
  -- The frame is pushed, or counted as dropped.
  unfoldable pub offer : Gateway p → CanFrame → Option (Gateway p)
  offer g frame = do
    (ring, pushed) ← push g.ring frame
    some (record g {
      ring = ring;
      total_dropped = if pushed then g.total_dropped else increment g.total_dropped;
    })

  -- `eff_mask` is `CAN_EFF_MASK` of <linux/can.h>, and `timestamp` the reading of the system clock.
  unfoldable pub producer_task :
      (eff_mask : ℕ) → Gateway p → Arrival → (timestamp : ℕ) → Option (Gateway p)
  unfolding offer
  producer_task eff_mask g Arrival.read_error timestamp = some g
  producer_task eff_mask g Arrival.other_size timestamp = some g
  producer_task eff_mask g (Arrival.raw_frame can_id dlc payload) timestamp =
      offer (record g { total_received = increment g.total_received })
        (record {
          id = bit_and can_id eff_mask;
          dlc = dlc;
          payload = payload;
          timestamp = timestamp;
        })

  -- The part of `consumer_task` for a frame that was popped. `handleFrame` reads the clock as `now`
  -- and `clock`, and the dashboard is drawn with the readings `drawn`.
  unfoldable pub consume :
      CanParser p → CanFrame → p.Time → (ℕ → p.Time) → (ℕ → p.Time) → Option (CanParser p × Shown p)
  consume parser frame now clock drawn =
      let display_divider : ℕ = 0 in
      let s = increment_frame p parser in
      if has_message p s frame.id
      then (do
        (s', out) ← handle_frame p s frame.id frame.payload now clock
        some (s', Shown.rendered out (render_dashboard p s' frame.timestamp drawn)))
      else some (
        s,
        if leb 5000 (display_divider + 1)
            then Shown.rendered [] (render_dashboard p s frame.timestamp drawn)
            else Shown.quiet,
      )

  unfoldable pub on_popped :
      Gateway p
      → Option CanFrame
      → p.Time
      → (ℕ → p.Time)
      → (ℕ → p.Time)
      → Option (Gateway p × Shown p)
  unfolding consume
  on_popped g none now clock drawn = some (g, Shown.slept)
  on_popped g (some frame) now clock drawn = do
    (parser, shown) ← consume g.parser frame now clock drawn
    some (record g { parser = parser }, shown)

  unfoldable pub consumer_task :
      Gateway p → p.Time → (ℕ → p.Time) → (ℕ → p.Time) → Option (Gateway p × Shown p)
  unfolding on_popped
  consumer_task g now clock drawn = do
    (ring, popped) ← pop g.ring
    on_popped (record g { ring = ring }) popped now clock drawn

  -- One iteration of either loop.
  pub data Turn : Type 0 where
    produce : (arrival : Arrival) (timestamp : ℕ) → Turn
    consume_next : (now : p.Time) (clock : ℕ → p.Time) (drawn : ℕ → p.Time) → Turn

  -- The consumer's iterations are logged by what they show.
  unfoldable pub turn : (eff_mask : ℕ) → Gateway p → Turn → Option (Gateway p × List (Shown p))
  unfolding producer_task consumer_task
  turn eff_mask g (Turn.produce arrival timestamp) = do
    g' ← producer_task eff_mask g arrival timestamp
    some (g', [])
  turn eff_mask g (Turn.consume_next now clock drawn) = do
    (g', shown) ← consumer_task g now clock drawn
    some (g', shown ∷ [])

  unfoldable pub run_tasks :
      (eff_mask : ℕ) → Gateway p → List Turn → Option (Gateway p × List (Shown p))
  unfolding turn
  run_tasks eff_mask g [] = some (g, [])
  run_tasks eff_mask g (t ∷ rest) = do
    (g', log) ← turn eff_mask g t
    (g'', log') ← run_tasks eff_mask g' rest
    some (g'', log ++ log')
