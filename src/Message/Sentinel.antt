-- ===== src/Message/Sentinel.antt =====
-- The value 0xFF of `last_rolling_counter_` stands for "no counter yet", and is a counter of eight
-- bits too.
use can_from_scratch.Prelude.{ℕ, ◌+◌, ◌%◌, ◌^◌, ◌≡◌, ◌∙◌, ap, true, ◌||◌, some, List, ◌==◌}
use can_from_scratch.Platform.{Platform}
use can_from_scratch.Frame.{IsFrame}
use can_from_scratch.Message.{CanMessage, validate_rolling_counter, is_frame_valid, parse}
use can_from_scratch.Message.Parse.{parse-Accepted, parse-configuration}
use can_from_scratch.Message.Counter.{
  HasCounter, counter, validate_rolling_counter-eq, store_counter-eq,
}

module _ (p : Platform) (m : CanMessage p) (start len : ℕ) (frame : List ℕ)
    (clock : ℕ → p.Time) where
  parse-HasCounter :
      {m' : CanMessage p}
      → HasCounter p m start len
      → is_frame_valid p m frame ≡ some true
      → parse p m frame clock ≡ some m'
      → HasCounter p m' start len
  parse-HasCounter {m'} h valid e =
      let same = parse-configuration p m frame clock valid e in
      record {
        at_start = ap (λ (x : CanMessage p). x.rolling_counter_start) same ∙ h.at_start;
        at_length = ap (λ (x : CanMessage p). x.rolling_counter_length) same ∙ h.at_length;
        nonempty = h.nonempty;
        narrow = h.narrow;
        inside = h.inside;
      }

  parse-counter :
      {m' : CanMessage p}
      → HasCounter p m start len
      → IsFrame frame
      → is_frame_valid p m frame ≡ some true
      → parse p m frame clock ≡ some m'
      → m'.last_rolling_counter ≡ counter p frame start len
  parse-counter h v valid e =
      let a = parse-Accepted p m frame clock valid e in
      cc (a.result, a.counter_stored, store_counter-eq p m start len frame h v)

  -- After a message with a counter of 1 to 8 bits in the frame accepts an eight-byte frame, it
  -- accepts the counter of the next one exactly if the accepted frame's counter was 0xFF or the
  -- next one is that counter plus the increment, modulo 2 to the counter's length.
  pub counter_sequence :
      (next : List ℕ) {m' : CanMessage p}
      → HasCounter p m start len
      → IsFrame frame
      → IsFrame next
      → is_frame_valid p m frame ≡ some true
      → parse p m frame clock ≡ some m'
      → validate_rolling_counter p m' next
        ≡ some (
            counter p frame start len == 0xFF
            || counter p next start len
              == (counter p frame start len + m.expected_increment) % 2 ^ len)
  counter_sequence next {m'} h v w valid e =
      let same = parse-configuration p m frame clock valid e in
      let here = validate_rolling_counter-eq p m' start len next (parse-HasCounter h valid e) w in
      cc (here, parse-counter h v valid e, ap (λ (x : CanMessage p). x.expected_increment) same)
