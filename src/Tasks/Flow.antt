-- ===== src/Tasks/Flow.antt =====
-- What becomes of the frames that the producer reads.
use can_from_scratch.Prelude.{
  ℕ, suc, ◌+◌, ◌%◌, ◌^◌, ◌≡◌, refl, inl, inr, false, ◌&&◌, some, List, [], ◌∷◌, ◌++◌, length, All,
  arith, Bool-cases, length-append,
}
use can_from_scratch.Frame.{IsFrame}
use can_from_scratch.Platform.{Platform}
use can_from_scratch.Ring.{CanFrame}
use can_from_scratch.Ring.Refine.{Represents, push-Represents}
use can_from_scratch.Screen.{render_dashboard}
use can_from_scratch.Parser.{CanParser, increment, is_diagnostic, increment_frame, has_message}
use can_from_scratch.Parser.Accounting.{handle_frame-Counted}
use can_from_scratch.Parser.Safety.{IsSafe, handle_frame-IsSafe}
use can_from_scratch.Tasks.{Gateway, Arrival, Shown, offer, consume, Turn}

-- The iterations that popped a frame, and those among them that handed it to the parser.
abbrev pub taken : {p : Platform} → List (Shown p) → ℕ
taken [] = 0
taken (Shown.slept ∷ rest) = taken rest
taken (Shown.quiet ∷ rest) = suc (taken rest)
taken (Shown.rendered out dashboard ∷ rest) = suc (taken rest)

abbrev pub parsed : {p : Platform} → List (Shown p) → ℕ
parsed [] = 0
parsed (Shown.slept ∷ rest) = parsed rest
parsed (Shown.quiet ∷ rest) = parsed rest
parsed (Shown.rendered out dashboard ∷ rest) = suc (parsed rest)

pub taken-append : {p : Platform} (xs ys : List (Shown p)) → taken (xs ++ ys) ≡ taken xs + taken ys
taken-append [] ys = omega arith
taken-append (Shown.slept ∷ rest) ys = taken-append rest ys
taken-append (Shown.quiet ∷ rest) ys = omega (arith, taken-append rest ys)
taken-append (Shown.rendered out dashboard ∷ rest) ys = omega (arith, taken-append rest ys)

pub parsed-append :
    {p : Platform} (xs ys : List (Shown p)) → parsed (xs ++ ys) ≡ parsed xs + parsed ys
parsed-append [] ys = omega arith
parsed-append (Shown.slept ∷ rest) ys = parsed-append rest ys
parsed-append (Shown.quiet ∷ rest) ys = parsed-append rest ys
parsed-append (Shown.rendered out dashboard ∷ rest) ys = omega (arith, parsed-append rest ys)

abbrev pub IsArrival : Arrival → Type 0
IsArrival (Arrival.raw_frame can_id dlc payload) = IsFrame payload
IsArrival _ = Unit

module _ (p : Platform) where
  abbrev pub IsTurn : Turn p → Type 0
  IsTurn (Turn.produce arrival timestamp) = IsArrival arrival
  IsTurn (Turn.consume_next now clock drawn) = Unit

  -- The parser can take every frame.
  pub record Ready (s : CanParser p) : Type 0 where
    pub safe : IsSafe p s
    pub no_diagnosis : s.diagnostic_mode_enabled ≡ false

  -- Every frame read is dropped, in the ring, or was popped by an iteration of the log; the parser
  -- counts one that it is handed twice in its total and once as valid or invalid, and any other
  -- once in its total.
  pub record Flow (g : Gateway p) (q : List CanFrame) (log : List (Shown p)) : Type 0 where
    pub represents : Represents g.ring q
    pub payloads : All (λ f. IsFrame f.payload) q
    pub ready : Ready g.parser
    pub received : g.total_received ≡ (g.total_dropped + length q + taken log) % 2 ^ 64
    pub total : g.parser.total_frames ≡ (taken log + parsed log) % 2 ^ 64
    pub judged : (g.parser.valid_frames + g.parser.invalid_frames) % 2 ^ 64 ≡ parsed log % 2 ^ 64

  pub All-append_last :
      (q : List CanFrame) (f : CanFrame)
      → All (λ x. IsFrame x.payload) q
      → IsFrame f.payload
      → All (λ x. IsFrame x.payload) (q ++ f ∷ [])
  All-append_last [] f h v = (v, tt)
  All-append_last (x ∷ q) f h v = (h.0, All-append_last q f h.1 v)

  pub offer-Flow :
      (g : Gateway p) (q : List CanFrame) (log : List (Shown p)) (f : CanFrame)
      → Flow g q log
      → IsFrame f.payload
      → (g' : Gateway p) × (q' : List CanFrame) × (offer p
            (record g { total_received = increment g.total_received })
            f
          ≡ some g')
        × Flow g' q' log
  unfolding offer
  offer-Flow g q log f i v = elim (push-Represents g.ring q f i.represents) [
    | inl (full, e) ↦ (
      record g {
        total_received = increment g.total_received;
        total_dropped = increment g.total_dropped;
      },
      q,
      simp e,
      record {
        represents = i.represents;
        payloads = i.payloads;
        ready = i.ready;
        received = ground (arith, i.received);
        total = i.total;
        judged = i.judged;
      },
    )
    | inr (room, ring, e, rep) ↦ (
      record g { ring = ring; total_received = increment g.total_received },
      q ++ f ∷ [],
      simp e,
      record {
        represents = rep;
        payloads = All-append_last q f i.payloads v;
        ready = i.ready;
        received = ground (arith, i.received, length-append q (f ∷ []));
        total = i.total;
        judged = i.judged;
      },
    )
  ]

  -- What the parser counts for a frame that was popped.
  pub record Taken (s s' : CanParser p) (shown : Shown p) : Type 0 where
    pub ready : Ready s'
    pub one : taken (shown ∷ []) ≡ 1
    pub total : s'.total_frames ≡ (s.total_frames + 1 + parsed (shown ∷ [])) % 2 ^ 64
    pub judged :
        (s'.valid_frames + s'.invalid_frames) % 2 ^ 64
        ≡ (s.valid_frames + s.invalid_frames + parsed (shown ∷ [])) % 2 ^ 64

  pub consume-Taken :
      (parser : CanParser p) (f : CanFrame) (now : p.Time) (clock : ℕ → p.Time) (drawn : ℕ → p.Time)
      → IsFrame f.payload
      → Ready parser
      → (s : CanParser p) × (shown : Shown p) × (consume p parser f now clock drawn
          ≡ some (s, shown))
        × Taken parser s shown
  unfolding consume increment_frame
  consume-Taken parser f now clock drawn v ready =
      let s : CanParser p = increment_frame p parser in
      let off : (parser.diagnostic_mode_enabled && is_diagnostic f.id) ≡ false =
        rw ready.no_diagnosis in
      let (s', out, e, safe) =
        handle_frame-IsSafe f.payload v p f.id clock s now ready.safe (λ on fault. ground arith) in
      let counts = handle_frame-Counted p f.id f.payload clock s now e in
      elim (Bool-cases (has_message p s f.id)) [
        | inl known ↦ (
          s',
          Shown.rendered out (render_dashboard p s' f.timestamp drawn),
          simp (known, e),
          record {
            ready = record {
              safe = safe;
              no_diagnosis = ground (arith, off, counts, ready.no_diagnosis);
            };
            one = refl;
            total = ground (arith, off, counts);
            judged = ground (arith, off, counts);
          },
        )
        | inr unknown ↦ (
          s,
          Shown.quiet,
          simp unknown,
          record {
            ready = record { safe = ready.safe; no_diagnosis = ready.no_diagnosis };
            one = refl;
            total = ground arith;
            judged = ground arith;
          },
        )
      ]
