-- ===== src/Ring/Refine.antt =====
-- `RingBuffer` implements a queue that holds at most `size - 1` frames.
use can_from_scratch.Prelude.{
  ℕ, zero, suc, ◌+◌, ◌-◌, ◌^◌, ◌<◌, ◌≡◌, ◌⊎◌, inl, inr, refl, ◌∙◌, true, false, none, some, List,
  [], ◌∷◌, ◌++◌, if◌then◌else◌, ◌==◌, ltb, get_elem?, set, length, arith, Bool-cases, length-set,
  length-append, length-replicate, get_elem?-set_self, get_elem?-set_ne,
}
use can_from_scratch.Ring.{
  CanFrame, RingBuffer, new_ring, next_index, write, push, pop, is_empty, is_full,
}

-- The cell `k` places after the cell `i`.
abbrev pub cell : ℕ → ℕ → ℕ → ℕ
cell size i k = if ltb (i + k) size then i + k else (i + k) - size

-- The cells from `head` up to `tail` hold the queue.
pub record Represents (r : RingBuffer) (queue : List CanFrame) : Type 0 where
  pub fits : r.size < 2 ^ 32
  pub allocated : length r.buffer ≡ r.size
  pub head_inside : r.head < r.size
  pub room : length queue < r.size
  pub ends : r.tail ≡ cell r.size r.head (length queue)
  pub holds :
      (k : ℕ) → k < length queue → get_elem? r.buffer (cell r.size r.head k) ≡ get_elem? queue k

pub next_index_lem : (size i : ℕ) → i < size → size < 2 ^ 32 → next_index size i ≡ cell size i 1
unfolding next_index
next_index_lem size i h w = ground arith

pub get_elem?-append_last :
    (q : List CanFrame) (f : CanFrame) (k : ℕ)
    → get_elem? (q ++ f ∷ []) k ≡ (if k == length q then some f else get_elem? q k)
get_elem?-append_last [] f zero = refl
get_elem?-append_last [] f (suc k) = ground arith
get_elem?-append_last (x ∷ q) f zero = ground arith
get_elem?-append_last (x ∷ q) f (suc k) = ground (arith, get_elem?-append_last q f k)

-- A new ring is an empty queue.
pub new_ring-Represents :
    (size : ℕ) (garbage : CanFrame) → size < 2 ^ 32 → Represents (new_ring size garbage) []
unfolding new_ring
new_ring-Represents size garbage w = record {
  fits = ground arith;
  allocated = length-replicate (if size == 0 then 1 else size) garbage;
  head_inside = ground arith;
  room = ground arith;
  ends = ground arith;
  holds = λ k h. absurd (omega arith);
}

-- The ring is full exactly if the queue has `size - 1` frames, and empty exactly if it has none.
pub is_full_lem :
    (r : RingBuffer) (q : List CanFrame) → Represents r q → is_full r ≡ (length q + 1 == r.size)
unfolding is_full
is_full_lem r q w =
    ground (arith, w.fits, w.head_inside, w.room, w.ends, next_index_lem r.size r.tail)

pub is_empty_lem :
    (r : RingBuffer) (q : List CanFrame) → Represents r q → is_empty r ≡ (length q == 0)
unfolding is_empty
is_empty_lem r q w = ground (arith, w.fits, w.head_inside, w.room, w.ends)

-- The four accesses of which `push` and `pop` consist.
pub store-Represents :
    (r : RingBuffer) (q : List CanFrame) (f : CanFrame)
    → Represents r q
    → length q + 1 < r.size
    → (buffer : List CanFrame) × (write r.buffer r.tail f ≡ some buffer)
      × Represents (record r { buffer = buffer }) q
      × (get_elem? buffer r.tail ≡ some f)
unfolding write
store-Represents r q f w room =
    let inside : r.tail < r.size = ground (arith, w.head_inside, w.room, w.ends) in
    (
      set r.buffer r.tail f,
      ground (arith, inside, w.allocated),
      record {
        fits = w.fits;
        allocated = length-set r.buffer r.tail f ∙ w.allocated;
        head_inside = w.head_inside;
        room = w.room;
        ends = w.ends;
        holds = λ k h.
            get_elem?-set_ne r.buffer f (ground (arith, w.head_inside, w.room, w.ends))
            ∙ w.holds k h;
      },
      get_elem?-set_self r.buffer r.tail f (omega (arith, inside, w.allocated)),
    )

pub publish-Represents :
    (r : RingBuffer) (q : List CanFrame) (f : CanFrame)
    → Represents r q
    → length q + 1 < r.size
    → get_elem? r.buffer r.tail ≡ some f
    → Represents (record r { tail = next_index r.size r.tail }) (q ++ f ∷ [])
publish-Represents r q f w room stored =
    let more : length (q ++ f ∷ []) ≡ length q + 1 = length-append q (f ∷ []) in
    record {
      fits = w.fits;
      allocated = w.allocated;
      head_inside = w.head_inside;
      room = ground (arith, more);
      ends =
          ground (arith, more, w.fits, w.head_inside, w.room, w.ends, next_index_lem r.size r.tail);
      holds = λ k h. ground (arith, more, w.ends, w.holds k, get_elem?-append_last q f k);
    }

pub front-Represents :
    (r : RingBuffer) (q : List CanFrame) (f : CanFrame)
    → Represents r (f ∷ q)
    → get_elem? r.buffer r.head ≡ some f
front-Represents r q f w = ground (arith, w.head_inside, w.holds 0)

pub release-Represents :
    (r : RingBuffer) (q : List CanFrame) (f : CanFrame)
    → Represents r (f ∷ q)
    → Represents (record r { head = next_index r.size r.head }) q
release-Represents r q f w =
    let moved : next_index r.size r.head ≡ cell r.size r.head 1 =
      next_index_lem r.size r.head w.head_inside w.fits in
    record {
      fits = w.fits;
      allocated = w.allocated;
      head_inside = ground (arith, moved, w.head_inside, w.room);
      room = ground (arith, w.room);
      ends = ground (arith, moved, w.head_inside, w.room, w.ends);
      holds = λ k h. ground (arith, moved, w.head_inside, w.room, w.holds (suc k));
    }

-- `push` on a ring that represents a queue never leaves the buffer. If the queue has `size - 1`
-- frames it returns false and changes nothing; otherwise it returns true and the ring represents
-- the queue with the frame at its end.
pub push-Represents :
    (r : RingBuffer) (q : List CanFrame) (f : CanFrame)
    → Represents r q
    → (((length q + 1 ≡ r.size) × (push r f ≡ some (r, false)))
        ⊎ (length q + 1 < r.size)
          × (r' : RingBuffer) × (push r f ≡ some (r', true))
          × Represents r' (q ++ f ∷ []))
unfolding push is_full
push-Represents r q f w =
    let test = is_full_lem r q w in
    elim (Bool-cases (length q + 1 == r.size)) [
      | inl full ↦ inl (ground arith, ground (arith, test, full))
      | inr free ↦
          let room : length q + 1 < r.size = ground (arith, w.room) in
          let (buffer, written, w', stored) = store-Represents r q f w room in
          let r' = record r { buffer = buffer; tail = next_index r.size r.tail } in
          inr (
            room,
            r',
            ground (arith, test, free, written),
            publish-Represents (record r { buffer = buffer }) q f w' room stored,
          )
    ]

-- `pop` on a ring that represents a queue never leaves the buffer. If the queue is empty it returns
-- false and changes nothing; otherwise it hands out the first frame and the ring represents the
-- rest.
pub pop-Represents :
    (r : RingBuffer) (q : List CanFrame)
    → Represents r q
    → ((q ≡ []) × (pop r ≡ some (r, none)))
      ⊎ (f : CanFrame) × (rest : List CanFrame) × (q ≡ f ∷ rest)
        × (r' : RingBuffer) × (pop r ≡ some (r', some f))
        × Represents r' rest
unfolding pop
pop-Represents r [] w = inl (refl, ground (arith, w.ends, w.head_inside))
pop-Represents r (f ∷ q) w = inr (
  f,
  q,
  refl,
  record r { head = next_index r.size r.head },
  ground (arith, front-Represents r q f w, w.ends, w.head_inside, w.room),
  release-Represents r q f w,
)
