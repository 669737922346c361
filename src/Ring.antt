-- ===== src/Ring.antt =====
-- src/ring_buffer.cpp and include/ring_buffer.hpp: the class `RingBuffer`, which passes frames from
-- the thread that calls `push` to the thread that calls `pop`. Here a call runs on its own;
-- `Ring/Threads` interleaves the two. `none` is an access outside `m_buffer`.
pub mod Refine
pub mod Threads
use can_from_scratch.Prelude.{
  ℕ, ◌+◌, ◌%◌, ◌^◌, Bool, true, false, Option, none, some, ◌>>=◌, List, if◌then◌else◌, ◌==◌, leb,
  ltb, get_elem?, set, replicate, length,
}

-- `CANFrame`, with `data` as `payload`
pub record CanFrame : Type 0 where
  pub id : ℕ
  pub dlc : ℕ
  pub payload : List ℕ
  pub timestamp : ℕ

pub record RingBuffer : Type 0 where
  pub buffer : List CanFrame
  pub size : ℕ
  pub head : ℕ
  pub tail : ℕ

-- The constructor. The cells of `new CANFrame[m_size]` have arbitrary contents, `garbage`.
unfoldable pub new_ring : ℕ → CanFrame → RingBuffer
new_ring size garbage =
    let m_size = if size == 0 then 1 else size in
    record { buffer = replicate m_size garbage; size = m_size; head = 0; tail = 0 }

-- `i + 1`, and 0 at the end of the buffer.
unfoldable pub next_index : ℕ → ℕ → ℕ
next_index size i = let next = (i + 1) % 2 ^ 32 in if leb size next then 0 else next

-- `m_buffer[i] = frame`
unfoldable pub write : List CanFrame → ℕ → CanFrame → Option (List CanFrame)
write buffer i frame = if ltb i (length buffer) then some (set buffer i frame) else none

-- The new buffer and the returned Boolean.
unfoldable pub push : RingBuffer → CanFrame → Option (RingBuffer × Bool)
unfolding next_index write
push r frame =
    let next_tail = next_index r.size r.tail in
    if next_tail == r.head then some (r, false) else (do
      buffer ← write r.buffer r.tail frame
      some (record r { buffer = buffer; tail = next_tail }, true))

-- The new buffer and the frame that a `true` return hands out.
unfoldable pub pop : RingBuffer → Option (RingBuffer × Option CanFrame)
unfolding next_index
pop r = if r.head == r.tail then some (r, none) else (do
  frame ← get_elem? r.buffer r.head
  some (record r { head = next_index r.size r.head }, some frame))

unfoldable pub is_empty : RingBuffer → Bool
is_empty r = r.head == r.tail

unfoldable pub is_full : RingBuffer → Bool
unfolding next_index
is_full r = next_index r.size r.tail == r.head
