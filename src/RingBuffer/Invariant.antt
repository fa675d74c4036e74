-- ===== src/RingBuffer/Invariant.antt =====
-- The representation invariant of `CRingBuffer`, its sizes, and the runs of cells that a call uses.
use login_server_chat.Prelude.{
  min, ltb, if◌then◌else◌, true, ◌-◌, ℕ, ◌+◌, ◌-◌, ◌%◌, ◌≤◌, ◌<◌, ltb, if◌then◌else◌, List, length,
  min, length-take, mod_round, ◌≡◌, ◌≢◌, arith, true,
}
use login_server_chat.RingBuffer.{
  Ring, with_size, get_buffer_size, get_use_size, get_free_size, direct_enqueue_size,
  direct_dequeue_size, enqueue_run, dequeue_run,
}

pub record IsValid (r : Ring) : Type 0 where
  pub front_pos : 0 < r.front_next
  pub front_in : r.front_next ≤ r.total_size
  pub rear_pos : 0 < r.rear_next
  pub rear_in : r.rear_next ≤ r.total_size
  pub cells : length r.buffer ≡ r.total_size

pub with_size-IsValid :
    (cells : List ℕ) (size : ℕ)
    → size + 1 ≤ length cells
    → IsValid (with_size cells size) × (get_use_size (with_size cells size) ≡ 0)
unfolding with_size get_use_size
with_size-IsValid cells size h = omega (arith, length-take (size + 1) cells)

-- The bytes in use and the free bytes make up the buffer size, and one cell stays free.
pub use-add-free : {r : Ring} → IsValid r → get_use_size r + get_free_size r ≡ get_buffer_size r
unfolding get_use_size get_free_size get_buffer_size
use-add-free v = ground arith

-- The write position lies as many cells behind the read position as there are bytes in use.
pub rear_lem :
    {r : Ring}
    → IsValid r
    → r.rear_next % r.total_size ≡ (r.front_next % r.total_size + get_use_size r) % r.total_size
unfolding get_use_size
rear_lem {r} v = ground (
  arith,
  mod_round r.rear_next r.total_size,
  mod_round r.front_next r.total_size,
  mod_round (r.front_next % r.total_size + get_use_size r) r.total_size,
)

-- What the call knows of the free cells when the ring is not full.
pub record Writable (r : Ring) (rear run : ℕ) : Type 0 where
  pub run_pos : 0 < run
  pub run_fits : rear + run ≤ r.total_size
  pub run_free : run ≤ get_free_size r
  pub last : (rear + run) % r.total_size + 1 ≡ r.front_next → run ≡ get_free_size r
  pub wraps :
      (rear + run) % r.total_size + 1 ≢ r.front_next
      → ((rear + run) % r.total_size ≡ 0)
        × (run + enqueue_run run r.front_next 0 r.total_size ≡ get_free_size r)
        × (run < get_free_size r)

-- The run is what `DirectEnqueueSize` returns.
pub enqueue_run_lem :
    {r : Ring}
    → IsValid r
    → enqueue_run 0 r.front_next (r.rear_next % r.total_size) r.total_size ≡ direct_enqueue_size r
unfolding enqueue_run direct_enqueue_size
enqueue_run_lem v = ground arith

pub Writable_lem :
    {r : Ring}
    → IsValid r
    → r.front_next ≢ r.rear_next % r.total_size + 1
    → Writable r
        (r.rear_next % r.total_size)
        (enqueue_run 0 r.front_next (r.rear_next % r.total_size) r.total_size)
unfolding enqueue_run get_free_size
Writable_lem {r} v h = record {
  run_pos = ground (arith, mod_round r.rear_next r.total_size);
  run_fits = ground (arith, mod_round r.rear_next r.total_size);
  run_free = ground (arith, mod_round r.rear_next r.total_size);
  last = λ e. ground (arith, mod_round r.rear_next t, mod_round (rear + run) t);
  wraps = λ ne. ground (arith, mod_round r.rear_next t, mod_round (rear + run) t);
}
  where
    t : ℕ
    t = r.total_size

    rear : ℕ
    rear = r.rear_next % r.total_size

    run : ℕ
    run = enqueue_run 0 r.front_next rear r.total_size

-- A ring is full exactly when no byte is free.
pub full_iff :
    {r : Ring} → IsValid r → r.front_next ≡ r.rear_next % r.total_size + 1 → get_free_size r ≡ 0
unfolding get_free_size
full_iff v h = grind arith

-- What the call knows of the filled cells when the ring is not empty.
pub record Readable (r : Ring) (front run : ℕ) : Type 0 where
  pub run_pos : 0 < run
  pub run_fits : front + run ≤ r.total_size
  pub run_used : run ≤ get_use_size r
  pub last : r.rear_next ≡ front + run → run ≡ get_use_size r
  pub wraps :
      r.rear_next ≢ front + run
      → ((front + run) % r.total_size ≡ 0)
        × (run + dequeue_run 0 r.rear_next r.total_size ≡ get_use_size r)
        × (run < get_use_size r)

-- The run is what `DirectDequeueSize` returns.
pub dequeue_run_lem :
    (r : Ring)
    → r.rear_next ≢ r.front_next
    → dequeue_run (r.front_next % r.total_size) r.rear_next r.total_size ≡ direct_dequeue_size r
unfolding dequeue_run direct_dequeue_size
dequeue_run_lem r h = ground arith

pub Readable_lem :
    {r : Ring}
    → IsValid r
    → r.rear_next ≢ r.front_next
    → Readable r
        (r.front_next % r.total_size)
        (dequeue_run (r.front_next % r.total_size) r.rear_next r.total_size)
unfolding dequeue_run get_use_size
Readable_lem {r} v h = record {
  run_pos = ground (arith, mod_round r.front_next t);
  run_fits = ground (arith, mod_round r.front_next t);
  run_used = ground (arith, mod_round r.front_next t);
  last = λ e. ground (arith, mod_round r.front_next t, mod_round (front + run) t);
  wraps = λ ne. ground (arith, mod_round r.front_next t, mod_round (front + run) t);
}
  where
    t : ℕ
    t = r.total_size

    front : ℕ
    front = r.front_next % r.total_size

    run : ℕ
    run = dequeue_run front r.rear_next r.total_size

pub use_pos : {r : Ring} → IsValid r → r.rear_next ≢ r.front_next → 0 < get_use_size r
unfolding get_use_size
use_pos v h = ground arith

pub use_empty : (r : Ring) → r.rear_next ≡ r.front_next → get_use_size r ≡ 0
unfolding get_use_size
use_empty r h = ground arith

-- The second of two runs takes what is left of the size, as far as it goes.
pub left_lem :
    (run run' size whole : ℕ)
    → ltb run size ≡ true
    → run < whole
    → run + run' ≡ whole
    → let left = (if ltb run' (size - run) then run' else size - run) in
      (0 < left) × (run + left ≤ whole) × (run + left ≤ size) × (run + left ≡ min size whole)
left_lem run run' size whole more less e = ground arith
