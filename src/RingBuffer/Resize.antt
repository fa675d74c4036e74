-- ===== src/RingBuffer/Resize.antt =====
-- `Resize`, and the calls with size 0.
use native.Mathlib.Nat.{mod-eq_of_lt, zero-add}
use native.Mathlib.Decide.{dec_lt}
use login_server_chat.Prelude.{
  ℕ, ◌+◌, ◌-◌, ◌%◌, ◌<◌, ◌≤◌, List, ◌≡◌, ◌≢◌, arith, take, length, length-write_at, length-take,
  write_at, read_at, get_or-write_at_in, get_or, lt→leb, mod_round, length-read_at, ap, ◌∙◌,
  get_or-read_at, read_at-ext, read_at-nil, sym,
}
use login_server_chat.RingBuffer.{
  Ring, get_use_size, get_buffer_size, enqueue, dequeue, resize, dequeue_run,
}
use login_server_chat.RingBuffer.Invariant.{IsValid}
use login_server_chat.RingBuffer.Window.{contents, window, window-run}

-- `Resize` to no more than `iTotalSize` does nothing.
pub resize_small :
    (r : Ring) (cells : List ℕ) (size : ℕ) → size ≤ r.total_size → resize r cells size ≡ r
unfolding resize
resize_small r cells size h = ground arith

use_row : (r : Ring) → r.front_next ≤ r.rear_next → get_use_size r ≡ r.rear_next - r.front_next
unfolding get_use_size
use_row r row = ground arith

-- Bytes that lie in a row are read in one go.
contents_row :
    (r : Ring)
    → r.front_next ≤ r.rear_next
    → r.rear_next ≤ r.total_size
    → contents r ≡ read_at 0 r.buffer r.front_next (r.rear_next - r.front_next)
contents_row r row fits =
    ap (window r.buffer r.total_size (r.front_next % r.total_size)) (use_row r row)
    ∙ elim (dec_lt r.front_next r.total_size) [
      | yes lt ↦
          rw (mod-eq_of_lt lt) (
            window-run r.buffer r.total_size r.front_next (r.rear_next - r.front_next)
              (omega arith))
      | no ge ↦
          let none_left : r.rear_next - r.front_next ≡ 0 = omega arith in
          rw none_left (sym (read_at-nil 0 r.buffer r.front_next))
    ]

-- `Resize` of a ring whose bytes lie in a row: it is valid, holds the same bytes and has the new size.
pub resize-contents :
    {r : Ring} (cells : List ℕ) (size : ℕ)
    → IsValid r
    → r.front_next ≤ r.rear_next
    → r.total_size < size
    → size + 1 ≤ length cells
    → let r' = resize r cells size in
      IsValid r' × (contents r' ≡ contents r) × (get_buffer_size r' ≡ size)
unfolding resize get_buffer_size
resize-contents {r} cells size v row more enough = rw (lt→leb size r.total_size more) (
  record {
    front_pos = v.front_pos;
    front_in = omega arith;
    rear_pos = v.rear_pos;
    rear_in = omega arith;
    cells = grown;
  },
  same,
  omega arith,
)
  where
    old : List ℕ
    old = read_at 0 r.buffer 0 r.total_size

    buffer' : List ℕ
    buffer' = write_at (take (size + 1) cells) 0 old

    grown : length buffer' ≡ size + 1
    grown =
        length-write_at (take (size + 1) cells) 0 old ∙ omega (arith, length-take (size + 1) cells)

    cell : (i : ℕ) → i < r.total_size → get_or buffer' i 0 ≡ get_or r.buffer i 0
    cell i lt = rw zero-add at (
        get_or-write_at_in (take (size + 1) cells) 0 old i 0
          (rw (length-read_at 0 r.buffer 0 r.total_size) lt)
          (omega (arith, length-take (size + 1) cells, length-read_at 0 r.buffer 0 r.total_size))
        ∙ get_or-read_at 0 r.buffer 0 r.total_size i lt)

    same : contents (record r { buffer = buffer'; total_size = size + 1 }) ≡ contents r
    same =
        contents_row (record r { buffer = buffer'; total_size = size + 1 }) row (omega arith)
        ∙ read_at-ext 0 buffer' r.buffer r.front_next r.front_next (r.rear_next - r.front_next)
            (λ j lt. cell (r.front_next + j) (omega arith))
        ∙ sym (contents_row r row v.rear_in)

-- `Resize` of a ring whose bytes go round the end counts the new cells as bytes in use.
pub resize_wrapped :
    {r : Ring} (cells : List ℕ) (size : ℕ)
    → IsValid r
    → r.rear_next < r.front_next
    → r.total_size < size
    → get_use_size (resize r cells size) ≡ get_use_size r + (size + 1 - r.total_size)
unfolding resize get_use_size
resize_wrapped cells size v row more = ground arith

enqueue_zero :
    (r : Ring) (chars : List ℕ)
    → r.front_next ≢ r.rear_next % r.total_size + 1
    → (enqueue r chars 0).1.rear_next ≡ r.rear_next % r.total_size
unfolding enqueue
enqueue_zero r chars h = ground arith

enqueue-keeps :
    (r : Ring) (chars : List ℕ) (size : ℕ)
    → let r' = (enqueue r chars size).1 in
      (r'.front_next ≡ r.front_next) × (r'.total_size ≡ r.total_size)
unfolding enqueue
enqueue-keeps r chars size = ground arith

dequeue_from_start :
    (r : Ring) (size : ℕ)
    → r.rear_next ≡ 0
    → r.front_next ≡ r.total_size
    → 0 < r.total_size
    → size ≤ r.total_size
    → (dequeue r size).1 ≡ size
unfolding dequeue dequeue_run
dequeue_from_start r size e f pos le = ground (arith, mod_round r.front_next r.total_size)

-- `Enqueue` of size 0 into an empty ring that stands at its last cell sets `iRear` to -1, and a
-- `Dequeue` then hands out bytes that nobody stored.
pub enqueue_zero_breaks :
    {r : Ring} (chars : List ℕ) (size : ℕ)
    → IsValid r
    → r.front_next ≡ r.total_size
    → r.rear_next ≡ r.total_size
    → 1 < r.total_size
    → 0 < size
    → size ≤ r.total_size
    → let r' = (enqueue r chars 0).1 in
      (get_use_size r ≡ 0) × (r'.rear_next ≡ 0) × ((dequeue r' size).1 ≡ size)
unfolding get_use_size
enqueue_zero_breaks {r} chars size v f e more pos le = (
  ground arith,
  at_start,
  dequeue_from_start (enqueue r chars 0).1 size at_start (omega (arith, enqueue-keeps r chars 0))
      (omega (arith, enqueue-keeps r chars 0)) (omega (arith, enqueue-keeps r chars 0)),
)
  where
    at_start : (enqueue r chars 0).1.rear_next ≡ 0
    at_start = omega (arith, enqueue_zero r chars, mod_round r.rear_next r.total_size)
