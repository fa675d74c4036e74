-- ===== src/RingBuffer.antt =====
-- `CRingBuffer` (LoginServer_Chat/CRingBuffer.cpp): a byte ring over `iTotalSize` cells, one of
-- which stays free. Sizes are non-negative, as in every call of the server.
pub mod Invariant
pub mod Window
pub mod Enqueue
pub mod Dequeue
pub mod Moves
pub mod Resize
pub mod Fifo
mod Tests
use login_server_chat.Prelude.{
  ℕ, ◌+◌, ◌-◌, ◌%◌, ◌==◌, ltb, leb, if◌then◌else◌, List, [], ◌++◌, take, drop, write_at, read_at,
}

-- `iFront` and `iRear` are the cells of the last byte read and of the last byte written. Both may
-- become -1 (a call with size 0), and no less: a field holds the C value plus one, `iFront + 1`
-- and `iRear + 1`. A comparison of two C values is the comparison of the values plus one.
pub record Ring : Type 0 where
  pub buffer : List ℕ
  pub front_next : ℕ
  pub rear_next : ℕ
  pub total_size : ℕ

abbrev pub default_bufsize : ℕ
default_bufsize = 10000

-- The constructors; `cells` is what `new char[iBufferSize + 1]` finds in memory.
pub with_size : List ℕ → ℕ → Ring
with_size cells size = record {
  buffer = take (size + 1) cells;
  front_next = 1;
  rear_next = 1;
  total_size = size + 1;
}

pub with_default_size : List ℕ → Ring
unfolding with_size
with_default_size cells = with_size cells default_bufsize

-- `cells` is what `new char[iSize + 1]` finds in memory, and the old bytes are copied over it.
pub resize : Ring → List ℕ → ℕ → Ring
resize r cells size = if leb size r.total_size then r else record r {
  buffer = write_at (take (size + 1) cells) 0 (read_at 0 r.buffer 0 r.total_size);
  total_size = size + 1;
}

unfoldable pub get_buffer_size : Ring → ℕ
get_buffer_size r = r.total_size - 1

-- The last return reads `iTotalSize - iFront + iRear`.
unfoldable pub get_use_size : Ring → ℕ
get_use_size r =
    if r.front_next == r.rear_next
    then 0
    else if ltb r.front_next r.rear_next
    then r.rear_next - r.front_next
    else r.total_size + r.rear_next - r.front_next

unfoldable pub get_free_size : Ring → ℕ
get_free_size r =
    if r.front_next == r.rear_next
    then r.total_size - 1
    else if ltb r.rear_next r.front_next
    then r.front_next - r.rear_next - 1
    else r.total_size + r.front_next - 1 - r.rear_next

-- `(iFront + 1) % iTotalSize` and `(iRear + 1) % iTotalSize`, as offsets in the buffer.
unfoldable pub get_front_buffer_ptr : Ring → ℕ
get_front_buffer_ptr r = r.front_next % r.total_size

unfoldable pub get_rear_buffer_ptr : Ring → ℕ
get_rear_buffer_ptr r = r.rear_next % r.total_size

unfoldable pub get_buffer_ptr : Ring → ℕ
get_buffer_ptr r = 0

unfoldable pub direct_enqueue_size : Ring → ℕ
direct_enqueue_size r =
    let rear = r.rear_next % r.total_size in
    if ltb r.front_next (rear + 1) then r.total_size - rear else r.front_next - (rear + 1)

pub direct_dequeue_size : Ring → ℕ
direct_dequeue_size r =
    if r.front_next == r.rear_next
    then 0
    else (let front = r.front_next % r.total_size in
        if ltb r.rear_next (front + 1) then r.total_size - front else r.rear_next - front)

-- `iDEsize`: the free cells from `rear` on that lie in a row. When `rear` is `iFront` the source
-- leaves the variable at the value that it had, `stale`.
unfoldable pub enqueue_run : ℕ → ℕ → ℕ → ℕ → ℕ
enqueue_run stale front_next rear total =
    if ltb front_next (rear + 1)
    then total - rear
    else if ltb (rear + 1) front_next
    then front_next - (rear + 1)
    else stale

-- `iDDEsize`: the filled cells from `front` on that lie in a row.
pub dequeue_run : ℕ → ℕ → ℕ → ℕ
dequeue_run front rear_next total =
    if ltb rear_next (front + 1) then total - front else rear_next - front

-- Each returns what the call returns beside the ring. `chars` is what `chpData` points to.
unfoldable pub enqueue : Ring → List ℕ → ℕ → ℕ × Ring
enqueue r chars size =
    let rear = r.rear_next % r.total_size in
    if r.front_next == rear + 1
    then (0, r)
    else (let run = enqueue_run 0 r.front_next rear r.total_size in
        if ltb run size
        then (let buffer = write_at r.buffer rear (take run chars) in
            let rear' = (rear + run) % r.total_size in
            if rear' + 1 == r.front_next
            then (run, record r { buffer = buffer; rear_next = rear + run })
            else (let run' = enqueue_run run r.front_next rear' r.total_size in
                let left = (if ltb run' (size - run) then run' else size - run) in
                (
                  run + left,
                  record r {
                    buffer = write_at buffer rear' (take left (drop run chars));
                    rear_next = rear' + left;
                  },
                )))
        else (
          size,
          record r { buffer = write_at r.buffer rear (take size chars); rear_next = rear + size },
        ))

-- The bytes written to `chpDest`, what the call returns, and the ring.
unfoldable pub dequeue : Ring → ℕ → List ℕ × ℕ × Ring
dequeue r size =
    if r.rear_next == r.front_next
    then ([], 0, r)
    else (let front = r.front_next % r.total_size in
        let run = dequeue_run front r.rear_next r.total_size in
        if ltb run size
        then (let first = read_at 0 r.buffer front run in
            if r.rear_next == front + run
            then (first, run, record r { front_next = front + run })
            else (let front' = (front + run) % r.total_size in
                let run' = dequeue_run front' r.rear_next r.total_size in
                let left = (if ltb run' (size - run) then run' else size - run) in
                (
                  first ++ read_at 0 r.buffer front' left,
                  run + left,
                  record r { front_next = front' + left },
                )))
        else (read_at 0 r.buffer front size, size, record r { front_next = front + size }))

unfoldable pub peek : Ring → ℕ → List ℕ × ℕ
peek r size =
    if r.rear_next == r.front_next
    then ([], 0)
    else (let front = r.front_next % r.total_size in
        let run = dequeue_run front r.rear_next r.total_size in
        if ltb run size
        then (let first = read_at 0 r.buffer front run in
            if r.rear_next == front + run
            then (first, run)
            else (let front' = (front + run) % r.total_size in
                let run' = dequeue_run front' r.rear_next r.total_size in
                let left = (if ltb run' (size - run) then run' else size - run) in
                (first ++ read_at 0 r.buffer front' left, run + left)))
        else (read_at 0 r.buffer front size, size))

unfoldable pub move_rear : Ring → ℕ → ℕ × Ring
move_rear r size =
    let rear = r.rear_next % r.total_size in
    if r.front_next == rear + 1
    then (0, r)
    else (let run = enqueue_run 0 r.front_next rear r.total_size in
        if ltb run size
        then (let rear' = (rear + run) % r.total_size in
            if rear' + 1 == r.front_next
            then (run, record r { rear_next = rear + run })
            else (let run' = enqueue_run run r.front_next rear' r.total_size in
                let left = (if ltb run' (size - run) then run' else size - run) in
                (run + left, record r { rear_next = rear' + left })))
        else (size, record r { rear_next = rear + size }))

pub move_front : Ring → ℕ → ℕ × Ring
move_front r size =
    if r.rear_next == r.front_next
    then (0, r)
    else (let front = r.front_next % r.total_size in
        let run = dequeue_run front r.rear_next r.total_size in
        if ltb run size
        then (if r.rear_next == front + run
            then (run, record r { front_next = front + run })
            else (let front' = (front + run) % r.total_size in
                let run' = dequeue_run front' r.rear_next r.total_size in
                let left = (if ltb run' (size - run) then run' else size - run) in
                (run + left, record r { front_next = front' + left })))
        else (size, record r { front_next = front + size }))

pub clear_buffer : Ring → Ring
clear_buffer r = record r { front_next = 1; rear_next = 1 }
