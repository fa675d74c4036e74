-- ===== src/RingBuffer/Moves.antt =====
-- `MoveRear`, `MoveFront` and `Peek`: the calls that do one half of `Enqueue` or `Dequeue`.
use login_server_chat.Prelude.{ℕ, List, ◌≡◌, arith}
use login_server_chat.RingBuffer.{Ring, enqueue, dequeue, peek, move_rear, move_front}

-- `MoveRear` returns what `Enqueue` of any bytes returns, and moves the indices as it does; only the
-- bytes stay as they are.
pub move_rear-eq-enqueue :
    (r : Ring) (chars : List ℕ) (size : ℕ)
    → let (n, r') = enqueue r chars size in move_rear r size ≡ (n, record r' { buffer = r.buffer })
unfolding move_rear enqueue
move_rear-eq-enqueue r chars size = ground arith

-- `MoveFront` returns the number that `Dequeue` returns and leaves the ring that it leaves, and
-- `Peek` hands out the bytes and the number of `Dequeue`.
pub move_front-peek-dequeue :
    (r : Ring) (size : ℕ)
    → let (out, n, r') = dequeue r size in (move_front r size ≡ (n, r')) × (peek r size ≡ (out, n))
unfolding move_front peek dequeue
move_front-peek-dequeue r size = ground arith
