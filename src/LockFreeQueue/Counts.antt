-- ===== src/LockFreeQueue/Counts.antt =====
-- How many threads have an increment of `_size` before them, and how many have taken their place in
-- the queue.
use login_server_chat.Prelude.{total, ℕ, zero, suc, ◌≤◌, arith}
use login_server_chat.LockFreeQueue.{
  QueueThread, resting, enqueuing, saw_tail, saw_tail_next, appended, counting, dequeuing,
  turned_away, reserved, saw_head, saw_head_next, saw_both, saw_all, loaded, removed,
}

-- Whether the thread has appended its node and not counted it so far, has decremented the size and
-- not taken a node off so far, or is going to increment it again.
unfoldable pub unsettled : QueueThread → ℕ
unsettled resting = 0
unsettled (enqueuing new_node) = 0
unsettled (saw_tail new_node bk_tail) = 0
unsettled (saw_tail_next new_node bk_tail bk_next) = 0
unsettled (appended new_node bk_tail) = 1
unsettled counting = 1
unsettled dequeuing = 0
unsettled turned_away = 1
unsettled reserved = 1
unsettled (saw_head bk_head) = 1
unsettled (saw_head_next bk_head bk_next) = 1
unsettled (saw_both bk_head bk_next bk_tail) = 1
unsettled (saw_all bk_head bk_next bk_tail bk_tail_next) = 1
unsettled (loaded bk_head bk_next value) = 1
unsettled (removed bk_head value) = 0

-- Whether the thread is in the loop of `Dequeue`.
unfoldable pub in_loop : QueueThread → ℕ
in_loop resting = 0
in_loop (enqueuing new_node) = 0
in_loop (saw_tail new_node bk_tail) = 0
in_loop (saw_tail_next new_node bk_tail bk_next) = 0
in_loop (appended new_node bk_tail) = 0
in_loop counting = 0
in_loop dequeuing = 0
in_loop turned_away = 0
in_loop reserved = 1
in_loop (saw_head bk_head) = 1
in_loop (saw_head_next bk_head bk_next) = 1
in_loop (saw_both bk_head bk_next bk_tail) = 1
in_loop (saw_all bk_head bk_next bk_tail bk_tail_next) = 1
in_loop (loaded bk_head bk_next value) = 1
in_loop (removed bk_head value) = 0

pub unsettled-le : (th : QueueThread) → unsettled th ≤ 1
unfolding unsettled
unsettled-le resting = omega arith
unsettled-le (enqueuing new_node) = omega arith
unsettled-le (saw_tail new_node bk_tail) = omega arith
unsettled-le (saw_tail_next new_node bk_tail bk_next) = omega arith
unsettled-le (appended new_node bk_tail) = omega arith
unsettled-le counting = omega arith
unsettled-le dequeuing = omega arith
unsettled-le turned_away = omega arith
unsettled-le reserved = omega arith
unsettled-le (saw_head bk_head) = omega arith
unsettled-le (saw_head_next bk_head bk_next) = omega arith
unsettled-le (saw_both bk_head bk_next bk_tail) = omega arith
unsettled-le (saw_all bk_head bk_next bk_tail bk_tail_next) = omega arith
unsettled-le (loaded bk_head bk_next value) = omega arith
unsettled-le (removed bk_head value) = omega arith

-- Whoever is in the loop has decremented the size.
pub in_loop-le : (th : QueueThread) → in_loop th ≤ unsettled th
unfolding in_loop unsettled
in_loop-le resting = omega arith
in_loop-le (enqueuing new_node) = omega arith
in_loop-le (saw_tail new_node bk_tail) = omega arith
in_loop-le (saw_tail_next new_node bk_tail bk_next) = omega arith
in_loop-le (appended new_node bk_tail) = omega arith
in_loop-le counting = omega arith
in_loop-le dequeuing = omega arith
in_loop-le turned_away = omega arith
in_loop-le reserved = omega arith
in_loop-le (saw_head bk_head) = omega arith
in_loop-le (saw_head_next bk_head bk_next) = omega arith
in_loop-le (saw_both bk_head bk_next bk_tail) = omega arith
in_loop-le (saw_all bk_head bk_next bk_tail bk_tail_next) = omega arith
in_loop-le (loaded bk_head bk_next value) = omega arith
in_loop-le (removed bk_head value) = omega arith

pub total_mono :
    (threads : ℕ → QueueThread) (n : ℕ) → total in_loop threads n ≤ total unsettled threads n
total_mono threads zero = omega arith
total_mono threads (suc n) = omega (arith, in_loop-le (threads n), total_mono threads n)
