-- ===== src/LockFreeQueue/Stale.antt =====
-- What an `Enqueue` does with a tail that has gone back to the pool and has been handed out again.
use login_server_chat.Prelude.{
  all_below, assign, ℕ, ◌+◌, ◌%◌, ◌^◌, ◌==◌, ltb→lt, true, false, ==_iff, List, [], ◌∷◌, ◌++◌,
  append_assoc, append-nil, ◌≡◌, ◌≢◌, inl, refl, sym, subst, arith,
}
use login_server_chat.LockFreeQueue.{
  QueueNode, resting, saw_tail, Queue, QueueEvent, enqueued, goes_on, real, move_on, advance_queue,
  exchange_next, exchange_tail, add_size,
}
use login_server_chat.LockFreeQueue.Spec.{QueueSteps, further}
use login_server_chat.LockFreeQueue.Chain.{IsList, on, data_of, IsList-assign, data_of-assign}

-- Threads go on by a step each, in the order of the list.
unfoldable pub play_queue : List ℕ → Queue → Queue × List QueueEvent
play_queue [] q = (q, [])
play_queue (i ∷ is) q =
    let (r, es) = advance_queue (q.threads i) q i in let (s, fs) = play_queue is r in (s, es ++ fs)

pub play_queue-QueueSteps :
    {n : ℕ} {r : Queue} (is : List ℕ) {q : Queue} {es : List QueueEvent}
    → all_below n is ≡ true
    → QueueSteps n r es q
    → QueueSteps n r (es ++ (play_queue is q).1) (play_queue is q).0
unfolding play_queue
play_queue-QueueSteps {n} {r} [] {q} {es} lt before =
    subst (λ l. QueueSteps n r l q) (sym (append-nil es)) before
play_queue-QueueSteps {n} {r} (i ∷ is) {q} {es} lt before =
    let now = advance_queue (q.threads i) q i in
    subst (λ l. QueueSteps n r l (play_queue is now.0).0)
      (append_assoc es now.1 (play_queue is now.0).1)
      (play_queue-QueueSteps is (ground arith)
        (further before (goes_on q i (ltb→lt i n (ground arith)))))

-- A thread in `Enqueue` has read the tail; then that node has gone back to the pool and is another
-- thread's, so that it is not in the list, the code is behind it, and the tail has moved. When the
-- thread goes on, its call ends after four steps and counts its data, but the list has the same nodes
-- with the same data as before.
pub play_queue-saw_tail :
    (q : Queue) (i new_node bk_tail : ℕ) (bs : List ℕ)
    → q.threads i ≡ saw_tail new_node bk_tail
    → IsList q.my_code q.nodes (real q.head) bs
    → on (real q.head ∷ bs) (real bk_tail) ≡ false
    → (q.nodes (real bk_tail)).next ≡ q.my_code
    → q.tail ≢ bk_tail
    → let (r, es) = play_queue (i ∷ i ∷ i ∷ i ∷ []) q in
      (r.threads i ≡ resting)
      × (es ≡ enqueued i (q.nodes new_node).data_ ∷ [])
      × (r.size ≡ (q.size + 1) % 2 ^ 32)
      × IsList r.my_code r.nodes (real r.head) bs
      × (data_of r.nodes bs ≡ data_of q.nodes bs)
unfolding play_queue advance_queue move_on exchange_next exchange_tail add_size assign on
play_queue-saw_tail q i new_node bk_tail bs at_ list out last moved =
    let same : (i == i) ≡ true = (==_iff i i).1 refl in
    let free : ((q.nodes (real bk_tail)).next == q.my_code) ≡ true =
      (==_iff (q.nodes (real bk_tail)).next q.my_code).1 last in
    let other : (q.tail == bk_tail) ≡ false = ground (arith, moved) in
    let x : QueueNode = record (q.nodes (real bk_tail)) { next = new_node } in
    rw (at_, same, free, same, other, same, same)
      (
        refl,
        refl,
        refl,
        IsList-assign q.my_code q.nodes (real bk_tail) x (real q.head) bs out list,
        data_of-assign q.nodes (real bk_tail) x bs (inl (ground (arith, out))),
      )
