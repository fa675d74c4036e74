-- ===== src/LockFreeQueue/Refine.antt =====
-- The interleaved queue and the list of its contract.
use login_server_chat.Prelude.{
  total_rest, assign, ℕ, ◌+◌, ◌^◌, ◌≤◌, ◌<◌, true, ==_iff, length, List, [], ◌∷◌, ◌++◌, ◌≡◌, inl,
  inr, refl, sym, subst, ap, arith,
}
use login_server_chat.LockFreeQueue.{
  QueueNode, QueueThread, resting, enqueuing, saw_tail, saw_tail_next, appended, counting,
  dequeuing, turned_away, reserved, saw_head, saw_head_next, saw_both, saw_all, loaded, removed,
  Queue, QueueEvent, enqueued, refused, dequeued, returned, QueueStep, enqueues, dequeues, goes_on,
  new_queue, real, advance_queue, looks,
}
use login_server_chat.LockFreeQueue.Spec.{
  Fifo, empty_fifo, ActsAll, ActsAll-append, over, QueueSteps, at_first, further, enqueue_count,
}
use login_server_chat.LockFreeQueue.Chain.{IsList, on, on_here, data_of}
use login_server_chat.LockFreeQueue.Invariant.{brings, owns, view}
use login_server_chat.LockFreeQueue.Counts.{unsettled, in_loop}
use login_server_chat.LockFreeQueue.Simulate.{bound, Refines, Simulates, go-Simulates}
use login_server_chat.LockFreeQueue.Enqueues.{
  call_enqueue-Simulates, saw_tail_next-Simulates, appended-Simulates, counting-Simulates,
}
use login_server_chat.LockFreeQueue.Dequeues.{
  take_size-Simulates, turned_away-Simulates, saw_head-Simulates, test_head-Simulates,
  give_node-Simulates,
}
use login_server_chat.LockFreeQueue.Takes.{
  saw_both-Simulates, saw_all-Simulates, exchange_head-Simulates,
}

advance_queue-Simulates :
    {n : ℕ} {q : Queue} {bs : List ℕ} {p : Fifo} (th : QueueThread) (i : ℕ)
    → i < n
    → length bs + n < 2 ^ 31
    → q.threads i ≡ th
    → Refines n q bs p
    → Simulates n bs p (advance_queue th q i).1 (advance_queue th q i).0
unfolding advance_queue view bound unsettled in_loop owns brings looks
advance_queue-Simulates {bs = bs} {p = p} resting i lt room at_ r = (bs, p, over p, r, omega arith)
advance_queue-Simulates {q = q} {bs = bs} (enqueuing new_node) i lt room at_ r =
    go-Simulates i (saw_tail new_node q.tail) lt (λ a o. rw at_ o) (λ a o. rw at_ o)
      (λ a l. inr (
        subst (λ b. on (real q.head ∷ bs) b ≡ true) (sym ((==_iff a (real q.tail)).0 l))
          r.linked.tail_on))
      tt (ap bound at_) (ap unsettled at_) (ap in_loop at_) r
advance_queue-Simulates {q = q} (saw_tail new_node bk_tail) i lt room at_ r =
    go-Simulates i (saw_tail_next new_node bk_tail (q.nodes (real bk_tail)).next) lt
      (λ a o. rw at_ o) (λ a o. rw at_ o) (λ a l. inl (rw at_ l)) (λ e. refl) (ap bound at_)
      (ap unsettled at_) (ap in_loop at_) r
advance_queue-Simulates (saw_tail_next new_node bk_tail bk_next) i lt room at_ r =
    saw_tail_next-Simulates i new_node bk_tail bk_next lt room at_ r
advance_queue-Simulates (appended new_node bk_tail) i lt room at_ r =
    appended-Simulates i new_node bk_tail lt at_ r
advance_queue-Simulates counting i lt room at_ r = counting-Simulates i lt at_ r
advance_queue-Simulates dequeuing i lt room at_ r = take_size-Simulates i lt room at_ r
advance_queue-Simulates turned_away i lt room at_ r = turned_away-Simulates i lt at_ r
advance_queue-Simulates {q = q} {bs = bs} reserved i lt room at_ r =
    go-Simulates i (saw_head q.head) lt (λ a o. ground arith) (λ a o. ground arith)
      (λ a l. inr (
        subst (λ b. on (real q.head ∷ bs) b ≡ true) (sym ((==_iff a (real q.head)).0 l))
          (on_here (real q.head) bs)))
      (λ on_. refl) (ap bound at_) (ap unsettled at_) (ap in_loop at_) r
advance_queue-Simulates (saw_head bk_head) i lt room at_ r = saw_head-Simulates i bk_head lt at_ r
advance_queue-Simulates (saw_head_next bk_head bk_next) i lt room at_ r =
    test_head-Simulates i bk_head bk_next lt at_ r
advance_queue-Simulates (saw_both bk_head bk_next bk_tail) i lt room at_ r =
    saw_both-Simulates i bk_head bk_next bk_tail lt at_ r
advance_queue-Simulates (saw_all bk_head bk_next bk_tail bk_tail_next) i lt room at_ r =
    saw_all-Simulates i bk_head bk_next bk_tail bk_tail_next lt at_ r
advance_queue-Simulates (loaded bk_head bk_next value) i lt room at_ r =
    exchange_head-Simulates i bk_head bk_next value lt at_ room r
advance_queue-Simulates (removed bk_head value) i lt room at_ r =
    give_node-Simulates i bk_head value lt at_ r

QueueStep-Simulates :
    {n : ℕ} {q q' : Queue} {es : List QueueEvent} {bs : List ℕ} {p : Fifo}
    → QueueStep n q es q'
    → length bs + n < 2 ^ 31
    → Refines n q bs p
    → Simulates n bs p es q'
unfolding bound unsettled in_loop owns brings looks
QueueStep-Simulates (enqueues q i new_node value lt at_rest free low unseen) room r =
    call_enqueue-Simulates i new_node value lt at_rest free low unseen r
QueueStep-Simulates (dequeues q i lt at_rest) room r =
    go-Simulates i dequeuing lt (λ a o. ground arith) (λ a o. ground arith) (λ a l. ground arith) tt
      (ap bound at_rest) (ap unsettled at_rest) (ap in_loop at_rest) r
QueueStep-Simulates (goes_on q i lt) room r = advance_queue-Simulates (q.threads i) i lt room refl r

new_queue-Refines :
    (n : ℕ) (memory : ℕ → QueueNode) (my_code : ℕ)
    → 2 ^ 47 ≤ my_code
    → Refines n (new_queue memory my_code) [] empty_fifo
unfolding new_queue view real on owns brings looks bound unsettled in_loop assign
new_queue-Refines n memory my_code high = record {
  linked = record {
    chain = refl;
    distinct = (refl, tt);
    tail_on = refl;
    low = λ a h. ground arith;
    used = λ a h. ground arith;
    high = high;
  };
  shared = record {
    owned = λ i a o. ground arith;
    once = λ i j a ne o. refl;
    fresh = λ i a b. ground arith;
    seen = λ i a l. ground arith;
    sound = λ i. tt;
  };
  counted = record {
    balance = omega (arith, total_rest unsettled resting n refl);
    enough = omega (arith, total_rest in_loop resting n refl);
  };
  contents = refl;
  results = λ i. refl;
}

enqueue_count-append :
    (es fs : List QueueEvent) → enqueue_count (es ++ fs) ≡ enqueue_count es + enqueue_count fs
enqueue_count-append [] fs = omega arith
enqueue_count-append (enqueued i value ∷ es) fs = omega (arith, enqueue_count-append es fs)
enqueue_count-append (refused i ∷ es) fs = enqueue_count-append es fs
enqueue_count-append (dequeued i value ∷ es) fs = enqueue_count-append es fs
enqueue_count-append (returned i value ∷ es) fs = enqueue_count-append es fs

QueueSteps-Simulates :
    (n : ℕ) (memory : ℕ → QueueNode) (my_code : ℕ) {q : Queue} {es : List QueueEvent}
    → 2 ^ 47 ≤ my_code
    → QueueSteps n (new_queue memory my_code) es q
    → enqueue_count es + n < 2 ^ 31
    → Simulates n [] empty_fifo es q
QueueSteps-Simulates n memory my_code high at_first lt =
    ([], empty_fifo, over empty_fifo, new_queue-Refines n memory my_code high, omega arith)
QueueSteps-Simulates n memory my_code high (further {es = es} {fs = fs} before now) lt =
    let m = enqueue_count-append es fs in
    let (bs, p, acts, r, le) =
      QueueSteps-Simulates n memory my_code high before (omega (arith, lt, m)) in
    let (bs', p', acts', r', le') = QueueStep-Simulates now (omega (arith, lt, m, le)) r in
    (bs', p', ActsAll-append acts acts', r', omega (arith, m, le, le'))

-- `n` threads enqueue and dequeue at the same time on a new queue, in any interleaving of their accesses
-- to the memory, while the pool hands out no node at which a thread still looks, the code is no address,
-- and the enqueues and the threads together are less than 2 ^ 31. Then what they do is what this does to
-- a list: an enqueue appends its data; a dequeue that gets a place takes the data that is first, and
-- returns it; any other returns `false`, when there are fewer data than threads. And the nodes behind
-- the head hold the list.
pub QueueSteps-ActsAll :
    (n : ℕ) (memory : ℕ → QueueNode) (my_code : ℕ) {q : Queue} {es : List QueueEvent}
    → 2 ^ 47 ≤ my_code
    → QueueSteps n (new_queue memory my_code) es q
    → enqueue_count es + n < 2 ^ 31
    → (p : Fifo) × (bs : List ℕ) × ActsAll n empty_fifo es p
      × IsList q.my_code q.nodes (real q.head) bs
      × (p.contents ≡ data_of q.nodes bs)
unfolding view
QueueSteps-ActsAll n memory my_code high steps lt =
    let (bs, p, acts, r, le) = QueueSteps-Simulates n memory my_code high steps lt in
    (p, bs, acts, r.linked.chain, r.contents)
