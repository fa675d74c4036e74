-- ===== src/LockFreeQueue/Tests.antt =====
-- Two threads on the queue, and each theorem at a small run.
use login_server_chat.Prelude.{
  assign, ℕ, ◌+◌, ◌%◌, ◌^◌, ◌<◌, ◌==◌, false, List, [], ◌∷◌, ◌++◌, none, some, ◌≡◌, refl, arith,
}
use login_server_chat.LockFreeQueue.{
  QueueNode, resting, dequeuing, saw_tail, Queue, QueueEvent, enqueued, refused, dequeued, returned,
  enqueues, dequeues, new_queue, real, with_idx, move_on, call_enqueue, exchange_next,
  exchange_tail, exchange_head, add_size, take_size, test_head, give_node, advance_queue, looks,
}
use login_server_chat.LockFreeQueue.Spec.{
  Fifo, empty_fifo, ActsAll, QueueSteps, at_first, further, enqueue_count,
}
use login_server_chat.LockFreeQueue.Chain.{IsList, on, data_of}
use login_server_chat.LockFreeQueue.Refine.{QueueSteps-ActsAll}
use login_server_chat.LockFreeQueue.Stale.{play_queue, play_queue-QueueSteps, play_queue-saw_tail}

abbrev memory : ℕ → QueueNode
memory a = record { data_ = 205; next = 205 }

abbrev my_code : ℕ
my_code = 18446744073709551615

abbrev empty : Queue
empty = new_queue memory my_code

-- Thread 0 has appended the node at 16 with 7, and has not counted it so far.
abbrev one_enqueue : Queue
one_enqueue = (play_queue (0 ∷ 0 ∷ 0 ∷ []) (call_enqueue empty 0 16 7)).0

-- Thread 1 is turned away, and thread 0 ends its call; then thread 1 comes again.
abbrev two_calls : Queue
two_calls = (play_queue (1 ∷ 1 ∷ 0 ∷ 0 ∷ []) (move_on one_enqueue 1 dequeuing)).0

abbrev second_try : List ℕ
second_try = 1 ∷ 1 ∷ 1 ∷ 1 ∷ 1 ∷ 1 ∷ 1 ∷ 1 ∷ []

abbrev at_end : Queue
at_end = (play_queue second_try (move_on two_calls 1 dequeuing)).0

abbrev events : List QueueEvent
events =
    ((((([] ++ []) ++ (play_queue (0 ∷ 0 ∷ 0 ∷ []) (call_enqueue empty 0 16 7)).1) ++ [])
        ++ (play_queue (1 ∷ 1 ∷ 0 ∷ 0 ∷ []) (move_on one_enqueue 1 dequeuing)).1)
      ++ [])
    ++ (play_queue second_try (move_on two_calls 1 dequeuing)).1

events_lem :
    events ≡ enqueued 0 7 ∷ refused 1 ∷ returned 1 none ∷ dequeued 1 7 ∷ returned 1 (some 7) ∷ []
unfolding play_queue advance_queue call_enqueue new_queue real with_idx move_on exchange_next
    exchange_tail exchange_head add_size take_size test_head give_node assign
events_lem = refl

one_enqueue-QueueSteps :
    QueueSteps 2 empty
      (([] ++ []) ++ (play_queue (0 ∷ 0 ∷ 0 ∷ []) (call_enqueue empty 0 16 7)).1)
      one_enqueue
unfolding new_queue looks
one_enqueue-QueueSteps =
    play_queue-QueueSteps (0 ∷ 0 ∷ 0 ∷ []) refl
      (further at_first (enqueues empty 0 16 7 (omega arith) refl refl (omega arith) (λ j. refl)))

at_end-QueueSteps : QueueSteps 2 empty events at_end
unfolding play_queue advance_queue call_enqueue new_queue real with_idx move_on exchange_next
    exchange_tail add_size take_size assign
at_end-QueueSteps = play_queue-QueueSteps second_try refl (
    further
      (play_queue-QueueSteps (1 ∷ 1 ∷ 0 ∷ 0 ∷ []) refl
        (further one_enqueue-QueueSteps (dequeues one_enqueue 1 (omega arith) refl)))
      (dequeues two_calls 1 (omega arith) refl))

few_enqueues : enqueue_count events + 2 < 2 ^ 31
few_enqueues = rw events_lem (omega arith)

QueueSteps-ActsAll_example :
    (p : Fifo) × (bs : List ℕ) × ActsAll 2 empty_fifo events p
    × IsList at_end.my_code at_end.nodes (real at_end.head) bs
    × (p.contents ≡ data_of at_end.nodes bs)
QueueSteps-ActsAll_example =
    QueueSteps-ActsAll 2 memory my_code (omega arith) at_end-QueueSteps few_enqueues

-- Thread 0 reads the tail at 16. Thread 1 enqueues once more, dequeues twice, which gives the node at
-- 16 back, and gets that node for its next `Enqueue`.
abbrev tail_read : Queue
tail_read =
    (play_queue (0 ∷ [])
      (call_enqueue (play_queue (1 ∷ 1 ∷ 1 ∷ 1 ∷ 1 ∷ []) (call_enqueue empty 1 16 7)).0 0 32 8)).0

abbrev both_queued : Queue
both_queued = (play_queue (1 ∷ 1 ∷ 1 ∷ 1 ∷ 1 ∷ []) (call_enqueue tail_read 1 48 9)).0

abbrev given_back : Queue
given_back =
    (play_queue second_try
      (move_on (play_queue second_try (move_on both_queued 1 dequeuing)).0 1 dequeuing)).0

abbrev handed_out : Queue
handed_out = call_enqueue given_back 1 16 10

abbrev old_tail : ℕ
old_tail = with_idx 16 1

-- The `Enqueue` of thread 0 ends. A `Dequeue` gets a place, finds nothing, and leaves the size at 0.
stale_events :
    let after = play_queue (0 ∷ 0 ∷ 0 ∷ 0 ∷ []) handed_out in
    let then_ = play_queue (2 ∷ 2 ∷ 2 ∷ 2 ∷ []) (move_on after.0 2 dequeuing) in
    (after.1 ++ then_.1 ≡ enqueued 0 8 ∷ returned 2 none ∷ [])
    × (after.0.size ≡ 1)
    × (then_.0.size ≡ 0)
unfolding play_queue advance_queue call_enqueue new_queue real with_idx move_on exchange_next
    exchange_tail exchange_head add_size take_size test_head give_node assign
stale_events = (refl, refl, refl)

handed_out_facts :
    (handed_out.threads 0 ≡ saw_tail 32 old_tail)
    × IsList handed_out.my_code handed_out.nodes (real handed_out.head) []
    × (on (real handed_out.head ∷ []) (real old_tail) ≡ false)
    × ((handed_out.nodes (real old_tail)).next ≡ handed_out.my_code)
    × ((handed_out.tail == old_tail) ≡ false)
unfolding play_queue advance_queue call_enqueue new_queue real with_idx move_on exchange_next
    exchange_tail exchange_head add_size take_size test_head give_node assign on
handed_out_facts = (refl, refl, refl, refl, refl)

play_queue-saw_tail_example :
    let (r, es) = play_queue (0 ∷ 0 ∷ 0 ∷ 0 ∷ []) handed_out in
    (r.threads 0 ≡ resting)
    × (es ≡ enqueued 0 (handed_out.nodes 32).data_ ∷ [])
    × (r.size ≡ (handed_out.size + 1) % 2 ^ 32)
    × IsList r.my_code r.nodes (real r.head) []
    × (data_of r.nodes [] ≡ data_of handed_out.nodes [])
play_queue-saw_tail_example =
    play_queue-saw_tail handed_out 0 32 old_tail [] handed_out_facts.0 handed_out_facts.1
      handed_out_facts.2 handed_out_facts.3 (λ e. ground (arith, handed_out_facts.4))
