-- ===== src/LockFreeQueue.antt =====
-- `CLockFreeQueue` (LoginServer_Chat/CLockFreeQueue.h): threads that enqueue and dequeue at the same
-- time, each step one access to the memory that they share.
pub mod Spec
pub mod Chain
pub mod Invariant
pub mod Moves
pub mod Nodes
pub mod Appends
pub mod Heads
pub mod Counts
pub mod Simulate
pub mod Enqueues
pub mod Dequeues
pub mod Takes
pub mod Refine
pub mod Stale
mod Tests
use login_server_chat.Prelude.{
  ℕ, ◌+◌, ◌-◌, ◌*◌, ◌/◌, ◌%◌, ◌^◌, ◌<◌, ◌==◌, ltb, if◌then◌else◌, Bool, true, false, ◌||◌, List, [],
  ◌∷◌, Option, none, some, ◌≡◌, assign,
}

-- A node stands at its address. The last one has the queue's code in place of a next node.
pub record QueueNode : Type 0 where
  pub data_ : ℕ
  pub next : ℕ

-- `_dummy` is a member of the queue.
abbrev pub queue_dummy : ℕ
queue_dummy = 1

-- Where a thread stands, with its local variables. In `Enqueue`: before `_tail` and the next node are
-- read, before the first exchange of a round, before the last exchange, and before the increment. In
-- `Dequeue`: before the decrement, before the increment of a call that ends with `false`, before
-- `_head`, its next node, `_tail` with the test for the code, its next node and the data are read,
-- before the exchange of `_head`, and after it.
pub data QueueThread : Type 0 where
  resting : QueueThread
  enqueuing : (new_node : ℕ) → QueueThread
  saw_tail : (new_node bk_tail : ℕ) → QueueThread
  saw_tail_next : (new_node bk_tail bk_next : ℕ) → QueueThread
  appended : (new_node bk_tail : ℕ) → QueueThread
  counting : QueueThread
  dequeuing : QueueThread
  turned_away : QueueThread
  reserved : QueueThread
  saw_head : (bk_head : ℕ) → QueueThread
  saw_head_next : (bk_head bk_next : ℕ) → QueueThread
  saw_both : (bk_head bk_next bk_tail : ℕ) → QueueThread
  saw_all : (bk_head bk_next bk_tail bk_tail_next : ℕ) → QueueThread
  loaded : (bk_head bk_next value : ℕ) → QueueThread
  removed : (bk_head value : ℕ) → QueueThread

-- `_head` and `_tail` have a counter in their upper 17 bits. `_size` is its bit pattern. `in_use` says
-- of each address whether the node pool has handed it out, or never will.
pub record Queue : Type 0 where
  pub nodes : ℕ → QueueNode
  pub head : ℕ
  pub tail : ℕ
  pub size : ℕ
  pub my_code : ℕ
  pub threads : ℕ → QueueThread
  pub in_use : ℕ → Bool

-- What a thread does to the queue: its data comes to the end, it is told that there is nothing, it
-- takes the first data, or its `Dequeue` returns, with the data or with `false`.
pub data QueueEvent : Type 0 where
  enqueued : (thread value : ℕ) → QueueEvent
  refused : (thread : ℕ) → QueueEvent
  dequeued : (thread value : ℕ) → QueueEvent
  returned : (thread : ℕ) (value : Option ℕ) → QueueEvent

-- The constructor, over the nodes that are in memory and with what the decrement of `uniqueCode` gave.
unfoldable pub new_queue : (ℕ → QueueNode) → ℕ → Queue
new_queue memory my_code = record {
  nodes = assign memory queue_dummy (record (memory queue_dummy) { next = my_code });
  head = queue_dummy;
  tail = queue_dummy;
  size = 0;
  my_code = my_code;
  threads = λ i. resting;
  in_use = λ a. a == queue_dummy;
}

-- The address in a pointer with a counter.
unfoldable pub real : ℕ → ℕ
real pointer = pointer % 2 ^ 47

-- The pointer to a node, with the counter after the one in `old`. An address is below 2 ^ 47, so that
-- `|` is `+`.
unfoldable pub with_idx : ℕ → ℕ → ℕ
with_idx node old = node + (old / 2 ^ 47 + 1) * 2 ^ 47 % 2 ^ 64

unfoldable pub move_on : Queue → ℕ → QueueThread → Queue
move_on q i thread = record q { threads = assign q.threads i thread }

-- `Enqueue` up to the loop, with what the pool handed out, which is the thread's own.
unfoldable pub call_enqueue : Queue → ℕ → ℕ → ℕ → Queue
call_enqueue q i new_node value = record q {
  nodes = assign q.nodes new_node (record { data_ = value; next = q.my_code });
  in_use = assign q.in_use new_node true;
  threads = assign q.threads i (enqueuing new_node);
}

-- `InterlockedCompareExchange64` on the next node of the tail.
unfoldable pub exchange_next : Queue → ℕ → ℕ → ℕ → Queue × List QueueEvent
exchange_next q i new_node bk_tail =
    let t = real bk_tail in
    if (q.nodes t).next == q.my_code
    then (
      record q {
        nodes = assign q.nodes t (record (q.nodes t) { next = new_node });
        threads = assign q.threads i (appended new_node bk_tail);
      },
      enqueued i (q.nodes new_node).data_ ∷ [],
    )
    else (move_on q i (enqueuing new_node), [])

-- `InterlockedCompareExchange64` on `_tail`.
unfoldable pub exchange_tail : Queue → ℕ → ℕ → Queue
exchange_tail q bk_tail node =
    if q.tail == bk_tail then record q { tail = with_idx node bk_tail } else q

-- `InterlockedCompareExchange64` on `_head`.
unfoldable pub exchange_head : Queue → ℕ → ℕ → ℕ → ℕ → Queue × List QueueEvent
exchange_head q i bk_head bk_next value =
    if q.head == bk_head
    then (
      record q {
        head = with_idx bk_next bk_head;
        threads = assign q.threads i (removed bk_head value);
      },
      dequeued i value ∷ [],
    )
    else (move_on q i reserved, [])

unfoldable pub add_size : Queue → Queue
add_size q = record q { size = (q.size + 1) % 2 ^ 32 }

-- `InterlockedDecrement(&_size) < 0`: a `long` is negative from 2 ^ 31 on.
unfoldable pub take_size : Queue → ℕ → Queue × List QueueEvent
take_size q i =
    let size = (q.size + (2 ^ 32 - 1)) % 2 ^ 32 in
    if ltb size (2 ^ 31)
    then (move_on (record q { size = size }) i reserved, [])
    else (move_on (record q { size = size }) i turned_away, refused i ∷ [])

-- The test of the next node of the head.
unfoldable pub test_head : Queue → ℕ → ℕ → ℕ → Queue × List QueueEvent
test_head q i bk_head bk_next =
    if bk_next == q.my_code
    then (if bk_head == q.head
        then (move_on q i resting, returned i none ∷ [])
        else (move_on q i reserved, []))
    else (move_on q i (saw_both bk_head bk_next q.tail), [])

-- The end of `Dequeue`: the node goes back to the pool, which refuses `_dummy`, since that has not the
-- codes of a block around it.
unfoldable pub give_node : Queue → ℕ → ℕ → ℕ → Queue × List QueueEvent
give_node q i bk_head value = (
  record q {
    in_use = assign q.in_use (real bk_head) (real bk_head == queue_dummy);
    threads = assign q.threads i resting;
  },
  returned i (some value) ∷ [],
)

-- The next step of a thread that is inside a call.
unfoldable pub advance_queue : QueueThread → Queue → ℕ → Queue × List QueueEvent
advance_queue resting q i = (q, [])
advance_queue (enqueuing new_node) q i = (move_on q i (saw_tail new_node q.tail), [])
advance_queue (saw_tail new_node bk_tail) q i =
    (move_on q i (saw_tail_next new_node bk_tail (q.nodes (real bk_tail)).next), [])
advance_queue (saw_tail_next new_node bk_tail bk_next) q i =
    if bk_next == q.my_code
    then exchange_next q i new_node bk_tail
    else (move_on (exchange_tail q bk_tail bk_next) i (enqueuing new_node), [])
advance_queue (appended new_node bk_tail) q i =
    (move_on (exchange_tail q bk_tail new_node) i counting, [])
advance_queue counting q i = (move_on (add_size q) i resting, [])
advance_queue dequeuing q i = take_size q i
advance_queue turned_away q i = (move_on (add_size q) i resting, returned i none ∷ [])
advance_queue reserved q i = (move_on q i (saw_head q.head), [])
advance_queue (saw_head bk_head) q i =
    (move_on q i (saw_head_next bk_head (q.nodes (real bk_head)).next), [])
advance_queue (saw_head_next bk_head bk_next) q i = test_head q i bk_head bk_next
advance_queue (saw_both bk_head bk_next bk_tail) q i =
    (move_on q i (saw_all bk_head bk_next bk_tail (q.nodes (real bk_tail)).next), [])
advance_queue (saw_all bk_head bk_next bk_tail bk_tail_next) q i =
    if bk_tail_next == q.my_code
    then (move_on q i (loaded bk_head bk_next (q.nodes bk_next).data_), [])
    else (move_on (exchange_tail q bk_tail bk_tail_next) i reserved, [])
advance_queue (loaded bk_head bk_next value) q i = exchange_head q i bk_head bk_next value
advance_queue (removed bk_head value) q i = give_node q i bk_head value

-- Whether a thread has the address in its copy of `_head` or `_tail`, and is going to use it.
unfoldable pub looks : QueueThread → ℕ → Bool
looks resting a = false
looks (enqueuing new_node) a = false
looks (saw_tail new_node bk_tail) a = a == real bk_tail
looks (saw_tail_next new_node bk_tail bk_next) a = a == real bk_tail
looks (appended new_node bk_tail) a = a == real bk_tail
looks counting a = false
looks dequeuing a = false
looks turned_away a = false
looks reserved a = false
looks (saw_head bk_head) a = a == real bk_head
looks (saw_head_next bk_head bk_next) a = a == real bk_head
looks (saw_both bk_head bk_next bk_tail) a = a == real bk_head || a == real bk_tail
looks (saw_all bk_head bk_next bk_tail bk_tail_next) a = a == real bk_head || a == real bk_tail
looks (loaded bk_head bk_next value) a = a == real bk_head
looks (removed bk_head value) a = false

-- A step of one of the first `n` threads. The pool hands out an address that is not in use, and at
-- which no thread looks.
pub data QueueStep (n : ℕ) : Queue → List QueueEvent → Queue → Type 0 where
  enqueues :
      (q : Queue) (i new_node value : ℕ)
      → i < n
      → q.threads i ≡ resting
      → q.in_use new_node ≡ false
      → new_node < 2 ^ 47
      → ((j : ℕ) → looks (q.threads j) new_node ≡ false)
      → QueueStep n q [] (call_enqueue q i new_node value)
  dequeues :
      (q : Queue) (i : ℕ) → i < n → q.threads i ≡ resting → QueueStep n q [] (move_on q i dequeuing)
  goes_on :
      (q : Queue) (i : ℕ)
      → i < n
      → QueueStep n q (advance_queue (q.threads i) q i).1 (advance_queue (q.threads i) q i).0
