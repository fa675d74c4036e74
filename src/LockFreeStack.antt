-- ===== src/LockFreeStack.antt =====
-- `CLockFreeStack` (LoginServer_Chat/CLockFreeStack.h): threads that push and pop at the same time,
-- each step one access to the memory that they share.
pub mod Spec
pub mod Invariant
pub mod Preserve
pub mod Moves
pub mod Takes
pub mod Simulate
pub mod Exchange
pub mod Pops
pub mod Refine
pub mod Alone
mod Tests
use login_server_chat.Prelude.{
  assign, ℕ, ◌+◌, ◌%◌, ◌^◌, ◌==◌, if◌then◌else◌, Bool, true, false, ◌&&◌, List, [], ◌∷◌, Option,
  none, some, ◌≡◌, ◌≢◌,
}

-- A node stands at its address; 0 is the null pointer. `_dummyNode` is a member of the stack.
pub record Node : Type 0 where
  pub data_ : ℕ
  pub next : ℕ

abbrev pub dummy_node : ℕ
dummy_node = 1

-- Where a thread stands, with its local variables: in `Push` with the node that it owns, before
-- `_top` is read, before `_next` is written, and before the exchange; in `Pop` before `_uniqIdx`,
-- `_top` and `_next` are read, before the test for null and the exchange, and after the exchange
-- with the node that it took.
pub data Thread : Type 0 where
  idle : Thread
  pushing : (new_node : ℕ) → Thread
  saw_top : (new_node bk_top : ℕ) → Thread
  linked : (new_node bk_top : ℕ) → Thread
  popping : Thread
  saw_idx : (uniq_idx : ℕ) → Thread
  saw_uniq_top : (uniq_idx top : ℕ) → Thread
  saw_next : (uniq_idx top next_top : ℕ) → Thread
  took : (pop_node : ℕ) → Thread

-- `in_use` says of each address whether the node pool has handed it out, or never will.
pub record Stack : Type 0 where
  pub nodes : ℕ → Node
  pub top : ℕ
  pub uniq_idx : ℕ
  pub threads : ℕ → Thread
  pub in_use : ℕ → Bool

-- What a thread does to the stack: it puts data on it, takes data off, finds it empty, or its `Pop`
-- returns, with the data or with `false`.
pub data Event : Type 0 where
  pushed : (thread value : ℕ) → Event
  popped : (thread value : ℕ) → Event
  found_empty : (thread : ℕ) → Event
  returned : (thread : ℕ) (value : Option ℕ) → Event

-- The constructor, over the nodes that are in memory.
unfoldable pub new_stack : (ℕ → Node) → Stack
new_stack memory = record {
  nodes = assign memory dummy_node (record { data_ = 0; next = 0 });
  top = dummy_node;
  uniq_idx = 0;
  threads = λ i. idle;
  in_use = λ a. a == dummy_node;
}

unfoldable pub go : Stack → ℕ → Thread → Stack
go s i thread = record s { threads = assign s.threads i thread }

-- `Push` up to the assignment of the data, with what the pool handed out.
unfoldable pub call_push : Stack → ℕ → ℕ → ℕ → Stack
call_push s i new_node value = record s {
  nodes = assign s.nodes new_node (record (s.nodes new_node) { data_ = value });
  in_use = assign s.in_use new_node true;
  threads = assign s.threads i (pushing new_node);
}

unfoldable pub link : Stack → ℕ → ℕ → ℕ → Stack
link s i new_node bk_top = record s {
  nodes = assign s.nodes new_node (record (s.nodes new_node) { next = bk_top });
  threads = assign s.threads i (linked new_node bk_top);
}

-- `InterlockedCompareExchange64` on `_top`.
unfoldable pub exchange_top : Stack → ℕ → ℕ → ℕ → Stack × List Event
exchange_top s i new_node bk_top =
    if s.top == bk_top
    then (
      record s { top = new_node; threads = assign s.threads i idle },
      pushed i (s.nodes new_node).data_ ∷ [],
    )
    else (go s i (pushing new_node), [])

-- `InterlockedCompareExchange128` on `_uniqTop`.
unfoldable pub exchange_uniq_top : Stack → ℕ → ℕ → ℕ → ℕ → Stack × List Event
exchange_uniq_top s i uniq_idx top next_top =
    if s.uniq_idx == uniq_idx && s.top == top
    then (
      record s {
        top = next_top;
        uniq_idx = (uniq_idx + 1) % 2 ^ 64;
        threads = assign s.threads i (took top);
      },
      popped i (s.nodes top).data_ ∷ [],
    )
    else (go s i popping, [])

-- The test of `pNextTop`, and the exchange.
unfoldable pub finish_pop : Stack → ℕ → ℕ → ℕ → ℕ → Stack × List Event
finish_pop s i uniq_idx top next_top =
    if next_top == 0
    then (go s i idle, returned i none ∷ [])
    else exchange_uniq_top s i uniq_idx top next_top

-- The end of `Pop`: the node goes back to the pool.
unfoldable pub give_back : Stack → ℕ → ℕ → Stack × List Event
give_back s i pop_node = (
  record s { in_use = assign s.in_use pop_node false; threads = assign s.threads i idle },
  returned i (some (s.nodes pop_node).data_) ∷ [],
)

-- A thread that reads the dummy as the top has found the stack empty.
unfoldable pub read_top : Stack → ℕ → ℕ → Stack × List Event
read_top s i uniq_idx =
    (go s i (saw_uniq_top uniq_idx s.top), if s.top == dummy_node then found_empty i ∷ [] else [])

-- The next step of a thread that is inside a call.
unfoldable pub advance : Thread → Stack → ℕ → Stack × List Event
advance idle s i = (s, [])
advance (pushing new_node) s i = (go s i (saw_top new_node s.top), [])
advance (saw_top new_node bk_top) s i = (link s i new_node bk_top, [])
advance (linked new_node bk_top) s i = exchange_top s i new_node bk_top
advance popping s i = (go s i (saw_idx s.uniq_idx), [])
advance (saw_idx uniq_idx) s i = read_top s i uniq_idx
advance (saw_uniq_top uniq_idx top) s i = (go s i (saw_next uniq_idx top (s.nodes top).next), [])
advance (saw_next uniq_idx top next_top) s i = finish_pop s i uniq_idx top next_top
advance (took pop_node) s i = give_back s i pop_node

-- A step of any thread. The pool hands out an address that is not null and not in use.
pub data Step : Stack → List Event → Stack → Type 0 where
  pushes :
      (s : Stack) (i new_node value : ℕ)
      → s.threads i ≡ idle
      → s.in_use new_node ≡ false
      → new_node ≢ 0
      → Step s [] (call_push s i new_node value)
  pops : (s : Stack) (i : ℕ) → s.threads i ≡ idle → Step s [] (go s i popping)
  advances :
      (s : Stack) (i : ℕ) → Step s (advance (s.threads i) s i).1 (advance (s.threads i) s i).0
