-- ===== src/LockFreeStack/Tests.antt =====
-- Two threads on the stack, and each theorem at a small run.
use login_server_chat.Prelude.{
  assign, ℕ, ◌^◌, ◌<◌, ◌==◌, ◌||◌, if◌then◌else◌, List, [], ◌∷◌, ◌++◌, none, some, ◌≡◌, ◌⊎◌, refl,
  arith,
}
use login_server_chat.LockFreeStack.{
  Node, idle, popping, Stack, new_stack, Event, pushed, popped, found_empty, returned, go,
  call_push, advance, link, exchange_top, read_top, finish_pop, exchange_uniq_top, give_back,
  pushes, pops,
}
use login_server_chat.LockFreeStack.Spec.{Spec, empty_spec, DoesAll, Steps, start, step, pop_count}
use login_server_chat.LockFreeStack.Invariant.{IsChain, has, owns, Inv}
use login_server_chat.LockFreeStack.Simulate.{data_of}
use login_server_chat.LockFreeStack.Refine.{Steps-DoesAll}
use login_server_chat.LockFreeStack.Alone.{play, play-Steps, play-popping}

abbrev memory : ℕ → Node
memory a = record { data_ = 205; next = 205 }

-- Thread 0 is in `Push` of 7 with the node at 16.
abbrev one_push : Stack
one_push = call_push (new_stack memory) 0 16 7

abbrev after_push : Stack
after_push = (play (0 ∷ 0 ∷ 0 ∷ []) one_push).0

-- Both threads are in `Pop`.
abbrev two_pops : Stack
two_pops = go (go after_push 0 popping) 1 popping

-- Thread 0 reads the index, the top and its next node; then thread 1 pops the node; thread 0 goes on.
abbrev schedule : List ℕ
schedule = 0 ∷ 0 ∷ 0 ∷ 1 ∷ 1 ∷ 1 ∷ 1 ∷ 1 ∷ 0 ∷ []

one_push-Steps : Steps (new_stack memory) [] one_push
unfolding new_stack
one_push-Steps = step start (pushes (new_stack memory) 0 16 7 refl refl (λ e. ground arith))

abbrev events : List Event
events = ((([] ++ (play (0 ∷ 0 ∷ 0 ∷ []) one_push).1) ++ []) ++ []) ++ (play schedule two_pops).1

-- The exchange of thread 0 fails, since the index has changed.
events_lem : events ≡ pushed 0 7 ∷ popped 1 7 ∷ returned 1 (some 7) ∷ []
unfolding play advance call_push new_stack go assign link exchange_top read_top finish_pop
    exchange_uniq_top give_back
events_lem = refl

two_pops-Steps : Steps (new_stack memory) events (play schedule two_pops).0
unfolding play advance call_push new_stack go assign link exchange_top
two_pops-Steps = play-Steps schedule (
    step (step (play-Steps (0 ∷ 0 ∷ 0 ∷ []) one_push-Steps) (pops after_push 0 refl))
      (pops (go after_push 0 popping) 1 refl))

one_pop : pop_count events < 2 ^ 64
one_pop = rw events_lem (omega arith)

Steps-DoesAll_example :
    let s = (play schedule two_pops).0 in
    (p : Spec) × (bs : List ℕ) × DoesAll empty_spec events p
    × IsChain s.nodes s.top bs
    × (p.contents ≡ data_of s.nodes bs)
Steps-DoesAll_example = Steps-DoesAll memory two_pops-Steps one_pop

-- A stack with 7 in the node at 16, and threads that are all in `Pop`.
abbrev one_node : Stack
one_node = record {
  nodes = λ a. (if a == 16 then record { data_ = 7; next = 1 } else record { data_ = 0; next = 0 });
  top = 16;
  uniq_idx = 3;
  threads = λ i. popping;
  in_use = λ a. a == 16 || a == 1;
}

abbrev held : List ℕ
held = 16 ∷ []

one_node-Inv : Inv one_node held
unfolding has owns
one_node-Inv = record {
  chain = (refl, refl);
  distinct = (refl, tt);
  bottom = refl;
  used = λ a h. ground (arith, h);
  positive = λ a h. ground (arith, h);
  owned = λ i a o. ground arith;
  once = λ i j a ne o. refl;
  sound = λ i. tt;
}

play-popping_example :
    ((t : Stack) × (play (0 ∷ 0 ∷ 0 ∷ 0 ∷ []) one_node ≡ (t, found_empty 0 ∷ returned 0 none ∷ []))
      × (held ≡ [])
      × (t.threads 0 ≡ idle))
    ⊎ ((t : Stack) × (b : ℕ) × (rest : List ℕ) × (play (0 ∷ 0 ∷ 0 ∷ 0 ∷ 0 ∷ []) one_node ≡ (
      t,
      popped 0 (one_node.nodes b).data_ ∷ returned 0 (some (one_node.nodes b).data_) ∷ [],
    ))
        × (held ≡ b ∷ rest)
        × (t.threads 0 ≡ idle)
        × (t.top ≡ (one_node.nodes b).next))
play-popping_example = play-popping one_node 0 held refl one_node-Inv
