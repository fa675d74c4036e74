-- ===== src/LockFreeStack/Refine.antt =====
-- The interleaved stack and the list of its contract.
use login_server_chat.Prelude.{
  assign, ℕ, ◌+◌, ◌^◌, ◌<◌, List, [], ◌∷◌, ◌++◌, ◌≡◌, refl, subst, ap, ◌∙◌, arith,
}
use login_server_chat.LockFreeStack.{
  Node, Thread, idle, pushing, saw_top, linked, popping, saw_idx, saw_uniq_top, saw_next, took,
  Stack, new_stack, Event, pushed, popped, found_empty, returned, advance, Step, pushes, pops,
  advances,
}
use login_server_chat.LockFreeStack.Spec.{
  Spec, empty_spec, DoesAll, DoesAll-append, done, Steps, start, step, pop_count,
}
use login_server_chat.LockFreeStack.Invariant.{IsChain, has, owns, IsSound, chain-has}
use login_server_chat.LockFreeStack.Simulate.{
  data_of, pending, Refines, Simulates, go-Simulates, call_push-Simulates, link-Simulates,
}
use login_server_chat.LockFreeStack.Exchange.{
  exchange_top-Simulates, read_top-Simulates, give_back-Simulates,
}
use login_server_chat.LockFreeStack.Pops.{finish_pop-Simulates}

advance-Simulates :
    {s : Stack} {bs : List ℕ} {p : Spec} (th : Thread) (i : ℕ)
    → s.threads i ≡ th
    → Refines s bs p
    → s.uniq_idx + pop_count (advance th s i).1 < 2 ^ 64
    → Simulates s p (advance th s i).1 (advance th s i).0
unfolding advance owns pending has
advance-Simulates {s} {bs} {p} idle i at_ r lt = (bs, p, done p, r, omega arith)
advance-Simulates {s} {bs} (pushing new_node) i at_ r lt =
    go-Simulates i (saw_top new_node s.top) (λ a o. rw at_ o)
      (r.inv.positive s.top (chain-has s.nodes s.top bs r.inv.chain)) (rw at_ refl) r
advance-Simulates {s} {bs} (saw_top new_node bk_top) i at_ r lt =
    link-Simulates i new_node bk_top (rw at_ (ground arith)) (rw at_ refl)
      (subst (IsSound s.nodes s.uniq_idx bs) at_ (r.inv.sound i)) r
advance-Simulates (linked new_node bk_top) i at_ r lt =
    exchange_top-Simulates i new_node bk_top at_ r
advance-Simulates popping i at_ r lt =
    go-Simulates i (saw_idx _) (λ a o. ground arith) (omega arith) (rw at_ refl) r
advance-Simulates (saw_idx uniq_idx) i at_ r lt = read_top-Simulates i uniq_idx at_ r
advance-Simulates {s} {bs} (saw_uniq_top uniq_idx top) i at_ r lt =
    let h = subst (IsSound s.nodes s.uniq_idx bs) at_ (r.inv.sound i) in
    go-Simulates i (saw_next uniq_idx top (s.nodes top).next) (λ a o. ground arith)
      (
        h.0,
        h.1,
        (λ e. refl),
        (λ e. ground (arith, h.2)),
        (λ e. ap (λ a. (s.nodes a).next) e ∙ r.inv.bottom),
      )
      (rw at_ refl) r
advance-Simulates (saw_next uniq_idx top next_top) i at_ r lt =
    finish_pop-Simulates i uniq_idx top next_top at_ r lt
advance-Simulates (took pop_node) i at_ r lt = give_back-Simulates i pop_node at_ r

pub Step-Simulates :
    {s t : Stack} {es : List Event} {bs : List ℕ} {p : Spec}
    → Step s es t
    → Refines s bs p
    → s.uniq_idx + pop_count es < 2 ^ 64
    → Simulates s p es t
unfolding pending owns
Step-Simulates (pushes s i new_node value at_rest free pos) r lt =
    call_push-Simulates i new_node value at_rest free pos r
Step-Simulates (pops s i at_rest) r lt =
    go-Simulates i popping (λ a o. ground arith) tt (rw at_rest refl) r
Step-Simulates (advances s i) r lt = advance-Simulates (s.threads i) i refl r lt

pub new_stack-Refines : (memory : ℕ → Node) → Refines (new_stack memory) [] empty_spec
unfolding new_stack has owns pending assign
new_stack-Refines memory = record {
  inv = record {
    chain = refl;
    distinct = tt;
    bottom = refl;
    used = λ a h. h;
    positive = λ a h. ground (arith, h);
    owned = λ i a o. ground arith;
    once = λ i j a ne o. refl;
    sound = λ i. tt;
  };
  contents = refl;
  results = λ i. refl;
}

pop_count-append : (es fs : List Event) → pop_count (es ++ fs) ≡ pop_count es + pop_count fs
pop_count-append [] fs = omega arith
pop_count-append (pushed i value ∷ es) fs = pop_count-append es fs
pop_count-append (popped i value ∷ es) fs = ground (arith, pop_count-append es fs)
pop_count-append (found_empty i ∷ es) fs = pop_count-append es fs
pop_count-append (returned i value ∷ es) fs = pop_count-append es fs

Steps-Simulates :
    (memory : ℕ → Node) {s : Stack} {es : List Event}
    → Steps (new_stack memory) es s
    → pop_count es < 2 ^ 64
    → Simulates (new_stack memory) empty_spec es s
unfolding new_stack
Steps-Simulates memory start lt =
    ([], empty_spec, done empty_spec, new_stack-Refines memory, omega arith)
Steps-Simulates memory (step {es = es} {fs = fs} before now) lt =
    let n = pop_count-append es fs in
    let (bs, p, does, r, e) = Steps-Simulates memory before (omega (arith, lt, n)) in
    let (bs', q, does', r', e') = Step-Simulates now r (omega (arith, lt, n, e)) in
    (bs', q, DoesAll-append does does', r', omega (arith, n, e, e'))

-- Threads push and pop at the same time on a new stack, in any interleaving of their accesses to the
-- memory and whatever free nodes the pool hands out, also nodes that other threads still look at, with
-- less than 2 ^ 64 pops. Then what they do is what calls that take effect one at a time do to a list:
-- each pop takes the data that is first, or finds none, and returns that; and the nodes from the top
-- to the dummy hold the list.
pub Steps-DoesAll :
    (memory : ℕ → Node) {s : Stack} {es : List Event}
    → Steps (new_stack memory) es s
    → pop_count es < 2 ^ 64
    → (p : Spec) × (bs : List ℕ) × DoesAll empty_spec es p
      × IsChain s.nodes s.top bs
      × (p.contents ≡ data_of s.nodes bs)
Steps-DoesAll memory steps lt =
    let (bs, p, does, r, e) = Steps-Simulates memory steps lt in
    (p, bs, does, r.inv.chain, r.contents)
