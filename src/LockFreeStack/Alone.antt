-- ===== src/LockFreeStack/Alone.antt =====
-- A thread of the stack that runs alone for a few steps.
use login_server_chat.Prelude.{
  assign, ℕ, ◌==◌, true, false, ==_iff, List, [], ◌∷◌, ◌++◌, append_assoc, append-nil, none, some,
  ◌≡◌, ◌≢◌, ◌⊎◌, inl, inr, refl, sym, subst, ap, ◌∙◌, arith,
}
use login_server_chat.LockFreeStack.{
  dummy_node, idle, pushing, popping, Stack, Event, pushed, popped, found_empty, returned, go, link,
  exchange_top, exchange_uniq_top, finish_pop, give_back, read_top, advance, advances,
}
use login_server_chat.LockFreeStack.Spec.{Steps, step}
use login_server_chat.LockFreeStack.Invariant.{Inv}
use login_server_chat.LockFreeStack.Exchange.{empty_lem, next_positive}

-- Threads go on by a step each, in the order of the list.
unfoldable pub play : List ℕ → Stack → Stack × List Event
play [] s = (s, [])
play (i ∷ is) s =
    let (t, es) = advance (s.threads i) s i in let (u, fs) = play is t in (u, es ++ fs)

pub play-Steps :
    {r : Stack} (is : List ℕ) {s : Stack} {es : List Event}
    → Steps r es s
    → Steps r (es ++ (play is s).1) (play is s).0
unfolding play
play-Steps {r} [] {s} {es} before = subst (λ l. Steps r l s) (sym (append-nil es)) before
play-Steps {r} (i ∷ is) {s} {es} before =
    let now = advance (s.threads i) s i in
    subst (λ l. Steps r l (play is now.0).0) (append_assoc es now.1 (play is now.0).1)
      (play-Steps is (step before (advances s i)))

-- A thread in `Push` that goes on without another thread in between has put its node on top of the
-- stack after three steps, and has ended its call.
pub play-pushing :
    (s : Stack) (i new_node : ℕ)
    → s.threads i ≡ pushing new_node
    → let (t, es) = play (i ∷ i ∷ i ∷ []) s in
      (t.threads i ≡ idle)
      × (t.top ≡ new_node)
      × ((t.nodes new_node).next ≡ s.top)
      × (es ≡ pushed i (s.nodes new_node).data_ ∷ [])
unfolding play advance go link exchange_top assign
play-pushing s i new_node at_ =
    let same : (i == i) ≡ true = (==_iff i i).1 refl in
    let same_top : (s.top == s.top) ≡ true = (==_iff s.top s.top).1 refl in
    let same_node : (new_node == new_node) ≡ true = (==_iff new_node new_node).1 refl in
    rw (at_, same, same, same_top, same, same_node) (refl, refl, refl, refl)

pub play-popping_empty :
    (s : Stack) (i : ℕ)
    → s.threads i ≡ popping
    → s.top ≡ dummy_node
    → (s.nodes dummy_node).next ≡ 0
    → let (t, es) = play (i ∷ i ∷ i ∷ i ∷ []) s in
      (t.threads i ≡ idle) × (t.top ≡ dummy_node) × (es ≡ found_empty i ∷ returned i none ∷ [])
unfolding play advance go read_top finish_pop exchange_uniq_top give_back assign
play-popping_empty s i at_ empty bottom =
    let same : (i == i) ≡ true = (==_iff i i).1 refl in
    let same_dummy : (s.top == dummy_node) ≡ true = (==_iff s.top dummy_node).1 empty in
    let null : ((s.nodes s.top).next == 0) ≡ true =
      (==_iff (s.nodes s.top).next 0).1 (ap (λ a. (s.nodes a).next) empty ∙ bottom) in
    rw (at_, same, same, same_dummy, same, null, same) (refl, empty, refl)

play-popping_node :
    (s : Stack) (i : ℕ)
    → s.threads i ≡ popping
    → s.top ≢ dummy_node
    → (s.nodes s.top).next ≢ 0
    → let (t, es) = play (i ∷ i ∷ i ∷ i ∷ i ∷ []) s in
      (t.threads i ≡ idle)
      × (t.top ≡ (s.nodes s.top).next)
      × (es ≡ popped i (s.nodes s.top).data_ ∷ returned i (some (s.nodes s.top).data_) ∷ [])
unfolding play advance go read_top finish_pop exchange_uniq_top give_back assign
play-popping_node s i at_ there pos =
    let same : (i == i) ≡ true = (==_iff i i).1 refl in
    let not_dummy : (s.top == dummy_node) ≡ false = ground (arith, there) in
    let not_null : ((s.nodes s.top).next == 0) ≡ false = ground (arith, pos) in
    let same_top : (s.top == s.top) ≡ true = (==_iff s.top s.top).1 refl in
    let same_idx : (s.uniq_idx == s.uniq_idx) ≡ true = (==_iff s.uniq_idx s.uniq_idx).1 refl in
    rw (at_, same, same, not_dummy, same, not_null, same_idx, same_top, same, same)
      (refl, refl, refl)

-- A thread at the start of `Pop` on a valid stack that goes on without another thread in between ends
-- its call: after five steps when there is a node, with the node off the stack and its data returned,
-- and after four when there is none, with `false`.
pub play-popping :
    (s : Stack) (i : ℕ) (bs : List ℕ)
    → s.threads i ≡ popping
    → Inv s bs
    → ((t : Stack) × (play (i ∷ i ∷ i ∷ i ∷ []) s ≡ (t, found_empty i ∷ returned i none ∷ []))
        × (bs ≡ [])
        × (t.threads i ≡ idle))
      ⊎ ((t : Stack) × (b : ℕ) × (rest : List ℕ) × (play (i ∷ i ∷ i ∷ i ∷ i ∷ []) s
            ≡ (t, popped i (s.nodes b).data_ ∷ returned i (some (s.nodes b).data_) ∷ []))
          × (bs ≡ b ∷ rest)
          × (t.threads i ≡ idle)
          × (t.top ≡ (s.nodes b).next))
play-popping s i [] at_ v =
    let e = play-popping_empty s i at_ v.chain v.bottom in
    inl (
      (play (i ∷ i ∷ i ∷ i ∷ []) s).0,
      ap (λ es. ((play (i ∷ i ∷ i ∷ i ∷ []) s).0, es)) e.2,
      refl,
      e.0,
    )
play-popping s i (b ∷ bs) at_ v =
    let there : s.top ≢ dummy_node = λ f. cons_nil (empty_lem (b ∷ bs) v f) in
    let pos =
      subst (λ a. (s.nodes a).next ≢ 0) (sym v.chain.0)
        (next_positive s.nodes b bs v.chain.1 v.positive) in
    let e = play-popping_node s i at_ there pos in
    let top_eq = v.chain.0 in
    inr (
      (play (i ∷ i ∷ i ∷ i ∷ i ∷ []) s).0,
      b,
      bs,
      ap (λ es. ((play (i ∷ i ∷ i ∷ i ∷ i ∷ []) s).0, es))
          (e.2
            ∙ ap (λ a. popped i (s.nodes a).data_ ∷ returned i (some (s.nodes a).data_) ∷ [])
                top_eq),
      refl,
      e.0,
      e.1 ∙ ap (λ a. (s.nodes a).next) top_eq,
    )
  where
    cons_nil : b ∷ bs ≢ []
    cons_nil f = ground arith
