-- ===== src/LockFreeStack/Simulate.antt =====
-- The steps of the stack and the list of the contract.
use login_server_chat.Prelude.{
  assign, assign_elim, assign_here, assign_there, ℕ, ◌+◌, ◌==◌, if◌then◌else◌, true, false, List,
  [], ◌∷◌, Option, none, some, ◌≡◌, ◌≢◌, refl, sym, subst, ap, ◌∙◌, arith,
}
use login_server_chat.LockFreeStack.{
  Node, dummy_node, Thread, idle, pushing, saw_top, linked, popping, saw_idx, saw_uniq_top,
  saw_next, took, Stack, Event, go, call_push, link,
}
use login_server_chat.LockFreeStack.Spec.{Spec, DoesAll, done, pop_count}
use login_server_chat.LockFreeStack.Invariant.{has, owns, IsSound, Inv}
use login_server_chat.LockFreeStack.Preserve.{go-Inv}
use login_server_chat.LockFreeStack.Moves.{
  unused-out, unused-owns, owns_there, call_push-Inv, link-Inv,
}

abbrev pub data_of : (ℕ → Node) → List ℕ → List ℕ
data_of nodes [] = []
data_of nodes (b ∷ bs) = (nodes b).data_ ∷ data_of nodes bs

-- What the `Pop` of a thread is bound to return.
unfoldable pub pending : (ℕ → Node) → Thread → Option (Option ℕ)
pending nodes idle = none
pending nodes (pushing new_node) = none
pending nodes (saw_top new_node bk_top) = none
pending nodes (linked new_node bk_top) = none
pending nodes popping = none
pending nodes (saw_idx uniq_idx) = none
pending nodes (saw_uniq_top uniq_idx top) = if top == dummy_node then some none else none
pending nodes (saw_next uniq_idx top next_top) = if top == dummy_node then some none else none
pending nodes (took pop_node) = some (some (nodes pop_node).data_)

pub record Refines (s : Stack) (bs : List ℕ) (p : Spec) : Type 0 where
  pub inv : Inv s bs
  pub contents : p.contents ≡ data_of s.nodes bs
  pub results : (i : ℕ) → p.result i ≡ pending s.nodes (s.threads i)

abbrev pub Simulates : Stack → Spec → List Event → Stack → Type 0
Simulates s p es t =
    (bs : List ℕ) × (q : Spec) × DoesAll p es q
    × Refines t bs q
    × (t.uniq_idx ≡ s.uniq_idx + pop_count es)

pub results_go :
    (nodes : ℕ → Node) (threads : ℕ → Thread) (result : ℕ → Option (Option ℕ)) (i : ℕ) (th : Thread)
    → ((j : ℕ) → j ≢ i → result j ≡ pending nodes (threads j))
    → result i ≡ pending nodes th
    → (j : ℕ) → result j ≡ pending nodes (assign threads i th j)
results_go nodes threads result i th others own j =
    assign_elim (λ x. result j ≡ pending nodes x) threads i th j
      (λ e. subst (λ k. result k ≡ pending nodes th) (sym e) own) (others j)

pub results_set :
    (nodes : ℕ → Node) (threads : ℕ → Thread) (result : ℕ → Option (Option ℕ)) (i : ℕ) (th : Thread)
    (r : Option (Option ℕ))
    → ((j : ℕ) → j ≢ i → result j ≡ pending nodes (threads j))
    → r ≡ pending nodes th
    → (j : ℕ) → assign result i r j ≡ pending nodes (assign threads i th j)
results_set nodes threads result i th r others own =
    results_go nodes threads (assign result i r) i th
      (λ j ne. assign_there result i r j ne ∙ others j ne) (assign_here result i r ∙ own)

data_of-assign :
    (nodes : ℕ → Node) (n : ℕ) (x : Node) (bs : List ℕ)
    → has bs n ≡ false
    → data_of (assign nodes n x) bs ≡ data_of nodes bs
unfolding has assign
data_of-assign nodes n x [] out = refl
data_of-assign nodes n x (b ∷ bs) out = ground (arith, data_of-assign nodes n x bs)

pending-assign :
    (nodes : ℕ → Node) (n : ℕ) (x : Node) (th : Thread)
    → owns th n ≡ false
    → pending nodes th ≡ pending (assign nodes n x) th
unfolding owns assign pending
pending-assign nodes n x idle not_own = refl
pending-assign nodes n x (pushing new_node) not_own = refl
pending-assign nodes n x (saw_top new_node bk_top) not_own = refl
pending-assign nodes n x (linked new_node bk_top) not_own = refl
pending-assign nodes n x popping not_own = refl
pending-assign nodes n x (saw_idx uniq_idx) not_own = refl
pending-assign nodes n x (saw_uniq_top uniq_idx top) not_own = refl
pending-assign nodes n x (saw_next uniq_idx top next_top) not_own = refl
pending-assign nodes n x (took pop_node) not_own = ground arith

-- A thread goes on, and its `Pop` is bound to return what it was.
pub go-Simulates :
    {s : Stack} {bs : List ℕ} {p : Spec} (i : ℕ) (th : Thread)
    → ((a : ℕ) → owns th a ≡ true → owns (s.threads i) a ≡ true)
    → IsSound s.nodes s.uniq_idx bs th
    → pending s.nodes (s.threads i) ≡ pending s.nodes th
    → Refines s bs p
    → Simulates s p [] (go s i th)
unfolding go
go-Simulates {s} {bs} {p} i th fewer own same r = (
  bs,
  p,
  done p,
  record {
    inv = go-Inv i th fewer own r.inv;
    contents = r.contents;
    results = results_go s.nodes s.threads p.result i th (λ j ne. r.results j) (r.results i ∙ same);
  },
  omega arith,
)

pub call_push-Simulates :
    {s : Stack} {bs : List ℕ} {p : Spec} (i n value : ℕ)
    → s.threads i ≡ idle
    → s.in_use n ≡ false
    → n ≢ 0
    → Refines s bs p
    → Simulates s p [] (call_push s i n value)
unfolding call_push pending
call_push-Simulates {s} {bs} {p} i n value at_rest free pos r =
    let x : Node = record (s.nodes n) { data_ = value } in
    (
      bs,
      p,
      done p,
      record {
        inv = call_push-Inv i n value at_rest free pos r.inv;
        contents = r.contents ∙ sym (data_of-assign s.nodes n x bs (unused-out n r.inv free));
        results =
            results_go (assign s.nodes n x) s.threads p.result i (pushing n)
              (λ j ne.
                r.results j ∙ pending-assign s.nodes n x (s.threads j) (unused-owns n j r.inv free))
              (r.results i ∙ ap (pending s.nodes) at_rest);
      },
      omega arith,
    )

pub link-Simulates :
    {s : Stack} {bs : List ℕ} {p : Spec} (i n bk_top : ℕ)
    → owns (s.threads i) n ≡ true
    → pending s.nodes (s.threads i) ≡ none
    → bk_top ≢ 0
    → Refines s bs p
    → Simulates s p [] (link s i n bk_top)
unfolding link pending
link-Simulates {s} {bs} {p} i n bk_top own nothing pos r =
    let x : Node = record (s.nodes n) { next = bk_top } in
    (
      bs,
      p,
      done p,
      record {
        inv = link-Inv i n bk_top own pos r.inv;
        contents = r.contents ∙ sym (data_of-assign s.nodes n x bs (r.inv.owned i n own).apart);
        results =
            results_go (assign s.nodes n x) s.threads p.result i (linked n bk_top)
              (λ j ne.
                r.results j
                ∙ pending-assign s.nodes n x (s.threads j) (owns_there i n j n r.inv own ne refl))
              (r.results i ∙ nothing);
      },
      omega arith,
    )
