-- ===== src/LockFreeStack/Invariant.antt =====
-- What holds of the nodes, the top and the threads between two steps.
use login_server_chat.Prelude.{
  assign, assign_elim, assign_there, ℕ, ◌≤◌, ◌==◌, if◌then◌else◌, Bool, true, false, List, [], ◌∷◌,
  ◌≡◌, ◌≢◌, ◌⊎◌, sym, subst, ◌∙◌, arith,
}
use login_server_chat.LockFreeStack.{
  Node, dummy_node, Thread, idle, pushing, saw_top, linked, popping, saw_idx, saw_uniq_top,
  saw_next, took, Stack,
}

-- The nodes from the top down to the dummy, which is not in the list.
abbrev pub IsChain : (ℕ → Node) → ℕ → List ℕ → Type 0
IsChain nodes a [] = a ≡ dummy_node
IsChain nodes a (b ∷ bs) = (a ≡ b) × IsChain nodes (nodes b).next bs

-- Whether the address is of a node of the chain or of the dummy.
unfoldable pub has : List ℕ → ℕ → Bool
has [] a = a == dummy_node
has (b ∷ bs) a = if a == b then true else has bs a

abbrev pub IsDistinct : List ℕ → Type 0
IsDistinct [] = Unit {0}
IsDistinct (b ∷ bs) = (has bs b ≡ false) × IsDistinct bs

unfoldable pub owns : Thread → ℕ → Bool
owns idle a = false
owns (pushing new_node) a = a == new_node
owns (saw_top new_node bk_top) a = a == new_node
owns (linked new_node bk_top) a = a == new_node
owns popping a = false
owns (saw_idx uniq_idx) a = false
owns (saw_uniq_top uniq_idx top) a = false
owns (saw_next uniq_idx top next_top) a = false
owns (took pop_node) a = a == pop_node

-- What the local variables of a thread still say. Of a pop, as long as no other pop has come between:
-- its top is on the stack, and its next node is the one behind it.
abbrev pub IsSound : (ℕ → Node) → ℕ → List ℕ → Thread → Type 0
IsSound nodes now bs idle = Unit {0}
IsSound nodes now bs (pushing new_node) = Unit {0}
IsSound nodes now bs (saw_top new_node bk_top) = bk_top ≢ 0
IsSound nodes now bs (linked new_node bk_top) = (bk_top ≢ 0) × ((nodes new_node).next ≡ bk_top)
IsSound nodes now bs popping = Unit {0}
IsSound nodes now bs (saw_idx uniq_idx) = uniq_idx ≤ now
IsSound nodes now bs (saw_uniq_top uniq_idx top) =
    (uniq_idx ≤ now)
    × (uniq_idx ≡ now → has bs top ≡ true)
    × ((top ≡ dummy_node) ⊎ ((nodes top).next ≢ 0))
IsSound nodes now bs (saw_next uniq_idx top next_top) =
    (uniq_idx ≤ now)
    × (uniq_idx ≡ now → has bs top ≡ true)
    × (uniq_idx ≡ now → (nodes top).next ≡ next_top)
    × (next_top ≡ 0 → top ≡ dummy_node)
    × (top ≡ dummy_node → next_top ≡ 0)
IsSound nodes now bs (took pop_node) = Unit {0}

-- A node that a thread owns is in use, and on no stack.
pub record IsOwned (in_use : ℕ → Bool) (bs : List ℕ) (a : ℕ) : Type 0 where
  pub used : in_use a ≡ true
  pub apart : has bs a ≡ false
  pub positive : a ≢ 0

-- `bs` are the addresses of the nodes on the stack.
pub record Inv (s : Stack) (bs : List ℕ) : Type 0 where
  pub chain : IsChain s.nodes s.top bs
  pub distinct : IsDistinct bs
  pub bottom : (s.nodes dummy_node).next ≡ 0
  pub used : (a : ℕ) → has bs a ≡ true → s.in_use a ≡ true
  pub positive : (a : ℕ) → has bs a ≡ true → a ≢ 0
  pub owned : (i a : ℕ) → owns (s.threads i) a ≡ true → IsOwned s.in_use bs a
  pub once : (i j a : ℕ) → i ≢ j → owns (s.threads i) a ≡ true → owns (s.threads j) a ≡ false
  pub sound : (i : ℕ) → IsSound s.nodes s.uniq_idx bs (s.threads i)

pub chain-has : (nodes : ℕ → Node) (a : ℕ) (bs : List ℕ) → IsChain nodes a bs → has bs a ≡ true
unfolding has
chain-has nodes a [] c = ground arith
chain-has nodes a (b ∷ bs) c = ground arith

-- A thread of a valid stack that changes only its place and its variables.
pub once_go :
    (threads : ℕ → Thread) (i : ℕ) (th : Thread)
    → ((j a : ℕ) → j ≢ i → owns th a ≡ true → owns (threads j) a ≡ false)
    → ((j k a : ℕ) → j ≢ k → owns (threads j) a ≡ true → owns (threads k) a ≡ false)
    → (j k a : ℕ) → j ≢ k
    → owns (assign threads i th j) a ≡ true
    → owns (assign threads i th k) a ≡ false
once_go threads i th alone once j k a ne =
    assign_elim (λ x. owns x a ≡ true → owns (assign threads i th k) a ≡ false) threads i th j
      (λ ji o.
        subst (λ x. owns x a ≡ false) (sym (assign_there threads i th k (λ ki. ne (ji ∙ sym ki))))
          (alone k a (λ ki. ne (ji ∙ sym ki)) o))
      (λ ji o.
        assign_elim (λ x. owns x a ≡ false) threads i th k (λ ki. not_owned (alone j a ji) o)
          (λ ki. once j k a ne o))
  where
    not_owned : {x y : Bool} → (x ≡ true → y ≡ false) → y ≡ true → x ≡ false
    not_owned h o = ground arith
