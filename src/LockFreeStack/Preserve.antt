-- ===== src/LockFreeStack/Preserve.antt =====
-- The steps of the stack against its invariant.
use login_server_chat.Prelude.{
  assign, assign_elim, assign_there, ℕ, ◌+◌, Bool, true, false, List, [], ◌∷◌, ◌≡◌, ◌≢◌, ◌⊎◌, sym,
  subst, arith,
}
use login_server_chat.LockFreeStack.{
  Node, Thread, idle, pushing, saw_top, linked, popping, saw_idx, saw_uniq_top, saw_next, took,
  Stack, go,
}
use login_server_chat.LockFreeStack.Invariant.{IsChain, has, owns, IsSound, IsOwned, Inv, once_go}

pub IsSound-go :
    (nodes : ℕ → Node) (now : ℕ) (bs : List ℕ) (threads : ℕ → Thread) (i : ℕ) (th : Thread)
    → ((j : ℕ) → j ≢ i → IsSound nodes now bs (threads j))
    → IsSound nodes now bs th
    → (j : ℕ) → IsSound nodes now bs (assign threads i th j)
IsSound-go nodes now bs threads i th others own j =
    assign_elim (IsSound nodes now bs) threads i th j (λ e. own) (others j)

pub IsOwned-go :
    (in_use : ℕ → Bool) (bs : List ℕ) (threads : ℕ → Thread) (i : ℕ) (th : Thread)
    → ((j a : ℕ) → j ≢ i → owns (threads j) a ≡ true → IsOwned in_use bs a)
    → ((a : ℕ) → owns th a ≡ true → IsOwned in_use bs a)
    → (j a : ℕ) → owns (assign threads i th j) a ≡ true
    → IsOwned in_use bs a
IsOwned-go in_use bs threads i th others own j a =
    assign_elim (λ x. owns x a ≡ true → IsOwned in_use bs a) threads i th j (λ e. own a)
      (others j a)

-- A thread goes on, with no more nodes than it had.
pub go-Inv :
    {s : Stack} {bs : List ℕ} (i : ℕ) (th : Thread)
    → ((a : ℕ) → owns th a ≡ true → owns (s.threads i) a ≡ true)
    → IsSound s.nodes s.uniq_idx bs th
    → Inv s bs
    → Inv (go s i th) bs
unfolding go
go-Inv {s} {bs} i th fewer own v = record {
  chain = v.chain;
  distinct = v.distinct;
  bottom = v.bottom;
  used = v.used;
  positive = v.positive;
  owned =
      IsOwned-go s.in_use bs s.threads i th (λ j a ne. v.owned j a)
        (λ a o. v.owned i a (fewer a o));
  once = once_go s.threads i th (λ j a ne o. v.once i j a (λ e. ne (sym e)) (fewer a o)) v.once;
  sound = IsSound-go s.nodes s.uniq_idx bs s.threads i th (λ j ne. v.sound j) own;
}

-- A write to a node that is not on the stack.
pub IsChain-assign :
    (nodes : ℕ → Node) (n : ℕ) (x : Node) (a : ℕ) (bs : List ℕ)
    → has bs n ≡ false
    → IsChain nodes a bs
    → IsChain (assign nodes n x) a bs
unfolding has
IsChain-assign nodes n x a [] out c = c
IsChain-assign nodes n x a (b ∷ bs) out c = (
  c.0,
  subst (λ y. IsChain (assign nodes n x) y.next bs)
      (sym (assign_there nodes n x b (λ e. ground arith)))
      (IsChain-assign nodes n x (nodes b).next bs (ground arith) c.1),
)

-- A write to a node that the other thread does not own and that is on no stack; `next` stays, or is
-- not null.
pub IsSound-assign :
    (nodes : ℕ → Node) (now : ℕ) (bs : List ℕ) (n : ℕ) (x : Node) (th : Thread)
    → has bs n ≡ false
    → owns th n ≡ false
    → (x.next ≢ 0) ⊎ (x.next ≡ (nodes n).next)
    → IsSound nodes now bs th
    → IsSound (assign nodes n x) now bs th
unfolding owns assign
IsSound-assign nodes now bs n x idle out not_own next_ h = tt
IsSound-assign nodes now bs n x (pushing new_node) out not_own next_ h = tt
IsSound-assign nodes now bs n x (saw_top new_node bk_top) out not_own next_ h = h
IsSound-assign nodes now bs n x (linked new_node bk_top) out not_own next_ h = (h.0, ground arith)
IsSound-assign nodes now bs n x popping out not_own next_ h = tt
IsSound-assign nodes now bs n x (saw_idx uniq_idx) out not_own next_ h = h
IsSound-assign nodes now bs n x (saw_uniq_top uniq_idx top) out not_own next_ h =
    (h.0, h.1, ground arith)
IsSound-assign nodes now bs n x (saw_next uniq_idx top next_top) out not_own next_ h =
    (h.0, h.1, (λ e. ground arith), h.3, h.4)
IsSound-assign nodes now bs n x (took pop_node) out not_own next_ h = tt

-- A node comes on top.
pub IsSound-push :
    (nodes : ℕ → Node) (now : ℕ) (bs : List ℕ) (n : ℕ) (th : Thread)
    → IsSound nodes now bs th
    → IsSound nodes now (n ∷ bs) th
unfolding has
IsSound-push nodes now bs n idle h = tt
IsSound-push nodes now bs n (pushing new_node) h = tt
IsSound-push nodes now bs n (saw_top new_node bk_top) h = h
IsSound-push nodes now bs n (linked new_node bk_top) h = h
IsSound-push nodes now bs n popping h = tt
IsSound-push nodes now bs n (saw_idx uniq_idx) h = h
IsSound-push nodes now bs n (saw_uniq_top uniq_idx top) h = (h.0, (λ e. ground arith), h.2)
IsSound-push nodes now bs n (saw_next uniq_idx top next_top) h =
    (h.0, (λ e. ground arith), h.2, h.3, h.4)
IsSound-push nodes now bs n (took pop_node) h = tt

-- A pop counts on, so that what other pops have read is out of date.
pub IsSound-pop :
    (nodes : ℕ → Node) (now : ℕ) (bs bs' : List ℕ) (th : Thread)
    → IsSound nodes now bs th
    → IsSound nodes (now + 1) bs' th
IsSound-pop nodes now bs bs' idle h = tt
IsSound-pop nodes now bs bs' (pushing new_node) h = tt
IsSound-pop nodes now bs bs' (saw_top new_node bk_top) h = h
IsSound-pop nodes now bs bs' (linked new_node bk_top) h = h
IsSound-pop nodes now bs bs' popping h = tt
IsSound-pop nodes now bs bs' (saw_idx uniq_idx) h = omega arith
IsSound-pop nodes now bs bs' (saw_uniq_top uniq_idx top) h =
    (omega (arith, h.0), (λ e. ground (arith, h.0)), h.2)
IsSound-pop nodes now bs bs' (saw_next uniq_idx top next_top) h =
    (omega (arith, h.0), (λ e. ground (arith, h.0)), (λ e. ground (arith, h.0)), h.3, h.4)
IsSound-pop nodes now bs bs' (took pop_node) h = tt
