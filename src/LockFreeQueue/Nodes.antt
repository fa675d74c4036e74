-- ===== src/LockFreeQueue/Nodes.antt =====
-- The pool hands out a node to `Enqueue`, which writes to it.
use login_server_chat.Prelude.{
  assign, assign_here, assign_there, ℕ, ◌^◌, ◌<◌, Bool, true, false, Bool-cases, ==_iff, ◌∷◌, ◌≡◌,
  ◌≢◌, inl, inr, refl, sym, subst, ap, ◌∙◌, arith,
}
use login_server_chat.LockFreeQueue.{
  QueueNode, QueueThread, resting, enqueuing, saw_tail, saw_tail_next, appended, counting,
  dequeuing, turned_away, reserved, saw_head, saw_head_next, saw_both, saw_all, loaded, removed,
  real, looks,
}
use login_server_chat.LockFreeQueue.Chain.{on, on-next, on_subst, IsList-assign}
use login_server_chat.LockFreeQueue.Invariant.{
  brings, owns, View, IsNext, IsSound, IsOwned, IsFresh, IsLinked, IsShared, brings-owns,
}
use login_server_chat.LockFreeQueue.Moves.{IsShared-go}

abbrev pub with_node : View → ℕ → QueueNode → View
with_node v n x = record v { nodes = assign v.nodes n x }

-- The data of the node behind the head stay.
loaded-assign :
    {v : View} {in_use : ℕ → Bool} (n : ℕ) (x : QueueNode) (h y value : ℕ)
    → on (v.hd ∷ v.behind) n ≡ false
    → IsLinked v in_use
    → IsNext v h y
    → (v.hd ≡ h → (v.nodes y).data_ ≡ value)
    → v.hd ≡ h
    → (assign v.nodes n x y).data_ ≡ value
unfolding on
loaded-assign {v} n x h y value out l next_ same e =
    let first : (v.nodes v.hd).next ≡ y = ap (λ a. (v.nodes a).next) e ∙ next_.1 in
    let on_y : on v.behind y ≡ true =
      subst (λ a. on v.behind a ≡ true) first
        (on-next v.code v.nodes v.hd v.behind v.hd l.chain (ground arith)
          (λ f. next_.0 (sym first ∙ f))) in
    ap (λ z. z.data_) (assign_there v.nodes n x y (on_subst v.behind y n on_y (ground arith)))
    ∙ same e

-- A write to a node that is not in the list, and that the thread does not look at.
IsSound-assign :
    {v : View} {in_use : ℕ → Bool} (n : ℕ) (x : QueueNode) (th : QueueThread)
    → on (v.hd ∷ v.behind) n ≡ false
    → looks th n ≡ false
    → IsLinked v in_use
    → IsSound v th
    → IsSound (with_node v n x) th
unfolding looks assign
IsSound-assign n x resting out other l h = tt
IsSound-assign n x (enqueuing new_node) out other l h = tt
IsSound-assign n x (saw_tail new_node bk_tail) out other l h = tt
IsSound-assign n x (saw_tail_next new_node bk_tail bk_next) out other l h =
    λ ne. ground (arith, h ne)
IsSound-assign n x (appended new_node bk_tail) out other l h = (h.0, ground (arith, h.1))
IsSound-assign n x counting out other l h = tt
IsSound-assign n x dequeuing out other l h = tt
IsSound-assign n x turned_away out other l h = tt
IsSound-assign n x reserved out other l h = tt
IsSound-assign n x (saw_head bk_head) out other l h = h
IsSound-assign n x (saw_head_next bk_head bk_next) out other l h =
    (h.0, (h.1.0, ground (arith, h.1.1)))
IsSound-assign n x (saw_both bk_head bk_next bk_tail) out other l h =
    (h.0, (h.1.0, ground (arith, h.1.1)), h.2)
IsSound-assign n x (saw_all bk_head bk_next bk_tail bk_tail_next) out other l h =
    (h.0, (h.1.0, ground (arith, h.1.1)), (λ ne. ground (arith, h.2 ne)), h.3)
IsSound-assign n x (loaded bk_head bk_next value) out other l h = (
  h.0,
  (h.1.0, ground (arith, h.1.1)),
  h.2,
  loaded-assign n x (real bk_head) bk_next value out l h.1 h.3,
)
IsSound-assign n x (removed bk_head value) out other l h = tt

-- The pool hands out a node that no thread looks at.
pub new_node-IsLinked :
    {v : View} {in_use : ℕ → Bool} (n : ℕ) (x : QueueNode)
    → in_use n ≡ false
    → IsLinked v in_use
    → (on (v.hd ∷ v.behind) n ≡ false) × IsLinked (with_node v n x) (assign in_use n true)
unfolding assign
new_node-IsLinked {v} {in_use} n x free l =
    let out : on (v.hd ∷ v.behind) n ≡ false = ground (arith, l.used n) in
    (
      out,
      record {
        chain = IsList-assign v.code v.nodes n x v.hd v.behind out l.chain;
        distinct = l.distinct;
        tail_on = l.tail_on;
        low = l.low;
        used = λ a h. ground (arith, l.used a h);
        high = l.high;
      },
    )

-- A node that is not in use is no thread's.
unused-owns :
    {v : View} {in_use : ℕ → Bool} {threads : ℕ → QueueThread} (n j : ℕ)
    → in_use n ≡ false
    → IsShared v in_use threads
    → owns (threads j) n ≡ false
unused-owns {threads = threads} n j free s = elim (Bool-cases (owns (threads j) n)) [
  | inl o ↦ ground (arith, sym free ∙ (s.owned j n o).used)
  | inr other ↦ other
]

pub new_node-IsShared :
    {v : View} {in_use : ℕ → Bool} {threads : ℕ → QueueThread} (i n : ℕ) (x : QueueNode)
    → in_use n ≡ false
    → n < 2 ^ 47
    → x.next ≡ v.code
    → ((j : ℕ) → looks (threads j) n ≡ false)
    → IsLinked v in_use
    → IsShared v in_use threads
    → IsShared (with_node v n x) (assign in_use n true) (assign threads i (enqueuing n))
unfolding owns brings looks
new_node-IsShared {v} {in_use} {threads} i n x free lt last unseen l s =
    let out : on (v.hd ∷ v.behind) n ≡ false = (new_node-IsLinked n x free l).0 in
    let elsewhere : (j a : ℕ) → owns (threads j) a ≡ true → a ≢ n = λ j a o e.
      ground (arith, sym (subst (λ b. owns (threads j) b ≡ true) e o) ∙ unused-owns n j free s) in
    IsShared-go i (enqueuing n) s.once
      (λ j a ne o. record {
        used = assign_there in_use n true a (elsewhere j a o) ∙ (s.owned j a o).used;
        apart = (s.owned j a o).apart;
      })
      (λ a o.
        subst
          (λ b.
            IsOwned (assign in_use n true) (v.hd ∷ v.behind) b
            × ((j : ℕ) → j ≢ i → owns (threads j) b ≡ false))
          (sym ((==_iff a n).0 o))
          (
            record { used = assign_here in_use n true; apart = out },
            λ j ne. unused-owns n j free s,
          ))
      (λ j a ne b. (
        record {
          last =
              ap (λ z. z.next)
                (assign_there v.nodes n x a (elsewhere j a (brings-owns (threads j) a b)))
              ∙ (s.fresh j a b).last;
          low = (s.fresh j a b).low;
          unseen = (s.fresh j a b).unseen;
        },
        refl,
      ))
      (λ a b. (
        subst (IsFresh (with_node v n x) threads) (sym ((==_iff a n).0 b)) (record {
          last = ap (λ z. z.next) (assign_here v.nodes n x) ∙ last;
          low = lt;
          unseen = unseen;
        }),
        refl,
      ))
      (λ j a ne k. elim (s.seen j a k) [
        | inl here ↦ inl here
        | inr more ↦ inr (
            subst (λ z. z.next ≢ v.code)
              (sym (
                assign_there v.nodes n x a (λ e.
                  ground (arith, sym (subst (λ b. looks (threads j) b ≡ true) e k) ∙ unseen j))))
              more)
      ])
      (λ a k. ground arith) (λ j ne. IsSound-assign n x (threads j) out (unseen j) l (s.sound j)) tt
