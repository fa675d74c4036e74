-- ===== src/LockFreeStack/Moves.antt =====
-- The steps that write to a node, against the invariant.
use login_server_chat.Prelude.{
  assign, assign_here, assign_there, ℕ, true, false, Bool-cases, ==_iff, List, [], ◌∷◌, ◌≡◌, ◌≢◌,
  inl, inr, refl, sym, subst, ap, ◌∙◌, arith,
}
use login_server_chat.LockFreeStack.{
  Node, dummy_node, idle, pushing, linked, Stack, call_push, link,
}
use login_server_chat.LockFreeStack.Invariant.{has, owns, IsOwned, Inv, once_go}
use login_server_chat.LockFreeStack.Preserve.{
  IsSound-go, IsOwned-go, IsChain-assign, IsSound-assign,
}

pub has-dummy_node : (bs : List ℕ) → has bs dummy_node ≡ true
unfolding has
has-dummy_node [] = refl
has-dummy_node (b ∷ bs) = ground (arith, has-dummy_node bs)

not_dummy : (bs : List ℕ) (n : ℕ) → has bs n ≡ false → dummy_node ≢ n
not_dummy bs n out e =
    ground (arith, sym (subst (λ a. has bs a ≡ true) e (has-dummy_node bs)) ∙ out)

pub unused-out :
    {s : Stack} {bs : List ℕ} (n : ℕ) → Inv s bs → s.in_use n ≡ false → has bs n ≡ false
unused-out {s} {bs} n v free = ground (arith, v.used n)

pub unused-owns :
    {s : Stack} {bs : List ℕ} (n j : ℕ)
    → Inv s bs
    → s.in_use n ≡ false
    → owns (s.threads j) n ≡ false
unused-owns {s} {bs} n j v free = elim (Bool-cases (owns (s.threads j) n)) [
  | inl o ↦ ground (arith, sym free ∙ (v.owned j n o).used)
  | inr other ↦ other
]

-- What a write to a node that is on no stack and that no other thread owns keeps.
bottom-assign :
    {s : Stack} {bs : List ℕ} (n : ℕ) (x : Node)
    → Inv s bs
    → has bs n ≡ false
    → (assign s.nodes n x dummy_node).next ≡ 0
bottom-assign {s} {bs} n x v out =
    ap (λ y. y.next) (assign_there s.nodes n x dummy_node (not_dummy bs n out)) ∙ v.bottom

pub call_push-Inv :
    {s : Stack} {bs : List ℕ} (i n value : ℕ)
    → s.threads i ≡ idle
    → s.in_use n ≡ false
    → n ≢ 0
    → Inv s bs
    → Inv (call_push s i n value) bs
unfolding call_push owns assign
call_push-Inv {s} {bs} i n value at_rest free pos v =
    let out = unused-out n v free in
    let x : Node = record (s.nodes n) { data_ = value } in
    record {
      chain = IsChain-assign s.nodes n x s.top bs out v.chain;
      distinct = v.distinct;
      bottom = bottom-assign n x v out;
      used = λ a h. ground (arith, v.used a h);
      positive = v.positive;
      owned =
          IsOwned-go (assign s.in_use n true) bs s.threads i (pushing n)
            (λ j a ne o. record {
              used = ground (arith, (v.owned j a o).used);
              apart = (v.owned j a o).apart;
              positive = (v.owned j a o).positive;
            })
            (λ a o.
              subst (IsOwned (assign s.in_use n true) bs) (sym ((==_iff a n).0 o))
                (record { used = assign_here s.in_use n true; apart = out; positive = pos }));
      once =
          once_go s.threads i (pushing n)
            (λ j a ne o.
              subst (λ b. owns (s.threads j) b ≡ false) (sym ((==_iff a n).0 o))
                (unused-owns n j v free))
            v.once;
      sound =
          IsSound-go (assign s.nodes n x) s.uniq_idx bs s.threads i (pushing n)
            (λ j ne.
              IsSound-assign s.nodes s.uniq_idx bs n x (s.threads j) out (unused-owns n j v free)
                (inr refl) (v.sound j))
            tt;
    }

-- A thread owns `n`, and goes on with it or without.
pub owns_there :
    {s : Stack} {bs : List ℕ} (i n j a : ℕ)
    → Inv s bs
    → owns (s.threads i) n ≡ true
    → j ≢ i
    → a ≡ n
    → owns (s.threads j) a ≡ false
owns_there {s} i n j a v own ne e =
    subst (λ b. owns (s.threads j) b ≡ false) (sym e) (v.once i j n (λ f. ne (sym f)) own)

pub link-Inv :
    {s : Stack} {bs : List ℕ} (i n bk_top : ℕ)
    → owns (s.threads i) n ≡ true
    → bk_top ≢ 0
    → Inv s bs
    → Inv (link s i n bk_top) bs
unfolding link owns
link-Inv {s} {bs} i n bk_top own pos v =
    let w = v.owned i n own in
    let x : Node = record (s.nodes n) { next = bk_top } in
    record {
      chain = IsChain-assign s.nodes n x s.top bs w.apart v.chain;
      distinct = v.distinct;
      bottom = bottom-assign n x v w.apart;
      used = v.used;
      positive = v.positive;
      owned =
          IsOwned-go s.in_use bs s.threads i (linked n bk_top) (λ j a ne. v.owned j a)
            (λ a o. subst (IsOwned s.in_use bs) (sym ((==_iff a n).0 o)) w);
      once =
          once_go s.threads i (linked n bk_top)
            (λ j a ne o. owns_there i n j a v own ne ((==_iff a n).0 o)) v.once;
      sound =
          IsSound-go (assign s.nodes n x) s.uniq_idx bs s.threads i (linked n bk_top)
            (λ j ne.
              IsSound-assign s.nodes s.uniq_idx bs n x (s.threads j) w.apart
                (owns_there i n j n v own ne refl) (inl pos) (v.sound j))
            (pos, ap (λ y. y.next) (assign_here s.nodes n x));
    }
