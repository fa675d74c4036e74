-- ===== src/LockFreeQueue/Appends.antt =====
-- The exchange of `Enqueue` puts a node behind the last one.
use login_server_chat.Prelude.{
  assign, assign_here, assign_there, ℕ, ◌==◌, Bool, true, false, Bool-cases, ==_iff, [], ◌∷◌, ◌++◌,
  ◌≡◌, ◌≢◌, inl, inr, sym, subst, ap, ◌∙◌, arith,
}
use login_server_chat.LockFreeQueue.{
  QueueThread, resting, enqueuing, saw_tail, saw_tail_next, appended, counting, dequeuing,
  turned_away, reserved, saw_head, saw_head_next, saw_both, saw_all, loaded, removed, real, looks,
}
use login_server_chat.LockFreeQueue.Chain.{
  on, on_subst, IsList-append, on-append, IsDistinct-append,
}
use login_server_chat.LockFreeQueue.Invariant.{
  brings, owns, View, StaysHead, IsNext, IsSound, IsSeen, IsLinked, IsShared, brings-owns,
}
use login_server_chat.LockFreeQueue.Moves.{IsShared-go, fresh-out}

-- The node `t` gets the node `n` behind it.
abbrev pub with_last : View → ℕ → ℕ → View
with_last v t n = record v {
  nodes = assign v.nodes t (record (v.nodes t) { next = n });
  behind = v.behind ++ n ∷ [];
}

StaysHead-append : (v : View) (t n h : ℕ) → h ≢ n → StaysHead v h → StaysHead (with_last v t n) h
StaysHead-append v t n h ne stays on_ = stays (ground (arith, on-append (v.hd ∷ v.behind) n h, on_))

IsNext-append :
    (v : View) (t n h x : ℕ)
    → (v.nodes t).next ≡ v.code
    → IsNext v h x
    → IsNext (with_last v t n) h x
unfolding assign
IsNext-append v t n h x last next_ = (next_.0, ground (arith, next_.1))

IsSound-append :
    (v : View) (t n : ℕ) (th : QueueThread)
    → (v.nodes t).next ≡ v.code
    → looks th n ≡ false
    → IsSound v th
    → IsSound (with_last v t n) th
unfolding looks assign
IsSound-append v t n resting last other h = tt
IsSound-append v t n (enqueuing new_node) last other h = tt
IsSound-append v t n (saw_tail new_node bk_tail) last other h = tt
IsSound-append v t n (saw_tail_next new_node bk_tail bk_next) last other h =
    λ ne. (IsNext-append v t n (real bk_tail) bk_next last (ne, h ne)).1
IsSound-append v t n (appended new_node bk_tail) last other h =
    IsNext-append v t n (real bk_tail) new_node last h
IsSound-append v t n counting last other h = tt
IsSound-append v t n dequeuing last other h = tt
IsSound-append v t n turned_away last other h = tt
IsSound-append v t n reserved last other h = tt
IsSound-append v t n (saw_head bk_head) last other h =
    StaysHead-append v t n (real bk_head) (ground arith) h
IsSound-append v t n (saw_head_next bk_head bk_next) last other h = (
  StaysHead-append v t n (real bk_head) (ground arith) h.0,
  IsNext-append v t n (real bk_head) bk_next last h.1,
)
IsSound-append v t n (saw_both bk_head bk_next bk_tail) last other h = (
  StaysHead-append v t n (real bk_head) (ground arith) h.0,
  IsNext-append v t n (real bk_head) bk_next last h.1,
  h.2,
)
IsSound-append v t n (saw_all bk_head bk_next bk_tail bk_tail_next) last other h = (
  StaysHead-append v t n (real bk_head) (ground arith) h.0,
  IsNext-append v t n (real bk_head) bk_next last h.1,
  (λ ne. (IsNext-append v t n (real bk_tail) bk_tail_next last (ne, h.2 ne)).1),
  h.3,
)
IsSound-append v t n (loaded bk_head bk_next value) last other h = (
  StaysHead-append v t n (real bk_head) (ground arith) h.0,
  IsNext-append v t n (real bk_head) bk_next last h.1,
  h.2,
  (λ e. ground (arith, h.3 e)),
)
IsSound-append v t n (removed bk_head value) last other h = tt

pub append-IsLinked :
    {v : View} {in_use : ℕ → Bool} {threads : ℕ → QueueThread} (i t n : ℕ)
    → on (v.hd ∷ v.behind) t ≡ true
    → (v.nodes t).next ≡ v.code
    → brings (threads i) n ≡ true
    → IsLinked v in_use
    → IsShared v in_use threads
    → IsLinked (with_last v t n) in_use
append-IsLinked {v} {in_use} {threads} i t n here last b l s =
    let w = s.owned i n (brings-owns (threads i) n b) in
    let f = s.fresh i n b in
    let split = on-append (v.hd ∷ v.behind) n in
    record {
      chain =
          IsList-append v.code v.nodes t n v.hd v.behind here last w.apart f.last
            (omega (arith, f.low, l.high)) l.chain;
      distinct = IsDistinct-append (v.hd ∷ v.behind) n w.apart l.distinct;
      tail_on = ground (arith, split v.tl, l.tail_on);
      low = λ a h. elim (Bool-cases (a == n)) [
        | inl same ↦ omega (arith, (==_iff a n).0 same, f.low)
        | inr other ↦ l.low a (ground (arith, split a, h))
      ];
      used = λ a h. elim (Bool-cases (a == n)) [
        | inl same ↦ subst (λ c. in_use c ≡ true) (sym ((==_iff a n).0 same)) w.used
        | inr other ↦ l.used a (ground (arith, split a, h))
      ];
      high = l.high;
    }

IsSeen-append :
    (v : View) (t n a : ℕ) → on (v.hd ∷ v.behind) t ≡ true → IsSeen v a → IsSeen (with_last v t n) a
unfolding assign
IsSeen-append v t n a here seen = elim (Bool-cases (a == t)) [
  | inl same ↦ inl (
      subst (λ b. on ((v.hd ∷ v.behind) ++ n ∷ []) b ≡ true) (sym ((==_iff a t).0 same))
        (ground (arith, on-append (v.hd ∷ v.behind) n t)))
  | inr other ↦ elim seen [
    | inl on_ ↦ inl (ground (arith, on-append (v.hd ∷ v.behind) n a))
    | inr more ↦ inr (ground (arith, more))
  ]
]

pub append-IsShared :
    {v : View} {in_use : ℕ → Bool} {threads : ℕ → QueueThread} (i bk_tail n : ℕ)
    → on (v.hd ∷ v.behind) (real bk_tail) ≡ true
    → (v.nodes (real bk_tail)).next ≡ v.code
    → brings (threads i) n ≡ true
    → n ≢ v.code
    → IsShared v in_use threads
    → IsShared (with_last v (real bk_tail) n) in_use (assign threads i (appended n bk_tail))
unfolding owns brings looks
append-IsShared {v} {in_use} {threads} i bk_tail n here last b ne_code s =
    let t = real bk_tail in
    let own = brings-owns (threads i) n b in
    let others : (j a : ℕ) → j ≢ i → owns (threads j) a ≡ true → a ≢ n = λ j a ne o e. ground (
      arith,
      sym (subst (λ c. owns (threads j) c ≡ true) e o) ∙ s.once i j n (λ f. ne (sym f)) own,
    ) in
    let off : (j a : ℕ) → brings (threads j) a ≡ true → a ≢ t =
      λ j a c e. on_subst (v.hd ∷ v.behind) t a here (fresh-out j a s c) (sym e) in
    IsShared-go i (appended n bk_tail) s.once
      (λ j a ne o. record {
        used = (s.owned j a o).used;
        apart =
            ground (arith, on-append (v.hd ∷ v.behind) n a, (s.owned j a o).apart, others j a ne o);
      })
      (λ a o. ground arith)
      (λ j a ne c. (
        record {
          last =
              ap (λ z. z.next)
                (assign_there v.nodes t (record (v.nodes t) { next = n }) a (off j a c))
              ∙ (s.fresh j a c).last;
          low = (s.fresh j a c).low;
          unseen = (s.fresh j a c).unseen;
        },
        ground (arith, off j a c),
      ))
      (λ a c. ground arith) (λ j a ne k. IsSeen-append v t n a here (s.seen j a k))
      (λ a k.
        IsSeen-append v t n a here
          (inl (subst (λ c. on (v.hd ∷ v.behind) c ≡ true) (sym ((==_iff a t).0 k)) here)))
      (λ j ne. IsSound-append v t n (threads j) last ((s.fresh i n b).unseen j) (s.sound j))
      (ne_code, ap (λ z. z.next) (assign_here v.nodes t (record (v.nodes t) { next = n })))
