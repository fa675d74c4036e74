-- ===== src/LockFreeQueue/Heads.antt =====
-- The exchange of `Dequeue` moves the head to the next node, and its end gives the old head back.
use login_server_chat.Prelude.{
  assign, assign_there, ℕ, ◌==◌, Bool, true, false, Bool-cases, ==_iff, List, ◌∷◌, ◌≡◌, ◌≢◌, inl,
  inr, refl, sym, subst, ◌∙◌, arith,
}
use login_server_chat.LockFreeQueue.{
  QueueThread, resting, enqueuing, saw_tail, saw_tail_next, appended, counting, dequeuing,
  turned_away, reserved, saw_head, saw_head_next, saw_both, saw_all, loaded, removed, real, looks,
}
use login_server_chat.LockFreeQueue.Chain.{on, on_subst, on_here}
use login_server_chat.LockFreeQueue.Invariant.{
  brings, owns, View, StaysHead, IsSound, IsOwned, IsSeen, IsLinked, IsShared,
}
use login_server_chat.LockFreeQueue.Moves.{IsShared-go}

-- The list begins with the head, and goes on with `bs`.
abbrev pub from_head : View → ℕ → List ℕ → View
from_head v h bs = record v { hd = h; behind = bs }

-- A head that a thread has read is not in the list any more.
stale :
    (v : View) (b : ℕ) (bs : List ℕ) (h : ℕ)
    → on (b ∷ bs) v.hd ≡ false
    → StaysHead (from_head v v.hd (b ∷ bs)) h
    → on (b ∷ bs) h ≡ false
unfolding on
stale v b bs h out stays = elim (Bool-cases (on (b ∷ bs) h)) [
  | inl on_ ↦
      let first : v.hd ≡ h = stays (ground arith) in
      absurd (on_subst (b ∷ bs) h v.hd on_ out (sym first))
  | inr other ↦ ground arith
]

stale-ne : (b : ℕ) (bs : List ℕ) (h : ℕ) → on (b ∷ bs) h ≡ false → b ≢ h
stale-ne b bs h out = on_subst (b ∷ bs) b h (on_here b bs) out

-- The head moves on, so that what other threads have read of it is out of date.
IsSound-head :
    (v : View) (b : ℕ) (bs : List ℕ) (th : QueueThread)
    → on (b ∷ bs) v.hd ≡ false
    → IsSound (from_head v v.hd (b ∷ bs)) th
    → IsSound (from_head v b bs) th
IsSound-head v b bs resting out h = tt
IsSound-head v b bs (enqueuing new_node) out h = tt
IsSound-head v b bs (saw_tail new_node bk_tail) out h = tt
IsSound-head v b bs (saw_tail_next new_node bk_tail bk_next) out h = h
IsSound-head v b bs (appended new_node bk_tail) out h = h
IsSound-head v b bs counting out h = tt
IsSound-head v b bs dequeuing out h = tt
IsSound-head v b bs turned_away out h = tt
IsSound-head v b bs reserved out h = tt
IsSound-head v b bs (saw_head bk_head) out h =
    λ on_. ground (arith, stale v b bs (real bk_head) out h)
IsSound-head v b bs (saw_head_next bk_head bk_next) out h =
    ((λ on_. ground (arith, stale v b bs (real bk_head) out h.0)), h.1)
IsSound-head v b bs (saw_both bk_head bk_next bk_tail) out h =
    let off = stale v b bs (real bk_head) out h.0 in
    ((λ on_. ground (arith, off)), h.1, λ e. absurd (stale-ne b bs (real bk_head) off e))
IsSound-head v b bs (saw_all bk_head bk_next bk_tail bk_tail_next) out h =
    let off = stale v b bs (real bk_head) out h.0 in
    ((λ on_. ground (arith, off)), h.1, h.2, λ f e. absurd (stale-ne b bs (real bk_head) off e))
IsSound-head v b bs (loaded bk_head bk_next value) out h =
    let off = stale v b bs (real bk_head) out h.0 in
    (
      (λ on_. ground (arith, off)),
      h.1,
      (λ e. absurd (stale-ne b bs (real bk_head) off e)),
      λ e. absurd (stale-ne b bs (real bk_head) off e),
    )
IsSound-head v b bs (removed bk_head value) out h = tt

pub head-IsLinked :
    {in_use : ℕ → Bool} (v : View) (b : ℕ) (bs : List ℕ)
    → v.tl ≢ v.hd
    → IsLinked (from_head v v.hd (b ∷ bs)) in_use
    → IsLinked (from_head v b bs) in_use
unfolding on
head-IsLinked v b bs ne l = record {
  chain = l.chain.2;
  distinct = l.distinct.1;
  tail_on = ground (arith, l.tail_on);
  low = λ a h. l.low a (ground arith);
  used = λ a h. l.used a (ground arith);
  high = l.high;
}

IsSeen-head :
    (v : View) (b : ℕ) (bs : List ℕ) (a : ℕ)
    → (v.nodes v.hd).next ≢ v.code
    → IsSeen (from_head v v.hd (b ∷ bs)) a
    → IsSeen (from_head v b bs) a
unfolding on
IsSeen-head v b bs a more seen = elim (Bool-cases (a == v.hd)) [
  | inl same ↦ inr (subst (λ c. (v.nodes c).next ≢ v.code) (sym ((==_iff a v.hd).0 same)) more)
  | inr other ↦ elim seen [ inl on_ ↦ inl (ground arith) | inr next_ ↦ inr next_ ]
]

pub head-IsShared :
    {in_use : ℕ → Bool} {threads : ℕ → QueueThread} (v : View) (b : ℕ) (bs : List ℕ)
    (i bk_head value : ℕ)
    → real bk_head ≡ v.hd
    → IsLinked (from_head v v.hd (b ∷ bs)) in_use
    → IsShared (from_head v v.hd (b ∷ bs)) in_use threads
    → IsShared (from_head v b bs) in_use (assign threads i (removed bk_head value))
unfolding on owns brings looks
head-IsShared {in_use} {threads} v b bs i bk_head value same l s =
    let out : on (b ∷ bs) v.hd ≡ false = l.distinct.0 in
    let more : (v.nodes v.hd).next ≢ v.code = λ e. l.chain.1 (sym l.chain.0 ∙ e) in
    IsShared-go i (removed bk_head value) s.once
      (λ j a ne o. record {
        used = (s.owned j a o).used;
        apart = ground (arith, (s.owned j a o).apart);
      })
      (λ a o.
        subst (λ c. IsOwned in_use (b ∷ bs) c × ((j : ℕ) → j ≢ i → owns (threads j) c ≡ false))
          (sym ((==_iff a (real bk_head)).0 o ∙ same))
          (
            record { used = l.used v.hd (ground arith); apart = out },
            λ j ne. elim (Bool-cases (owns (threads j) v.hd)) [
              | inl o ↦ ground (arith, (s.owned j v.hd o).apart)
              | inr other ↦ other
            ],
          ))
      (λ j a ne c. (
        record {
          last = (s.fresh j a c).last;
          low = (s.fresh j a c).low;
          unseen = (s.fresh j a c).unseen;
        },
        refl,
      ))
      (λ a c. ground arith) (λ j a ne k. IsSeen-head v b bs a more (s.seen j a k))
      (λ a k. ground arith) (λ j ne. IsSound-head v b bs (threads j) out (s.sound j)) tt

-- A thread gives back the node that it took off.
pub give-IsLinked :
    {v : View} {in_use : ℕ → Bool} (h : ℕ) (x : Bool)
    → on (v.hd ∷ v.behind) h ≡ false
    → IsLinked v in_use
    → IsLinked v (assign in_use h x)
give-IsLinked {v} {in_use} h x out l = record {
  chain = l.chain;
  distinct = l.distinct;
  tail_on = l.tail_on;
  low = l.low;
  used = λ a on_. assign_there in_use h x a (on_subst (v.hd ∷ v.behind) a h on_ out) ∙ l.used a on_;
  high = l.high;
}

pub give-IsShared :
    {v : View} {in_use : ℕ → Bool} {threads : ℕ → QueueThread} (i h : ℕ) (x : Bool)
    → owns (threads i) h ≡ true
    → IsShared v in_use threads
    → IsShared v (assign in_use h x) (assign threads i resting)
unfolding owns brings looks
give-IsShared {v} {in_use} {threads} i h x own s =
    IsShared-go i resting s.once
      (λ j a ne o. record {
        used =
            assign_there in_use h x a (λ e. ground (
              arith,
              sym (subst (λ c. owns (threads j) c ≡ true) e o) ∙ s.once i j h (λ f. ne (sym f)) own,
            ))
            ∙ (s.owned j a o).used;
        apart = (s.owned j a o).apart;
      })
      (λ a o. ground arith) (λ j a ne c. (s.fresh j a c, refl)) (λ a c. ground arith)
      (λ j a ne k. s.seen j a k) (λ a k. ground arith) (λ j ne. s.sound j) tt
