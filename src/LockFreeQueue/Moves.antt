-- ===== src/LockFreeQueue/Moves.antt =====
-- A thread goes on, and the tail moves to the next node.
use login_server_chat.Prelude.{
  assign, assign_elim, assign_there, ℕ, Bool, true, false, Bool-cases, ◌∷◌, ◌≡◌, ◌≢◌, ◌⊎◌, inl, inr,
  sym, subst, ◌∙◌, arith,
}
use login_server_chat.LockFreeQueue.{
  QueueThread, resting, enqueuing, saw_tail, saw_tail_next, appended, counting, dequeuing,
  turned_away, reserved, saw_head, saw_head_next, saw_both, saw_all, loaded, removed, looks,
}
use login_server_chat.LockFreeQueue.Chain.{on, on-next, on_subst}
use login_server_chat.LockFreeQueue.Invariant.{
  brings, owns, View, IsSound, IsOwned, IsFresh, IsSeen, IsLinked, IsShared, brings-owns,
}

-- Thread `i` becomes `th`, and the view `v'`: what is then to show of the other threads and of `th`.
pub IsShared-go :
    {v' : View} {in_use' : ℕ → Bool} {threads : ℕ → QueueThread} (i : ℕ) (th : QueueThread)
    → ((j k a : ℕ) → j ≢ k → owns (threads j) a ≡ true → owns (threads k) a ≡ false)
    → ((j a : ℕ) → j ≢ i → owns (threads j) a ≡ true → IsOwned in_use' (v'.hd ∷ v'.behind) a)
    → ((a : ℕ)
        → owns th a ≡ true
        → IsOwned in_use' (v'.hd ∷ v'.behind) a × ((j : ℕ) → j ≢ i → owns (threads j) a ≡ false))
    → ((j a : ℕ)
        → j ≢ i
        → brings (threads j) a ≡ true
        → IsFresh v' threads a × (looks th a ≡ false))
    → ((a : ℕ) → brings th a ≡ true → IsFresh v' threads a × (looks th a ≡ false))
    → ((j a : ℕ) → j ≢ i → looks (threads j) a ≡ true → IsSeen v' a)
    → ((a : ℕ) → looks th a ≡ true → IsSeen v' a)
    → ((j : ℕ) → j ≢ i → IsSound v' (threads j))
    → IsSound v' th
    → IsShared v' in_use' (assign threads i th)
IsShared-go {v'} {in_use'} {threads} i th once owned own fresh own_fresh seen own_seen sound
      own_sound =
    record {
      owned = λ j a.
          assign_elim (λ x. owns x a ≡ true → IsOwned in_use' (v'.hd ∷ v'.behind) a) threads i th j
            (λ e o. (own a o).0) (owned j a);
      once = λ j k a ne.
          assign_elim (λ x. owns x a ≡ true → owns (assign threads i th k) a ≡ false) threads i th j
            (λ ji o.
              subst (λ x. owns x a ≡ false)
                (sym (assign_there threads i th k (λ ki. ne (ji ∙ sym ki))))
                ((own a o).1 k (λ ki. ne (ji ∙ sym ki))))
            (λ ji o.
              assign_elim (λ x. owns x a ≡ false) threads i th k
                (λ ki. not_owned (λ h. (own a h).1 j ji) o) (λ ki. once j k a ne o));
      fresh = λ j a.
          assign_elim (λ x. brings x a ≡ true → IsFresh v' (assign threads i th) a) threads i th j
            (λ e b. still_fresh a (own_fresh a b)) (λ ji b. still_fresh a (fresh j a ji b));
      seen = λ j a.
          assign_elim (λ x. looks x a ≡ true → IsSeen v' a) threads i th j (λ e. own_seen a)
            (λ ji. seen j a ji);
      sound = λ j. assign_elim (IsSound v') threads i th j (λ e. own_sound) (sound j);
    }
  where
    not_owned : {x y : Bool} → (x ≡ true → y ≡ false) → y ≡ true → x ≡ false
    not_owned h o = ground arith

    still_fresh :
        (a : ℕ) → IsFresh v' threads a × (looks th a ≡ false) → IsFresh v' (assign threads i th) a
    still_fresh a f = record {
      last = f.0.last;
      low = f.0.low;
      unseen =
          λ k. assign_elim (λ x. looks x a ≡ false) threads i th k (λ e. f.1) (λ ne. f.0.unseen k);
    }

-- A node that is not appended so far is not in the list.
pub fresh-out :
    {v : View} {in_use : ℕ → Bool} {threads : ℕ → QueueThread} (j a : ℕ)
    → IsShared v in_use threads
    → brings (threads j) a ≡ true
    → on (v.hd ∷ v.behind) a ≡ false
fresh-out {threads = threads} j a s b = (s.owned j a (brings-owns (threads j) a b)).apart

-- A thread goes on, with no more nodes than it had; what it looks at is in the list, if it has not
-- looked at it before.
pub go-IsShared :
    {v : View} {in_use : ℕ → Bool} {threads : ℕ → QueueThread} (i : ℕ) (th : QueueThread)
    → ((a : ℕ) → owns th a ≡ true → owns (threads i) a ≡ true)
    → ((a : ℕ) → brings th a ≡ true → brings (threads i) a ≡ true)
    → ((a : ℕ) → looks th a ≡ true → (looks (threads i) a ≡ true) ⊎ (on (v.hd ∷ v.behind) a ≡ true))
    → IsSound v th
    → IsShared v in_use threads
    → IsShared v in_use (assign threads i th)
go-IsShared {v} {in_use} {threads} i th fewer fewer_brought look own s =
    IsShared-go i th s.once (λ j a ne. s.owned j a)
      (λ a o. (s.owned i a (fewer a o), λ j ne. s.once i j a (λ e. ne (sym e)) (fewer a o)))
      (λ j a ne b. (s.fresh j a b, unseen j a b))
      (λ a b. (s.fresh i a (fewer_brought a b), unseen i a (fewer_brought a b)))
      (λ j a ne. s.seen j a)
      (λ a l. elim (look a l) [ inl before ↦ s.seen i a before | inr here ↦ inl here ])
      (λ j ne. s.sound j) own
  where
    unseen : (j a : ℕ) → brings (threads j) a ≡ true → looks th a ≡ false
    unseen j a b = elim (Bool-cases (looks th a)) [
      | inl l ↦ elim (look a l) [
        | inl before ↦ ground (arith, (s.fresh j a b).unseen i)
        | inr here ↦ ground (arith, fresh-out j a s b)
      ]
      | inr other ↦ other
    ]

-- The tail moves to a node that is not the head.
IsSound-tail :
    (v : View) (t : ℕ) (th : QueueThread)
    → t ≢ v.hd
    → IsSound v th
    → IsSound (record v { tl = t }) th
IsSound-tail v t resting ne h = tt
IsSound-tail v t (enqueuing new_node) ne h = tt
IsSound-tail v t (saw_tail new_node bk_tail) ne h = tt
IsSound-tail v t (saw_tail_next new_node bk_tail bk_next) ne h = h
IsSound-tail v t (appended new_node bk_tail) ne h = h
IsSound-tail v t counting ne h = tt
IsSound-tail v t dequeuing ne h = tt
IsSound-tail v t turned_away ne h = tt
IsSound-tail v t reserved ne h = tt
IsSound-tail v t (saw_head bk_head) ne h = h
IsSound-tail v t (saw_head_next bk_head bk_next) ne h = h
IsSound-tail v t (saw_both bk_head bk_next bk_tail) ne h = (h.0, h.1, λ e f. absurd (ne f))
IsSound-tail v t (saw_all bk_head bk_next bk_tail bk_tail_next) ne h =
    (h.0, h.1, h.2, λ e f g. ne g)
IsSound-tail v t (loaded bk_head bk_next value) ne h = (h.0, h.1, (λ e g. ne g), h.3)
IsSound-tail v t (removed bk_head value) ne h = tt

pub tail-next :
    {v : View} {in_use : ℕ → Bool} {threads : ℕ → QueueThread} (t : ℕ)
    → (v.nodes v.tl).next ≡ t
    → t ≢ v.code
    → IsLinked v in_use
    → IsShared v in_use threads
    → IsLinked (record v { tl = t }) in_use × IsShared (record v { tl = t }) in_use threads
unfolding on
tail-next {v} {in_use} {threads} t next_ ne l s =
    let behind : on v.behind t ≡ true =
      subst (λ x. on v.behind x ≡ true) next_
        (on-next v.code v.nodes v.hd v.behind v.tl l.chain l.tail_on (λ e. ne (sym next_ ∙ e))) in
    let not_head : t ≢ v.hd = on_subst v.behind t v.hd behind l.distinct.0 in
    (
      record {
        chain = l.chain;
        distinct = l.distinct;
        tail_on = ground arith;
        low = l.low;
        used = l.used;
        high = l.high;
      },
      record {
        owned = s.owned;
        once = s.once;
        fresh = λ i a b. record {
          last = (s.fresh i a b).last;
          low = (s.fresh i a b).low;
          unseen = (s.fresh i a b).unseen;
        };
        seen = s.seen;
        sound = λ i. IsSound-tail v t (threads i) not_head (s.sound i);
      },
    )
