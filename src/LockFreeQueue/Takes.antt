-- ===== src/LockFreeQueue/Takes.antt =====
-- The last reads and the exchange of `Dequeue` in the contract.
use login_server_chat.Prelude.{
  assign, ℕ, ◌+◌, ◌^◌, ◌<◌, ◌==◌, Bool-cases, ==_iff, length, List, [], ◌∷◌, some, ◌≡◌, ◌≢◌, inl,
  inr, refl, sym, subst, ap, ◌∙◌, arith,
}
use login_server_chat.LockFreeQueue.{
  reserved, saw_both, saw_all, loaded, removed, Queue, real, with_idx, advance_queue, dequeued,
  move_on, exchange_head, looks,
}
use login_server_chat.LockFreeQueue.Spec.{Fifo, takes, over, begins}
use login_server_chat.LockFreeQueue.Chain.{on, data_of}
use login_server_chat.LockFreeQueue.Invariant.{brings, owns, view, IsSound, IsLinked, IsShared}
use login_server_chat.LockFreeQueue.Heads.{head-IsLinked, head-IsShared}
use login_server_chat.LockFreeQueue.Counts.{unsettled, in_loop}
use login_server_chat.LockFreeQueue.Simulate.{
  bound, Refines, Simulates, results_set, IsCounted-go, go-Simulates, real-with_idx,
  exchange_tail-Refines, exchange_tail-threads,
}

pub saw_both-Simulates :
    {n : ℕ} {q : Queue} {bs : List ℕ} {p : Fifo} (i bk_head bk_next bk_tail : ℕ)
    → i < n
    → q.threads i ≡ saw_both bk_head bk_next bk_tail
    → Refines n q bs p
    → Simulates n bs p []
        (move_on q i (saw_all bk_head bk_next bk_tail (q.nodes (real bk_tail)).next))
unfolding view bound unsettled in_loop owns brings looks
saw_both-Simulates {n} {q} {bs} i bk_head bk_next bk_tail lt at_ r =
    let h = subst (IsSound (view q bs)) at_ (r.shared.sound i) in
    go-Simulates i (saw_all bk_head bk_next bk_tail _) lt (λ a o. ground arith)
      (λ a o. ground arith) (λ a l. inl (rw at_ l))
      (
        h.0,
        h.1,
        (λ e. refl),
        λ last first alone.
            h.1.0
              (sym h.1.1 ∙ ap (λ a. (q.nodes a).next) (sym first ∙ sym (h.2 first alone)) ∙ last),
      )
      (ap bound at_) (ap unsettled at_) (ap in_loop at_) r

pub saw_all-Simulates :
    {n : ℕ} {q : Queue} {bs : List ℕ} {p : Fifo} (i bk_head bk_next bk_tail bk_tail_next : ℕ)
    → i < n
    → q.threads i ≡ saw_all bk_head bk_next bk_tail bk_tail_next
    → Refines n q bs p
    → Simulates n bs p
        (advance_queue (saw_all bk_head bk_next bk_tail bk_tail_next) q i).1
        (advance_queue (saw_all bk_head bk_next bk_tail bk_tail_next) q i).0
unfolding advance_queue view bound unsettled in_loop owns brings looks
saw_all-Simulates {n} {q} {bs} i bk_head bk_next bk_tail bk_tail_next lt at_ r =
    let h = subst (IsSound (view q bs)) at_ (r.shared.sound i) in
    elim (Bool-cases (bk_tail_next == q.my_code)) [
      | inl same ↦ rw same (
          go-Simulates i (loaded bk_head bk_next (q.nodes bk_next).data_) lt (λ a o. ground arith)
            (λ a o. ground arith) (λ a l. inl (rw at_ (ground arith)))
            (h.0, h.1, h.3 ((==_iff bk_tail_next q.my_code).0 same), λ e. refl) (ap bound at_)
            (ap unsettled at_) (ap in_loop at_) r)
      | inr other ↦
          let ne : bk_tail_next ≢ q.my_code = λ e. ground arith in
          let at_after = exchange_tail-threads q bk_tail bk_tail_next i ∙ at_ in
          rw other (
            go-Simulates i reserved lt (λ a o. ground arith) (λ a o. ground arith)
              (λ a l. ground arith) tt (ap bound at_after) (ap unsettled at_after)
              (ap in_loop at_after) (exchange_tail-Refines bk_tail bk_tail_next (h.2 ne) ne r))
    ]

-- The exchange succeeds: the head is still that which the thread has read.
take-Simulates :
    {n : ℕ} {q : Queue} {p : Fifo} (bs : List ℕ) (i bk_head bk_next value : ℕ)
    → i < n
    → q.threads i ≡ loaded bk_head bk_next value
    → q.head ≡ bk_head
    → Refines n q bs p
    → Simulates n bs p (dequeued i value ∷ []) (record q {
      head = with_idx bk_next bk_head;
      threads = assign q.threads i (removed bk_head value);
    })
unfolding view bound unsettled in_loop on
take-Simulates {n} {q} [] i bk_head bk_next value lt at_ same r =
    let h = subst (IsSound (view q [])) at_ (r.shared.sound i) in
    absurd (h.1.0 (sym h.1.1 ∙ ap (λ a. (q.nodes (real a)).next) (sym same) ∙ r.linked.chain))
take-Simulates {n} {q} {p} (b ∷ bs) i bk_head bk_next value lt at_ same r =
    let h = subst (IsSound (view q (b ∷ bs))) at_ (r.shared.sound i) in
    let first : real q.head ≡ real bk_head = ap real same in
    let e : b ≡ bk_next = sym r.linked.chain.0 ∙ ap (λ a. (q.nodes a).next) first ∙ h.1.1 in
    let low : bk_next < 2 ^ 47 = subst (λ a. a < 2 ^ 47) e (r.linked.low b (ground arith)) in
    let head : b ≡ real (with_idx bk_next bk_head) = e ∙ sym (real-with_idx bk_next bk_head low) in
    let l = head-IsLinked (view q (b ∷ bs)) b bs (h.2 first) r.linked in
    let s = head-IsShared (view q (b ∷ bs)) b bs i bk_head value (sym first) r.linked r.shared in
    (
      bs,
      record p { contents = data_of q.nodes bs; result = assign p.result i (some (some value)) },
      begins
          (takes p i value (data_of q.nodes bs) (
            r.contents
            ∙ ap (λ x. x ∷ data_of q.nodes bs) (ap (λ a. (q.nodes a).data_) e ∙ h.3 first)))
          (over _),
      record {
        linked = subst (λ x. IsLinked (record (view q bs) { hd = x }) q.in_use) head l;
        shared =
            subst
              (λ x.
                IsShared (record (view q bs) { hd = x }) q.in_use
                  (assign q.threads i (removed bk_head value)))
              head s;
        counted =
            IsCounted-go q.size (length bs) i (removed bk_head value) lt
              (λ a c f g. omega (arith, f, g, ap unsettled at_))
              (λ a c f g. omega (arith, f, g, ap in_loop at_)) r.counted;
        contents = refl;
        results = results_set q.threads p.result i (removed bk_head value) r.results;
      },
      omega arith,
    )

-- The exchange of `_head`.
pub exchange_head-Simulates :
    {n : ℕ} {q : Queue} {bs : List ℕ} {p : Fifo} (i bk_head bk_next value : ℕ)
    → i < n
    → q.threads i ≡ loaded bk_head bk_next value
    → length bs + n < 2 ^ 31
    → Refines n q bs p
    → Simulates n bs p
        (advance_queue (loaded bk_head bk_next value) q i).1
        (advance_queue (loaded bk_head bk_next value) q i).0
unfolding advance_queue exchange_head bound unsettled in_loop owns brings looks
exchange_head-Simulates {n} {q} {bs} i bk_head bk_next value lt at_ room r =
    elim (Bool-cases (q.head == bk_head)) [
      | inl same ↦
          rw same
            (take-Simulates bs i bk_head bk_next value lt at_ ((==_iff q.head bk_head).0 same) r)
      | inr other ↦ rw other (
          go-Simulates i reserved lt (λ a o. ground arith) (λ a o. ground arith)
            (λ a l. ground arith) tt (ap bound at_) (ap unsettled at_) (ap in_loop at_) r)
    ]
