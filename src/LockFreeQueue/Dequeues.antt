-- ===== src/LockFreeQueue/Dequeues.antt =====
-- The decrement, the reads and the end of `Dequeue` in the contract.
use login_server_chat.Prelude.{
  total-assign, total-lt, total-in, assign, ℕ, suc, ◌+◌, ◌-◌, ◌%◌, ◌^◌, ◌≤◌, ◌<◌, ◌==◌, ltb, ltb→lt,
  lt→ltb, true, false, Bool-cases, ==_iff, length, List, [], ◌∷◌, none, some, ◌≡◌, ◌≢◌, inl, inr,
  refl, sym, subst, ap, ◌∙◌, arith,
}
use login_server_chat.LockFreeQueue.{
  QueueNode, resting, dequeuing, turned_away, reserved, saw_head, saw_head_next, saw_both, removed,
  Queue, real, queue_dummy, move_on, add_size, take_size, test_head, give_node, looks, returned,
}
use login_server_chat.LockFreeQueue.Spec.{Fifo, refuses, returns, over, begins}
use login_server_chat.LockFreeQueue.Chain.{on, next-code, data_of}
use login_server_chat.LockFreeQueue.Invariant.{brings, owns, view, IsSound}
use login_server_chat.LockFreeQueue.Moves.{go-IsShared}
use login_server_chat.LockFreeQueue.Heads.{give-IsLinked, give-IsShared}
use login_server_chat.LockFreeQueue.Counts.{unsettled, unsettled-le, in_loop, total_mono}
use login_server_chat.LockFreeQueue.Simulate.{
  bound, Refines, Simulates, results_go, results_set, IsCounted-go, go-Simulates,
}
use login_server_chat.LockFreeQueue.Enqueues.{add_size-IsCounted}

above : (a b : ℕ) → ltb a b ≡ false → b ≤ a
above a b h = ground (arith, lt→ltb a b)

length-data_of : (nodes : ℕ → QueueNode) (bs : List ℕ) → length (data_of nodes bs) ≡ length bs
length-data_of nodes [] = refl
length-data_of nodes (b ∷ bs) = ap suc (length-data_of nodes bs)

-- The decrement: who gets a size that is not negative has data in the list, and else there are fewer
-- data than threads.
pub take_size-Simulates :
    {n : ℕ} {q : Queue} {bs : List ℕ} {p : Fifo} (i : ℕ)
    → i < n
    → length bs + n < 2 ^ 31
    → q.threads i ≡ dequeuing
    → Refines n q bs p
    → Simulates n bs p (take_size q i).1 (take_size q i).0
unfolding take_size view bound unsettled in_loop brings owns looks move_on
take_size-Simulates {n} {q} {bs} {p} i lt room at_ r =
    let size = (q.size + (2 ^ 32 - 1)) % 2 ^ 32 in
    let few = total-lt unsettled q.threads i n unsettled-le lt (ap unsettled at_) in
    let mono = total_mono q.threads n in
    let balance = r.counted.balance in
    elim (Bool-cases (ltb size (2 ^ 31))) [
      | inl same ↦
          let below = ltb→lt size (2 ^ 31) same in
          rw same (
            bs,
            p,
            over p,
            record {
              linked = r.linked;
              shared =
                  go-IsShared i reserved (λ a o. ground arith) (λ a o. ground arith)
                    (λ a o. ground arith) tt r.shared;
              counted = record {
                balance = omega (
                  arith,
                  total-assign unsettled q.threads i reserved n lt,
                  ap unsettled at_,
                  balance,
                  few,
                  room,
                  below,
                );
                enough = omega (
                  arith,
                  total-assign in_loop q.threads i reserved n lt,
                  ap in_loop at_,
                  mono,
                  balance,
                  few,
                  room,
                  below,
                );
              };
              contents = r.contents;
              results = results_go q.threads p.result i reserved r.results (ap bound at_);
            },
            omega arith,
          )
      | inr other ↦ rw other (
        bs,
        record p { result = assign p.result i (some none) },
        begins
            (refuses p i (
              omega (
                arith,
                ap length r.contents,
                length-data_of q.nodes bs,
                balance,
                few,
                room,
                above size (2 ^ 31) other,
              )))
            (over _),
        record {
          linked = r.linked;
          shared =
              go-IsShared i turned_away (λ a o. ground arith) (λ a o. ground arith)
                (λ a o. ground arith) tt r.shared;
          counted = record {
            balance = omega (
              arith,
              total-assign unsettled q.threads i turned_away n lt,
              ap unsettled at_,
              balance,
              few,
              room,
            );
            enough = omega (
              arith,
              total-assign in_loop q.threads i turned_away n lt,
              ap in_loop at_,
              r.counted.enough,
            );
          };
          contents = r.contents;
          results = results_set q.threads p.result i turned_away r.results;
        },
        omega arith,
      )
    ]

pub turned_away-Simulates :
    {n : ℕ} {q : Queue} {bs : List ℕ} {p : Fifo} (i : ℕ)
    → i < n
    → q.threads i ≡ turned_away
    → Refines n q bs p
    → Simulates n bs p (returned i none ∷ []) (move_on (add_size q) i resting)
unfolding move_on add_size view bound unsettled in_loop owns brings looks
turned_away-Simulates {n} {q} {bs} {p} i lt at_ r = (
  bs,
  record p { result = assign p.result i none },
  begins (returns p i none (r.results i ∙ ap bound at_)) (over _),
  record {
    linked = r.linked;
    shared =
        go-IsShared i resting (λ a o. ground arith) (λ a o. ground arith) (λ a o. ground arith) tt
          r.shared;
    counted = add_size-IsCounted i lt (ap unsettled at_) (ap in_loop at_) r.counted;
    contents = r.contents;
    results = results_set q.threads p.result i resting r.results;
  },
  omega arith,
)

-- A thread in the loop does not find the code behind the head that it has read: as long as that is the
-- head there are data behind it, and later it has its next node still.
head_next :
    {n : ℕ} {q : Queue} {bs : List ℕ} {p : Fifo} (i bk_head : ℕ)
    → i < n
    → q.threads i ≡ saw_head bk_head
    → Refines n q bs p
    → (q.nodes (real bk_head)).next ≢ q.my_code
unfolding view looks in_loop
head_next {n} {q} {bs} i bk_head lt at_ r code =
    let stays = subst (IsSound (view q bs)) at_ (r.shared.sound i) in
    elim (r.shared.seen i (real bk_head) (rw at_ (ground arith))) [
      | inl on_ ↦
          let nil : bs ≡ [] =
            next-code q.my_code q.nodes (real q.head) bs r.linked.chain
              (ap (λ a. (q.nodes a).next) (stays on_) ∙ code) in
          omega (
            arith,
            ap length nil,
            r.counted.enough,
            total-in in_loop q.threads i n lt,
            ap in_loop at_,
          )
      | inr more ↦ more code
    ]

pub saw_head-Simulates :
    {n : ℕ} {q : Queue} {bs : List ℕ} {p : Fifo} (i bk_head : ℕ)
    → i < n
    → q.threads i ≡ saw_head bk_head
    → Refines n q bs p
    → Simulates n bs p [] (move_on q i (saw_head_next bk_head (q.nodes (real bk_head)).next))
unfolding bound unsettled in_loop owns brings looks view
saw_head-Simulates {n} {q} {bs} i bk_head lt at_ r =
    go-Simulates i (saw_head_next bk_head _) lt (λ a o. ground arith) (λ a o. ground arith)
      (λ a l. inl (rw at_ l))
      (subst (IsSound (view q bs)) at_ (r.shared.sound i), (head_next i bk_head lt at_ r, refl))
      (ap bound at_) (ap unsettled at_) (ap in_loop at_) r

pub test_head-Simulates :
    {n : ℕ} {q : Queue} {bs : List ℕ} {p : Fifo} (i bk_head bk_next : ℕ)
    → i < n
    → q.threads i ≡ saw_head_next bk_head bk_next
    → Refines n q bs p
    → Simulates n bs p (test_head q i bk_head bk_next).1 (test_head q i bk_head bk_next).0
unfolding test_head view bound unsettled in_loop owns brings looks
test_head-Simulates {n} {q} {bs} i bk_head bk_next lt at_ r =
    let h = subst (IsSound (view q bs)) at_ (r.shared.sound i) in
    elim (Bool-cases (bk_next == q.my_code)) [
      | inl same ↦ absurd (h.1.0 ((==_iff bk_next q.my_code).0 same))
      | inr other ↦ rw other (
          go-Simulates i (saw_both bk_head bk_next q.tail) lt (λ a o. ground arith)
            (λ a o. ground arith)
            (λ a l. elim (Bool-cases (a == real bk_head)) [
              | inl same ↦ inl (rw at_ same)
              | inr behind ↦ inr (
                  subst (λ b. on (real q.head ∷ bs) b ≡ true)
                    (sym ((==_iff a (real q.tail)).0 (ground arith))) r.linked.tail_on)
            ])
            (h.0, h.1, λ e f. f) (ap bound at_) (ap unsettled at_) (ap in_loop at_) r)
    ]

pub give_node-Simulates :
    {n : ℕ} {q : Queue} {bs : List ℕ} {p : Fifo} (i bk_head value : ℕ)
    → i < n
    → q.threads i ≡ removed bk_head value
    → Refines n q bs p
    → Simulates n bs p (give_node q i bk_head value).1 (give_node q i bk_head value).0
unfolding give_node view bound unsettled in_loop owns
give_node-Simulates {n} {q} {bs} {p} i bk_head value lt at_ r =
    let h = real bk_head in
    let own : owns (q.threads i) h ≡ true = rw at_ (ground arith) in
    (
      bs,
      record p { result = assign p.result i none },
      begins (returns p i (some value) (r.results i ∙ ap bound at_)) (over _),
      record {
        linked = give-IsLinked h (h == queue_dummy) (r.shared.owned i h own).apart r.linked;
        shared = give-IsShared i h (h == queue_dummy) own r.shared;
        counted =
            IsCounted-go q.size (length bs) i resting lt
              (λ a b e c. ap (λ k. (q.size + k) % 2 ^ 32) (omega (arith, e, ap unsettled at_)) ∙ c)
              (λ a b e c. omega (arith, e, ap in_loop at_, c)) r.counted;
        contents = r.contents;
        results = results_set q.threads p.result i resting r.results;
      },
      omega arith,
    )
