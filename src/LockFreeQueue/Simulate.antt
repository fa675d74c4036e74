-- ===== src/LockFreeQueue/Simulate.antt =====
-- How the queue stands for the list of the contract, and the steps that change neither.
use login_server_chat.Prelude.{
  total, total-assign, assign, assign_elim, assign_here, assign_there, ℕ, ◌+◌, ◌%◌, ◌^◌, ◌≤◌, ◌<◌,
  ◌==◌, true, Bool-cases, ==_iff, length, List, [], ◌∷◌, Option, none, some, ◌≡◌, ◌≢◌, ◌⊎◌, inl,
  inr, refl, sym, subst, ap, ◌∙◌, arith,
}
use login_server_chat.LockFreeQueue.{
  QueueThread, resting, enqueuing, saw_tail, saw_tail_next, appended, counting, dequeuing,
  turned_away, reserved, saw_head, saw_head_next, saw_both, saw_all, loaded, removed, Queue,
  QueueEvent, real, with_idx, move_on, exchange_tail, looks,
}
use login_server_chat.LockFreeQueue.Spec.{Fifo, ActsAll, over, enqueue_count}
use login_server_chat.LockFreeQueue.Chain.{on, on-next, data_of}
use login_server_chat.LockFreeQueue.Invariant.{brings, owns, view, IsSound, IsLinked, IsShared}
use login_server_chat.LockFreeQueue.Moves.{go-IsShared, tail-next}
use login_server_chat.LockFreeQueue.Counts.{unsettled, in_loop}

-- What the `Dequeue` of a thread is bound to return.
unfoldable pub bound : QueueThread → Option (Option ℕ)
bound resting = none
bound (enqueuing new_node) = none
bound (saw_tail new_node bk_tail) = none
bound (saw_tail_next new_node bk_tail bk_next) = none
bound (appended new_node bk_tail) = none
bound counting = none
bound dequeuing = none
bound turned_away = some none
bound reserved = none
bound (saw_head bk_head) = none
bound (saw_head_next bk_head bk_next) = none
bound (saw_both bk_head bk_next bk_tail) = none
bound (saw_all bk_head bk_next bk_tail bk_tail_next) = none
bound (loaded bk_head bk_next value) = none
bound (removed bk_head value) = some (some value)

-- The size, with the increments that come, is the number of data; and there are data for all that are
-- in the loop of `Dequeue`.
pub record IsCounted (n : ℕ) (size : ℕ) (threads : ℕ → QueueThread) (count : ℕ) : Type 0 where
  pub balance : (size + total unsettled threads n) % 2 ^ 32 ≡ count
  pub enough : total in_loop threads n ≤ count

pub record Refines (n : ℕ) (q : Queue) (bs : List ℕ) (p : Fifo) : Type 0 where
  pub linked : IsLinked (view q bs) q.in_use
  pub shared : IsShared (view q bs) q.in_use q.threads
  pub counted : IsCounted n q.size q.threads (length bs)
  pub contents : p.contents ≡ data_of q.nodes bs
  pub results : (i : ℕ) → p.result i ≡ bound (q.threads i)

abbrev pub Simulates : ℕ → List ℕ → Fifo → List QueueEvent → Queue → Type 0
Simulates n bs p es q =
    (cs : List ℕ) × (r : Fifo) × ActsAll n p es r
    × Refines n q cs r
    × (length cs ≤ length bs + enqueue_count es)

pub results_go :
    (threads : ℕ → QueueThread) (result : ℕ → Option (Option ℕ)) (i : ℕ) (th : QueueThread)
    → ((j : ℕ) → result j ≡ bound (threads j))
    → bound (threads i) ≡ bound th
    → (j : ℕ) → result j ≡ bound (assign threads i th j)
results_go threads result i th others own j =
    assign_elim (λ x. result j ≡ bound x) threads i th j
      (λ e. others j ∙ ap (λ k. bound (threads k)) e ∙ own) (λ ne. others j)

pub results_set :
    (threads : ℕ → QueueThread) (result : ℕ → Option (Option ℕ)) (i : ℕ) (th : QueueThread)
    → ((j : ℕ) → result j ≡ bound (threads j))
    → (j : ℕ) → assign result i (bound th) j ≡ bound (assign threads i th j)
results_set threads result i th others j =
    assign_elim (λ x. assign result i (bound th) j ≡ bound x) threads i th j
      (λ e. ap (assign result i (bound th)) e ∙ assign_here result i (bound th))
      (λ ne. assign_there result i (bound th) j ne ∙ others j)

-- The counts after thread `i` has become `th`.
pub IsCounted-go :
    {n size count : ℕ} {threads : ℕ → QueueThread} (size' count' i : ℕ) (th : QueueThread)
    → i < n
    → ((a b : ℕ)
        → a + unsettled (threads i) ≡ b + unsettled th
        → (size + b) % 2 ^ 32 ≡ count
        → (size' + a) % 2 ^ 32 ≡ count')
    → ((a b : ℕ) → a + in_loop (threads i) ≡ b + in_loop th → b ≤ count → a ≤ count')
    → IsCounted n size threads count
    → IsCounted n size' (assign threads i th) count'
IsCounted-go {n} {threads = threads} size' count' i th lt settle room c = record {
  balance = settle _ _ (total-assign unsettled threads i th n lt) c.balance;
  enough = room _ _ (total-assign in_loop threads i th n lt) c.enough;
}

-- A thread goes on, and takes no part in the list.
pub go-Simulates :
    {n : ℕ} {q : Queue} {bs : List ℕ} {p : Fifo} (i : ℕ) (th : QueueThread)
    → i < n
    → ((a : ℕ) → owns th a ≡ true → owns (q.threads i) a ≡ true)
    → ((a : ℕ) → brings th a ≡ true → brings (q.threads i) a ≡ true)
    → ((a : ℕ)
        → looks th a ≡ true
        → (looks (q.threads i) a ≡ true) ⊎ (on (real q.head ∷ bs) a ≡ true))
    → IsSound (view q bs) th
    → bound (q.threads i) ≡ bound th
    → unsettled (q.threads i) ≡ unsettled th
    → in_loop (q.threads i) ≡ in_loop th
    → Refines n q bs p
    → Simulates n bs p [] (move_on q i th)
unfolding move_on view
go-Simulates {n} {q} {bs} {p} i th lt fewer fewer_brought look own same settled as_many r = (
  bs,
  p,
  over p,
  record {
    linked = r.linked;
    shared = go-IsShared i th fewer fewer_brought look own r.shared;
    counted =
        IsCounted-go q.size (length bs) i th lt
          (λ a b e c. ap (λ k. (q.size + k) % 2 ^ 32) (omega (arith, e, settled)) ∙ c)
          (λ a b e c. omega (arith, e, as_many, c)) r.counted;
    contents = r.contents;
    results = results_go q.threads p.result i th r.results same;
  },
  omega arith,
)

pub real-with_idx : (node old : ℕ) → node < 2 ^ 47 → real (with_idx node old) ≡ node
unfolding real with_idx
real-with_idx node old lt = omega (arith, lt)

-- The exchange of `_tail`, with the node that is behind it.
pub exchange_tail-Refines :
    {n : ℕ} {q : Queue} {bs : List ℕ} {p : Fifo} (bk_tail node : ℕ)
    → (q.nodes (real bk_tail)).next ≡ node
    → node ≢ q.my_code
    → Refines n q bs p
    → Refines n (exchange_tail q bk_tail node) bs p
unfolding exchange_tail view on
exchange_tail-Refines {n} {q} {bs} {p} bk_tail node next_ ne r =
    elim (Bool-cases (q.tail == bk_tail)) [
      | inl same ↦
          let next_tail : (q.nodes (real q.tail)).next ≡ node =
            ap (λ t. (q.nodes (real t)).next) ((==_iff q.tail bk_tail).0 same) ∙ next_ in
          let behind : on bs node ≡ true =
            subst (λ x. on bs x ≡ true) next_tail
              (on-next q.my_code q.nodes (real q.head) bs (real q.tail) r.linked.chain
                r.linked.tail_on (λ e. ne (sym next_tail ∙ e))) in
          let real_tail = real-with_idx node bk_tail (r.linked.low node (ground arith)) in
          let (l, s) = tail-next node next_tail ne r.linked r.shared in
          rw same (record {
            linked =
                subst (λ t. IsLinked (record (view q bs) { tl = t }) q.in_use) (sym real_tail) l;
            shared =
                subst (λ t. IsShared (record (view q bs) { tl = t }) q.in_use q.threads)
                  (sym real_tail) s;
            counted = r.counted;
            contents = r.contents;
            results = r.results;
          })
      | inr other ↦ rw other r
    ]

pub exchange_tail-threads :
    (q : Queue) (bk_tail node i : ℕ) → (exchange_tail q bk_tail node).threads i ≡ q.threads i
unfolding exchange_tail
exchange_tail-threads q bk_tail node i = elim (Bool-cases (q.tail == bk_tail)) [
  | inl same ↦ rw same refl
  | inr other ↦ rw other refl
]
