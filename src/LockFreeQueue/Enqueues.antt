-- ===== src/LockFreeQueue/Enqueues.antt =====
-- The steps of `Enqueue` in the contract.
use login_server_chat.Prelude.{
  assign, ℕ, suc, ◌+◌, ◌%◌, ◌^◌, ◌<◌, ◌==◌, true, false, Bool-cases, ==_iff, length, List, [], ◌∷◌,
  ◌++◌, ◌≡◌, ◌≢◌, inl, inr, refl, sym, subst, ap, ◌∙◌, arith,
}
use login_server_chat.LockFreeQueue.{
  QueueNode, QueueThread, resting, enqueuing, saw_tail_next, appended, counting, Queue, real,
  move_on, call_enqueue, exchange_next, exchange_tail, advance_queue, add_size, looks,
}
use login_server_chat.LockFreeQueue.Spec.{Fifo, appends, over, begins}
use login_server_chat.LockFreeQueue.Chain.{on, data_of-assign, data_of-append}
use login_server_chat.LockFreeQueue.Invariant.{brings, owns, view, IsSound}
use login_server_chat.LockFreeQueue.Moves.{go-IsShared}
use login_server_chat.LockFreeQueue.Nodes.{new_node-IsLinked, new_node-IsShared}
use login_server_chat.LockFreeQueue.Appends.{append-IsLinked, append-IsShared}
use login_server_chat.LockFreeQueue.Counts.{unsettled, in_loop}
use login_server_chat.LockFreeQueue.Simulate.{
  bound, IsCounted, Refines, Simulates, results_go, IsCounted-go, go-Simulates,
  exchange_tail-Refines, exchange_tail-threads,
}

pub call_enqueue-Simulates :
    {n : ℕ} {q : Queue} {bs : List ℕ} {p : Fifo} (i new_node value : ℕ)
    → i < n
    → q.threads i ≡ resting
    → q.in_use new_node ≡ false
    → new_node < 2 ^ 47
    → ((j : ℕ) → looks (q.threads j) new_node ≡ false)
    → Refines n q bs p
    → Simulates n bs p [] (call_enqueue q i new_node value)
unfolding call_enqueue view bound unsettled in_loop on
call_enqueue-Simulates {n} {q} {bs} {p} i new_node value lt at_rest free low unseen r =
    let x : QueueNode = record { data_ = value; next = q.my_code } in
    let (out, l) = new_node-IsLinked new_node x free r.linked in
    (
      bs,
      p,
      over p,
      record {
        linked = l;
        shared = new_node-IsShared i new_node x free low refl unseen r.linked r.shared;
        counted =
            IsCounted-go q.size (length bs) i (enqueuing new_node) lt
              (λ a b e c.
                ap (λ k. (q.size + k) % 2 ^ 32) (omega (arith, e, ap unsettled at_rest)) ∙ c)
              (λ a b e c. omega (arith, e, ap in_loop at_rest, c)) r.counted;
        contents =
            r.contents ∙ sym (data_of-assign q.nodes new_node x bs (inl (ground (arith, out))));
        results = results_go q.threads p.result i (enqueuing new_node) r.results (ap bound at_rest);
      },
      omega arith,
    )

length-append_one : (bs : List ℕ) (n : ℕ) → length (bs ++ n ∷ []) ≡ suc (length bs)
length-append_one [] n = refl
length-append_one (b ∷ bs) n = ap suc (length-append_one bs n)

-- The exchange of the next node: on success the node comes behind the last one.
pub exchange_next-Simulates :
    {n : ℕ} {q : Queue} {bs : List ℕ} {p : Fifo} (i new_node bk_tail : ℕ)
    → i < n
    → length bs + 1 < 2 ^ 32
    → q.threads i ≡ saw_tail_next new_node bk_tail q.my_code
    → Refines n q bs p
    → Simulates n bs p (exchange_next q i new_node bk_tail).1 (exchange_next q i new_node bk_tail).0
unfolding exchange_next view bound unsettled in_loop brings owns looks move_on
exchange_next-Simulates {n} {q} {bs} {p} i new_node bk_tail lt room at_ r =
    let t = real bk_tail in
    let brought : brings (q.threads i) new_node ≡ true = rw at_ (ground arith) in
    let looked : looks (q.threads i) t ≡ true = rw at_ (ground arith) in
    elim (Bool-cases ((q.nodes t).next == q.my_code)) [
      | inl same ↦
          let last : (q.nodes t).next ≡ q.my_code = (==_iff (q.nodes t).next q.my_code).0 same in
          let here : on (real q.head ∷ bs) t ≡ true = elim (r.shared.seen i t looked) [
            | inl on_ ↦ on_
            | inr more ↦ absurd (more last)
          ] in
          let low = (r.shared.fresh i new_node brought).low in
          rw same (
            bs ++ new_node ∷ [],
            record p { contents = p.contents ++ (q.nodes new_node).data_ ∷ [] },
            begins (appends p i (q.nodes new_node).data_) (over _),
            record {
              linked = append-IsLinked i t new_node here last brought r.linked r.shared;
              shared =
                  append-IsShared i bk_tail new_node here last brought
                    (omega (arith, low, r.linked.high)) r.shared;
              counted =
                  IsCounted-go q.size (length (bs ++ new_node ∷ [])) i (appended new_node bk_tail)
                    lt
                    (λ a b e c.
                      omega (arith, e, c, ap unsettled at_, room, length-append_one bs new_node))
                    (λ a b e c. omega (arith, e, ap in_loop at_, c, length-append_one bs new_node))
                    r.counted;
              contents =
                  ap (λ l. l ++ (q.nodes new_node).data_ ∷ []) r.contents
                  ∙ sym (
                      data_of-assign q.nodes t (record (q.nodes t) { next = new_node })
                        (bs ++ new_node ∷ []) (inr refl)
                      ∙ data_of-append q.nodes bs new_node);
              results =
                  results_go q.threads p.result i (appended new_node bk_tail) r.results
                    (ap bound at_);
            },
            omega (arith, length-append_one bs new_node),
          )
      | inr other ↦ rw other (
          go-Simulates i (enqueuing new_node) lt (λ a o. rw at_ o) (λ a o. rw at_ o)
            (λ a l. ground arith) tt (ap bound at_) (ap unsettled at_) (ap in_loop at_) r)
    ]

-- The increment of the size.
pub add_size-IsCounted :
    {n size count : ℕ} {threads : ℕ → QueueThread} (i : ℕ)
    → i < n
    → unsettled (threads i) ≡ 1
    → in_loop (threads i) ≡ 0
    → IsCounted n size threads count
    → IsCounted n ((size + 1) % 2 ^ 32) (assign threads i resting) count
unfolding unsettled in_loop
add_size-IsCounted {n} {size} {count} i lt one out c =
    IsCounted-go ((size + 1) % 2 ^ 32) count i resting lt (λ a b e f. omega (arith, e, one, f))
      (λ a b e f. omega (arith, e, out, f)) c

pub counting-Simulates :
    {n : ℕ} {q : Queue} {bs : List ℕ} {p : Fifo} (i : ℕ)
    → i < n
    → q.threads i ≡ counting
    → Refines n q bs p
    → Simulates n bs p [] (move_on (add_size q) i resting)
unfolding move_on add_size view bound unsettled in_loop owns brings looks
counting-Simulates {n} {q} {bs} {p} i lt at_ r = (
  bs,
  p,
  over p,
  record {
    linked = r.linked;
    shared =
        go-IsShared i resting (λ a o. ground arith) (λ a o. ground arith) (λ a o. ground arith) tt
          r.shared;
    counted = add_size-IsCounted i lt (ap unsettled at_) (ap in_loop at_) r.counted;
    contents = r.contents;
    results = results_go q.threads p.result i resting r.results (ap bound at_);
  },
  omega arith,
)

-- The step of `Enqueue` that knows the node behind the tail.
pub saw_tail_next-Simulates :
    {n : ℕ} {q : Queue} {bs : List ℕ} {p : Fifo} (i new_node bk_tail bk_next : ℕ)
    → i < n
    → length bs + n < 2 ^ 31
    → q.threads i ≡ saw_tail_next new_node bk_tail bk_next
    → Refines n q bs p
    → Simulates n bs p
        (advance_queue (saw_tail_next new_node bk_tail bk_next) q i).1
        (advance_queue (saw_tail_next new_node bk_tail bk_next) q i).0
unfolding advance_queue view bound unsettled in_loop owns brings looks
saw_tail_next-Simulates {n} {q} {bs} {p} i new_node bk_tail bk_next lt room at_ r =
    let h = subst (IsSound (view q bs)) at_ (r.shared.sound i) in
    elim (Bool-cases (bk_next == q.my_code)) [
      | inl same ↦ rw same (
          exchange_next-Simulates i new_node bk_tail lt (omega arith)
            (at_ ∙ ap (saw_tail_next new_node bk_tail) ((==_iff bk_next q.my_code).0 same)) r)
      | inr other ↦
          let ne : bk_next ≢ q.my_code = λ e. ground arith in
          let at_after = exchange_tail-threads q bk_tail bk_next i ∙ at_ in
          rw other (
            go-Simulates i (enqueuing new_node) lt (λ a o. rw at_after o) (λ a o. rw at_after o)
              (λ a l. ground arith) tt (ap bound at_after) (ap unsettled at_after)
              (ap in_loop at_after) (exchange_tail-Refines bk_tail bk_next (h ne) ne r))
    ]

-- The exchange of `_tail` after the node is appended.
pub appended-Simulates :
    {n : ℕ} {q : Queue} {bs : List ℕ} {p : Fifo} (i new_node bk_tail : ℕ)
    → i < n
    → q.threads i ≡ appended new_node bk_tail
    → Refines n q bs p
    → Simulates n bs p [] (move_on (exchange_tail q bk_tail new_node) i counting)
unfolding view bound unsettled in_loop owns brings looks
appended-Simulates {n} {q} {bs} i new_node bk_tail lt at_ r =
    let h = subst (IsSound (view q bs)) at_ (r.shared.sound i) in
    let at_after = exchange_tail-threads q bk_tail new_node i ∙ at_ in
    go-Simulates i counting lt (λ a o. ground arith) (λ a o. ground arith) (λ a l. ground arith) tt
      (ap bound at_after) (ap unsettled at_after) (ap in_loop at_after)
      (exchange_tail-Refines bk_tail new_node h.1 h.0 r)
