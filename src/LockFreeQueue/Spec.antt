-- ===== src/LockFreeQueue/Spec.antt =====
-- The contract of the queue: a list of data, with effects one at a time.
use login_server_chat.Prelude.{
  ℕ, suc, ◌<◌, length, List, [], ◌∷◌, ◌++◌, Option, none, some, ◌≡◌, assign,
}
use login_server_chat.LockFreeQueue.{
  Queue, QueueEvent, enqueued, refused, dequeued, returned, QueueStep,
}

-- The data, the oldest first, and for each thread what its `Dequeue` is going to return.
pub record Fifo : Type 0 where
  pub contents : List ℕ
  pub result : ℕ → Option (Option ℕ)

abbrev pub empty_fifo : Fifo
empty_fifo = record { contents = []; result = λ i. none }

-- The event has its effect on the list: `enqueued` appends, `dequeued` takes the first, `refused` needs
-- less data than there are threads, and `returned` returns what the thread took.
pub data Acts (n : ℕ) : Fifo → QueueEvent → Fifo → Type 0 where
  appends :
      (p : Fifo) (i value : ℕ)
      → Acts n p (enqueued i value) (record p { contents = p.contents ++ value ∷ [] })
  takes :
      (p : Fifo) (i value : ℕ) (rest : List ℕ)
      → p.contents ≡ value ∷ rest
      → Acts n p
          (dequeued i value)
          (record p { contents = rest; result = assign p.result i (some (some value)) })
  refuses :
      (p : Fifo) (i : ℕ)
      → length p.contents < n
      → Acts n p (refused i) (record p { result = assign p.result i (some none) })
  returns :
      (p : Fifo) (i : ℕ) (value : Option ℕ)
      → p.result i ≡ some value
      → Acts n p (returned i value) (record p { result = assign p.result i none })

-- A sequence of events, the first one first.
pub data ActsAll (n : ℕ) : Fifo → List QueueEvent → Fifo → Type 0 where
  over : (p : Fifo) → ActsAll n p [] p
  begins :
      {p q r : Fifo} {e : QueueEvent} {es : List QueueEvent}
      → Acts n p e q
      → ActsAll n q es r
      → ActsAll n p (e ∷ es) r

pub ActsAll-append :
    {n : ℕ} {p q r : Fifo} {es fs : List QueueEvent}
    → ActsAll n p es q
    → ActsAll n q fs r
    → ActsAll n p (es ++ fs) r
ActsAll-append (over p) after = after
ActsAll-append (begins first rest) after = begins first (ActsAll-append rest after)

-- Steps of the threads one after the other, with what they did.
pub data QueueSteps (n : ℕ) (q : Queue) : List QueueEvent → Queue → Type 0 where
  at_first : QueueSteps n q [] q
  further :
      {r s : Queue} {es fs : List QueueEvent}
      → QueueSteps n q es r
      → QueueStep n r fs s
      → QueueSteps n q (es ++ fs) s

abbrev pub enqueue_count : List QueueEvent → ℕ
enqueue_count [] = 0
enqueue_count (enqueued i value ∷ es) = suc (enqueue_count es)
enqueue_count (refused i ∷ es) = enqueue_count es
enqueue_count (dequeued i value ∷ es) = enqueue_count es
enqueue_count (returned i value ∷ es) = enqueue_count es
