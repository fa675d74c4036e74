-- ===== src/RingBuffer/Fifo.antt =====
-- The contract of the ring: a queue of at most `GetBufferSize` bytes that moves them in blocks, and
-- the ring's calls against it.
use login_server_chat.Prelude.{
  ℕ, ◌-◌, ◌<◌, List, [], ◌∷◌, ◌≡◌, arith, min, take, drop, ◌++◌, length, refl, ap, ap₂, ◌∙◌,
}
use login_server_chat.RingBuffer.{
  Ring, get_use_size, get_buffer_size, enqueue, dequeue, peek, clear_buffer,
}
use login_server_chat.RingBuffer.Invariant.{IsValid, use-add-free, use_empty}
use login_server_chat.RingBuffer.Window.{contents, window, length-window}
use login_server_chat.RingBuffer.Enqueue.{enqueue-Stored}
use login_server_chat.RingBuffer.Dequeue.{dequeue-Removed}
use login_server_chat.RingBuffer.Moves.{move_front-peek-dequeue}

-- A call, with the whole of the caller's bytes as the size of `Enqueue`.
pub data Call : Type 0 where
  enqueues : List ℕ → Call
  dequeues peeks : ℕ → Call
  clears : Call

-- The bytes handed out and the number returned.
abbrev pub Reply : Type 0
Reply = List ℕ × ℕ

abbrev pub HasSize : Call → Type 0
HasSize (enqueues chars) = 0 < length chars
HasSize (dequeues size) = 0 < size
HasSize (peeks size) = 0 < size
HasSize clears = Unit {0}

abbrev pub AllSized : List Call → Type 0
AllSized [] = Unit {0}
AllSized (c ∷ cs) = HasSize c × AllSized cs

-- The queue that the ring is meant to be.
pub queue_step : ℕ → List ℕ → Call → Reply × List ℕ
queue_step capacity q (enqueues chars) =
    let n = min (length chars) (capacity - length q) in (([], n), q ++ take n chars)
queue_step capacity q (dequeues size) = let n = min size (length q) in ((take n q, n), drop n q)
queue_step capacity q (peeks size) = let n = min size (length q) in ((take n q, n), q)
queue_step capacity q clears = (([], 0), [])

pub queue_run : ℕ → List ℕ → List Call → List Reply
queue_run capacity q [] = []
queue_run capacity q (c ∷ cs) =
    let (reply, q') = queue_step capacity q c in reply ∷ queue_run capacity q' cs

pub ring_step : Ring → Call → Reply × Ring
ring_step r (enqueues chars) = let (n, r') = enqueue r chars (length chars) in (([], n), r')
ring_step r (dequeues size) = let (out, n, r') = dequeue r size in ((out, n), r')
ring_step r (peeks size) = (peek r size, r)
ring_step r clears = (([], 0), clear_buffer r)

pub ring_run : Ring → List Call → List Reply
ring_run r [] = []
ring_run r (c ∷ cs) = let (reply, r') = ring_step r c in reply ∷ ring_run r' cs

length-contents : (r : Ring) → length (contents r) ≡ get_use_size r
length-contents r = length-window r.buffer r.total_size _ (get_use_size r)

get_buffer_size-ext :
    (r s : Ring) → s.total_size ≡ r.total_size → get_buffer_size s ≡ get_buffer_size r
unfolding get_buffer_size
get_buffer_size-ext r s e = ap (λ n. n - 1) e

-- What one step keeps to: the queue's reply and bytes, a valid ring and its size.
record Follows (r : Ring) (c : Call) : Type 0 where
  reply : (ring_step r c).0 ≡ (queue_step (get_buffer_size r) (contents r) c).0
  bytes : contents (ring_step r c).1 ≡ (queue_step (get_buffer_size r) (contents r) c).1
  valid : IsValid (ring_step r c).1
  same_size : (ring_step r c).1.total_size ≡ r.total_size

clear-IsValid : {r : Ring} → IsValid r → IsValid (clear_buffer r)
unfolding clear_buffer
clear-IsValid v = omega arith

contents-clear : (r : Ring) → contents (clear_buffer r) ≡ []
unfolding clear_buffer
contents-clear r = ap (window r.buffer r.total_size _) (use_empty (clear_buffer r) refl)

step-Follows : {r : Ring} (c : Call) → IsValid r → HasSize c → Follows r c
unfolding ring_step queue_step
step-Follows {r} (enqueues chars) v pos =
    let e = enqueue-Stored chars (length chars) v pos (omega arith) in
    let n_eq : (enqueue r chars (length chars)).0
        ≡ min (length chars) (get_buffer_size r - length (contents r)) =
      omega (arith, e.0, length-contents r, use-add-free v) in
    record {
      reply = ap (λ n. ([], n)) n_eq;
      bytes = rw (← n_eq) e.1.bytes;
      valid = e.1.valid;
      same_size = e.1.same_size;
    }
step-Follows {r} (dequeues size) v pos =
    let d = dequeue-Removed size v pos in
    let n_eq : (dequeue r size).1 ≡ min size (length (contents r)) =
      omega (arith, d.1, length-contents r) in
    record {
      reply = rw (← n_eq) (ap (λ out. (out, (dequeue r size).1)) d.0);
      bytes = rw (← n_eq) d.2.bytes;
      valid = d.2.valid;
      same_size = d.2.same_size;
    }
step-Follows {r} (peeks size) v pos =
    let d = dequeue-Removed size v pos in
    let n_eq : (dequeue r size).1 ≡ min size (length (contents r)) =
      omega (arith, d.1, length-contents r) in
    record {
      reply =
          (move_front-peek-dequeue r size).1
          ∙ rw (← n_eq) (ap (λ out. (out, (dequeue r size).1)) d.0);
      bytes = refl;
      valid = v;
      same_size = refl;
    }
step-Follows {r} clears v pos = record {
  reply = refl;
  bytes = contents-clear r;
  valid = clear-IsValid v;
  same_size = unfold clear_buffer in refl;
}

-- No sequence of `Enqueue`, `Dequeue` and `Peek` of positive sizes and `ClearBuffer` tells a valid
-- ring from the queue of at most `GetBufferSize` bytes that holds the same bytes.
pub ring_run-queue_run :
    (cs : List Call) {r : Ring}
    → IsValid r
    → AllSized cs
    → ring_run r cs ≡ queue_run (get_buffer_size r) (contents r) cs
unfolding ring_run queue_run
ring_run-queue_run [] v sized = refl
ring_run-queue_run (c ∷ cs) {r} v sized =
    let f = step-Follows c v sized.0 in
    ap₂ ◌∷◌ f.reply (
      ring_run-queue_run cs f.valid sized.1
      ∙ rw (← f.bytes) (
          ap (λ n. queue_run n (contents (ring_step r c).1) cs)
            (get_buffer_size-ext r (ring_step r c).1 f.same_size)))
