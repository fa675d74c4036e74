-- ===== src/RingBuffer/Tests.antt =====
-- Runs of the ring, and each theorem at a ring whose bytes go round the end of its buffer.
use login_server_chat.Prelude.{ℕ, ◌+◌, ◌-◌, List, [], ◌∷◌, take, min, ◌≡◌, refl, arith}
use login_server_chat.RingBuffer.{
  enqueue_run, Ring, get_use_size, get_free_size, get_buffer_size, enqueue, dequeue, resize,
  direct_enqueue_size, direct_dequeue_size, get_front_buffer_ptr, get_rear_buffer_ptr,
  get_buffer_ptr,
}
use login_server_chat.RingBuffer.Invariant.{IsValid}
use login_server_chat.RingBuffer.Window.{contents}
use login_server_chat.RingBuffer.Enqueue.{Stored, enqueue-Stored}
use login_server_chat.RingBuffer.Resize.{resize-contents, resize_wrapped, enqueue_zero_breaks}
use login_server_chat.RingBuffer.Fifo.{
  Call, enqueues, dequeues, peeks, clears, ring_run, queue_run, ring_run-queue_run,
}

-- Five cells; the bytes 50 and 10 stand in the last and the first.
abbrev wrapped : Ring
wrapped = record {
  buffer = 10 ∷ 20 ∷ 30 ∷ 40 ∷ 50 ∷ [];
  front_next = 4;
  rear_next = 1;
  total_size = 5;
}

-- The bytes 20 and 30 in a row.
abbrev in_row : Ring
in_row = record { buffer = 10 ∷ 20 ∷ 30 ∷ 40 ∷ []; front_next = 1; rear_next = 3; total_size = 4 }

-- Empty, at the last cell.
abbrev at_end : Ring
at_end = record { buffer = 10 ∷ 20 ∷ 30 ∷ []; front_next = 3; rear_next = 3; total_size = 3 }

abbrev chars : List ℕ
chars = 1 ∷ 2 ∷ 3 ∷ []

abbrev calls : List Call
calls =
    enqueues chars ∷ peeks 3 ∷ dequeues 3 ∷ enqueues chars ∷ dequeues 9 ∷ clears ∷ dequeues 1 ∷ []

wrapped-IsValid : IsValid wrapped
wrapped-IsValid = omega arith

in_row-IsValid : IsValid in_row
in_row-IsValid = omega arith

at_end-IsValid : IsValid at_end
at_end-IsValid = omega arith

contents-wrapped : contents wrapped ≡ 50 ∷ 10 ∷ []
unfolding get_use_size
contents-wrapped = refl

enqueue-wrapped : (enqueue wrapped chars 3).0 ≡ 2
unfolding enqueue enqueue_run
enqueue-wrapped = refl

sizes-wrapped :
    (direct_enqueue_size wrapped ≡ 2)
    × (direct_dequeue_size wrapped ≡ 1)
    × (get_front_buffer_ptr wrapped ≡ 4)
    × (get_rear_buffer_ptr wrapped ≡ 1)
    × (get_buffer_ptr wrapped ≡ 0)
unfolding direct_enqueue_size direct_dequeue_size get_front_buffer_ptr get_rear_buffer_ptr
    get_buffer_ptr
sizes-wrapped = (refl, refl, refl, refl, refl)

enqueue-Stored_example :
    let (n, r') = enqueue wrapped chars 3 in
    (n ≡ min 3 (get_free_size wrapped)) × Stored wrapped (take n chars) r'
enqueue-Stored_example = enqueue-Stored chars 3 wrapped-IsValid (omega arith) (omega arith)

ring_run-queue_run_example :
    ring_run wrapped calls ≡ queue_run (get_buffer_size wrapped) (contents wrapped) calls
ring_run-queue_run_example = ring_run-queue_run calls wrapped-IsValid (omega arith)

cells : List ℕ
cells = 7 ∷ 7 ∷ 7 ∷ 7 ∷ 7 ∷ 7 ∷ 7 ∷ 7 ∷ []

resize-contents_example :
    let r' = resize in_row cells 6 in
    IsValid r' × (contents r' ≡ contents in_row) × (get_buffer_size r' ≡ 6)
unfolding cells
resize-contents_example =
    resize-contents cells 6 in_row-IsValid (omega arith) (omega arith) (omega arith)

resize_wrapped_example :
    get_use_size (resize wrapped cells 7) ≡ get_use_size wrapped + (7 + 1 - wrapped.total_size)
resize_wrapped_example = resize_wrapped cells 7 wrapped-IsValid (omega arith) (omega arith)

enqueue_zero_breaks_example :
    let r' = (enqueue at_end chars 0).1 in
    (get_use_size at_end ≡ 0) × (r'.rear_next ≡ 0) × ((dequeue r' 2).1 ≡ 2)
enqueue_zero_breaks_example =
    enqueue_zero_breaks chars 2 at_end-IsValid refl refl (omega arith) (omega arith) (omega arith)
