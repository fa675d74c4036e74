-- ===== src/NetServer/Receive/Complete.antt =====
-- A completed receive: the kernel has filled the posted buffers, and the worker calls `MoveRear`.
use native.Mathlib.Nat.{zero-add}
use login_server_chat.Prelude.{
  ℕ, ◌+◌, ◌-◌, ◌%◌, ◌<◌, ◌≤◌, ltb, leb, List, [], ◌∷◌, take, drop, length, write_at, take-length,
  drop-length, take-nil, length-drop, ◌⊎◌, ◌≡◌, refl, ap, arith, Bool-cases, inl, inr, mod_round,
}
use login_server_chat.RingBuffer.{
  Ring, get_free_size, direct_enqueue_size, enqueue_run, move_rear, get_front_buffer_ptr,
  get_rear_buffer_ptr, get_buffer_ptr,
}
use login_server_chat.RingBuffer.Invariant.{IsValid}
use login_server_chat.RingBuffer.Enqueue.{Stored, store-Stored, second-Stored}
use login_server_chat.NetServer.Receive.{receive_buffers, first_buffer}

-- `WSARecv`: what it leaves in an array of which `bufs` names parts, when `xs` has arrived. The
-- buffers are filled in their order.
pub record ScatterReceive : Type 0 where
  pub fill : List ℕ → List (ℕ × ℕ) → List ℕ → List ℕ
  pub fill_nil : (buffer xs : List ℕ) → fill buffer [] xs ≡ buffer
  pub fill_cons :
      (buffer xs : List ℕ) (offset len : ℕ) (bufs : List (ℕ × ℕ))
      → fill buffer ((offset, len) ∷ bufs) xs
        ≡ fill (write_at buffer offset (take len xs)) bufs (drop len xs)

-- The two ways in which the buffers are posted.
pub receive_buffers_cases :
    {r : Ring}
    → IsValid r
    → ((receive_buffers r ≡ (r.rear_next % r.total_size, get_free_size r) ∷ [])
        × (direct_enqueue_size r ≡ get_free_size r)
        × (r.rear_next % r.total_size + get_free_size r ≤ r.total_size))
      ⊎ ((second : ℕ) × (receive_buffers r
            ≡ (r.rear_next % r.total_size, direct_enqueue_size r) ∷ (0, second) ∷ [])
          × (direct_enqueue_size r + second ≡ get_free_size r)
          × (r.rear_next % r.total_size + direct_enqueue_size r ≡ r.total_size)
          × (0 < direct_enqueue_size r))
unfolding receive_buffers first_buffer get_front_buffer_ptr get_rear_buffer_ptr get_buffer_ptr
    direct_enqueue_size get_free_size
receive_buffers_cases {r} v = elim (Bool-cases (leb (get_free_size r) (direct_enqueue_size r))) [
  | inl one ↦
      let same : direct_enqueue_size r ≡ get_free_size r =
        ground (arith, one, mod_round r.rear_next r.total_size) in
      inl (
        rw one (
            ap (λ n. (r.rear_next % r.total_size, n) ∷ []) {x = direct_enqueue_size r}
              {y = get_free_size r} same),
        same,
        ground (arith, one, mod_round r.rear_next r.total_size),
      )
  | inr two ↦ inr (
    r.front_next % r.total_size - 0 - 1,
    rw two refl,
    ground (arith, two, mod_round r.rear_next r.total_size, mod_round r.front_next r.total_size),
    ground (arith, two, mod_round r.rear_next r.total_size, mod_round r.front_next r.total_size),
    ground (arith, two, mod_round r.rear_next r.total_size, mod_round r.front_next r.total_size),
  )
]

-- `MoveRear` over cells in a row, and beyond the end of the buffer.
move_rear_row :
    {r : Ring} (buffer : List ℕ) (size : ℕ)
    → IsValid r
    → 0 < size
    → size ≤ direct_enqueue_size r
    → move_rear (record r { buffer = buffer }) size
      ≡ (size, record r { buffer = buffer; rear_next = r.rear_next % r.total_size + size })
unfolding move_rear direct_enqueue_size enqueue_run
move_rear_row {r} buffer size v pos fits = ground (arith, mod_round r.rear_next r.total_size)

move_rear_round :
    {r : Ring} (buffer : List ℕ) (size : ℕ)
    → IsValid r
    → direct_enqueue_size r < size
    → size ≤ get_free_size r
    → r.rear_next % r.total_size + direct_enqueue_size r ≡ r.total_size
    → move_rear (record r { buffer = buffer }) size
      ≡ (size, record r { buffer = buffer; rear_next = size - direct_enqueue_size r })
unfolding move_rear direct_enqueue_size enqueue_run get_free_size
move_rear_round {r} buffer size v more fits round = ground (
  arith,
  mod_round r.rear_next r.total_size,
  mod_round
      (r.rear_next % r.total_size
        + enqueue_run 0 r.front_next (r.rear_next % r.total_size) r.total_size)
      r.total_size,
)

write_at_nothing : (buffer : List ℕ) → write_at buffer 0 [] ≡ buffer
unfolding write_at
write_at_nothing buffer = refl

-- Bytes that fill the cells up to the end of the buffer and go on at its start.
store_split-Stored :
    {r : Ring} (xs : List ℕ) (run : ℕ)
    → IsValid r
    → 0 < run
    → run < length xs
    → length xs ≤ get_free_size r
    → r.rear_next % r.total_size + run ≡ r.total_size
    → Stored r xs (record r {
      buffer =
          write_at (write_at r.buffer (r.rear_next % r.total_size) (take run xs)) 0 (drop run xs);
      rear_next = length xs - run;
    })
store_split-Stored {r} xs run v pos more fits row =
    rw
      (
        take-length (length xs - run) (drop run xs) (omega (arith, length-drop run xs)),
        take-length (run + (length xs - run)) xs (omega arith),
        zero-add (length xs - run),
      )
      at
      (second-Stored xs run 0 (length xs - run) v (omega arith) pos (omega arith) (omega arith)
        (omega arith) (omega (arith, mod_round (r.rear_next % r.total_size + run) r.total_size))
        refl)

-- For a valid ring and at least one byte and at most as many as are free, whatever `WSARecv` is: after
-- a receive into the posted buffers `MoveRear` returns the number of bytes received, so that the
-- worker does not crash, and the ring holds them, in order, behind those that it held.
pub receive-Stored :
    (w : ScatterReceive) {r : Ring} (xs : List ℕ)
    → IsValid r
    → 0 < length xs
    → length xs ≤ get_free_size r
    → let (n, r') =
        move_rear (record r { buffer = w.fill r.buffer (receive_buffers r) xs }) (length xs) in
      (n ≡ length xs) × Stored r xs r'
receive-Stored w {r} xs v pos fits = elim (receive_buffers_cases v) [
  | inl (bufs, same, row) ↦
      rw
        (
          bufs,
          w.fill_cons r.buffer xs rear (get_free_size r) [],
          w.fill_nil (write_at r.buffer rear (take (get_free_size r) xs))
              (drop (get_free_size r) xs),
          take-length (get_free_size r) xs fits,
          move_rear_row (write_at r.buffer rear xs) (length xs) v pos (rw same fits),
        )
        (refl, store-Stored xs v pos fits (omega arith))
  | inr (second, bufs, total, row, direct_pos) ↦
      rw
        (
          bufs,
          w.fill_cons r.buffer xs rear run ((0, second) ∷ []),
          w.fill_cons (write_at r.buffer rear (take run xs)) (drop run xs) 0 second [],
          w.fill_nil (write_at (write_at r.buffer rear (take run xs)) 0 (take second (drop run xs)))
              (drop second (drop run xs)),
        )
        (elim (Bool-cases (ltb run (length xs))) [
          | inl more ↦
              rw
                (
                  take-length second (drop run xs) (omega (arith, length-drop run xs)),
                  move_rear_round (write_at (write_at r.buffer rear (take run xs)) 0 (drop run xs))
                      (length xs) v (ground (arith, more)) fits row,
                )
                (refl, store_split-Stored xs run v direct_pos (ground (arith, more)) fits row)
          | inr less ↦
              rw
                (
                  drop-length run xs (ground (arith, less)),
                  take-length run xs (ground (arith, less)),
                  take-nil second,
                  move_rear_row (write_at (write_at r.buffer rear xs) 0 []) (length xs) v pos
                      (ground (arith, less)),
                  write_at_nothing (write_at r.buffer rear xs),
                )
                (refl, store-Stored xs v pos fits (ground (arith, less)))
        ])
]
  where
    rear : ℕ
    rear = r.rear_next % r.total_size

    run : ℕ
    run = direct_enqueue_size r
