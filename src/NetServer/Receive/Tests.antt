-- ===== src/NetServer/Receive/Tests.antt =====
-- The posted buffers of a small ring, and a receive into them.
use login_server_chat.Prelude.{
  ℕ, ◌≤◌, List, [], ◌∷◌, length, ◌≡◌, refl, arith, write_at, take, drop,
}
use login_server_chat.RingBuffer.{
  Ring, get_free_size, move_rear, get_rear_buffer_ptr, direct_enqueue_size, get_buffer_ptr,
  get_front_buffer_ptr,
}
use login_server_chat.RingBuffer.Enqueue.{Stored}
use login_server_chat.NetServer.Receive.{receive_buffers}
use login_server_chat.NetServer.Receive.Complete.{ScatterReceive, receive-Stored}

-- One byte in the middle of eight cells.
abbrev middle : Ring
middle = record {
  buffer = 0 ∷ 0 ∷ 0 ∷ 0 ∷ 9 ∷ 0 ∷ 0 ∷ 0 ∷ [];
  front_next = 4;
  rear_next = 5;
  total_size = 8;
}

receive_buffers-middle : receive_buffers middle ≡ (5, 3) ∷ (0, 3) ∷ []
unfolding receive_buffers get_free_size direct_enqueue_size get_rear_buffer_ptr get_front_buffer_ptr
    get_buffer_ptr
receive_buffers-middle = refl

scatter_fill : List ℕ → List (ℕ × ℕ) → List ℕ → List ℕ
scatter_fill buffer [] xs = buffer
scatter_fill buffer ((offset, len) ∷ bufs) xs =
    scatter_fill (write_at buffer offset (take len xs)) bufs (drop len xs)

scatter : ScatterReceive
unfolding scatter_fill
scatter = record {
  fill = scatter_fill;
  fill_nil = λ buffer xs. refl;
  fill_cons = λ buffer xs offset len bufs. refl;
}

abbrev sent : List ℕ
sent = 1 ∷ 2 ∷ 3 ∷ 4 ∷ 5 ∷ []

middle_free : 5 ≤ get_free_size middle
unfolding get_free_size
middle_free = omega arith

receive-Stored_example :
    let (n, r') =
      move_rear
        (record middle { buffer = scatter.fill middle.buffer (receive_buffers middle) sent })
        (length sent) in
    (n ≡ 5) × Stored middle sent r'
receive-Stored_example = receive-Stored scatter sent (omega arith) (omega arith) middle_free
