-- ===== src/NetServer/Receive.antt =====
-- The receive buffers that `RecvPost` hands to `WSARecv` (LoginServer_Chat/CNetServer.cpp).
pub mod Complete
mod Tests
use login_server_chat.Prelude.{ℕ, ◌-◌, leb, if◌then◌else◌, List, [], ◌∷◌}
use login_server_chat.RingBuffer.{
  Ring, get_free_size, get_rear_buffer_ptr, get_front_buffer_ptr, get_buffer_ptr,
  direct_enqueue_size,
}

-- A `WSABUF` is the offset of `buf` in the array of the ring, and `len`.
-- `AcceptThread` posts the first buffer only.
pub first_buffer : Ring → List (ℕ × ℕ)
first_buffer recv_q = (get_rear_buffer_ptr recv_q, direct_enqueue_size recv_q) ∷ []

pub receive_buffers : Ring → List (ℕ × ℕ)
unfolding first_buffer
receive_buffers recv_q =
    let free_size = get_free_size recv_q in
    let len = direct_enqueue_size recv_q in
    if leb free_size len
    then first_buffer recv_q
    else (get_rear_buffer_ptr recv_q, len)
      ∷ (get_buffer_ptr recv_q, get_front_buffer_ptr recv_q - get_buffer_ptr recv_q - 1)
      ∷ []
