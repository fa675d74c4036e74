-- ===== src/NetServer/Framing.antt =====
-- How a worker thread cuts a message out of a session's receive ring: the body of the loop in
-- `IOCPWorkerThread` up to `MoveWritePos` (LoginServer_Chat/CNetServer.cpp).
pub mod Messages
pub mod Streams
mod Tests
use login_server_chat.Prelude.{
  ℕ, zero, suc, ◌+◌, ◌%◌, ◌^◌, ◌==◌, ltb, if◌then◌else◌, Bool, true, false, List, [], ◌∷◌, write_at,
}
use login_server_chat.RingBuffer.{Ring, get_use_size, peek, dequeue}
use login_server_chat.NetPacket.{
  NetPacket, NetHeader, header_size, header_of, packet_code, move_write_pos, decode,
}

pub data Cut : Type 0 where
  -- The message is not complete: the loop ends, and more bytes are awaited.
  incomplete : Cut
  -- The first byte is not the packet code: the session is disconnected.
  wrong_code : Cut
  -- `Dequeue` writes past the end of the packet's buffer.
  overrun : Cut
  -- The packet with the message, still in cipher, and the ring behind it.
  message : NetPacket → Ring → Cut

-- `packet` is what `CNetPacket::Alloc` returns.
unfoldable pub cut_message : NetPacket → Ring → Cut
cut_message packet recv_q =
    if ltb (get_use_size recv_q) header_size
    then incomplete
    else (let header = header_of (peek recv_q header_size).0 in
        if header.code == packet_code
        then (if ltb (get_use_size recv_q) (header_size + header.len)
            then incomplete
            else if ltb packet.buffer_size (header_size + header.len)
            then overrun
            else (let (bytes, deq_size, recv_q') = dequeue recv_q (header_size + header.len) in
                let packet' : NetPacket = record packet {
                  buffer = write_at packet.buffer 0 bytes;
                } in
                message (move_write_pos packet' header.len).1 recv_q'))
        else wrong_code)

-- Why the loop ends; `fuel_out` is the model's own.
pub data Stop : Type 0 where
  awaits_bytes : Stop
  disconnects : Stop
  overruns : Stop
  fuel_out : Stop

-- What the loop leaves: the packets passed to `OnRecv`, in order, and `_recvCnt`.
pub record LoopEnd : Type 0 where
  pub delivered : List NetPacket
  pub stop : Stop
  pub recv_q : Ring
  pub recv_cnt : ℕ

-- After `Decode`: `rest` is what the further rounds leave.
pub after_decode : Bool × NetPacket → Ring → ℕ → LoopEnd → LoopEnd
after_decode (true, packet) recv_q recv_cnt rest = record rest {
  delivered = packet ∷ rest.delivered;
}
after_decode (false, packet) recv_q recv_cnt rest = record {
  delivered = [];
  stop = disconnects;
  recv_q = recv_q;
  recv_cnt = recv_cnt;
}

-- The body of the loop; `further` stands for the further rounds.
pub after_cut : Cut → Ring → ℕ → (Ring → ℕ → LoopEnd) → LoopEnd
unfolding after_decode
after_cut incomplete recv_q recv_cnt further = record {
  delivered = [];
  stop = awaits_bytes;
  recv_q = recv_q;
  recv_cnt = recv_cnt;
}
after_cut wrong_code recv_q recv_cnt further = record {
  delivered = [];
  stop = disconnects;
  recv_q = recv_q;
  recv_cnt = recv_cnt;
}
after_cut overrun recv_q recv_cnt further = record {
  delivered = [];
  stop = overruns;
  recv_q = recv_q;
  recv_cnt = recv_cnt;
}
after_cut (message packet recv_q') recv_q recv_cnt further =
    let recv_cnt' = (recv_cnt + 1) % 2 ^ 32 in
    after_decode (decode packet) recv_q' recv_cnt' (further recv_q' recv_cnt')

-- The n-th `CNetPacket::Alloc` returns `alloc n`.
pub receive_loop : ℕ → (ℕ → NetPacket) → ℕ → Ring → ℕ → LoopEnd
unfolding after_cut
receive_loop zero alloc n recv_q recv_cnt = record {
  delivered = [];
  stop = fuel_out;
  recv_q = recv_q;
  recv_cnt = recv_cnt;
}
receive_loop (suc fuel) alloc n recv_q recv_cnt =
    after_cut (cut_message (alloc n) recv_q) recv_q recv_cnt
      (λ recv_q' recv_cnt'. receive_loop fuel alloc (n + 1) recv_q' recv_cnt')

-- Each round takes at least the header out of the ring, so that this many are enough.
pub receive_messages : (ℕ → NetPacket) → Ring → ℕ → LoopEnd
unfolding receive_loop
receive_messages alloc recv_q recv_cnt =
    receive_loop (get_use_size recv_q + 1) alloc 0 recv_q recv_cnt
