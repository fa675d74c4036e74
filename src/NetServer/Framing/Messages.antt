-- ===== src/NetServer/Framing/Messages.antt =====
-- What `cut_message` makes of the bytes that a ring holds.
use login_server_chat.Prelude.{
  ℕ, ◌+◌, ◌-◌, ◌<◌, ◌≤◌, ltb, List, ◌++◌, take, drop, length, length-append, take-append,
  drop-append, write_at, read_at, le→ltb, lt→ltb, ◌^◌, ◌≡◌, refl, ap, ap₂, ◌∙◌, arith, true,
  length-write_at, Bool-cases, inl, inr,
}
use login_server_chat.RingBuffer.{Ring, get_use_size, get_buffer_size, peek, dequeue}
use login_server_chat.RingBuffer.Invariant.{IsValid, use-add-free}
use login_server_chat.RingBuffer.Window.{contents, length-window}
use login_server_chat.RingBuffer.Dequeue.{dequeue-Removed}
use login_server_chat.RingBuffer.Moves.{move_front-peek-dequeue}
use login_server_chat.NetPacket.{
  NetPacket, header_size, header_of, packet_code, move_write_pos, decode,
}
use login_server_chat.NetPacket.Cipher.{IsBytes}
use login_server_chat.NetPacket.Cursors
use login_server_chat.NetPacket.Cursors.{unread}
use login_server_chat.NetPacket.Wire.{frame, length-frame, read_back}
use login_server_chat.NetPacket.RoundTrip.{decode-frame}
use login_server_chat.NetServer.Framing.{incomplete, overrun, message, cut_message}

-- A packet as `CNetPacket::Alloc` returns it: valid, and with its cursors behind the header.
pub record IsFresh (p : NetPacket) : Type 0 where
  pub valid : Cursors.IsValid p
  pub at_header : p.read_pos ≡ header_size
  pub empty : p.write_pos ≡ header_size

pub length-contents : (r : Ring) → length (contents r) ≡ get_use_size r
length-contents r = length-window r.buffer r.total_size _ (get_use_size r)

-- The header that the loop peeks at.
peeked :
    (r : Ring)
    → IsValid r
    → header_size ≤ get_use_size r
    → (peek r header_size).0 ≡ take header_size (contents r)
peeked r v enough =
    let d = dequeue-Removed header_size v (omega arith) in
    ap (λ x. x.0) (move_front-peek-dequeue r header_size).1
    ∙ d.0
    ∙ ap (λ n. take n (contents r)) {y = header_size} (omega (arith, d.1))

frame_header :
    (rand_key : ℕ) (xs rest : List ℕ)
    → let h = header_of (take header_size (frame rand_key xs ++ rest)) in
      (h.code ≡ packet_code) × (h.len ≡ length xs)
unfolding header_of frame
frame_header rand_key xs rest = (refl, omega arith)

-- A message longer than the ring is never complete, also in a full ring.
pub cut_message-incomplete :
    (p : NetPacket) {r : Ring}
    → IsValid r
    → let h = header_of (take header_size (contents r)) in
      h.code ≡ packet_code → get_buffer_size r < header_size + h.len → cut_message p r ≡ incomplete
unfolding cut_message
cut_message-incomplete p {r} v code long = elim (Bool-cases (ltb (get_use_size r) header_size)) [
  | inl few ↦ rw few
  | inr enough ↦
      rw (enough, peeked r v (ground (arith, enough)), code) (ground (arith, use-add-free v))
]

module _ {r : Ring} (v : IsValid r) (rand_key : ℕ) (xs rest : List ℕ)
    (arrived : contents r ≡ frame rand_key xs ++ rest) where
  sizes : get_use_size r ≡ header_size + length xs + length rest
  sizes = omega (
    arith,
    length-contents r,
    ap length arrived,
    length-append (frame rand_key xs) rest,
    length-frame rand_key xs,
  )

  head_eq : take header_size (contents r) ≡ take header_size (frame rand_key xs ++ rest)
  head_eq = ap (take header_size) arrived

  taken : (dequeue r (header_size + length xs)).0 ≡ frame rand_key xs
  taken =
      let d = dequeue-Removed (header_size + length xs) v (omega arith) in
      d.0
      ∙ ap₂ take {x = (dequeue r (header_size + length xs)).1} {y = header_size + length xs}
          (omega (arith, d.1, sizes)) arrived
      ∙ take-append (frame rand_key xs) rest (header_size + length xs) (length-frame rand_key xs)

module _ (p : NetPacket) (fresh : IsFresh p) {r : Ring} (v : IsValid r) (rand_key : ℕ)
    (xs rest : List ℕ) (bytes : IsBytes xs) (room : header_size + length xs ≤ p.buffer_size)
    (arrived : contents r ≡ frame rand_key xs ++ rest) where
  -- The packet and the ring of the message.
  filled : NetPacket
  filled = record p {
    buffer = write_at p.buffer 0 (dequeue r (header_size + length xs)).0;
    write_pos = header_size + length xs;
  }

  cut_filled : cut_message p r ≡ message filled (dequeue r (header_size + length xs)).2
  unfolding cut_message filled move_write_pos
  cut_filled =
      rw
        (
          le→ltb (get_use_size r) header_size (omega (arith, sizes v rand_key xs rest arrived)),
          peeked r v (omega (arith, sizes v rand_key xs rest arrived)),
          head_eq v rand_key xs rest arrived,
          (frame_header rand_key xs rest).0,
          (frame_header rand_key xs rest).1,
          le→ltb (get_use_size r) (header_size + length xs)
              (omega (arith, sizes v rand_key xs rest arrived)),
          le→ltb p.buffer_size (header_size + length xs) room,
          le→ltb (p.buffer_size - p.write_pos) (length xs) (omega (arith, fresh.empty)),
          fresh.empty,
        )
        refl

  decode-filled : ((decode filled).0 ≡ true) × (unread (decode filled).1 ≡ xs)
  unfolding filled
  decode-filled =
      let d =
        decode-frame filled rand_key xs bytes
          (omega (
            arith,
            length-write_at p.buffer 0 (dequeue r (header_size + length xs)).0,
            fresh.valid.cells,
          ))
          (read_back p.buffer 0 (header_size + length xs) (dequeue r (header_size + length xs)).0
              (ap length (taken v rand_key xs rest arrived) ∙ length-frame rand_key xs)
              (omega (arith, fresh.valid.cells))
            ∙ taken v rand_key xs rest arrived) in
      (
        d.0,
        ap₂ (read_at 0 (decode filled).1.buffer) {y = header_size} (d.2 ∙ fresh.at_header)
              (omega (arith, d.2, d.3, fresh.at_header))
            ∙ d.1,
      )

-- When the ring holds the frame of a payload that fits the packet, whatever comes behind it, the loop
-- takes exactly the frame out of the ring, and `Decode` accepts the packet and leaves the payload as
-- its unread bytes.
pub cut_message-frame :
    (p : NetPacket) {r : Ring} (rand_key : ℕ) (xs rest : List ℕ)
    → IsFresh p
    → IsValid r
    → IsBytes xs
    → header_size + length xs ≤ p.buffer_size
    → contents r ≡ frame rand_key xs ++ rest
    → (q : NetPacket) × (r' : Ring) × (cut_message p r ≡ message q r')
      × (IsValid r' × (contents r' ≡ rest) × (r'.total_size ≡ r.total_size))
      × ((decode q).0 ≡ true)
      × (unread (decode q).1 ≡ xs)
cut_message-frame p {r} rand_key xs rest fresh v bytes room arrived =
    let size = header_size + length xs in
    let d = dequeue-Removed size v (omega arith) in
    let n_eq : (dequeue r size).1 ≡ size = omega (arith, d.1, sizes v rand_key xs rest arrived) in
    let f = decode-filled p fresh v rand_key xs rest bytes room arrived in
    (
      filled p fresh v rand_key xs rest bytes room arrived,
      (dequeue r size).2,
      cut_filled p fresh v rand_key xs rest bytes room arrived,
      (
        d.2.valid,
        d.2.bytes
            ∙ ap₂ drop n_eq arrived
            ∙ drop-append (frame rand_key xs) rest size (length-frame rand_key xs),
        d.2.same_size,
      ),
      f.0,
      f.1,
    )

-- The ring holds the frame of a payload for which a fresh packet has no room, and maybe more bytes. The message is not refused: the `Dequeue` that the code then does takes the
-- whole frame, and these are more bytes than there are cells in the packet.
pub cut_message-overrun :
    (p : NetPacket) {r : Ring} (rand_key : ℕ) (xs rest : List ℕ)
    → IsFresh p
    → IsValid r
    → length xs < 2 ^ 16
    → length p.buffer ≡ p.buffer_size
    → p.buffer_size < header_size + length xs
    → contents r ≡ frame rand_key xs ++ rest
    → (cut_message p r ≡ overrun)
      × ((dequeue r (header_size + length xs)).0 ≡ frame rand_key xs)
      × (length p.buffer < length (dequeue r (header_size + length xs)).0)
unfolding cut_message
cut_message-overrun p {r} rand_key xs rest fresh v small cells long arrived =
    let whole = taken v rand_key xs rest arrived in
    (
      rw
          (
            le→ltb (get_use_size r) header_size (omega (arith, sizes v rand_key xs rest arrived)),
            peeked r v (omega (arith, sizes v rand_key xs rest arrived)),
            head_eq v rand_key xs rest arrived,
            (frame_header rand_key xs rest).0,
            (frame_header rand_key xs rest).1,
            le→ltb (get_use_size r) (header_size + length xs)
                (omega (arith, sizes v rand_key xs rest arrived)),
            lt→ltb p.buffer_size (header_size + length xs) long,
          )
          refl,
      whole,
      omega (arith, ap length whole, length-frame rand_key xs, cells, long),
    )
