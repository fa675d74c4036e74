-- ===== src/NetServer/Framing/Streams.antt =====
-- The loop over the messages of a ring.
use login_server_chat.Prelude.{
  ℕ, zero, suc, ◌+◌, ◌%◌, ◌^◌, ◌<◌, ◌≤◌, ◌==◌, ltb, List, [], ◌∷◌, ◌++◌, append_assoc, length,
  length-append, map, Bool, true, false, Bool-cases, inl, inr, lt→ltb, ◌≡◌, ◌≢◌, refl, ap, ap₂, ◌∙◌,
  arith,
}
use login_server_chat.RingBuffer.{Ring, get_use_size, peek}
use login_server_chat.RingBuffer.Invariant.{IsValid}
use login_server_chat.RingBuffer.Window.{contents}
use login_server_chat.RingBuffer.Dequeue.{dequeue-Removed}
use login_server_chat.NetPacket.{
  NetPacket, header_size, header_of, packet_code, NetHeader, move_write_pos, decode,
}
use login_server_chat.NetPacket.Cipher.{IsBytes}
use login_server_chat.NetPacket.Cursors.{unread}
use login_server_chat.NetPacket.Wire.{frame, length-frame}
use login_server_chat.NetServer.Framing.{
  Cut, incomplete, wrong_code, overrun, message, cut_message, awaits_bytes, disconnects, fuel_out,
  LoopEnd, after_decode, after_cut, receive_loop, receive_messages,
}
use login_server_chat.NetServer.Framing.Messages.{IsFresh, cut_message-frame, length-contents}

-- A message that is cut leaves a valid ring with fewer bytes.
Shrinks : Ring → Cut → Type 0
Shrinks r incomplete = Unit
Shrinks r wrong_code = Unit
Shrinks r overrun = Unit
Shrinks r (message q r') = IsValid r' × (get_use_size r' < get_use_size r)

cut_message-Shrinks : (p : NetPacket) {r : Ring} → IsValid r → Shrinks r (cut_message p r)
unfolding Shrinks cut_message move_write_pos
cut_message-Shrinks p {r} v = elim (Bool-cases (ltb (get_use_size r) header_size)) [
  | inl few ↦ rw few tt
  | inr enough ↦ rw enough (elim (Bool-cases (h.code == packet_code)) [
    | inr other ↦ rw other tt
    | inl code ↦ rw code (elim (Bool-cases (ltb (get_use_size r) (header_size + h.len))) [
      | inl few ↦ rw few tt
      | inr whole ↦ rw whole (elim (Bool-cases (ltb p.buffer_size (header_size + h.len))) [
        | inl long ↦ rw long tt
        | inr room ↦ rw room (
            let d = dequeue-Removed (header_size + h.len) v (omega arith) in
            (d.2.valid, ground (arith, d.1, d.2.used, whole)))
      ])
    ])
  ])
]
  where
    h : NetHeader
    h = header_of (peek r header_size).0

after_decode_accepts :
    (d : Bool × NetPacket) (r : Ring) (cnt : ℕ) (rest : LoopEnd)
    → d.0 ≡ true
    → after_decode d r cnt rest ≡ record rest { delivered = d.1 ∷ rest.delivered }
unfolding after_decode
after_decode_accepts (true, packet) r cnt rest e = refl
after_decode_accepts (false, packet) r cnt rest e = ground arith

after_decode_refuses :
    (d : Bool × NetPacket) (r : Ring) (cnt : ℕ) (rest : LoopEnd)
    → d.0 ≡ false
    → after_decode d r cnt rest
      ≡ record { delivered = []; stop = disconnects; recv_q = r; recv_cnt = cnt }
unfolding after_decode
after_decode_refuses (true, packet) r cnt rest e = ground arith
after_decode_refuses (false, packet) r cnt rest e = refl

-- The further rounds end when they are given a ring with fewer bytes.
after_cut-ends :
    (c : Cut) (r : Ring) (recv_cnt : ℕ) (further : Ring → ℕ → LoopEnd)
    → Shrinks r c
    → ((r' : Ring) (cnt : ℕ)
        → IsValid r'
        → get_use_size r' < get_use_size r
        → (further r' cnt).stop ≢ fuel_out)
    → (after_cut c r recv_cnt further).stop ≢ fuel_out
unfolding Shrinks after_cut
after_cut-ends incomplete r recv_cnt further s ends = λ e. ground arith
after_cut-ends wrong_code r recv_cnt further s ends = λ e. ground arith
after_cut-ends overrun r recv_cnt further s ends = λ e. ground arith
after_cut-ends (message q r') r recv_cnt further s ends = elim (Bool-cases (decode q).0) [
  | inl accepted ↦
      rw
        (after_decode_accepts (decode q) r' ((recv_cnt + 1) % 2 ^ 32)
          (further r' ((recv_cnt + 1) % 2 ^ 32)) accepted)
        (ends r' ((recv_cnt + 1) % 2 ^ 32) s.0 s.1)
  | inr refused ↦
      rw
        (after_decode_refuses (decode q) r' ((recv_cnt + 1) % 2 ^ 32)
          (further r' ((recv_cnt + 1) % 2 ^ 32)) refused)
        (λ e. ground arith)
]

receive_loop-ends :
    (fuel : ℕ) (alloc : ℕ → NetPacket) (n : ℕ) (r : Ring) (recv_cnt : ℕ)
    → IsValid r
    → get_use_size r < fuel
    → (receive_loop fuel alloc n r recv_cnt).stop ≢ fuel_out
unfolding receive_loop
receive_loop-ends zero alloc n r recv_cnt v lt = absurd (omega arith)
receive_loop-ends (suc fuel) alloc n r recv_cnt v lt =
    after_cut-ends (cut_message (alloc n) r) r recv_cnt _ (cut_message-Shrinks (alloc n) v)
      λ r' cnt v' less. receive_loop-ends fuel alloc (n + 1) r' cnt v' (omega arith)

-- For a valid ring, whatever `Alloc` returns: the loop ends by itself.
pub receive_messages-ends :
    (alloc : ℕ → NetPacket) {r : Ring} (recv_cnt : ℕ)
    → IsValid r
    → (receive_messages alloc r recv_cnt).stop ≢ fuel_out
unfolding receive_messages
receive_messages-ends alloc {r} recv_cnt v =
    receive_loop-ends (get_use_size r + 1) alloc 0 r recv_cnt v (omega arith)

-- The bytes of the messages with the payloads `xss`, one behind the other.
abbrev pub frames : List (ℕ × List ℕ) → List ℕ
frames [] = []
frames ((rand_key, xs) ∷ sent) = frame rand_key xs ++ frames sent

-- The bytes are such as a packet can carry, and each allocated packet has room for them.
abbrev pub AllFit : ℕ → List (ℕ × List ℕ) → Type 0
AllFit size [] = Unit {0}
AllFit size ((rand_key, xs) ∷ sent) =
    IsBytes xs × (header_size + length xs ≤ size) × AllFit size sent

-- What the loop leaves when it has delivered the messages `sent` and `rest` remains in the ring.
pub record Delivers (e : LoopEnd) (sent : List (ℕ × List ℕ)) (rest : List ℕ) (recv_cnt : ℕ)
    : Type 0 where
  pub payloads : map unread e.delivered ≡ map (λ m. m.1) sent
  pub waiting : e.stop ≡ awaits_bytes
  pub left : contents e.recv_q ≡ rest
  pub valid : IsValid e.recv_q
  pub counted : e.recv_cnt ≡ (recv_cnt + length sent) % 2 ^ 32

length-frames : (sent : List (ℕ × List ℕ)) → length sent ≤ length (frames sent)
length-frames [] = omega arith
length-frames ((k, xs) ∷ sent) =
    omega (arith, length-frames sent, length-append (frame k xs) (frames sent), length-frame k xs)

waits : (p : NetPacket) (r : Ring) → get_use_size r < header_size → cut_message p r ≡ incomplete
unfolding cut_message
waits p r few = rw (lt→ltb (get_use_size r) header_size few) refl

delivers :
    (fuel : ℕ) (alloc : ℕ → NetPacket) (size n : ℕ) (r : Ring) (recv_cnt : ℕ)
    (sent : List (ℕ × List ℕ)) (rest : List ℕ)
    → ((k : ℕ) → IsFresh (alloc k) × ((alloc k).buffer_size ≡ size))
    → IsValid r
    → AllFit size sent
    → length rest < header_size
    → contents r ≡ frames sent ++ rest
    → length sent < fuel
    → recv_cnt < 2 ^ 32
    → Delivers (receive_loop fuel alloc n r recv_cnt) sent rest recv_cnt
unfolding receive_loop after_cut
delivers zero alloc size n r recv_cnt sent rest fresh v fit short arrived lt cnt =
    absurd (omega arith)
delivers (suc fuel) alloc size n r recv_cnt [] rest fresh v fit short arrived lt cnt =
    rw (waits (alloc n) r (omega (arith, length-contents r, ap length arrived)))
      (record { payloads = refl; waiting = refl; left = arrived; valid = v; counted = omega arith })
delivers (suc fuel) alloc size n r recv_cnt ((k, xs) ∷ sent) rest fresh v fit short arrived lt cnt =
    let (q, r', cut, (v', bytes, _), accepted, read) =
      cut_message-frame (alloc n) k xs (frames sent ++ rest) (fresh n).0 v fit.0
        (omega (arith, (fresh n).1, fit.1))
        (arrived ∙ append_assoc (frame k xs) (frames sent) rest) in
    let cnt' = (recv_cnt + 1) % 2 ^ 32 in
    let h =
      delivers fuel alloc size (n + 1) r' cnt' sent rest fresh v' fit.2 short bytes (omega arith)
        (omega arith) in
    rw
      (
        cut,
        after_decode_accepts (decode q) r' cnt' (receive_loop fuel alloc (n + 1) r' cnt') accepted,
      )
      (record {
        payloads = ap₂ ◌∷◌ read h.payloads;
        waiting = h.waiting;
        left = h.left;
        valid = h.valid;
        counted = omega (arith, h.counted);
      })

-- For a valid ring that holds the frames of payloads which fit the packets, all of one size and as
-- `Alloc` returns them, a counter of 32 bits, and behind the frames fewer
-- bytes than a header has: the worker passes exactly these payloads to `OnRecv`, in the order in which
-- they were sent, counts them, waits for more bytes, and the bytes of the next message stay.
pub receive_messages-frames :
    (alloc : ℕ → NetPacket) (size : ℕ) {r : Ring} (recv_cnt : ℕ) (sent : List (ℕ × List ℕ))
    (rest : List ℕ)
    → ((n : ℕ) → IsFresh (alloc n) × ((alloc n).buffer_size ≡ size))
    → IsValid r
    → AllFit size sent
    → length rest < header_size
    → contents r ≡ frames sent ++ rest
    → recv_cnt < 2 ^ 32
    → Delivers (receive_messages alloc r recv_cnt) sent rest recv_cnt
unfolding receive_messages
receive_messages-frames alloc size {r} recv_cnt sent rest fresh v fit short arrived cnt =
    delivers (get_use_size r + 1) alloc size 0 r recv_cnt sent rest fresh v fit short arrived
      (omega (
        arith,
        length-contents r,
        ap length arrived,
        length-append (frames sent) rest,
        length-frames sent,
      ))
      cnt
