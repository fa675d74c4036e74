-- ===== src/NetPacket/Cursors.antt =====
-- The cursors of a packet: `SetData` appends at the end of the unread bytes, `GetData` takes from
-- their front.
use login_server_chat.Prelude.{
  ℕ, ◌+◌, ◌-◌, ◌≤◌, min, List, [], ◌++◌, length, take, write_at, read_at, ltb, if◌then◌else◌,
  read_at-append, read_at-write_at_out, length-write_at, length-read_at, length-take, ◌≡◌, refl, ap,
  ap₂, ◌∙◌, sym, arith, inl, le→ltb, take-length,
}
use login_server_chat.NetPacket.{
  NetPacket, header_size, with_size, clear, get_payload_size, move_write_pos, move_read_pos,
  get_data, set_data,
}
use login_server_chat.NetPacket.Wire.{read_back}

pub record IsValid (p : NetPacket) : Type 0 where
  pub header : header_size ≤ p.read_pos
  pub ordered : p.read_pos ≤ p.write_pos
  pub inside : p.write_pos ≤ p.buffer_size
  pub cells : length p.buffer ≡ p.buffer_size

-- The bytes written and not yet read.
abbrev pub unread : NetPacket → List ℕ
unread p = read_at 0 p.buffer p.read_pos (p.write_pos - p.read_pos)

-- A new packet of at least the header's size is valid and empty.
pub with_size-IsValid :
    (cells : List ℕ) (size : ℕ)
    → header_size ≤ size
    → size ≤ length cells
    → IsValid (with_size cells size) × (unread (with_size cells size) ≡ [])
unfolding with_size read_at
with_size-IsValid cells size h enough = (omega (arith, length-take size cells), refl)

pub clear-IsValid : {p : NetPacket} → IsValid p → IsValid (clear p) × (unread (clear p) ≡ [])
unfolding clear read_at
clear-IsValid v = (omega arith, refl)

-- `MoveWritePos` and `MoveReadPos` move by at most what is left and keep the cursors in order.
pub move_IsValid :
    {p : NetPacket} (size : ℕ)
    → IsValid p
    → let (n, p') = move_write_pos p size in
      let (m, q') = move_read_pos p size in
      (n ≡ min size (p.buffer_size - p.write_pos))
      × IsValid p'
      × (m ≡ min size (get_payload_size p))
      × IsValid q'
unfolding move_write_pos move_read_pos get_payload_size
move_IsValid size v = ground arith

-- The source of the copy, cut to the room that is left.
set_data-cut :
    {p : NetPacket} (src : List ℕ) (n : ℕ)
    → IsValid p
    → n ≤ length src
    → p.write_pos + n ≤ p.buffer_size
    → let p' : NetPacket = record p {
      buffer = write_at p.buffer p.write_pos (take n src);
      write_pos = p.write_pos + n;
    } in
      IsValid p' × (unread p' ≡ unread p ++ take n src)
set_data-cut {p} src n v enough room = (
  record {
    header = v.header;
    ordered = omega (arith, v.ordered);
    inside = room;
    cells = length-write_at p.buffer p.write_pos (take n src) ∙ v.cells;
  },
  ap (read_at 0 (write_at p.buffer p.write_pos (take n src)) p.read_pos)
        {x = p.write_pos + n - p.read_pos} {y = p.write_pos - p.read_pos + n}
        (omega (arith, v.ordered))
      ∙ read_at-append 0 (write_at p.buffer p.write_pos (take n src)) p.read_pos
          (p.write_pos - p.read_pos) n
      ∙ ap₂ ◌++◌
          (read_at-write_at_out 0 p.buffer p.write_pos (take n src) p.read_pos
            (p.write_pos - p.read_pos) (inl (omega (arith, v.ordered))))
          (ap (λ k. read_at 0 (write_at p.buffer p.write_pos (take n src)) k n)
              {x = p.read_pos + (p.write_pos - p.read_pos)} {y = p.write_pos}
              (omega (arith, v.ordered))
            ∙ read_back p.buffer p.write_pos n (take n src) (omega (arith, length-take n src))
                (omega (arith, v.cells))),
)

-- `SetData` stores as many of the bytes as there is room for behind the unread bytes, in order, never
-- past the end of the buffer, and returns their number.
pub set_data-unread :
    {p : NetPacket} (src : List ℕ) (size : ℕ)
    → IsValid p
    → size ≤ length src
    → let (n, p') = set_data p src size in
      (n ≡ min size (p.buffer_size - p.write_pos))
      × IsValid p'
      × (unread p' ≡ unread p ++ take n src)
unfolding set_data
set_data-unread {p} src size v enough =
    let c =
      set_data-cut src (if ltb room size then room else size) v (ground arith)
        (ground (arith, v.inside)) in
    (ground arith, c.0, c.1)
  where
    room : ℕ
    room = p.buffer_size - p.write_pos

-- Where there is room `SetData` stores all the bytes.
pub set_data-room :
    {p : NetPacket} (src : List ℕ) (size : ℕ)
    → IsValid p
    → length src ≡ size
    → p.write_pos + size ≤ p.buffer_size
    → let p' = (set_data p src size).1 in
      IsValid p'
      × (unread p' ≡ unread p ++ src)
      × (p'.write_pos ≡ p.write_pos + size)
      × (p'.buffer_size ≡ p.buffer_size)
unfolding set_data
set_data-room {p} src size v len room =
    let c = set_data-cut src size v (omega (arith, len)) room in
    rw (le→ltb (p.buffer_size - p.write_pos) size (omega arith))
      (c.0, c.1 ∙ ap (λ l. unread p ++ l) (take-length size src (omega (arith, len))), refl, refl)

-- `GetData` hands out the first of the unread bytes, as many as there are up to the size, and leaves
-- the rest unread.
pub get_data-unread :
    {p : NetPacket} (size : ℕ)
    → IsValid p
    → let (out, n, p') = get_data p size in
      (n ≡ min size (get_payload_size p))
      × (length out ≡ n)
      × IsValid p'
      × (out ++ unread p' ≡ unread p)
unfolding get_data get_payload_size
get_data-unread {p} size v = (
  ground arith,
  length-read_at 0 p.buffer p.read_pos n,
  ground arith,
  ap (λ k. read_at 0 p.buffer p.read_pos n ++ read_at 0 p.buffer (p.read_pos + n) k)
        {x = p.write_pos - (p.read_pos + n)} {y = p.write_pos - p.read_pos - n} (omega arith)
      ∙ sym (read_at-append 0 p.buffer p.read_pos n (p.write_pos - p.read_pos - n))
      ∙ ap (read_at 0 p.buffer p.read_pos) {x = n + (p.write_pos - p.read_pos - n)}
          {y = p.write_pos - p.read_pos} (ground arith),
)
  where
    n : ℕ
    n = if ltb (p.write_pos - p.read_pos) size then p.write_pos - p.read_pos else size
