-- ===== src/NetPacket.antt =====
-- `CNetPacket` (LoginServer_Chat/CNetPacket.cpp, CNetPacket.h): a message of up to `_cBufferSize`
-- bytes with a header of five in front, its cursors, and the cipher of checksum and payload.
pub mod Cipher
pub mod Checksum
pub mod Wire
pub mod RoundTrip
pub mod Cursors
pub mod Values
pub mod References
mod Tests
use login_server_chat.Prelude.{
  ℕ, zero, suc, ◌+◌, ◌-◌, ◌*◌, ◌/◌, ◌%◌, ◌^◌, bit_xor, ◌==◌, ltb, if◌then◌else◌, Bool, true, false,
  List, [], ◌∷◌, ◌++◌, take, drop, set, get_or, write_at, read_at, Option, none, some,
}
use login_server_chat.Prelude.Int.{ℤ, pos, ◌+ℤ◌, signed8, rem_256, to_byte}

abbrev pub default_size : ℕ
default_size = 1024

abbrev pub packet_code : ℕ
packet_code = 0x77

abbrev pub packet_key : ℕ
packet_key = 0x32

-- `struct NetHeader`, packed: `sizeof` is 5.
pub record NetHeader : Type 0 where
  pub code : ℕ
  pub len : ℕ
  pub rand_key : ℕ
  pub chk_sum : ℕ

abbrev pub header_size : ℕ
header_size = 5

-- The cursors `_pWritePos` and `_pReadPos` are offsets from `_pBuffer`. A byte is its bit pattern,
-- below 256, also where the source reads it as a `char`.
pub record NetPacket : Type 0 where
  pub buffer : List ℕ
  pub write_pos : ℕ
  pub read_pos : ℕ
  pub ref_count : ℕ
  pub is_encode : Bool
  pub buffer_size : ℕ

-- The constructors; `cells` is what `new char[size]` finds in memory.
pub with_size : List ℕ → ℕ → NetPacket
with_size cells size = record {
  buffer = take size cells;
  write_pos = header_size;
  read_pos = header_size;
  ref_count = 0;
  is_encode = false;
  buffer_size = size;
}

pub with_default_size : List ℕ → NetPacket
unfolding with_size
with_default_size cells = with_size cells default_size

unfoldable pub clear : NetPacket → NetPacket
clear p = record p { write_pos = header_size; read_pos = header_size; is_encode = false }

pub get_buffer_size : NetPacket → ℕ
get_buffer_size p = p.buffer_size

-- The write cursor is never before the read cursor (`Cursors.IsValid`), so `-` does not stop at 0.
unfoldable pub get_payload_size : NetPacket → ℕ
get_payload_size p = p.write_pos - p.read_pos

pub get_total_size : NetPacket → ℕ
get_total_size p = p.write_pos

-- `GetBufferPtr` and `GetPayloadPtr`, as offsets in the buffer.
pub get_buffer_ptr : NetPacket → ℕ
get_buffer_ptr p = 0

pub get_payload_ptr : NetPacket → ℕ
get_payload_ptr p = header_size

-- The number of bytes moved, and the packet.
unfoldable pub move_write_pos : NetPacket → ℕ → ℕ × NetPacket
unfolding get_total_size
move_write_pos p size =
    let remain_size = p.buffer_size - get_total_size p in
    let size' = (if ltb remain_size size then remain_size else size) in
    (size', record p { write_pos = p.write_pos + size' })

pub move_read_pos : NetPacket → ℕ → ℕ × NetPacket
move_read_pos p size =
    let remain_size = p.write_pos - p.read_pos in
    let size' = (if ltb remain_size size then remain_size else size) in
    (size', record p { read_pos = p.read_pos + size' })

-- The bytes written to `pDest`, their number, and the packet.
unfoldable pub get_data : NetPacket → ℕ → List ℕ × ℕ × NetPacket
get_data p size =
    let remain_size = p.write_pos - p.read_pos in
    let size' = (if ltb remain_size size then remain_size else size) in
    (read_at 0 p.buffer p.read_pos size', size', record p { read_pos = p.read_pos + size' })

-- `src` is what `pSrc` points to.
unfoldable pub set_data : NetPacket → List ℕ → ℕ → ℕ × NetPacket
set_data p src src_size =
    let remain_size = p.buffer_size - p.write_pos in
    let size = (if ltb remain_size src_size then remain_size else src_size) in
    (
      size,
      record p {
        buffer = write_at p.buffer p.write_pos (take size src);
        write_pos = p.write_pos + size;
      },
    )

-- The header as the bytes in memory, `len` with its low byte first, and back.
pub header_bytes : NetHeader → List ℕ
header_bytes h = h.code ∷ (h.len % 256) ∷ (h.len / 256) ∷ h.rand_key ∷ h.chk_sum ∷ []

unfoldable pub header_of : List ℕ → NetHeader
header_of bytes = record {
  code = get_or bytes 0 0;
  len = get_or bytes 1 0 + 256 * get_or bytes 2 0;
  rand_key = get_or bytes 3 0;
  chk_sum = get_or bytes 4 0;
}

pub get_net_header : NetPacket → NetHeader
unfolding header_of
get_net_header p = header_of (read_at 0 p.buffer 0 header_size)

pub set_net_header : NetPacket → NetHeader → NetPacket
unfolding header_bytes
set_net_header p h = record p { buffer = write_at p.buffer 0 (header_bytes h) }

-- `InterlockedIncrement` on a `LONG`.
unfoldable pub add_ref_count : NetPacket → NetPacket
add_ref_count p = record p { ref_count = (p.ref_count + 1) % 2 ^ 32 }

-- `Alloc`: the packet is what the packet pool hands out.
unfoldable pub packet_alloc : NetPacket → NetPacket
unfolding add_ref_count
packet_alloc p = add_ref_count p

-- `Free`: whether the packet goes back to the pool, and the packet.
unfoldable pub packet_free : NetPacket → Bool × NetPacket
unfolding clear
packet_free p =
    let count = (p.ref_count + (2 ^ 32 - 1)) % 2 ^ 32 in
    let p' : NetPacket = record p { ref_count = count } in
    if count == 0 then (true, clear p') else (false, p')

-- The loop over `pPayload[i]`, a `char`, into `sumVal`.
pub sum_chars : List ℕ → ℕ → ℕ → ℤ → ℤ
sum_chars buf i zero sum_val = sum_val
sum_chars buf i (suc left) sum_val =
    sum_chars buf (i + 1) left (sum_val +ℤ signed8 (get_or buf i 0))

pub check_sum : List ℕ → ℕ → ℕ
unfolding sum_chars
check_sum buf len = to_byte (rem_256 (sum_chars buf header_size len (pos 0)))

-- The loop of `Encode` from `pEncode[i]` on, with `left` rounds to go. A sum is cut to the byte that
-- the xor and the store into a `CHAR` keep of it.
pub encode_loop : ℕ → ℕ → ℕ → ℕ → ℕ → ℕ → List ℕ → List ℕ
encode_loop rand_key zero i cnt bef_rk bef_pk buf = buf
encode_loop rand_key (suc left) i cnt bef_rk bef_pk buf =
    let bef_rk' = bit_xor (get_or buf i 0) ((bef_rk + rand_key + cnt) % 256) in
    let bef_pk' = bit_xor bef_rk' ((bef_pk + packet_key + cnt) % 256) in
    encode_loop rand_key left (i + 1) (cnt + 1) bef_rk' bef_pk' (set buf i bef_pk')

-- The loop of `Decode`.
pub decode_loop : ℕ → ℕ → ℕ → ℕ → ℕ → ℕ → List ℕ → List ℕ
decode_loop rand_key zero i cnt bef_pk bef_rk buf = buf
decode_loop rand_key (suc left) i cnt bef_pk bef_rk buf =
    let tmp = bit_xor (get_or buf i 0) ((bef_rk + packet_key + cnt) % 256) in
    let bef_rk' = get_or buf i 0 in
    let plain = bit_xor tmp ((bef_pk + rand_key + cnt) % 256) in
    decode_loop rand_key left (i + 1) (cnt + 1) tmp bef_rk' (set buf i plain)

-- `rand` is what `rand()` returns. The first part is what the call returns: `some false` for a packet
-- that is encoded already, and `none` at the end of the function, which has no `return`.
pub encode : ℕ → NetPacket → Option Bool × NetPacket
unfolding get_payload_size set_net_header check_sum encode_loop
encode rand p =
    if p.is_encode
    then (some false, p)
    else (let len = get_payload_size p % 2 ^ 16 in
        let header : NetHeader = record {
          code = packet_code;
          len = len;
          rand_key = rand % 256;
          chk_sum = check_sum p.buffer len;
        } in
        let p' = set_net_header (record p { is_encode = true }) header in
        (
          none,
          record p' {
            buffer = encode_loop header.rand_key (len + 1) (header_size - 1) 1 0 0 p'.buffer;
          },
        ))

pub decode : NetPacket → Bool × NetPacket
unfolding get_net_header check_sum decode_loop
decode p =
    let header = get_net_header p in
    let p' : NetPacket = record p {
      buffer = decode_loop header.rand_key (header.len + 1) (header_size - 1) 1 0 0 p.buffer;
    } in
    let header' = get_net_header p' in (header'.chk_sum == check_sum p'.buffer header'.len, p')
