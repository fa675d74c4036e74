-- ===== src/NetPacket/Values/Tests.antt =====
-- Values of several types through a packet.
use login_server_chat.Prelude.{ℕ, List, [], ◌∷◌, map, ◌≡◌, refl, arith, false, read_at}
use login_server_chat.NetPacket.{NetPacket}
use login_server_chat.NetPacket.Cursors.{IsValid, unread}
use login_server_chat.NetPacket.Values.{
  ValueType, unsigned_char, unsigned_short, int64, size_of, le_bytes, takes_reference,
}
use login_server_chat.NetPacket.Values.Stream.{
  shift_in_all, shift_out_all, bytes_of, shift_out_all-shift_in_all,
}

abbrev empty : NetPacket
empty = record {
  write_pos = 5;
  read_pos = 5;
  ref_count = 1;
  is_encode = false;
  buffer = 0 ∷ 0 ∷ 0 ∷ 0 ∷ 0 ∷ 0 ∷ 0 ∷ 0 ∷ 0 ∷ 0 ∷ 0 ∷ 0 ∷ 0 ∷ 0 ∷ 0 ∷ 0 ∷ [];
  buffer_size = 16;
}

abbrev fields : List (ValueType × ℕ)
fields = (unsigned_short, 102) ∷ (int64, 1000000) ∷ (unsigned_char, 1) ∷ []

empty-IsValid : IsValid empty
empty-IsValid = omega arith

shift_out_all-shift_in_all_example :
    let (vals, p') = shift_out_all (shift_in_all empty fields) (map (λ f. f.0) fields) (λ i. 9) in
    (vals ≡ map (λ f. f.1) fields) × (unread p' ≡ [])
unfolding read_at bytes_of size_of le_bytes takes_reference
shift_out_all-shift_in_all_example =
    shift_out_all-shift_in_all fields (λ i. 9) empty-IsValid refl (omega arith)
      (omega arith, refl, (omega arith, refl, (omega arith, refl, tt)))
