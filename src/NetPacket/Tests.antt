-- ===== src/NetPacket/Tests.antt =====
-- Runs of the packet, and each theorem at a small packet.
use login_server_chat.Prelude.{
  ◌%◌, ◌≤◌, [], ◌∷◌, ◌++◌, length, read_at, write_at, ◌≡◌, refl, arith, true, false,
}
use login_server_chat.NetPacket.{
  NetPacket, header_size, clear, packet_alloc, check_sum, encode, decode,
}
use login_server_chat.NetPacket.Checksum.{byte_sum, check_sum-byte_sum}
use login_server_chat.NetPacket.Wire.{frame, IsSendable, payload, encode-frame}
use login_server_chat.NetPacket.RoundTrip.{decode-encode}
use login_server_chat.NetPacket.Cursors.{IsValid}
use login_server_chat.NetPacket.References.{
  free_times, share_times, refusals, free_times-share_times,
}
use login_server_chat.Prelude.Int.{to_byte, rem_256, ◌+ℤ◌, signed8}

-- Three payload bytes, the second one a negative `char`, behind room for the header.
abbrev message : NetPacket
message = record {
  buffer = 0 ∷ 0 ∷ 0 ∷ 0 ∷ 0 ∷ 65 ∷ 200 ∷ 7 ∷ 0 ∷ 0 ∷ [];
  write_pos = 8;
  read_pos = 5;
  ref_count = 1;
  is_encode = false;
  buffer_size = 10;
}

-- A packet that received the encoded message.
abbrev received : NetPacket
received = record message { buffer = (encode 300 message).1.buffer }

message-IsValid : IsValid message
message-IsValid = omega arith

message-IsSendable : IsSendable message
unfolding read_at
message-IsSendable = omega arith

decode-received :
    decode received
    ≡ (true, record received { buffer = 0x77 ∷ 3 ∷ 0 ∷ 44 ∷ 16 ∷ 65 ∷ 200 ∷ 7 ∷ 0 ∷ 0 ∷ [] })
unfolding decode encode read_at write_at to_byte rem_256 ◌+ℤ◌ signed8
decode-received = refl

frame-message : read_at 0 (encode 300 message).1.buffer 0 8 ≡ frame 44 (payload message)
unfolding encode read_at write_at frame to_byte rem_256 ◌+ℤ◌ signed8
frame-message = refl

encode-frame_example :
    let p' = (encode 300 message).1 in
    (read_at 0 p'.buffer 0 p'.write_pos ≡ frame (300 % 256) (payload message))
    × (p'.write_pos ≡ message.write_pos)
    × (p'.is_encode ≡ true)
encode-frame_example = encode-frame 300 message-IsSendable refl

received_fits : message.write_pos ≤ length received.buffer
unfolding encode write_at read_at
received_fits = omega arith

decode-encode_example :
    let (accepted, q') = decode received in
    (accepted ≡ true)
    × (read_at 0 q'.buffer header_size (length (payload message)) ≡ payload message)
decode-encode_example = decode-encode received 300 message-IsSendable refl received_fits refl

check_sum-byte_sum_example :
    check_sum message.buffer 3 ≡ byte_sum (read_at 0 message.buffer header_size 3) % 256
check_sum-byte_sum_example = check_sum-byte_sum message.buffer 3 message-IsSendable.bytes

free_times-share_times_example :
    let pooled : NetPacket = record message { ref_count = 0 } in
    free_times 3 (share_times 2 (packet_alloc pooled))
    ≡ (refusals 2 ++ true ∷ [], clear (record pooled { ref_count = 0 }))
free_times-share_times_example =
    free_times-share_times 2 (record message { ref_count = 0 }) (omega arith) refl
