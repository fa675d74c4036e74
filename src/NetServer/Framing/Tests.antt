-- ===== src/NetServer/Framing/Tests.antt =====
-- Each theorem on the loop over the received bytes at a small ring.
use login_server_chat.Prelude.{
  length, ◌+◌, [], ◌∷◌, ◌++◌, ◌<◌, take, ◌≡◌, ◌≢◌, refl, ◌∙◌, sym, append_assoc, arith, false,
}
use login_server_chat.RingBuffer.{dequeue, Ring, get_use_size, get_buffer_size}
use login_server_chat.RingBuffer.Invariant.{IsValid}
use login_server_chat.RingBuffer.Window.{contents}
use login_server_chat.NetPacket.{NetPacket, header_of, packet_code}
use login_server_chat.NetPacket.Wire.{frame}
use login_server_chat.NetServer.Framing.{
  cut_message, overrun, incomplete, receive_messages, fuel_out,
}
use login_server_chat.NetServer.Framing.Streams.{
  Delivers, receive_messages-frames, receive_messages-ends,
}
use login_server_chat.NetServer.Framing.Messages.{
  IsFresh, cut_message-overrun, cut_message-incomplete,
}

abbrev fresh : NetPacket
fresh = record {
  buffer = 0 ∷ 0 ∷ 0 ∷ 0 ∷ 0 ∷ 0 ∷ 0 ∷ 0 ∷ [];
  write_pos = 5;
  read_pos = 5;
  ref_count = 1;
  is_encode = false;
  buffer_size = 8;
}

fresh-IsFresh : IsFresh fresh
fresh-IsFresh = record { valid = omega arith; at_header = refl; empty = refl }

-- The frame of 1 and 2 and one byte more, going round the end of the buffer.
abbrev arrived : Ring
arrived = record {
  buffer = 56 ∷ 121 ∷ 179 ∷ 33 ∷ 0 ∷ 0 ∷ 119 ∷ 2 ∷ 0 ∷ 7 ∷ [];
  front_next = 6;
  rear_next = 4;
  total_size = 10;
}

arrived-IsValid : IsValid arrived
arrived-IsValid = omega arith

arrived-frame : contents arrived ≡ frame 7 (1 ∷ 2 ∷ []) ++ (33 ∷ [])
unfolding frame get_use_size
arrived-frame = refl

-- A packet with room for six bytes.
abbrev narrow : NetPacket
narrow = record fresh { buffer = 0 ∷ 0 ∷ 0 ∷ 0 ∷ 0 ∷ 0 ∷ []; buffer_size = 6 }

narrow-IsFresh : IsFresh narrow
narrow-IsFresh = record { valid = omega arith; at_header = refl; empty = refl }

cut_message-overrun_example :
    (cut_message narrow arrived ≡ overrun)
    × ((dequeue arrived 7).0 ≡ frame 7 (1 ∷ 2 ∷ []))
    × (6 < length (dequeue arrived 7).0)
cut_message-overrun_example =
    cut_message-overrun narrow 7 (1 ∷ 2 ∷ []) (33 ∷ []) narrow-IsFresh arrived-IsValid (omega arith)
      refl (omega arith) arrived-frame

-- A full ring with a header that asks for six bytes more.
abbrev full : Ring
full = record {
  buffer = 119 ∷ 6 ∷ 0 ∷ 7 ∷ 56 ∷ 0 ∷ 0 ∷ [];
  front_next = 7;
  rear_next = 6;
  total_size = 7;
}

full_code : (header_of (take 5 (contents full))).code ≡ packet_code
unfolding get_use_size header_of
full_code = refl

full_len : get_buffer_size full < 5 + (header_of (take 5 (contents full))).len
unfolding get_use_size header_of get_buffer_size
full_len = omega arith

cut_message-incomplete_example : cut_message fresh full ≡ incomplete
cut_message-incomplete_example = cut_message-incomplete fresh (omega arith) full_code full_len

receive_messages-ends_example : (receive_messages (λ n. fresh) full 0).stop ≢ fuel_out
receive_messages-ends_example = receive_messages-ends (λ n. fresh) 0 (omega arith)

receive_messages-frames_example :
    Delivers (receive_messages (λ n. fresh) arrived 4) ((7, 1 ∷ 2 ∷ []) ∷ []) (33 ∷ []) 4
receive_messages-frames_example =
    receive_messages-frames (λ n. fresh) 8 4 ((7, 1 ∷ 2 ∷ []) ∷ []) (33 ∷ [])
      (λ n. (fresh-IsFresh, refl)) arrived-IsValid (omega arith) (omega arith)
      (arrived-frame ∙ sym (append_assoc (frame 7 (1 ∷ 2 ∷ [])) [] (33 ∷ []))) (omega arith)
