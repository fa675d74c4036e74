-- ===== src/LoginServer/Answer.antt =====
-- What `Login` puts into the queue of a session, and how it disconnects the session
-- (LoginServer_Chat/LoginServer.cpp).
use login_server_chat.Prelude.{
  ℕ, ◌+◌, ◌-◌, ◌/◌, ◌%◌, ◌^◌, ◌<◌, ◌==◌, true, false, List, [], ◌∷◌, ◌++◌, length-read_at, read_at,
  length, read_at-all, ◌≡◌, ◌≢◌, refl, ap, ap₂, ◌∙◌, sym, arith, ==_iff,
}
use login_server_chat.NetPacket.{NetPacket, header_size, packet_free, add_ref_count, encode, decode}
use login_server_chat.NetPacket.References.{free_shared, encode-ref_count}
use login_server_chat.NetServer.Session.{
  Session, Server, update, increment, decrement, invalid_long, exchange_low, set_session, emit,
  packet_freed, send_posted, io_cancelled, leave_session, enter_session, slot_of,
  disconnect_entered, disconnect, send_entered, send_packet,
}
use login_server_chat.NetServer.Session.Counts.{update_same}
use login_server_chat.LoginServer.{Character, Answers, login_response, send_response}
use login_server_chat.LoginServer.Response.{response_fields, concat}
use login_server_chat.LoginServer.Wire.{
  IsClear, HasNames, IsResponse, add_ref_count-IsResponse, encode_size, login_response-IsResponse,
  login_response_keeps, decode-IsResponse,
}

-- The session with this id is there.
pub record IsThere (s : Server) (session_id : ℕ) : Type 0 where
  pub entered : (s.sessions (slot_of session_id)).release_flag ≢ 1
  pub same_id : (s.sessions (slot_of session_id)).session_id ≡ session_id

-- A packet of the client that received the bytes of a packet that is sent.
abbrev pub arrived : NetPacket → NetPacket
arrived packet = record packet { buffer = read_at 0 packet.buffer 0 packet.write_pos }

-- In the session of `s'` the packet `handle` is behind those that `s` has in the queue, a job of the
-- session is posted for it, which counts as one more user, and a client decodes it to `fields`.
pub record HasSent (s : Server) (session_id handle : ℕ) (fields : List ℕ) (s' : Server)
    : Type 0 where
  pub queued :
      (s'.sessions (slot_of session_id)).send_q
      ≡ (s.sessions (slot_of session_id)).send_q ++ (handle ∷ [])
  pub used :
      (s'.sessions (slot_of session_id)).io_count ≡ (s.sessions (slot_of session_id)).io_count + 1
  pub accepted : (decode (arrived (s'.packets handle))).0 ≡ true
  pub decoded : read_at 0 (decode (arrived (s'.packets handle))).1.buffer header_size 159 ≡ fields

-- `SendPacket` of a session that is there, when the job can be posted.
send_packet-there :
    (s : Server) (session_id handle rand : ℕ)
    → IsThere s session_id
    → (s.sessions (slot_of session_id)).io_count < 2 ^ 32 - 1
    → let i = slot_of session_id in
      let s' = (send_packet s session_id handle rand true).1 in
      ((s'.sessions i).send_q ≡ (s.sessions i).send_q ++ (handle ∷ []))
      × ((s'.sessions i).io_count ≡ (s.sessions i).io_count + 1)
      × ((s'.sessions i).release_flag ≡ (s.sessions i).release_flag)
      × ((s'.sessions i).session_id ≡ (s.sessions i).session_id)
      × ((s'.sessions i).socket ≡ (s.sessions i).socket)
      × ((s'.sessions i).rel_socket ≡ (s.sessions i).rel_socket)
      × (s'.packets handle ≡ (encode rand (add_ref_count (s.packets handle))).1)
      × (s'.events ≡ send_posted i ∷ s.events)
unfolding send_packet enter_session send_entered set_session emit update increment
send_packet-there s session_id handle rand t few =
    let i = slot_of session_id in
    let open_ : ((s.sessions i).release_flag == 1) ≡ false = ground (arith, t.entered) in
    let same : ((s.sessions i).session_id == session_id) ≡ true = (==_iff _ _).1 t.same_id in
    let self : (i == i) ≡ true = (==_iff _ _).1 refl in
    let found : (handle == handle) ≡ true = (==_iff _ _).1 refl in
    rw (open_, same, self, found) (refl, omega (arith, few), refl, refl, refl, refl, refl, refl)

-- What `Disconnect` has done with the session that it was called for.
record IsCutOff (s : Server) (i : ℕ) (s' : Server) : Type 0 where
  pub kept_queue : (s'.sessions i).send_q ≡ (s.sessions i).send_q
  pub low_half : (s'.sessions i).socket ≡ exchange_low (s.sessions i).socket
  pub kept_packets : s'.packets ≡ s.packets
  pub cancelled : s'.events ≡ io_cancelled (s.sessions i).rel_socket ∷ s.events

decrement_lem : (n : ℕ) → 0 < n → n < 2 ^ 32 → decrement n ≡ n - 1
unfolding decrement
decrement_lem n pos small = omega arith

-- `Disconnect` after `EnterSession`, when others use the session too.
disconnect_entered-IsCutOff :
    (s : Server) (i : ℕ)
    → 1 < (s.sessions i).io_count
    → (s.sessions i).io_count < 2 ^ 32
    → (s.sessions i).socket % 2 ^ 32 ≢ invalid_long
    → IsCutOff s i (disconnect_entered s i).1
      × (((disconnect_entered s i).1.sessions i).io_count ≡ (s.sessions i).io_count - 1)
unfolding disconnect_entered leave_session set_session emit
disconnect_entered-IsCutOff s i used few live =
    let session : Session = record (s.sessions i) { socket = exchange_low (s.sessions i).socket } in
    let there : ((s.sessions i).socket % 2 ^ 32 == invalid_long) ≡ false = ground (arith, live) in
    let less : decrement (s.sessions i).io_count ≡ (s.sessions i).io_count - 1 =
      decrement_lem (s.sessions i).io_count (omega (arith, used)) few in
    let stays : ((s.sessions i).io_count - 1 == 0) ≡ false = ground (arith, used) in
    let u =
      update_same (update s.sessions i session) i
        (record session { io_count = (s.sessions i).io_count - 1 }) in
    rw (there, update_same s.sessions i session, less, stays)
      (
        record {
          kept_queue = ap (λ x. x.send_q) u;
          low_half = ap (λ x. x.socket) u;
          kept_packets = refl;
          cancelled = refl;
        },
        ap (λ x. x.io_count) u,
      )

enter_session-there :
    (s : Server) (session_id : ℕ)
    → IsThere s session_id
    → (s.sessions (slot_of session_id)).io_count < 2 ^ 32 - 1
    → let i = slot_of session_id in
      enter_session s i session_id
      ≡ (true, set_session s i (record (s.sessions i) { io_count = (s.sessions i).io_count + 1 }))
unfolding enter_session increment
enter_session-there s session_id t few =
    let i = slot_of session_id in
    let open_ : ((s.sessions i).release_flag == 1) ≡ false = ground (arith, t.entered) in
    let same : ((s.sessions i).session_id == session_id) ≡ true = (==_iff _ _).1 t.same_id in
    let small : ((s.sessions i).io_count + 1) % 2 ^ 32 ≡ (s.sessions i).io_count + 1 =
      omega (arith, few) in
    rw (open_, same, small) refl

-- `Disconnect` of a session that is there and in use.
disconnect-IsCutOff :
    (s : Server) (session_id : ℕ)
    → IsThere s session_id
    → (s.sessions (slot_of session_id)).io_count < 2 ^ 32 - 1
    → 0 < (s.sessions (slot_of session_id)).io_count
    → (s.sessions (slot_of session_id)).socket % 2 ^ 32 ≢ invalid_long
    → let i = slot_of session_id in
      let s' = (disconnect s session_id).1 in
      IsCutOff s i s' × ((s'.sessions i).io_count ≡ (s.sessions i).io_count)
unfolding disconnect set_session
disconnect-IsCutOff s session_id t few used live =
    let i = slot_of session_id in
    let n = (s.sessions i).io_count in
    let session : Session = record (s.sessions i) { io_count = n + 1 } in
    let u : update s.sessions i session i ≡ session = update_same s.sessions i session in
    let e = ap (λ x. x.io_count) u in
    let socket = ap (λ x. x.socket) u in
    let d =
      disconnect_entered-IsCutOff (set_session s i session) i (omega (arith, e, used))
        (omega (arith, e, few)) (rw socket live) in
    rw (enter_session-there s session_id t few) (
      record {
        kept_queue = d.0.kept_queue ∙ ap (λ x. x.send_q) u;
        low_half = d.0.low_half ∙ ap exchange_low socket;
        kept_packets = d.0.kept_packets;
        cancelled = d.0.cancelled ∙ ap (λ x. io_cancelled x.rel_socket ∷ s.events) u;
      },
      omega (arith, d.1, e),
    )

-- The packet `sent` that is encoded from the response arrives, after a reference of it was given back.
arrived-decode :
    {p : NetPacket} {fields : List ℕ} (rand : ℕ)
    → IsResponse p fields
    → p.ref_count ≡ 2
    → let q = arrived (packet_free (encode rand p).1).1 in
      ((decode q).0 ≡ true) × (read_at 0 (decode q).1.buffer header_size 159 ≡ fields)
arrived-decode {p} {fields} rand i shared =
    let sent = (encode rand p).1 in
    let size = encode_size rand i in
    let bytes = read_at 0 sent.buffer 0 sent.write_pos in
    let len : length bytes ≡ 164 = length-read_at 0 sent.buffer 0 sent.write_pos ∙ size in
    let freed = free_shared 0 sent (omega arith) (encode-ref_count rand p ∙ shared) in
    rw freed (
      decode-IsResponse rand (record sent { ref_count = 1; buffer = bytes }) i (omega (arith, len))
        (ap (read_at 0 bytes 0) (sym len) ∙ read_at-all 0 bytes))

-- The session stays there, with the same socket.
pub record IsSame (session session' : Session) : Type 0 where
  pub same_flag : session'.release_flag ≡ session.release_flag
  pub same_id : session'.session_id ≡ session.session_id
  pub same_socket : session'.socket ≡ session.socket
  pub same_rel_socket : session'.rel_socket ≡ session.rel_socket

-- The pool gives a clear packet without references and with room for the response, the character has
-- its names, and the job of the send can be posted.
pub record CanAnswer (a : Answers) (c : Character) : Type 0 where
  pub packet_clear : IsClear a.packet
  pub unshared : a.packet.ref_count ≡ 0
  pub has_names : HasNames c
  pub job_posted : a.posted ≡ true

pub send_response-HasSent :
    (s : Server) (c : Character) (is_success : ℕ) (a : Answers)
    → IsThere s c.session_id
    → (s.sessions (slot_of c.session_id)).io_count < 2 ^ 32 - 2
    → CanAnswer a c
    → let i = slot_of c.session_id in
      let s' = send_response s c is_success a in
      HasSent s c.session_id a.handle (concat (response_fields c is_success)) s'
      × IsSame (s.sessions i) (s'.sessions i)
      × (s'.events ≡ packet_freed a.handle ∷ send_posted i ∷ s.events)
unfolding send_response add_ref_count
send_response-HasSent s c is_success a t few can =
    let response = login_response a.packet c is_success in
    let filled : Server = record s { packets = update s.packets a.handle response } in
    let filled_there : IsThere filled c.session_id = record {
      entered = t.entered;
      same_id = t.same_id;
    } in
    let h =
      send_packet-there filled c.session_id a.handle a.rand filled_there (omega (arith, few)) in
    let found : (update s.packets a.handle response) a.handle ≡ response =
      update_same s.packets a.handle response in
    let answer =
      add_ref_count-IsResponse
        (login_response-IsResponse is_success can.packet_clear can.has_names) in
    let shared : (add_ref_count response).ref_count ≡ 2 = twice in
    let d = arrived-decode a.rand answer shared in
    let u =
      update_same (send_packet filled c.session_id a.handle a.rand true).1.packets a.handle
        (packet_free (encode a.rand (add_ref_count response)).1).1 in
    rw (can.job_posted, h.6, found)
      (
        record { queued = h.0; used = h.1; accepted = rw u d.0; decoded = rw u d.1 },
        record { same_flag = h.2; same_id = h.3; same_socket = h.4; same_rel_socket = h.5 },
        ap (λ es. packet_freed a.handle ∷ es) h.7,
      )
  where
    twice : (add_ref_count (login_response a.packet c is_success)).ref_count ≡ 2
    twice = omega (arith, (login_response_keeps a.packet c is_success).2, can.unshared)

-- `disconnect` after `send_response`, as for a login that failed.
pub disconnect-send_response :
    (s : Server) (c : Character) (a : Answers)
    → IsThere s c.session_id
    → (s.sessions (slot_of c.session_id)).io_count < 2 ^ 32 - 2
    → (s.sessions (slot_of c.session_id)).socket % 2 ^ 32 ≢ invalid_long
    → CanAnswer a c
    → let i = slot_of c.session_id in
      let s' = (disconnect (send_response s c 0 a) c.session_id).1 in
      HasSent s c.session_id a.handle (concat (response_fields c 0)) s'
      × ((s'.sessions i).socket / 2 ^ 32 ≡ (s.sessions i).socket / 2 ^ 32)
      × ((s'.sessions i).socket % 2 ^ 32 ≡ invalid_long)
      × (s'.events
          ≡ io_cancelled (s.sessions i).rel_socket
            ∷ packet_freed a.handle
            ∷ send_posted i
            ∷ s.events)
unfolding exchange_low
disconnect-send_response s c a t few live can =
    let i = slot_of c.session_id in
    let (sent, same, events) = send_response-HasSent s c 0 a t few can in
    let s1 = send_response s c 0 a in
    let t1 : IsThere s1 c.session_id = record {
      entered = λ e. t.entered (sym same.same_flag ∙ e);
      same_id = same.same_id ∙ t.same_id;
    } in
    let d =
      disconnect-IsCutOff s1 c.session_id t1 (omega (arith, sent.used, few))
        (omega (arith, sent.used)) (λ e. live (ap (λ n. n % 2 ^ 32) (sym same.same_socket) ∙ e)) in
    let low = d.0.low_half ∙ ap exchange_low same.same_socket in
    (
      record {
        queued = d.0.kept_queue ∙ sent.queued;
        used = d.1 ∙ sent.used;
        accepted = rw d.0.kept_packets sent.accepted;
        decoded = rw d.0.kept_packets sent.decoded;
      },
      omega (arith, low),
      omega (arith, low),
      d.0.cancelled ∙ ap₂ (λ r es. io_cancelled r ∷ es) same.same_rel_socket events,
    )
