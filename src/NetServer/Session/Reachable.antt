-- ===== src/NetServer/Session/Reachable.antt =====
-- The servers that sequences of calls lead to.
use login_server_chat.Prelude.{
  ℕ, ◌%◌, ◌^◌, ◌<◌, subst, length, ◌==◌, ◌≡◌, refl, Bool, true, false, Bool-cases, inl, inr,
}
use login_server_chat.NetServer.Session.{
  Server, update, increment, decrement, set_session, emit, release_session, slot_of, leave_session,
  enter_session, disconnect, disconnect_entered, exchange_low, send_packet, send_entered,
  request_release, Session, Posted, completed, pending, failed, invalid_socket, next_round,
  accept_client, invalid_long, io_cancelled,
}
use login_server_chat.NetServer.Sending.{
  take_send_flag, fill_send_packets, sent, post_packets, send_post, send_completed, finish_work,
}
use login_server_chat.NetServer.Session.Slots.{IsConsistent}
use login_server_chat.NetServer.Session.Lifecycle.{
  change-Consistent, release_session-IsConsistent, Settles, accept_client-Settles,
}

leave_session-IsConsistent :
    (s : Server) (i : ℕ) → IsConsistent s → IsConsistent (leave_session s i)
unfolding leave_session set_session request_release emit
leave_session-IsConsistent s i c =
    let c' =
      change-Consistent c i (record (s.sessions i) { io_count = decrement (s.sessions i).io_count })
        refl refl in
    elim (Bool-cases (decrement (s.sessions i).io_count == 0)) [
      | inl last ↦ rw last c'
      | inr more ↦ rw more c'
    ]

enter_session-IsConsistent :
    (s : Server) (i session_id : ℕ) → IsConsistent s → IsConsistent (enter_session s i session_id).1
unfolding enter_session set_session
enter_session-IsConsistent s i session_id c = elim (Bool-cases ((s.sessions i).release_flag == 1)) [
  | inl released ↦ rw released (leave_session-IsConsistent entered i c')
  | inr open_ ↦ elim (Bool-cases ((s.sessions i).session_id == session_id)) [
    | inl same ↦ rw (open_, same) c'
    | inr other ↦ rw (open_, other) (leave_session-IsConsistent entered i c')
  ]
]
  where
    entered : Server
    entered = record s {
      sessions =
          update s.sessions i
            (record (s.sessions i) { io_count = increment (s.sessions i).io_count });
    }

    c' : IsConsistent entered
    c' = change-Consistent c i _ refl refl

disconnect_entered-IsConsistent :
    (s : Server) (i : ℕ) → IsConsistent s → IsConsistent (disconnect_entered s i).1
unfolding disconnect_entered set_session emit
disconnect_entered-IsConsistent s i c =
    elim (Bool-cases ((s.sessions i).socket % 2 ^ 32 == invalid_long)) [
      | inl gone ↦ rw gone (leave_session-IsConsistent exchanged i c')
      | inr there ↦ rw there (
          leave_session-IsConsistent (emit exchanged (io_cancelled (s.sessions i).rel_socket)) i c')
    ]
  where
    exchanged : Server
    exchanged = record s {
      sessions =
          update s.sessions i
            (record (s.sessions i) { socket = exchange_low (s.sessions i).socket });
    }

    c' : IsConsistent exchanged
    c' = change-Consistent c i _ refl refl

pub disconnect-IsConsistent :
    (s : Server) (session_id : ℕ) → IsConsistent s → IsConsistent (disconnect s session_id).1
unfolding disconnect
disconnect-IsConsistent s session_id c =
    let c' = enter_session-IsConsistent s (slot_of session_id) session_id c in
    elim (Bool-cases (enter_session s (slot_of session_id) session_id).0) [
      | inl entered ↦ rw entered (
          disconnect_entered-IsConsistent (enter_session s (slot_of session_id) session_id).1
            (slot_of session_id) c')
      | inr refused ↦ rw refused c'
    ]

send_entered-IsConsistent :
    (s : Server) (i packet rand : ℕ) (posted : Bool)
    → IsConsistent s
    → IsConsistent (send_entered s i packet rand posted)
unfolding send_entered emit
send_entered-IsConsistent s i packet rand true c = change-Consistent c i _ refl refl
send_entered-IsConsistent s i packet rand false c =
    leave_session-IsConsistent _ i (change-Consistent c i _ refl refl)

send_packet-IsConsistent :
    (s : Server) (session_id packet rand : ℕ) (posted : Bool)
    → IsConsistent s
    → IsConsistent (send_packet s session_id packet rand posted).1
unfolding send_packet
send_packet-IsConsistent s session_id packet rand posted c =
    let c' = enter_session-IsConsistent s (slot_of session_id) session_id c in
    elim (Bool-cases (enter_session s (slot_of session_id) session_id).0) [
      | inl entered ↦ rw entered (
          send_entered-IsConsistent (enter_session s (slot_of session_id) session_id).1
            (slot_of session_id) packet rand posted c')
      | inr refused ↦ rw refused c'
    ]

pub finish_work-IsConsistent :
    (s : Server) (i : ℕ) → IsConsistent s → i < s.max_user → IsConsistent (finish_work s i)
unfolding finish_work set_session
finish_work-IsConsistent s i c lt =
    let x : Session = record (s.sessions i) { io_count = decrement (s.sessions i).io_count } in
    let c' = change-Consistent c i x refl refl in
    elim (Bool-cases (decrement (s.sessions i).io_count == 0)) [
      | inl last ↦
          rw last
            (release_session-IsConsistent (record s { sessions = update s.sessions i x }) i c' lt)
      | inr more ↦ rw more c'
    ]

sent-IsConsistent :
    (s : Server) (i : ℕ) (posted : Posted) → IsConsistent s → IsConsistent (sent s i posted)
unfolding sent set_session emit
sent-IsConsistent s i completed c = c
sent-IsConsistent s i pending c = elim (Bool-cases ((s.sessions i).socket == invalid_socket)) [
  | inl gone ↦ rw gone c
  | inr there ↦ rw there c
]
sent-IsConsistent s i failed c = change-Consistent c i _ refl refl

pub send_post-IsConsistent :
    (s : Server) (i : ℕ) (posted : Posted) → IsConsistent s → IsConsistent (send_post s i posted)
unfolding send_post post_packets take_send_flag set_session emit fill_send_packets
send_post-IsConsistent s i posted c = elim (Bool-cases (length (s.sessions i).send_q == 0)) [
  | inl none_ ↦ rw none_ c
  | inr some_ ↦ elim (Bool-cases ((s.sessions i).send_flag == 1)) [
    | inl taken ↦ rw (some_, taken) c
    | inr free ↦ rw (some_, free) (sent-IsConsistent _ i posted (change-Consistent c i _ refl refl))
  ]
]

pub send_completed-IsConsistent :
    (s : Server) (i : ℕ) (posted : Posted)
    → IsConsistent s
    → IsConsistent (send_completed s i posted)
unfolding send_completed
send_completed-IsConsistent s i posted c =
    send_post-IsConsistent _ i posted (change-Consistent c i _ refl refl)

-- One call, with the answers of the system. The worker posts sends, and ends
-- each round with `finish_work`.
pub data Step : Server → Server → Type 0 where
  accepts :
      (s s' : Server) (client_sock : ℕ) (allowed joined : Bool) (posted : Posted)
      → accept_client s client_sock allowed joined posted ≡ next_round s'
      → Step s s'
  releases : (s : Server) (i : ℕ) → i < s.max_user → Step s (release_session s i)
  enters : (s : Server) (i session_id : ℕ) → Step s (enter_session s i session_id).1
  leaves : (s : Server) (i : ℕ) → Step s (leave_session s i)
  posts : (s : Server) (i : ℕ) (posted : Posted) → Step s (send_post s i posted)
  completes : (s : Server) (i : ℕ) (posted : Posted) → Step s (send_completed s i posted)
  finishes : (s : Server) (i : ℕ) → i < s.max_user → Step s (finish_work s i)
  disconnects : (s : Server) (session_id : ℕ) → Step s (disconnect s session_id).1
  sends :
      (s : Server) (session_id packet rand : ℕ) (posted : Bool)
      → Step s (send_packet s session_id packet rand posted).1

pub data Reaches : Server → Server → Type 0 where
  here : (s : Server) → Reaches s s
  after : (s t u : Server) → Reaches s t → Step t u → Reaches s u

Step-IsConsistent : (s s' : Server) → Step s s' → IsConsistent s → IsConsistent s'
Step-IsConsistent s s' (accepts _ _ client_sock allowed joined posted e) c =
    subst Settles e (accept_client-Settles s client_sock allowed joined posted c)
Step-IsConsistent s _ (releases _ i lt) c = release_session-IsConsistent s i c lt
Step-IsConsistent s _ (enters _ i session_id) c = enter_session-IsConsistent s i session_id c
Step-IsConsistent s _ (leaves _ i) c = leave_session-IsConsistent s i c
Step-IsConsistent s _ (posts _ i posted) c = send_post-IsConsistent s i posted c
Step-IsConsistent s _ (completes _ i posted) c = send_completed-IsConsistent s i posted c
Step-IsConsistent s _ (finishes _ i lt) c = finish_work-IsConsistent s i c lt
Step-IsConsistent s _ (disconnects _ session_id) c = disconnect-IsConsistent s session_id c
Step-IsConsistent s _ (sends _ session_id packet rand posted) c =
    send_packet-IsConsistent s session_id packet rand posted c

-- Whatever calls follow one another, in any order, a consistent server stays consistent: the slots on
-- the stack are different and released, `_nowSession` is the number of sessions that are not released,
-- it makes up the most users with the slots on the stack, and an id leads to its slot.
pub Reaches-IsConsistent : (s s' : Server) → Reaches s s' → IsConsistent s → IsConsistent s'
Reaches-IsConsistent s _ (here _) c = c
Reaches-IsConsistent s s' (after _ t _ before step) c =
    Step-IsConsistent t s' step (Reaches-IsConsistent s t before c)
