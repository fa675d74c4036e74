-- ===== src/NetServer/Session/Lifecycle.antt =====
-- The slots of the sessions when one is accepted and when one is released.
use login_server_chat.Prelude.{
  ℕ, ◌<◌, ◌==◌, if◌then◌else◌, List, [], ◌∷◌, ◌≡◌, refl, ap, ◌∙◌, sym, arith, Bool, true, false,
  Bool-cases, inl, inr, ==_iff,
}
use login_server_chat.NetServer.Session.{
  Session, Server, update, increment, decrement, set_session, emit, release_session, release_owned,
  slot_of, make_session_id, open_session, next_session_cnt, invalid_socket, Posted, completed,
  pending, failed, first_receive, Accepted, next_round, spins, thread_ends, accept_slot,
  accept_client, client_joined, socket_closed,
}
use login_server_chat.NetServer.Session.Counts.{update_same, update_twice}
use login_server_chat.NetServer.Session.Slots.{
  slot_of-make_session_id, Consistent, IsConsistent, count_open-close, count_open-open,
  count_open-same, open-NotIn, update-AreFree, keep-AreFree, update-ids,
}

module _ {sessions : ℕ → Session} {free : List ℕ} {max_user now : ℕ}
    (c : Consistent sessions free max_user now) (i : ℕ) (x : Session) where
  -- A session is released, and its slot is pushed.
  close-Consistent :
      i < max_user
      → (sessions i).release_flag ≡ 0
      → x.release_flag ≡ 1
      → Consistent (update sessions i x) (i ∷ free) max_user (decrement now)
  unfolding decrement
  close-Consistent lt a b =
      let h = count_open-close sessions i x max_user lt a b in
      record {
        counted = omega (arith, h, c.opened, c.counted, c.bounded);
        opened = omega (arith, h, c.opened, c.counted, c.bounded);
        bounded = c.bounded;
        free = (
          rw (update_same sessions i x) b,
          lt,
          open-NotIn sessions max_user i free c.free a,
          update-AreFree sessions max_user i x free (open-NotIn sessions max_user i free c.free a)
              c.free,
        );
        ids = update-ids sessions i x c.ids (λ e. ground arith);
      }

  -- A session changes, and is neither opened nor released.
  pub change-Consistent :
      x.release_flag ≡ (sessions i).release_flag
      → x.session_id ≡ (sessions i).session_id
      → Consistent (update sessions i x) free max_user now
  change-Consistent a b = record {
    counted = c.counted;
    opened = c.opened ∙ sym (count_open-same sessions i x max_user a);
    bounded = c.bounded;
    free = keep-AreFree sessions max_user i x free a c.free;
    ids = update-ids sessions i x c.ids (λ e. ap slot_of b ∙ c.ids i (sym a ∙ e));
  }

-- The slot on top of the stack is popped, and its session opened.
open-Consistent :
    {sessions : ℕ → Session} {free : List ℕ} {max_user now : ℕ} (i : ℕ) (x : Session)
    → Consistent sessions (i ∷ free) max_user now
    → x.release_flag ≡ 0
    → slot_of x.session_id ≡ i
    → Consistent (update sessions i x) free max_user (increment now)
unfolding increment
open-Consistent {sessions} {free} {max_user} i x c b own =
    let h = count_open-open sessions i x max_user c.free.1 c.free.0 b in
    record {
      counted = omega (arith, c.counted, c.bounded);
      opened = omega (arith, h, c.opened, c.counted, c.bounded);
      bounded = c.bounded;
      free = update-AreFree sessions max_user i x free c.free.2 c.free.3;
      ids = update-ids sessions i x c.ids (λ e. own);
    }

-- `ReleaseSession` of any slot of a consistent server leaves a consistent server.
pub release_session-IsConsistent :
    (s : Server) (i : ℕ) → IsConsistent s → i < s.max_user → IsConsistent (release_session s i)
unfolding release_session release_owned set_session
release_session-IsConsistent s i c lt = elim (Bool-cases ((s.sessions i).io_count == 0)) [
  | inr held ↦ rw held c
  | inl zero_ ↦ elim (Bool-cases ((s.sessions i).release_flag == 0)) [
    | inr other ↦ rw (zero_, other) c
    | inl open_ ↦
        let flag = (==_iff (s.sessions i).release_flag 0).0 open_ in
        rw
          (
            zero_,
            open_,
            update_same s.sessions i closed,
            update_twice s.sessions i closed (record closed { send_q = [] }),
            c.ids i flag,
          )
          (close-Consistent c i (record closed { send_q = [] }) lt flag refl)
  ]
]
  where
    closed : Session
    closed = record (s.sessions i) { release_flag = 1 }

first_receive-IsConsistent :
    (s : Server) (i : ℕ) (posted : Posted)
    → IsConsistent s
    → i < s.max_user
    → IsConsistent (first_receive s i posted)
unfolding first_receive set_session emit
first_receive-IsConsistent s i completed c lt = c
first_receive-IsConsistent s i pending c lt =
    elim (Bool-cases ((s.sessions i).socket == invalid_socket)) [
      | inl gone ↦ rw gone c
      | inr there ↦ rw there c
    ]
first_receive-IsConsistent s i failed c lt =
    let x : Session = record (s.sessions i) { io_count = decrement (s.sessions i).io_count } in
    let c' = change-Consistent c i x refl refl in
    elim (Bool-cases (decrement (s.sessions i).io_count == 0)) [
      | inl last ↦
          rw last
            (release_session-IsConsistent (record s { sessions = update s.sessions i x }) i c' lt)
      | inr more ↦ rw more c'
    ]

-- A round ends, and leaves a consistent server.
abbrev pub Settles : Accepted → Type 0
Settles (next_round s) = IsConsistent s
Settles (spins s) = ⊥
Settles (thread_ends s) = IsConsistent s

accept_slot-Settles :
    (free_sessions : List ℕ) (s : Server) (now client_sock : ℕ) (joined : Bool) (posted : Posted)
    → Consistent s.sessions free_sessions s.max_user now
    → now < s.max_user
    → s.now_session ≡ increment now
    → Settles (accept_slot free_sessions s client_sock joined posted)
unfolding accept_slot open_session emit
accept_slot-Settles [] s now client_sock joined posted c room e = omega (arith, c.counted)
accept_slot-Settles (slot ∷ free_sessions) s now client_sock joined posted c room e =
    elim joined as (λ b. Settles (accept_slot (slot ∷ free_sessions) s client_sock b posted)) [
      | false ↦ rw e opened
      | true ↦
          first_receive-IsConsistent
            (emit
              (record s {
                free_sessions = free_sessions;
                sessions = update s.sessions slot session;
              })
              (client_joined (make_session_id s.session_cnt slot)))
            slot posted (rw e opened) c.free.1
    ]
  where
    session : Session
    session = open_session (s.sessions slot) client_sock (make_session_id s.session_cnt slot)

    opened : Consistent (update s.sessions slot session) free_sessions s.max_user (increment now)
    opened =
        open-Consistent slot session c refl
          (slot_of-make_session_id s.session_cnt slot (omega (arith, c.free.1, c.bounded)))

-- From a consistent server, whatever `OnConnectionRequest`, `CreateIoCompletionPort` and `WSARecv`
-- answer: a round of `AcceptThread` finds a slot, so that the loop around `Pop` ends, and leaves a
-- consistent server.
pub accept_client-Settles :
    (s : Server) (client_sock : ℕ) (allowed joined : Bool) (posted : Posted)
    → IsConsistent s
    → Settles (accept_client s client_sock allowed joined posted)
unfolding accept_client emit
accept_client-Settles s client_sock allowed joined posted c =
    elim (Bool-cases (s.now_session == s.max_user)) [
      | inl full ↦ rw full c
      | inr room ↦
          rw room
            (elim allowed
              as (λ b. Settles (
                if b
                then accept_slot s.free_sessions counted client_sock joined posted
                else next_round (
                    emit (record s { accept_cnt = increment s.accept_cnt })
                      (socket_closed client_sock)))) [
                        | false ↦ c
                        | true ↦
                            accept_slot-Settles s.free_sessions counted s.now_session client_sock
                              joined posted c (ground (arith, c.counted)) refl
                      ])
    ]
  where
    counted : Server
    counted = record s {
      accept_cnt = increment s.accept_cnt;
      now_session = increment s.now_session;
      session_cnt = next_session_cnt s.session_cnt;
    }
