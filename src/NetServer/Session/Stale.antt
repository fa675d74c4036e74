-- ===== src/NetServer/Session/Stale.antt =====
-- Calls with the id of a session that has ended.
use login_server_chat.Prelude.{ℕ, ◌^◌, ◌<◌, ◌≡◌, ◌≢◌, ◌⊎◌, refl, arith, Bool, false}
use login_server_chat.NetServer.Session.{
  Server, emit, enter_session, release_session, slot_of, disconnect, send_packet,
}
use login_server_chat.NetServer.Session.Counts.{refused, leave-enter}

-- The slot of the id is released, or another session has taken it.
abbrev pub IsStale : Server → ℕ → Type 0
IsStale s session_id =
    ((s.sessions (slot_of session_id)).release_flag ≡ 1)
    ⊎ ((s.sessions (slot_of session_id)).session_id ≢ session_id)

enter-stale :
    (s : Server) (session_id : ℕ)
    → IsStale s session_id
    → (s.sessions (slot_of session_id)).io_count < 2 ^ 32
    → enter_session s (slot_of session_id) session_id ≡ (false, refused s (slot_of session_id))
unfolding enter_session
enter-stale s session_id stale lt = rw (← leave-enter s (slot_of session_id) lt) (ground arith)

-- With an id whose slot is released or taken by another session, and a count of 32 bits, `SendPacket` and `Disconnect` return
-- false and leave the server, its packets included, as it was; when nobody is in the slot they post a
-- request to release it.
pub calls_stale :
    (s : Server) (session_id packet rand : ℕ) (posted : Bool)
    → IsStale s session_id
    → (s.sessions (slot_of session_id)).io_count < 2 ^ 32
    → (send_packet s session_id packet rand posted ≡ (false, refused s (slot_of session_id)))
      × (disconnect s session_id ≡ (false, refused s (slot_of session_id)))
unfolding send_packet disconnect
calls_stale s session_id packet rand posted stale lt =
    (rw (enter-stale s session_id stale lt) refl, rw (enter-stale s session_id stale lt) refl)

-- The request that is posted for a released slot is without effect, also when a new session that is
-- still in use has taken the slot.
pub release-refused :
    (s : Server) (i : ℕ)
    → ((s.sessions i).release_flag ≡ 1) ⊎ ((s.sessions i).io_count ≢ 0)
    → release_session (refused s i) i ≡ refused s i
unfolding release_session emit
release-refused s i h = ground arith
