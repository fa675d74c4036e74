-- ===== src/NetServer/Start/Fresh.antt =====
-- The stack of free slots that `Start` leaves (LoginServer_Chat/CNetServer.cpp).
use login_server_chat.Prelude.{
  ℕ, zero, suc, ◌+◌, ◌≤◌, ◌<◌, ◌==◌, ltb, Bool, true, Bool-cases, ◌||◌, lt→ltb, List, [], ◌∷◌,
  length, ◌≡◌, ◌≢◌, inl, inr, refl, sym, ap, ◌∙◌, arith,
}
use login_server_chat.NetServer.Session.{Session, Server, update}
use login_server_chat.NetServer.Session.Slots.{IsConsistent}
use login_server_chat.NetServer.Start.{init_settings, make_sessions, start}

-- What the loop leaves: the number of slots, and the numbers of the server.
make_sessions-length :
    (left idx : ℕ) (s : Server)
    → (length (make_sessions left idx s).free_sessions ≡ left + length s.free_sessions)
      × ((make_sessions left idx s).max_user ≡ s.max_user)
      × ((make_sessions left idx s).now_session ≡ s.now_session)
unfolding make_sessions
make_sessions-length zero idx s = (omega arith, refl, refl)
make_sessions-length (suc left) idx s =
    let t : Server = record s {
      sessions = update s.sessions idx (record (s.sessions idx) { io_count = 0 });
      free_sessions = idx ∷ s.free_sessions;
    } in
    let h = make_sessions-length left (idx + 1) t in (omega (arith, h.0), h.1, h.2)

-- The only way for `Start` to return `true`.
start-true :
    (memory : ℕ → Session) (worker_thread_cnt running_thread_cnt max_user : ℕ)
    (ready threads : Bool) (s t : Server)
    → start memory worker_thread_cnt running_thread_cnt max_user ready threads s ≡ (true, t)
    → (max_user ≤ 65535)
      × (0 < max_user)
      × (t
          ≡ make_sessions max_user 0
              (record (init_settings s) { max_user = max_user; sessions = memory }))
unfolding start
start-true memory worker_thread_cnt running_thread_cnt max_user ready threads s t =
    let refused =
      worker_thread_cnt == 0 || running_thread_cnt == 0 || max_user == 0 || ltb 65535 max_user in
    elim (Bool-cases refused) [
      | inl bad ↦ rw bad (λ e. ground (arith, ap (λ x. x.0) e))
      | inr good ↦ elim (Bool-cases ready) [
        | inl up ↦
            rw (good, up)
              (λ e. (
                ground (arith, good, lt→ltb 65535 max_user),
                ground (arith, good),
                sym (ap (λ x. x.1) e),
              ))
        | inr down ↦ rw (good, down) (λ e. ground (arith, ap (λ x. x.0) e))
      ]
    ]

not_empty : (is : List ℕ) → is ≢ [] → 0 < length is
not_empty [] ne = absurd (ne refl)
not_empty (i ∷ is) ne = omega arith

-- When slots are on the stack from an earlier start, `Start` that returns `true` leaves them there below
-- the new ones: the stack has more slots than the server has sessions, which is not consistent.
pub start_again :
    (memory : ℕ → Session) (worker_thread_cnt running_thread_cnt max_user : ℕ)
    (ready threads : Bool) (s t : Server)
    → s.free_sessions ≢ []
    → start memory worker_thread_cnt running_thread_cnt max_user ready threads s ≡ (true, t)
    → (length t.free_sessions ≡ max_user + length s.free_sessions)
      × (t.max_user < length t.free_sessions)
      × ¬ IsConsistent t
unfolding init_settings
start_again memory worker_thread_cnt running_thread_cnt max_user ready threads s t old e =
    let (le, pos, made) =
      start-true memory worker_thread_cnt running_thread_cnt max_user ready threads s t e in
    let fresh : Server = record (init_settings s) { max_user = max_user; sessions = memory } in
    let n = make_sessions-length max_user 0 fresh in
    let size : length t.free_sessions ≡ max_user + length s.free_sessions =
      ap (λ x. length x.free_sessions) made ∙ n.0 in
    let same : t.max_user ≡ max_user = ap (λ x. x.max_user) made ∙ n.1 in
    let some_ : 0 < length s.free_sessions = not_empty s.free_sessions old in
    (size, omega (arith, size, same, some_), λ c. omega (arith, c.counted, size, same, some_))
