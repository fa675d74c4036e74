-- ===== src/NetServer/Session/Counts.antt =====
-- The count of users of a session: `EnterSession`, `LeaveSession` and `ReleaseSession`.
use mathlib.Core.Path.{fun_ext}
use login_server_chat.Prelude.{
  ℕ, ◌-◌, ◌^◌, ◌<◌, ◌==◌, if◌then◌else◌, ◌≡◌, refl, arith, true, Bool-cases, inl, inr, ==_iff,
}
use login_server_chat.NetServer.Session.{
  Server, update, increment, decrement, set_session, emit, request_release, release_posted,
  leave_session, enter_session, release_session, release_owned,
}

pub update_same {ℓ} : {A : Type ℓ} (f : ℕ → A) (i : ℕ) (x : A) → update f i x i ≡ x
unfolding update
update_same f i x = ground arith

pub update_twice {ℓ} :
    {A : Type ℓ} (f : ℕ → A) (i : ℕ) (x y : A) → update (update f i x) i y ≡ update f i y
unfolding update
update_twice f i x y = fun_ext λ j. ground arith

pub update_back {ℓ} : {A : Type ℓ} (f : ℕ → A) (i : ℕ) → update f i (f i) ≡ f
unfolding update
update_back f i = fun_ext λ j. elim (Bool-cases (j == i)) [
  | inl same ↦ rw (same, (==_iff j i).0 same) refl
  | inr other ↦ rw other refl
]

pub decrement-increment : (n : ℕ) → n < 2 ^ 32 → decrement (increment n) ≡ n
unfolding increment decrement
decrement-increment n lt = omega arith

-- What a refused entry leaves: the server as it was, and a request to release when nobody else is in
-- the session.
abbrev pub refused : Server → ℕ → Server
refused s i = if (s.sessions i).io_count == 0 then emit s (release_posted i) else s

pub leave-enter :
    (s : Server) (i : ℕ)
    → (s.sessions i).io_count < 2 ^ 32
    → leave_session
        (set_session s i (record (s.sessions i) { io_count = increment (s.sessions i).io_count }))
        i
      ≡ refused s i
unfolding leave_session set_session request_release
leave-enter s i lt =
    rw
      (
        update_same s.sessions i
            (record (s.sessions i) { io_count = increment (s.sessions i).io_count }),
        decrement-increment (s.sessions i).io_count lt,
        update_twice s.sessions i
            (record (s.sessions i) { io_count = increment (s.sessions i).io_count }) (s.sessions i),
        update_back s.sessions i,
      )
      refl

release-used :
    (s : Server) (i : ℕ)
    → (s.sessions i).io_count < 2 ^ 32 - 1
    → let s' =
        set_session s i (record (s.sessions i) { io_count = increment (s.sessions i).io_count }) in
      release_session s' i ≡ s'
unfolding release_session set_session update increment
release-used s i lt = ground arith

-- With fewer than 2 ^ 32 - 1 users of the session: when `EnterSession` lets a call in, a `ReleaseSession` on any thread does nothing, and
-- `LeaveSession` gives back the server as it was, with a request to release when nobody else is in.
pub enter_session-holds :
    (s : Server) (i session_id : ℕ)
    → (s.sessions i).io_count < 2 ^ 32 - 1
    → let (entered, s') = enter_session s i session_id in
      entered ≡ true → (release_session s' i ≡ s') × (leave_session s' i ≡ refused s i)
unfolding enter_session
enter_session-holds s i session_id lt e = elim (Bool-cases ((s.sessions i).release_flag == 1)) [
  | inl released ↦ ground arith
  | inr open_ ↦ elim (Bool-cases ((s.sessions i).session_id == session_id)) [
    | inr other ↦ ground arith
    | inl same ↦ rw (open_, same) (release-used s i lt, leave-enter s i (omega arith))
  ]
]

-- A session is released once: a second `ReleaseSession` in a row does nothing.
pub release_session-once :
    (s : Server) (i : ℕ) → release_session (release_session s i) i ≡ release_session s i
unfolding release_session release_owned set_session update
release_session-once s i = ground arith
