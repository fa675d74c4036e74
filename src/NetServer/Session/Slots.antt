-- ===== src/NetServer/Session/Slots.antt =====
-- The slots of the sessions: `_freeSessionStack`, `_nowSession` and the ids.
use login_server_chat.Prelude.{
  ℕ, zero, suc, ◌+◌, ◌^◌, ◌<◌, ◌≤◌, ◌==◌, if◌then◌else◌, List, [], ◌∷◌, length, ◌≡◌, ◌≢◌, refl, ap,
  ◌∙◌, sym, arith, Bool-cases, inl, inr, ==_iff,
}
use login_server_chat.NetServer.Session.{Session, Server, update, slot_of, make_session_id}

-- The index in an id is the slot.
pub slot_of-make_session_id :
    (cnt slot : ℕ) → slot < 2 ^ 16 → slot_of (make_session_id cnt slot) ≡ slot
unfolding slot_of make_session_id
slot_of-make_session_id cnt slot lt = omega arith

abbrev pub NotIn : ℕ → List ℕ → Type 0
NotIn i [] = Unit {0}
NotIn i (j ∷ js) = (i ≢ j) × NotIn i js

-- The slots on the stack are different, released, and indices in the array.
abbrev pub AreFree : (ℕ → Session) → ℕ → List ℕ → Type 0
AreFree sessions max_user [] = Unit {0}
AreFree sessions max_user (i ∷ is) =
    ((sessions i).release_flag ≡ 1) × (i < max_user) × NotIn i is × AreFree sessions max_user is

-- The number of sessions below `n` that are not released.
unfoldable pub count_open : (ℕ → Session) → ℕ → ℕ
count_open sessions zero = 0
count_open sessions (suc n) =
    (if (sessions n).release_flag == 0 then 1 else 0) + count_open sessions n

pub record Consistent (sessions : ℕ → Session) (free_sessions : List ℕ) (max_user now_session : ℕ)
    : Type 0 where
  pub counted : now_session + length free_sessions ≡ max_user
  pub opened : now_session ≡ count_open sessions max_user
  pub bounded : max_user < 2 ^ 16
  pub free : AreFree sessions max_user free_sessions
  pub ids : (i : ℕ) → (sessions i).release_flag ≡ 0 → slot_of (sessions i).session_id ≡ i

abbrev pub IsConsistent : Server → Type 0
IsConsistent s = Consistent s.sessions s.free_sessions s.max_user s.now_session

module _ (sessions : ℕ → Session) (i : ℕ) (x : Session) where
  count_open-outside : (n : ℕ) → n ≤ i → count_open (update sessions i x) n ≡ count_open sessions n
  unfolding count_open update
  count_open-outside zero le = refl
  count_open-outside (suc n) le = rw (count_open-outside n (omega arith)) (ground arith)

  pub count_open-close :
      (n : ℕ)
      → i < n
      → (sessions i).release_flag ≡ 0
      → x.release_flag ≡ 1
      → count_open (update sessions i x) n + 1 ≡ count_open sessions n
  unfolding count_open update
  count_open-close zero lt a b = absurd (omega arith)
  count_open-close (suc n) lt a b = elim (Bool-cases (n == i)) [
    | inl e ↦ rw (e, (==_iff n i).0 e, count_open-outside i (omega arith), a, b) (omega arith)
    | inr e ↦ rw e (omega (arith, count_open-close n (ground arith) a b))
  ]

  pub count_open-open :
      (n : ℕ)
      → i < n
      → (sessions i).release_flag ≡ 1
      → x.release_flag ≡ 0
      → count_open (update sessions i x) n ≡ count_open sessions n + 1
  unfolding count_open update
  count_open-open zero lt a b = absurd (omega arith)
  count_open-open (suc n) lt a b = elim (Bool-cases (n == i)) [
    | inl e ↦ rw (e, (==_iff n i).0 e, count_open-outside i (omega arith), a, b) (omega arith)
    | inr e ↦ rw e (omega (arith, count_open-open n (ground arith) a b))
  ]

  pub count_open-same :
      (n : ℕ)
      → x.release_flag ≡ (sessions i).release_flag
      → count_open (update sessions i x) n ≡ count_open sessions n
  unfolding count_open update
  count_open-same zero e = refl
  count_open-same (suc n) e = rw (count_open-same n e) (
      ap (λ b. (if b then 1 else 0) + count_open sessions n)
        (elim (Bool-cases (n == i)) [
          | inl same ↦ rw (same, (==_iff n i).0 same, e) refl
          | inr other ↦ rw other refl
        ]))

pub open-NotIn :
    (sessions : ℕ → Session) (m i : ℕ) (is : List ℕ)
    → AreFree sessions m is
    → (sessions i).release_flag ≡ 0
    → NotIn i is
open-NotIn sessions m i [] f used = tt
open-NotIn sessions m i (j ∷ is) f used = (
  λ e. ground (arith, sym used ∙ ap (λ k. (sessions k).release_flag) e ∙ f.0),
  open-NotIn sessions m i is f.3 used,
)

-- A change of a session whose slot is not on the stack.
pub update-AreFree :
    (sessions : ℕ → Session) (m i : ℕ) (x : Session) (is : List ℕ)
    → NotIn i is
    → AreFree sessions m is
    → AreFree (update sessions i x) m is
unfolding update
update-AreFree sessions m i x [] out f = tt
update-AreFree sessions m i x (j ∷ is) out f =
    (ground (arith, f.0, out.0), f.1, f.2, update-AreFree sessions m i x is out.1 f.3)

-- A change that keeps the flag.
pub keep-AreFree :
    (sessions : ℕ → Session) (m i : ℕ) (x : Session) (is : List ℕ)
    → x.release_flag ≡ (sessions i).release_flag
    → AreFree sessions m is
    → AreFree (update sessions i x) m is
unfolding update
keep-AreFree sessions m i x [] e f = tt
keep-AreFree sessions m i x (j ∷ is) e f = (
  elim (Bool-cases (j == i)) [
    | inl same ↦ rw same (e ∙ ap (λ k. (sessions k).release_flag) (sym ((==_iff j i).0 same)) ∙ f.0)
    | inr other ↦ rw other f.0
  ],
  f.1,
  f.2,
  keep-AreFree sessions m i x is e f.3,
)

pub update-ids :
    (sessions : ℕ → Session) (i : ℕ) (x : Session)
    → ((j : ℕ) → (sessions j).release_flag ≡ 0 → slot_of (sessions j).session_id ≡ j)
    → (x.release_flag ≡ 0 → slot_of x.session_id ≡ i)
    → (j : ℕ) → (update sessions i x j).release_flag ≡ 0
    → slot_of (update sessions i x j).session_id ≡ j
unfolding update
update-ids sessions i x ids own j = elim (Bool-cases (j == i)) [
  | inl e ↦ rw (e, (==_iff j i).0 e) own
  | inr e ↦ rw e (ids j)
]
