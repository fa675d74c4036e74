-- ===== src/NetServer/Slot/Invariant.antt =====
-- What holds of a slot between two steps.
use login_server_chat.Prelude.{
  assign, assign_elim, assign_there, total, total-assign, ℕ, ◌+◌, ◌^◌, ◌≤◌, ◌<◌, ◌≡◌, ◌≢◌, sym,
  subst, ap, ◌∙◌, arith,
}
use login_server_chat.NetServer.Slot.{
  User, away, entering, unreleased, inside, leaving, releasing, cleaning, cleaned, taken, counted,
  named, Slot, becomes,
}
use login_server_chat.NetServer.Session.{slot_of}

-- Who has the slot: the stack, the thread that accepts a session for it before it has written the id, or
-- after that, a session, the thread that releases it before `OnClientLeave`, or after it.
pub data Holder : Type 0 where
  stack : Holder
  accepting : (i : ℕ) → Holder
  prepared : (i : ℕ) → Holder
  live : (id : ℕ) → Holder
  closing : (i id : ℕ) → Holder
  emptied : (i : ℕ) → Holder

-- Index, id, flag and copies, as the holder has them.
abbrev pub IsHeld : Holder → ℕ → ℕ → ℕ → ℕ → Type 0
IsHeld stack index session_id flag copies = (flag ≡ 1) × (copies ≡ 1)
IsHeld (accepting i) index session_id flag copies = (flag ≡ 1) × (copies ≡ 0)
IsHeld (prepared i) index session_id flag copies =
    (flag ≡ 1) × (copies ≡ 0) × (slot_of session_id ≡ index)
IsHeld (live id) index session_id flag copies =
    (flag ≡ 0) × (copies ≡ 0) × (slot_of session_id ≡ index) × (session_id ≡ id)
IsHeld (closing i id) index session_id flag copies =
    (flag ≡ 1) × (copies ≡ 0) × (slot_of session_id ≡ index) × (session_id ≡ id)
IsHeld (emptied i) index session_id flag copies =
    (flag ≡ 1) × (copies ≡ 0) × (slot_of session_id ≡ index)

abbrev pub IsLive : Holder → Type 0
IsLive h = (id : ℕ) × (h ≡ live id)

-- What somebody at his place needs.
abbrev pub Fits : Holder → ℕ → User → Type 0
Fits h i away = Unit {0}
Fits h i (entering id) = Unit {0}
Fits h i (unreleased id) = IsLive h
Fits h i (inside id) = h ≡ live id
Fits h i leaving = Unit {0}
Fits h i releasing = Unit {0}
Fits h i cleaning = (id : ℕ) × (h ≡ closing i id)
Fits h i cleaned = h ≡ emptied i
Fits h i (taken session_cnt) = h ≡ accepting i
Fits h i (counted session_cnt) = h ≡ accepting i
Fits h i named = h ≡ prepared i

-- 1 for who has incremented the count.
unfoldable pub counts : User → ℕ
counts away = 0
counts (entering id) = 1
counts (unreleased id) = 1
counts (inside id) = 1
counts leaving = 1
counts releasing = 0
counts cleaning = 0
counts cleaned = 0
counts (taken session_cnt) = 0
counts (counted session_cnt) = 1
counts named = 1

pub record SlotInv (n : ℕ) (s : Slot) (h : Holder) : Type 0 where
  pub held : IsHeld h s.index s.session_id s.release_flag s.copies
  pub fits : (i : ℕ) → Fits h i (s.users i)
  pub counting : s.io_count ≡ total counts s.users n
  pub idle : (i : ℕ) → n ≤ i → s.users i ≡ away
  pub small : s.index < 2 ^ 16

-- Who has nothing to do with the holder fits to any other.
pub Fits-detached :
    (h h' : Holder) (i : ℕ) (u : User)
    → ((id : ℕ) → h ≢ live id)
    → h ≢ accepting i
    → h ≢ prepared i
    → ((id : ℕ) → h ≢ closing i id)
    → h ≢ emptied i
    → Fits h i u
    → Fits h' i u
Fits-detached h h' i away dead idle ready ending full f = tt
Fits-detached h h' i (entering id) dead idle ready ending full f = tt
Fits-detached h h' i (unreleased id) dead idle ready ending full f = absurd (dead f.0 f.1)
Fits-detached h h' i (inside id) dead idle ready ending full f = absurd (dead id f)
Fits-detached h h' i leaving dead idle ready ending full f = tt
Fits-detached h h' i releasing dead idle ready ending full f = tt
Fits-detached h h' i cleaning dead idle ready ending full f = absurd (ending f.0 f.1)
Fits-detached h h' i cleaned dead idle ready ending full f = absurd (full f)
Fits-detached h h' i (taken session_cnt) dead idle ready ending full f = absurd (idle f)
Fits-detached h h' i (counted session_cnt) dead idle ready ending full f = absurd (idle f)
Fits-detached h h' i named dead idle ready ending full f = absurd (ready f)

-- Nor has who is not counted while there is a session.
pub Fits-uncounted :
    (id : ℕ) (h' : Holder) (i : ℕ) (u : User) → counts u ≡ 0 → Fits (live id) i u → Fits h' i u
unfolding counts
Fits-uncounted id h' i away none_ f = tt
Fits-uncounted id h' i (entering id') none_ f = tt
Fits-uncounted id h' i (unreleased id') none_ f = ground arith
Fits-uncounted id h' i (inside id') none_ f = ground arith
Fits-uncounted id h' i leaving none_ f = tt
Fits-uncounted id h' i releasing none_ f = tt
Fits-uncounted id h' i cleaning none_ f = ground (arith, f.1)
Fits-uncounted id h' i cleaned none_ f = ground (arith, f)
Fits-uncounted id h' i (taken id') none_ f = ground (arith, f)
Fits-uncounted id h' i (counted id') none_ f = ground (arith, f)
Fits-uncounted id h' i named none_ f = ground (arith, f)

-- One of the users goes on.
pub SlotInv-go :
    {n : ℕ} {s : Slot} {h : Holder} (i : ℕ) (u : User) (h' : Holder)
    (session_id' count' flag' copies' : ℕ)
    → i < n
    → IsHeld h' s.index session_id' flag' copies'
    → ((j : ℕ) → j ≢ i → Fits h' j (s.users j))
    → Fits h' i u
    → ((a : ℕ) → a + counts (s.users i) ≡ s.io_count + counts u → count' ≡ a)
    → SlotInv n s h
    → SlotInv n
        (record {
          index = s.index;
          session_id = session_id';
          io_count = count';
          release_flag = flag';
          copies = copies';
          users = assign s.users i u;
        })
        h'
SlotInv-go {n} {s} i u h' session_id' count' flag' copies' lt held others own count v = record {
  held = held;
  fits = λ j.
      assign_elim (Fits h' j) s.users i u j (λ e. subst (λ k. Fits h' k u) (sym e) own) (others j);
  counting =
      count _ (total-assign counts s.users i u n lt ∙ ap (λ k. k + counts u) (sym v.counting));
  idle = λ j le. assign_there s.users i u j (λ e. omega arith) ∙ v.idle j le;
  small = v.small;
}

-- With the same holder, id, flag and copies.
pub SlotInv-same :
    {n : ℕ} {s : Slot} {h : Holder} (i : ℕ) (u : User) (count' : ℕ)
    → i < n
    → Fits h i u
    → ((a : ℕ) → a + counts (s.users i) ≡ s.io_count + counts u → count' ≡ a)
    → SlotInv n s h
    → SlotInv n (becomes (record s { io_count = count' }) i u) h
unfolding becomes
SlotInv-same {s = s} {h = h} i u count' lt own count v =
    SlotInv-go i u h s.session_id count' s.release_flag s.copies lt v.held (λ j ne. v.fits j) own
      count v

pub counts-le : (u : User) → counts u ≤ 1
unfolding counts
counts-le away = omega arith
counts-le (entering id) = omega arith
counts-le (unreleased id) = omega arith
counts-le (inside id) = omega arith
counts-le leaving = omega arith
counts-le releasing = omega arith
counts-le cleaning = omega arith
counts-le cleaned = omega arith
counts-le (taken session_cnt) = omega arith
counts-le (counted session_cnt) = omega arith
counts-le named = omega arith
