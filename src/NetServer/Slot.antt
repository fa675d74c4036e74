-- ===== src/NetServer/Slot.antt =====
-- One slot of `_sessionArr` (LoginServer_Chat/CNetServer.cpp) while threads use it at the same time, each
-- step one access to `ioFlag`, `sessionID` or the stack of free slots.
pub mod Spec
pub mod Invariant
pub mod Moves
pub mod Releases
pub mod Protocol
pub mod Alone
mod Tests
use login_server_chat.Prelude.{
  ℕ, suc, ◌+◌, ◌<◌, ◌==◌, if◌then◌else◌, List, [], ◌∷◌, ◌++◌, ◌≡◌, assign,
}
use login_server_chat.NetServer.Session.{increment, decrement, slot_of, make_session_id}

-- Where somebody stands who has to do with the slot: a thread in a call, a receive or a send in the
-- background, or a posted job. In `EnterSession`: before the flag and before the id is read. Then with
-- the session, and before the decrement. In `ReleaseSession`: before the exchange, before
-- `OnClientLeave`, and before the slot goes back to the stack. In `AcceptThread`: before the increment,
-- before the id is written, and before the flag is cleared.
pub data User : Type 0 where
  away : User
  entering : (id : ℕ) → User
  unreleased : (id : ℕ) → User
  inside : (id : ℕ) → User
  leaving : User
  releasing : User
  cleaning : User
  cleaned : User
  taken : (session_cnt : ℕ) → User
  counted : (session_cnt : ℕ) → User
  named : User

-- `index` is the slot's index, and `copies` how many times that is in `_freeSessionStack`.
pub record Slot : Type 0 where
  pub index : ℕ
  pub session_id : ℕ
  pub io_count : ℕ
  pub release_flag : ℕ
  pub copies : ℕ
  pub users : ℕ → User

-- A session begins, `EnterSession` returns `true` for an id, the exchange of `ReleaseSession` succeeds,
-- and `OnClientLeave` is called.
pub data SlotEvent : Type 0 where
  opened : (id : ℕ) → SlotEvent
  entered : (id : ℕ) → SlotEvent
  closed : SlotEvent
  client_left : (id : ℕ) → SlotEvent

-- A slot after `Start`, with what is in `sessionID` and `releaseFlag`.
unfoldable pub new_slot : ℕ → ℕ → ℕ → Slot
new_slot index session_id release_flag = record {
  index = index;
  session_id = session_id;
  io_count = 0;
  release_flag = release_flag;
  copies = 1;
  users = λ i. away;
}

unfoldable pub becomes : Slot → ℕ → User → Slot
becomes s i user = record s { users = assign s.users i user }

-- `InterlockedIncrement(&ioCount)` of somebody who then stands there.
unfoldable pub count_in : Slot → ℕ → User → Slot
count_in s i user = becomes (record s { io_count = increment s.io_count }) i user

-- The test of the flag in `EnterSession`.
unfoldable pub test_flag : Slot → ℕ → ℕ → Slot
test_flag s i id = becomes s i (if s.release_flag == 1 then leaving else unreleased id)

-- The test of the id in `EnterSession`.
unfoldable pub test_id : Slot → ℕ → ℕ → Slot × List SlotEvent
test_id s i id =
    if s.session_id == id
    then (becomes s i (inside id), entered id ∷ [])
    else (becomes s i leaving, [])

-- `InterlockedDecrement(&ioCount)`: who comes to 0 releases the session, at once or with a job that is
-- posted.
unfoldable pub count_out : Slot → ℕ → Slot
count_out s i =
    let count = decrement s.io_count in
    becomes (record s { io_count = count }) i (if count == 0 then releasing else away)

-- The exchange of `ReleaseSession`, which compares count and flag in one.
unfoldable pub exchange_flag : Slot → ℕ → Slot × List SlotEvent
exchange_flag s i =
    if s.io_count == 0
    then (if s.release_flag == 0
        then (becomes (record s { release_flag = 1 }) i cleaning, closed ∷ [])
        else (becomes s i away, []))
    else (becomes s i away, [])

-- `_freeSessionStack.Push((USHORT)pSession->sessionID)`: the index in the id, which need not be this one.
unfoldable pub give_slot : Slot → ℕ → Slot
give_slot s i =
    becomes (if slot_of s.session_id == s.index then record s { copies = s.copies + 1 } else s) i
      away

-- The next step of somebody. From `inside` it is the end of the use.
unfoldable pub slot_step : User → Slot → ℕ → Slot × List SlotEvent
slot_step away s i = (s, [])
slot_step (entering id) s i = (test_flag s i id, [])
slot_step (unreleased id) s i = test_id s i id
slot_step (inside id) s i = (becomes s i leaving, [])
slot_step leaving s i = (count_out s i, [])
slot_step releasing s i = exchange_flag s i
slot_step cleaning s i = (becomes s i cleaned, client_left s.session_id ∷ [])
slot_step cleaned s i = (give_slot s i, [])
slot_step (taken session_cnt) s i = (count_in s i (counted session_cnt), [])
slot_step (counted session_cnt) s i =
    (becomes (record s { session_id = make_session_id session_cnt s.index }) i named, [])
slot_step named s i =
    (becomes (record s { release_flag = 0 }) i (inside s.session_id), opened s.session_id ∷ [])

-- `EnterSession` with any id; `AcceptThread` takes the slot for a session; a receive or a send of
-- somebody who has the session goes on in the background; `RequestRelease` cannot post its job, which is
-- then lost; or somebody goes on.
pub data SlotStep (n : ℕ) : Slot → List SlotEvent → Slot → Type 0 where
  enters :
      (s : Slot) (i id : ℕ)
      → i < n
      → s.users i ≡ away
      → SlotStep n s [] (count_in s i (entering id))
  accepts :
      (s : Slot) (i session_cnt copies : ℕ)
      → i < n
      → s.users i ≡ away
      → s.copies ≡ suc copies
      → SlotStep n s [] (becomes (record s { copies = copies }) i (taken session_cnt))
  begins_io :
      (s : Slot) (i j id : ℕ)
      → j < n
      → s.users i ≡ inside id
      → s.users j ≡ away
      → SlotStep n s [] (count_in s j (inside id))
  loses_job :
      (s : Slot) (i : ℕ) → i < n → s.users i ≡ releasing → SlotStep n s [] (becomes s i away)
  goes_on :
      (s : Slot) (i : ℕ)
      → i < n
      → SlotStep n s (slot_step (s.users i) s i).1 (slot_step (s.users i) s i).0

-- Steps one after the other, with what happened.
pub data SlotSteps (n : ℕ) (s : Slot) : List SlotEvent → Slot → Type 0 where
  at_first : SlotSteps n s [] s
  further :
      {r t : Slot} {es fs : List SlotEvent}
      → SlotSteps n s es r
      → SlotStep n r fs t
      → SlotSteps n s (es ++ fs) t
