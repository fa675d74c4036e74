-- ===== src/NetServer/Slot/Alone.antt =====
-- Somebody who goes on without others in between.
use login_server_chat.Prelude.{
  all_below, assign, ℕ, ◌+◌, ◌==◌, ltb→lt, true, false, ==_iff, List, [], ◌∷◌, ◌++◌, append_assoc,
  append-nil, ◌≡◌, ◌≢◌, refl, sym, subst, arith,
}
use login_server_chat.NetServer.Session.{increment, decrement, slot_of}
use login_server_chat.NetServer.Slot.{
  away, entering, leaving, Slot, new_slot, SlotEvent, closed, client_left, SlotSteps, further,
  goes_on, slot_step, becomes, count_in, count_out, test_flag, test_id, exchange_flag, give_slot,
}

-- The users of the list go on by a step each.
unfoldable pub play_slot : List ℕ → Slot → Slot × List SlotEvent
play_slot [] s = (s, [])
play_slot (i ∷ is) s =
    let (r, es) = slot_step (s.users i) s i in let (t, fs) = play_slot is r in (t, es ++ fs)

pub play_slot-SlotSteps :
    {n : ℕ} {r : Slot} (is : List ℕ) {s : Slot} {es : List SlotEvent}
    → all_below n is ≡ true
    → SlotSteps n r es s
    → SlotSteps n r (es ++ (play_slot is s).1) (play_slot is s).0
unfolding play_slot
play_slot-SlotSteps {n} {r} [] {s} {es} lt before =
    subst (λ l. SlotSteps n r l s) (sym (append-nil es)) before
play_slot-SlotSteps {n} {r} (i ∷ is) {s} {es} lt before =
    let now = slot_step (s.users i) s i in
    subst (λ l. SlotSteps n r l (play_slot is now.0).0)
      (append_assoc es now.1 (play_slot is now.0).1)
      (play_slot-SlotSteps is (ground arith)
        (further before (goes_on s i (ltb→lt i n (ground arith)))))

-- The last one who leaves a session, whose id has the index of the slot, with nobody else in between, has released it after four steps:
-- the flag is set, `OnClientLeave` is called with the session's id, and the slot is back in the stack.
pub play_slot-leaving :
    (s : Slot) (i : ℕ)
    → s.users i ≡ leaving
    → s.io_count ≡ 1
    → s.release_flag ≡ 0
    → slot_of s.session_id ≡ s.index
    → let (t, es) = play_slot (i ∷ i ∷ i ∷ i ∷ []) s in
      (t.users i ≡ away)
      × (t.release_flag ≡ 1)
      × (t.copies ≡ s.copies + 1)
      × (es ≡ closed ∷ client_left s.session_id ∷ [])
unfolding play_slot slot_step becomes count_out exchange_flag give_slot assign decrement
play_slot-leaving s i at_ one clear own =
    let same : (i == i) ≡ true = (==_iff i i).1 refl in
    let home : (slot_of s.session_id == s.index) ≡ true =
      (==_iff (slot_of s.session_id) s.index).1 own in
    rw (at_, one, same, clear, same, same, home, same) (refl, refl, refl, refl)

-- A slot that `Start` has left with a flag that is not set and an id whose low bits are its index: when
-- somebody calls `EnterSession` with another id, the call releases a session that there never was, calls
-- `OnClientLeave` for it, and leaves the slot in the stack twice.
pub play_slot-unset :
    (index session_id i id : ℕ)
    → slot_of session_id ≡ index
    → session_id ≢ id
    → let (t, es) =
        play_slot
          (i ∷ i ∷ i ∷ i ∷ i ∷ i ∷ [])
          (count_in (new_slot index session_id 0) i (entering id)) in
      (t.users i ≡ away) × (t.copies ≡ 2) × (es ≡ closed ∷ client_left session_id ∷ [])
unfolding play_slot slot_step becomes count_in count_out test_flag test_id exchange_flag give_slot
    assign increment decrement new_slot
play_slot-unset index session_id i id own ne =
    let same : (i == i) ≡ true = (==_iff i i).1 refl in
    let other : (session_id == id) ≡ false = ground (arith, ne) in
    let home : (slot_of session_id == index) ≡ true = (==_iff (slot_of session_id) index).1 own in
    rw (same, same, other, same, same, same, same, home, same) (refl, refl, refl)
