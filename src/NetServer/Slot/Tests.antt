-- ===== src/NetServer/Slot/Tests.antt =====
-- Two threads at a slot, and each theorem at a small run.
use login_server_chat.Prelude.{assign, ℕ, ◌+◌, ◌≤◌, List, [], ◌∷◌, ◌++◌, ◌≡◌, refl, arith}
use login_server_chat.NetServer.Session.{increment, decrement, slot_of, make_session_id}
use login_server_chat.NetServer.Slot.{
  away, entering, inside, leaving, taken, Slot, new_slot, SlotEvent, opened, entered, closed,
  client_left, SlotSteps, at_first, further, enters, accepts, slot_step, becomes, count_in,
  count_out, test_flag, test_id, exchange_flag, give_slot,
}
use login_server_chat.NetServer.Slot.Spec.{Phase, vacant, running, BehavesAll}
use login_server_chat.NetServer.Slot.Protocol.{SlotSteps-BehavesAll}
use login_server_chat.NetServer.Slot.Alone.{
  play_slot, play_slot-SlotSteps, play_slot-leaving, play_slot-unset,
}

abbrev fresh : Slot
fresh = new_slot 3 205 1

-- User 0 accepts a session with the id 65539 and user 1 calls with that id before the flag is cleared.
abbrev taken_slot : Slot
taken_slot = becomes (record fresh { copies = 0 }) 0 (taken 1)

abbrev called : Slot
called = count_in (play_slot (0 ∷ 0 ∷ []) taken_slot).0 1 (entering 65539)

-- The flag is cleared, user 1 is let in, user 0 leaves, and then user 1, who releases the session.
abbrev order : List ℕ
order = 0 ∷ 1 ∷ 1 ∷ 0 ∷ 0 ∷ 1 ∷ 1 ∷ 1 ∷ 1 ∷ 1 ∷ []

abbrev events : List SlotEvent
events = ((([] ++ []) ++ (play_slot (0 ∷ 0 ∷ []) taken_slot).1) ++ []) ++ (play_slot order called).1

events_lem : events ≡ opened 65539 ∷ entered 65539 ∷ closed ∷ client_left 65539 ∷ []
unfolding play_slot slot_step becomes count_in count_out test_flag test_id exchange_flag give_slot
    assign increment decrement new_slot slot_of make_session_id
events_lem = refl

at_end-SlotSteps : SlotSteps 2 fresh events (play_slot order called).0
unfolding play_slot slot_step becomes count_in assign new_slot
at_end-SlotSteps = play_slot-SlotSteps order refl (
    further
      (play_slot-SlotSteps (0 ∷ 0 ∷ []) refl
        (further at_first (accepts fresh 0 1 0 (omega arith) refl refl)))
      (enters (play_slot (0 ∷ 0 ∷ []) taken_slot).0 1 65539 (omega arith) refl))

SlotSteps-BehavesAll_example :
    let t = (play_slot order called).0 in
    (p : Phase) × BehavesAll vacant events p
    × ((i id : ℕ) → t.users i ≡ inside id → p ≡ running id)
    × (t.copies ≤ 1)
SlotSteps-BehavesAll_example =
    SlotSteps-BehavesAll 3 205 (omega arith) (omega arith) at_end-SlotSteps

abbrev last_user : Slot
last_user = record {
  index = 3;
  session_id = 65539;
  io_count = 1;
  release_flag = 0;
  copies = 0;
  users = λ i. leaving;
}

last_user_index : slot_of last_user.session_id ≡ last_user.index
unfolding slot_of
last_user_index = refl

zero_index : slot_of 0 ≡ 0
unfolding slot_of
zero_index = refl

play_slot-leaving_example :
    let (t, es) = play_slot (3 ∷ 3 ∷ 3 ∷ 3 ∷ []) last_user in
    (t.users 3 ≡ away)
    × (t.release_flag ≡ 1)
    × (t.copies ≡ last_user.copies + 1)
    × (es ≡ closed ∷ client_left last_user.session_id ∷ [])
play_slot-leaving_example = play_slot-leaving last_user 3 refl refl refl last_user_index

play_slot-unset_example :
    let (t, es) =
      play_slot (1 ∷ 1 ∷ 1 ∷ 1 ∷ 1 ∷ 1 ∷ []) (count_in (new_slot 0 0 0) 1 (entering 65539)) in
    (t.users 1 ≡ away) × (t.copies ≡ 2) × (es ≡ closed ∷ client_left 0 ∷ [])
play_slot-unset_example = play_slot-unset 0 0 1 65539 zero_index (λ e. omega arith)
