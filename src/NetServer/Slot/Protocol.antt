-- ===== src/NetServer/Slot/Protocol.antt =====
-- A slot and its contract in any interleaving.
use login_server_chat.Prelude.{ℕ, ◌^◌, ◌≤◌, ◌<◌, total_rest, List, ◌≡◌, refl, sym, subst, ap, arith}
use login_server_chat.NetServer.Slot.{
  User, away, entering, unreleased, inside, leaving, releasing, cleaning, cleaned, taken, counted,
  named, Slot, new_slot, SlotEvent, SlotStep, enters, accepts, begins_io, loses_job, goes_on,
  SlotSteps, at_first, further, slot_step,
}
use login_server_chat.NetServer.Slot.Spec.{
  Phase, vacant, running, BehavesAll, BehavesAll-append, over,
}
use login_server_chat.NetServer.Slot.Invariant.{
  Holder, stack, accepting, prepared, live, closing, emptied, Fits, IsHeld, SlotInv, counts,
}
use login_server_chat.NetServer.Slot.Moves.{
  phase_of, Goes, count_in-Goes, becomes-Goes, count_out-Goes, test_flag-Goes, test_id-Goes,
}
use login_server_chat.NetServer.Slot.Releases.{
  exchange_flag-Goes, cleaning-Goes, give_slot-Goes, take-Goes, name-Goes, open-Goes,
}

slot_step-Goes :
    {n : ℕ} {s : Slot} {h : Holder} (u : User) (i : ℕ)
    → i < n
    → n < 2 ^ 32
    → s.users i ≡ u
    → SlotInv n s h
    → Goes n h (slot_step u s i).1 (slot_step u s i).0
unfolding slot_step counts
slot_step-Goes {h = h} away i lt small at_ v = (h, over (phase_of h), v)
slot_step-Goes (entering id) i lt small at_ v = test_flag-Goes i id lt at_ v
slot_step-Goes (unreleased id) i lt small at_ v = test_id-Goes i id lt at_ v
slot_step-Goes (inside id) i lt small at_ v = becomes-Goes i leaving lt (ap counts at_) tt v
slot_step-Goes leaving i lt small at_ v = count_out-Goes i lt small at_ v
slot_step-Goes releasing i lt small at_ v = exchange_flag-Goes i lt at_ v
slot_step-Goes cleaning i lt small at_ v = cleaning-Goes i lt at_ v
slot_step-Goes cleaned i lt small at_ v = give_slot-Goes i lt at_ v
slot_step-Goes {s = s} {h = h} (taken session_cnt) i lt small at_ v =
    count_in-Goes i (counted session_cnt) lt small (ap counts at_) refl
      (subst (Fits h i) at_ (v.fits i)) v
slot_step-Goes (counted session_cnt) i lt small at_ v = name-Goes i session_cnt lt at_ v
slot_step-Goes named i lt small at_ v = open-Goes i lt at_ v

SlotStep-Goes :
    {n : ℕ} {s t : Slot} {es : List SlotEvent} {h : Holder}
    → n < 2 ^ 32
    → SlotStep n s es t
    → SlotInv n s h
    → Goes n h es t
unfolding counts
SlotStep-Goes small (enters s i id lt at_) v =
    count_in-Goes i (entering id) lt small (ap counts at_) refl tt v
SlotStep-Goes small (accepts s i session_cnt copies lt at_ more) v =
    take-Goes i session_cnt copies lt at_ more v
SlotStep-Goes {h = h} small (begins_io s i j id lt at_ free) v =
    count_in-Goes j (inside id) lt small (ap counts free) refl (subst (Fits h i) at_ (v.fits i)) v
SlotStep-Goes small (loses_job s i lt at_) v = becomes-Goes i away lt (ap counts at_) tt v
SlotStep-Goes small (goes_on s i lt) v = slot_step-Goes (s.users i) i lt small refl v

new_slot-SlotInv :
    (n index session_id : ℕ) → index < 2 ^ 16 → SlotInv n (new_slot index session_id 1) stack
unfolding new_slot counts
new_slot-SlotInv n index session_id below = record {
  held = (refl, refl);
  fits = λ i. tt;
  counting = sym (total_rest counts away n refl);
  idle = λ i le. refl;
  small = below;
}

SlotSteps-Goes :
    {n : ℕ} (index session_id : ℕ) {t : Slot} {es : List SlotEvent}
    → index < 2 ^ 16
    → n < 2 ^ 32
    → SlotSteps n (new_slot index session_id 1) es t
    → Goes n stack es t
SlotSteps-Goes {n} index session_id below small at_first =
    (stack, over vacant, new_slot-SlotInv n index session_id below)
SlotSteps-Goes index session_id below small (further before now) =
    let (h, behaves, v) = SlotSteps-Goes index session_id below small before in
    let (h', behaves', v') = SlotStep-Goes small now v in
    (h', BehavesAll-append behaves behaves', v')

copies-le :
    (h : Holder) (index session_id flag copies : ℕ)
    → IsHeld h index session_id flag copies
    → copies ≤ 1
copies-le stack index session_id flag copies held = omega (arith, held.1)
copies-le (accepting i) index session_id flag copies held = omega (arith, held.1)
copies-le (prepared i) index session_id flag copies held = omega (arith, held.1)
copies-le (live id) index session_id flag copies held = omega (arith, held.1)
copies-le (closing i id) index session_id flag copies held = omega (arith, held.1)
copies-le (emptied i) index session_id flag copies held = omega (arith, held.1)

-- Less than 2 ^ 32 threads, receives, sends and jobs use a slot at the same time, in any interleaving,
-- from a slot of the stack with an index below 2 ^ 16, whose flag is set. Then its sessions come one after the other: each is
-- entered only while it is there and only with its id, is released once, and `OnClientLeave` is called
-- once for it, with its id, before the next. Whoever has been let in and has not left has the session
-- that is there now. And the slot is in the stack of free slots once at most.
pub SlotSteps-BehavesAll :
    {n : ℕ} (index session_id : ℕ) {t : Slot} {es : List SlotEvent}
    → index < 2 ^ 16
    → n < 2 ^ 32
    → SlotSteps n (new_slot index session_id 1) es t
    → (p : Phase) × BehavesAll vacant es p
      × ((i id : ℕ) → t.users i ≡ inside id → p ≡ running id)
      × (t.copies ≤ 1)
SlotSteps-BehavesAll index session_id {t} below small steps =
    let (h, behaves, v) = SlotSteps-Goes index session_id below small steps in
    (
      phase_of h,
      behaves,
      (λ i id at_. ap phase_of (subst (Fits h i) at_ (v.fits i))),
      copies-le h t.index t.session_id t.release_flag t.copies v.held,
    )
