-- ===== src/NetServer/Slot/Moves.antt =====
-- The steps of a slot against its invariant and its contract.
use login_server_chat.Prelude.{
  total-lt, total-le, ℕ, ◌+◌, ◌-◌, ◌%◌, ◌^◌, ◌<◌, ◌==◌, Bool-cases, ==_iff, List, [], ◌∷◌, ◌≡◌, ◌≢◌,
  inl, inr, refl, sym, subst, ap, ◌∙◌, arith,
}
use login_server_chat.NetServer.Session.{increment, decrement}
use login_server_chat.NetServer.Slot.{
  User, away, entering, unreleased, inside, leaving, releasing, Slot, becomes, count_in, count_out,
  test_flag, test_id, SlotEvent, entered,
}
use login_server_chat.NetServer.Slot.Spec.{
  Phase, vacant, running, ended, admits, BehavesAll, over, begins,
}
use login_server_chat.NetServer.Slot.Invariant.{
  Holder, stack, accepting, prepared, live, closing, emptied, Fits, IsLive, IsHeld, SlotInv,
  SlotInv-same, counts, counts-le,
}

abbrev pub phase_of : Holder → Phase
phase_of stack = vacant
phase_of (accepting i) = vacant
phase_of (prepared i) = vacant
phase_of (live id) = running id
phase_of (closing i id) = ended id
phase_of (emptied i) = vacant

abbrev pub Goes : ℕ → Holder → List SlotEvent → Slot → Type 0
Goes n h es t = (h' : Holder) × BehavesAll (phase_of h) es (phase_of h') × SlotInv n t h'

-- The count goes up for one more who is counted.
pub count_in-Goes :
    {n : ℕ} {s : Slot} {h : Holder} (i : ℕ) (u : User)
    → i < n
    → n < 2 ^ 32
    → counts (s.users i) ≡ 0
    → counts u ≡ 1
    → Fits h i u
    → SlotInv n s h
    → Goes n h [] (count_in s i u)
unfolding count_in increment
count_in-Goes {n} {s} {h} i u lt small out in_ own v =
    let room = total-lt counts s.users i n counts-le lt out in
    (
      h,
      over (phase_of h),
      SlotInv-same i u ((s.io_count + 1) % 2 ^ 32) lt own
          (λ a e. omega (arith, e, out, in_, room, small, v.counting)) v,
    )

-- Somebody goes on who is counted as before.
pub becomes-Goes :
    {n : ℕ} {s : Slot} {h : Holder} (i : ℕ) (u : User)
    → i < n
    → counts (s.users i) ≡ counts u
    → Fits h i u
    → SlotInv n s h
    → Goes n h [] (becomes s i u)
unfolding becomes
becomes-Goes {s = s} {h = h} i u lt same own v =
    (h, over (phase_of h), SlotInv-same i u s.io_count lt own (λ a e. omega (arith, e, same)) v)

pub count_out-Goes :
    {n : ℕ} {s : Slot} {h : Holder} (i : ℕ)
    → i < n
    → n < 2 ^ 32
    → s.users i ≡ leaving
    → SlotInv n s h
    → Goes n h [] (count_out s i)
unfolding count_out decrement counts
count_out-Goes {n} {s} {h} i lt small at_ v =
    let le = total-le counts s.users n counts-le in
    let count = (s.io_count + (2 ^ 32 - 1)) % 2 ^ 32 in
    elim (Bool-cases (count == 0)) [
      | inl same ↦ rw same (
        h,
        over (phase_of h),
        SlotInv-same i releasing count lt tt
            (λ a e. omega (arith, e, ap counts at_, le, small, v.counting)) v,
      )
      | inr other ↦ rw other (
        h,
        over (phase_of h),
        SlotInv-same i away count lt tt
            (λ a e. omega (arith, e, ap counts at_, le, small, v.counting)) v,
      )
    ]

-- A flag that is not set: there is a session.
flag-IsLive :
    (h : Holder) (index session_id flag copies : ℕ)
    → flag ≢ 1
    → IsHeld h index session_id flag copies
    → IsLive h
flag-IsLive stack index session_id flag copies clear held = absurd (clear held.0)
flag-IsLive (accepting i) index session_id flag copies clear held = absurd (clear held.0)
flag-IsLive (prepared i) index session_id flag copies clear held = absurd (clear held.0)
flag-IsLive (live id) index session_id flag copies clear held = (id, refl)
flag-IsLive (closing i id) index session_id flag copies clear held = absurd (clear held.0)
flag-IsLive (emptied i) index session_id flag copies clear held = absurd (clear held.0)

pub test_flag-Goes :
    {n : ℕ} {s : Slot} {h : Holder} (i id : ℕ)
    → i < n
    → s.users i ≡ entering id
    → SlotInv n s h
    → Goes n h [] (test_flag s i id)
unfolding test_flag counts
test_flag-Goes {n} {s} {h} i id lt at_ v = elim (Bool-cases (s.release_flag == 1)) [
  | inl same ↦ rw same (becomes-Goes i leaving lt (ap counts at_) tt v)
  | inr other ↦ rw other (
      becomes-Goes i (unreleased id) lt (ap counts at_)
        (flag-IsLive h s.index s.session_id s.release_flag s.copies (λ e. ground arith) v.held) v)
]

pub test_id-Goes :
    {n : ℕ} {s : Slot} {h : Holder} (i id : ℕ)
    → i < n
    → s.users i ≡ unreleased id
    → SlotInv n s h
    → Goes n h (test_id s i id).1 (test_id s i id).0
unfolding test_id counts becomes
test_id-Goes {n} {s} {h} i id lt at_ v =
    let (id', alive) = subst (Fits h i) at_ (v.fits i) in
    elim (Bool-cases (s.session_id == id)) [
      | inl same ↦
          let held =
            subst (λ x. IsHeld x s.index s.session_id s.release_flag s.copies) alive v.held in
          let e : h ≡ live id = alive ∙ ap live (sym held.3 ∙ (==_iff s.session_id id).0 same) in
          rw same (
            h,
            subst (λ x. BehavesAll (phase_of x) (entered id ∷ []) (phase_of x)) (sym e)
                (begins (admits id) (over (running id))),
            SlotInv-same i (inside id) s.io_count lt e (λ a f. omega (arith, f, ap counts at_)) v,
          )
      | inr other ↦ rw other (becomes-Goes i leaving lt (ap counts at_) tt v)
    ]
