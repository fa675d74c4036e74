-- ===== src/NetServer/Slot/Releases.antt =====
-- The steps of `ReleaseSession` and `AcceptThread`, after which somebody else has the slot.
use login_server_chat.Prelude.{
  total-in, ltb, ltb→lt, lt→ltb, ℕ, suc, ◌+◌, ◌^◌, ◌<◌, ◌==◌, Bool-cases, ==_iff, List, [], ◌∷◌,
  ◌≡◌, ◌≢◌, inl, inr, refl, sym, subst, ap, arith,
}
use login_server_chat.NetServer.Session.{slot_of, make_session_id}
use login_server_chat.NetServer.Slot.{
  User, away, inside, releasing, cleaning, cleaned, taken, counted, named, Slot, becomes, give_slot,
  exchange_flag, SlotEvent, closed, client_left, opened,
}
use login_server_chat.NetServer.Slot.Spec.{
  vacant, running, ended, opens, closes, reports, BehavesAll, over, begins,
}
use login_server_chat.NetServer.Slot.Invariant.{
  Holder, stack, accepting, prepared, live, closing, emptied, Fits, IsHeld, SlotInv, SlotInv-go,
  Fits-uncounted, Fits-detached, counts,
}
use login_server_chat.NetServer.Slot.Moves.{Goes, becomes-Goes}

-- Nobody but the user has to do with the holder.
abbrev HasOnly : Holder → ℕ → Type 0
HasOnly stack i = Unit {0}
HasOnly (accepting k) i = k ≡ i
HasOnly (prepared k) i = k ≡ i
HasOnly (live id) i = id ≢ id
HasOnly (closing k id) i = k ≡ i
HasOnly (emptied k) i = k ≡ i

Fits-others : (h h' : Holder) (i j : ℕ) (u : User) → HasOnly h i → j ≢ i → Fits h j u → Fits h' j u
Fits-others stack h' i j u only ne =
    Fits-detached stack h' j u (λ x f. ground arith) (λ f. ground arith) (λ f. ground arith)
      (λ x f. ground arith) (λ f. ground arith)
Fits-others (accepting k) h' i j u only ne =
    Fits-detached (accepting k) h' j u (λ x f. ground arith) (λ f. ground (arith, only, ne))
      (λ f. ground arith) (λ x f. ground arith) (λ f. ground arith)
Fits-others (prepared k) h' i j u only ne =
    Fits-detached (prepared k) h' j u (λ x f. ground arith) (λ f. ground arith)
      (λ f. ground (arith, only, ne)) (λ x f. ground arith) (λ f. ground arith)
Fits-others (live id) h' i j u only ne = absurd (only refl)
Fits-others (closing k id) h' i j u only ne =
    Fits-detached (closing k id) h' j u (λ x f. ground arith) (λ f. ground arith)
      (λ f. ground arith) (λ x f. ground (arith, only, ne)) (λ f. ground arith)
Fits-others (emptied k) h' i j u only ne =
    Fits-detached (emptied k) h' j u (λ x f. ground arith) (λ f. ground arith) (λ f. ground arith)
      (λ x f. ground arith) (λ f. ground (arith, only, ne))

-- The holder is known.
at_holder :
    {n : ℕ} {s : Slot} {h h' : Holder} {es : List SlotEvent} {t : Slot}
    → h ≡ h'
    → SlotInv n s h
    → (SlotInv n s h' → Goes n h' es t)
    → Goes n h es t
at_holder {n} {s} {es = es} {t = t} e v goes =
    subst (λ x. Goes n x es t) (sym e) (goes (subst (SlotInv n s) e v))

-- A flag that is not set is that of a session.
flag_live :
    (h : Holder) (index session_id flag copies : ℕ)
    → flag ≡ 0
    → IsHeld h index session_id flag copies
    → h ≡ live session_id
flag_live stack index session_id flag copies clear held = ground (arith, clear, held.0)
flag_live (accepting i) index session_id flag copies clear held = ground (arith, clear, held.0)
flag_live (prepared i) index session_id flag copies clear held = ground (arith, clear, held.0)
flag_live (live id) index session_id flag copies clear held = ap live (sym held.3)
flag_live (closing i id) index session_id flag copies clear held = ground (arith, clear, held.0)
flag_live (emptied i) index session_id flag copies clear held = ground (arith, clear, held.0)

uncounted :
    {n : ℕ} {s : Slot} {h : Holder} (j : ℕ)
    → s.io_count ≡ 0
    → SlotInv n s h
    → counts (s.users j) ≡ 0
unfolding counts
uncounted {n} {s} j zero_ v = elim (Bool-cases (ltb j n)) [
  | inl below ↦ omega (arith, total-in counts s.users j n (ltb→lt j n below), zero_, v.counting)
  | inr above ↦ ap counts (v.idle j (ground (arith, lt→ltb j n)))
]

-- The exchange of the flag succeeds: nobody has the session.
close-Goes :
    {n : ℕ} {s : Slot} {h : Holder} (i : ℕ)
    → i < n
    → s.users i ≡ releasing
    → s.io_count ≡ 0
    → s.release_flag ≡ 0
    → SlotInv n s h
    → Goes n h (closed ∷ []) (becomes (record s { release_flag = 1 }) i cleaning)
unfolding becomes counts
close-Goes {n} {s} {h} i lt at_ none_ clear v =
    let id = s.session_id in
    at_holder (flag_live h s.index id s.release_flag s.copies clear v.held) v (λ w. (
      closing i id,
      begins (closes id) (over (ended id)),
      SlotInv-go i cleaning (closing i id) id s.io_count 1 s.copies lt
          (refl, w.held.1, w.held.2, refl)
          (λ j ne. Fits-uncounted id (closing i id) j (s.users j) (uncounted j none_ w) (w.fits j))
          (id, refl) (λ a e. omega (arith, e, ap counts at_)) w,
    ))

pub exchange_flag-Goes :
    {n : ℕ} {s : Slot} {h : Holder} (i : ℕ)
    → i < n
    → s.users i ≡ releasing
    → SlotInv n s h
    → Goes n h (exchange_flag s i).1 (exchange_flag s i).0
unfolding exchange_flag counts
exchange_flag-Goes {n} {s} {h} i lt at_ v = elim (Bool-cases (s.io_count == 0)) [
  | inl none_ ↦ elim (Bool-cases (s.release_flag == 0)) [
    | inl clear ↦
        rw (none_, clear)
          (close-Goes i lt at_ ((==_iff s.io_count 0).0 none_) ((==_iff s.release_flag 0).0 clear)
            v)
    | inr set ↦ rw (none_, set) (becomes-Goes i away lt (ap counts at_) tt v)
  ]
  | inr some_ ↦ rw some_ (becomes-Goes i away lt (ap counts at_) tt v)
]

pub cleaning-Goes :
    {n : ℕ} {s : Slot} {h : Holder} (i : ℕ)
    → i < n
    → s.users i ≡ cleaning
    → SlotInv n s h
    → Goes n h (client_left s.session_id ∷ []) (becomes s i cleaned)
unfolding becomes counts
cleaning-Goes {n} {s} {h} i lt at_ v =
    let (id, e) = subst (Fits h i) at_ (v.fits i) in
    at_holder e v (λ w. (
      emptied i,
      subst (λ x. BehavesAll (ended id) (client_left x ∷ []) vacant) (sym w.held.3)
          (begins (reports id) (over vacant)),
      SlotInv-go i cleaned (emptied i) s.session_id s.io_count s.release_flag s.copies lt
          (w.held.0, w.held.1, w.held.2)
          (λ j ne. Fits-others (closing i id) (emptied i) i j (s.users j) refl ne (w.fits j)) refl
          (λ a f. omega (arith, f, ap counts at_)) w,
    ))

-- The slot's own index goes back.
pub give_slot-Goes :
    {n : ℕ} {s : Slot} {h : Holder} (i : ℕ)
    → i < n
    → s.users i ≡ cleaned
    → SlotInv n s h
    → Goes n h [] (give_slot s i)
unfolding give_slot becomes counts
give_slot-Goes {n} {s} {h} i lt at_ v = at_holder (subst (Fits h i) at_ (v.fits i)) v (λ w.
    rw ((==_iff (slot_of s.session_id) s.index).1 w.held.2) (
      stack,
      over vacant,
      SlotInv-go i away stack s.session_id s.io_count s.release_flag (s.copies + 1) lt
          (w.held.0, omega (arith, w.held.1))
          (λ j ne. Fits-others (emptied i) stack i j (s.users j) refl ne (w.fits j)) tt
          (λ a f. omega (arith, f, ap counts at_)) w,
    ))

-- A slot that is in the stack.
copies_stack :
    (h : Holder) (index session_id flag copies left : ℕ)
    → copies ≡ suc left
    → IsHeld h index session_id flag copies
    → h ≡ stack
copies_stack stack index session_id flag copies left e held = refl
copies_stack (accepting i) index session_id flag copies left e held = ground (arith, e, held.1)
copies_stack (prepared i) index session_id flag copies left e held = ground (arith, e, held.1)
copies_stack (live id) index session_id flag copies left e held = ground (arith, e, held.1)
copies_stack (closing i id) index session_id flag copies left e held = ground (arith, e, held.1)
copies_stack (emptied i) index session_id flag copies left e held = ground (arith, e, held.1)

pub take-Goes :
    {n : ℕ} {s : Slot} {h : Holder} (i session_cnt left : ℕ)
    → i < n
    → s.users i ≡ away
    → s.copies ≡ suc left
    → SlotInv n s h
    → Goes n h [] (becomes (record s { copies = left }) i (taken session_cnt))
unfolding becomes counts
take-Goes {n} {s} {h} i session_cnt left lt at_ more v =
    at_holder (copies_stack h s.index s.session_id s.release_flag s.copies left more v.held) v (λ w.
      (
        accepting i,
        over vacant,
        SlotInv-go i (taken session_cnt) (accepting i) s.session_id s.io_count s.release_flag left
            lt (w.held.0, omega (arith, w.held.1, more))
            (λ j ne. Fits-others stack (accepting i) i j (s.users j) tt ne (w.fits j)) refl
            (λ a f. omega (arith, f, ap counts at_)) w,
      ))

make_session_id-slot_of : (cnt slot : ℕ) → slot < 2 ^ 16 → slot_of (make_session_id cnt slot) ≡ slot
unfolding slot_of make_session_id
make_session_id-slot_of cnt slot lt = omega (arith, lt)

pub name-Goes :
    {n : ℕ} {s : Slot} {h : Holder} (i cnt : ℕ)
    → i < n
    → s.users i ≡ counted cnt
    → SlotInv n s h
    → Goes n h [] (becomes (record s { session_id = make_session_id cnt s.index }) i named)
unfolding becomes counts
name-Goes {n} {s} {h} i cnt lt at_ v = at_holder (subst (Fits h i) at_ (v.fits i)) v (λ w. (
  prepared i,
  over vacant,
  SlotInv-go i named (prepared i) (make_session_id cnt s.index) s.io_count s.release_flag s.copies
      lt (w.held.0, w.held.1, make_session_id-slot_of cnt s.index w.small)
      (λ j ne. Fits-others (accepting i) (prepared i) i j (s.users j) refl ne (w.fits j)) refl
      (λ a f. omega (arith, f, ap counts at_)) w,
))

pub open-Goes :
    {n : ℕ} {s : Slot} {h : Holder} (i : ℕ)
    → i < n
    → s.users i ≡ named
    → SlotInv n s h
    → Goes n h
        (opened s.session_id ∷ [])
        (becomes (record s { release_flag = 0 }) i (inside s.session_id))
unfolding becomes counts
open-Goes {n} {s} {h} i lt at_ v = at_holder (subst (Fits h i) at_ (v.fits i)) v (λ w. (
  live s.session_id,
  begins (opens s.session_id) (over (running s.session_id)),
  SlotInv-go i (inside s.session_id) (live s.session_id) s.session_id s.io_count 0 s.copies lt
      (refl, w.held.1, w.held.2, refl)
      (λ j ne. Fits-others (prepared i) (live s.session_id) i j (s.users j) refl ne (w.fits j)) refl
      (λ a f. omega (arith, f, ap counts at_)) w,
))
