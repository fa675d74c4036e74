-- ===== src/NetServer/Slot/Spec.antt =====
-- The contract of a slot: sessions one after the other.
use login_server_chat.Prelude.{ℕ, List, [], ◌∷◌, ◌++◌}
use login_server_chat.NetServer.Slot.{SlotEvent, opened, entered, closed, client_left}

-- There is no session, there is one, or it is released and the contents do not know of it so far.
pub data Phase : Type 0 where
  vacant : Phase
  running : (id : ℕ) → Phase
  ended : (id : ℕ) → Phase

-- A session begins when there is none; only the session that is there can be entered, and only with its
-- id; it is released once, and then `OnClientLeave` is called once, with its id.
pub data Behaves : Phase → SlotEvent → Phase → Type 0 where
  opens : (id : ℕ) → Behaves vacant (opened id) (running id)
  admits : (id : ℕ) → Behaves (running id) (entered id) (running id)
  closes : (id : ℕ) → Behaves (running id) closed (ended id)
  reports : (id : ℕ) → Behaves (ended id) (client_left id) vacant

pub data BehavesAll : Phase → List SlotEvent → Phase → Type 0 where
  over : (p : Phase) → BehavesAll p [] p
  begins :
      {p q r : Phase} {e : SlotEvent} {es : List SlotEvent}
      → Behaves p e q
      → BehavesAll q es r
      → BehavesAll p (e ∷ es) r

pub BehavesAll-append :
    {p q r : Phase} {es fs : List SlotEvent}
    → BehavesAll p es q
    → BehavesAll q fs r
    → BehavesAll p (es ++ fs) r
BehavesAll-append (over p) after = after
BehavesAll-append (begins first rest) after = begins first (BehavesAll-append rest after)
