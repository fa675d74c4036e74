-- ===== src/LockFreeQueue/Invariant.antt =====
-- What holds of the nodes, the head, the tail and the threads between two steps.
use login_server_chat.Prelude.{
  ℕ, ◌^◌, ◌≤◌, ◌<◌, ◌==◌, Bool, true, false, List, ◌∷◌, ◌≡◌, ◌≢◌, ◌⊎◌, arith,
}
use login_server_chat.LockFreeQueue.{
  QueueNode, QueueThread, resting, enqueuing, saw_tail, saw_tail_next, appended, counting,
  dequeuing, turned_away, reserved, saw_head, saw_head_next, saw_both, saw_all, loaded, removed,
  Queue, real, looks,
}
use login_server_chat.LockFreeQueue.Chain.{IsList, on, IsDistinct}

-- The node that a thread is going to append.
unfoldable pub brings : QueueThread → ℕ → Bool
brings resting a = false
brings (enqueuing new_node) a = a == new_node
brings (saw_tail new_node bk_tail) a = a == new_node
brings (saw_tail_next new_node bk_tail bk_next) a = a == new_node
brings (appended new_node bk_tail) a = false
brings counting a = false
brings dequeuing a = false
brings turned_away a = false
brings reserved a = false
brings (saw_head bk_head) a = false
brings (saw_head_next bk_head bk_next) a = false
brings (saw_both bk_head bk_next bk_tail) a = false
brings (saw_all bk_head bk_next bk_tail bk_tail_next) a = false
brings (loaded bk_head bk_next value) a = false
brings (removed bk_head value) a = false

-- The node that a thread has for itself: one that it is going to append, or that it took off.
unfoldable pub owns : QueueThread → ℕ → Bool
owns resting a = false
owns (enqueuing new_node) a = a == new_node
owns (saw_tail new_node bk_tail) a = a == new_node
owns (saw_tail_next new_node bk_tail bk_next) a = a == new_node
owns (appended new_node bk_tail) a = false
owns counting a = false
owns dequeuing a = false
owns turned_away a = false
owns reserved a = false
owns (saw_head bk_head) a = false
owns (saw_head_next bk_head bk_next) a = false
owns (saw_both bk_head bk_next bk_tail) a = false
owns (saw_all bk_head bk_next bk_tail bk_tail_next) a = false
owns (loaded bk_head bk_next value) a = false
owns (removed bk_head value) a = a == real bk_head

-- The part of the state that threads look at: the nodes, the addresses of the head and of the tail,
-- and the nodes behind the head.
pub record View : Type 0 where
  pub nodes : ℕ → QueueNode
  pub code : ℕ
  pub hd : ℕ
  pub tl : ℕ
  pub behind : List ℕ

unfoldable pub view : Queue → List ℕ → View
view q bs = record {
  nodes = q.nodes;
  code = q.my_code;
  hd = real q.head;
  tl = real q.tail;
  behind = bs;
}

-- A node of the list that was its head still is.
abbrev pub StaysHead : View → ℕ → Type 0
StaysHead v h = on (v.hd ∷ v.behind) h ≡ true → v.hd ≡ h

-- The next node that was read is there still; it is not the code.
abbrev pub IsNext : View → ℕ → ℕ → Type 0
IsNext v a x = (x ≢ v.code) × ((v.nodes a).next ≡ x)

-- What the local variables of a thread still say. Of a `Dequeue` whose head is the head still: the
-- tail that it read is not behind the tail of now, so that its exchange does not pass the tail.
abbrev pub IsSound : View → QueueThread → Type 0
IsSound v resting = Unit {0}
IsSound v (enqueuing new_node) = Unit {0}
IsSound v (saw_tail new_node bk_tail) = Unit {0}
IsSound v (saw_tail_next new_node bk_tail bk_next) =
    bk_next ≢ v.code → (v.nodes (real bk_tail)).next ≡ bk_next
IsSound v (appended new_node bk_tail) = IsNext v (real bk_tail) new_node
IsSound v counting = Unit {0}
IsSound v dequeuing = Unit {0}
IsSound v turned_away = Unit {0}
IsSound v reserved = Unit {0}
IsSound v (saw_head bk_head) = StaysHead v (real bk_head)
IsSound v (saw_head_next bk_head bk_next) =
    StaysHead v (real bk_head) × IsNext v (real bk_head) bk_next
IsSound v (saw_both bk_head bk_next bk_tail) =
    StaysHead v (real bk_head)
    × IsNext v (real bk_head) bk_next
    × (v.hd ≡ real bk_head → v.tl ≡ v.hd → real bk_tail ≡ v.hd)
IsSound v (saw_all bk_head bk_next bk_tail bk_tail_next) =
    StaysHead v (real bk_head)
    × IsNext v (real bk_head) bk_next
    × (bk_tail_next ≢ v.code → (v.nodes (real bk_tail)).next ≡ bk_tail_next)
    × (bk_tail_next ≡ v.code → v.hd ≡ real bk_head → v.tl ≢ v.hd)
IsSound v (loaded bk_head bk_next value) =
    StaysHead v (real bk_head)
    × IsNext v (real bk_head) bk_next
    × (v.hd ≡ real bk_head → v.tl ≢ v.hd)
    × (v.hd ≡ real bk_head → (v.nodes bk_next).data_ ≡ value)
IsSound v (removed bk_head value) = Unit {0}

-- A node that a thread has for itself is in use, and not in the list.
pub record IsOwned (in_use : ℕ → Bool) (cs : List ℕ) (a : ℕ) : Type 0 where
  pub used : in_use a ≡ true
  pub apart : on cs a ≡ false

-- A node that is not appended so far has the code behind it, and no thread looks at it.
pub record IsFresh (v : View) (threads : ℕ → QueueThread) (a : ℕ) : Type 0 where
  pub last : (v.nodes a).next ≡ v.code
  pub low : a < 2 ^ 47
  pub unseen : (j : ℕ) → looks (threads j) a ≡ false

-- What a thread looks at is in the list, or has a node behind it.
abbrev pub IsSeen : View → ℕ → Type 0
IsSeen v a = (on (v.hd ∷ v.behind) a ≡ true) ⊎ ((v.nodes a).next ≢ v.code)

-- The nodes of the list.
pub record IsLinked (v : View) (in_use : ℕ → Bool) : Type 0 where
  pub chain : IsList v.code v.nodes v.hd v.behind
  pub distinct : IsDistinct (v.hd ∷ v.behind)
  pub tail_on : on (v.hd ∷ v.behind) v.tl ≡ true
  pub low : (a : ℕ) → on (v.hd ∷ v.behind) a ≡ true → a < 2 ^ 47
  pub used : (a : ℕ) → on (v.hd ∷ v.behind) a ≡ true → in_use a ≡ true
  pub high : 2 ^ 47 ≤ v.code

-- The threads, and what they have and know.
pub record IsShared (v : View) (in_use : ℕ → Bool) (threads : ℕ → QueueThread) : Type 0 where
  pub owned : (i a : ℕ) → owns (threads i) a ≡ true → IsOwned in_use (v.hd ∷ v.behind) a
  pub once : (i j a : ℕ) → i ≢ j → owns (threads i) a ≡ true → owns (threads j) a ≡ false
  pub fresh : (i a : ℕ) → brings (threads i) a ≡ true → IsFresh v threads a
  pub seen : (i a : ℕ) → looks (threads i) a ≡ true → IsSeen v a
  pub sound : (i : ℕ) → IsSound v (threads i)

pub brings-owns : (th : QueueThread) (a : ℕ) → brings th a ≡ true → owns th a ≡ true
unfolding brings owns
brings-owns resting a h = h
brings-owns (enqueuing new_node) a h = h
brings-owns (saw_tail new_node bk_tail) a h = h
brings-owns (saw_tail_next new_node bk_tail bk_next) a h = h
brings-owns (appended new_node bk_tail) a h = h
brings-owns counting a h = h
brings-owns dequeuing a h = h
brings-owns turned_away a h = h
brings-owns reserved a h = h
brings-owns (saw_head bk_head) a h = h
brings-owns (saw_head_next bk_head bk_next) a h = h
brings-owns (saw_both bk_head bk_next bk_tail) a h = h
brings-owns (saw_all bk_head bk_next bk_tail bk_tail_next) a h = h
brings-owns (loaded bk_head bk_next value) a h = h
brings-owns (removed bk_head value) a h = ground arith
