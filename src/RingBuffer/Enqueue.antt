-- ===== src/RingBuffer/Enqueue.antt =====
-- `Enqueue` and `MoveRear` against the bytes that the ring holds.
use native.Mathlib.Nat.{mod-lt}
use login_server_chat.Prelude.{
  ℕ, ◌+◌, ◌-◌, ◌%◌, ◌≤◌, ◌<◌, ◌==◌, ltb, if◌then◌else◌, List, [], ◌++◌, take, drop, length, min,
  subst, length-append, length-take, length-drop, length-write_at, take-append-take, append-nil,
  append_assoc, write_at, mod_round, ◌≡◌, refl, ap, ◌∙◌, sym, arith, Bool-cases, inl, inr, ==_iff,
}
use login_server_chat.RingBuffer.{
  Ring, get_use_size, get_free_size, get_buffer_size, enqueue_run, enqueue,
}
use login_server_chat.RingBuffer.Invariant.{
  IsValid, rear_lem, use-add-free, Writable_lem, full_iff, left_lem,
}
use login_server_chat.RingBuffer.Window.{contents, window, window-write_at}

-- `r'` is the valid ring `r` with the bytes `xs` behind those that it held.
pub record Stored (r : Ring) (xs : List ℕ) (r' : Ring) : Type 0 where
  pub valid : IsValid r'
  pub same_size : r'.total_size ≡ r.total_size
  pub used : get_use_size r' ≡ get_use_size r + length xs
  pub bytes : contents r' ≡ contents r ++ xs

-- The two indices determine the number of bytes in use.
pub use_unique :
    (r : Ring) (m : ℕ)
    → 0 < r.front_next
    → r.front_next ≤ r.total_size
    → 0 < r.rear_next
    → r.rear_next ≤ r.total_size
    → m < r.total_size
    → r.rear_next % r.total_size ≡ (r.front_next % r.total_size + m) % r.total_size
    → get_use_size r ≡ m
unfolding get_use_size
use_unique r m a b c d lt e = ground (
  arith,
  mod_round r.rear_next r.total_size,
  mod_round r.front_next r.total_size,
  mod_round (r.front_next % r.total_size + m) r.total_size,
)

-- A copy of bytes into free cells that lie in a row, with the index moved behind them.
abbrev pub store : Ring → List ℕ → Ring
store r xs = record r {
  buffer = write_at r.buffer (r.rear_next % r.total_size) xs;
  rear_next = r.rear_next % r.total_size + length xs;
}

use_store :
    {r : Ring} (xs : List ℕ)
    → IsValid r
    → 0 < length xs
    → length xs ≤ get_free_size r
    → r.rear_next % r.total_size + length xs ≤ r.total_size
    → get_use_size (store r xs) ≡ get_use_size r + length xs
unfolding get_buffer_size
use_store {r} xs v pos free fits =
    use_unique (store r xs) (get_use_size r + length xs) v.front_pos v.front_in (omega arith) fits
      (omega (arith, use-add-free v))
      (ground (
        arith,
        use-add-free v,
        rear_lem v,
        mod_round r.front_next r.total_size,
        mod_round (r.front_next % r.total_size + get_use_size r) r.total_size,
        mod_round (r.rear_next % r.total_size + length xs) r.total_size,
        mod_round (r.front_next % r.total_size + (get_use_size r + length xs)) r.total_size,
      ))

pub store-Stored :
    {r : Ring} (xs : List ℕ)
    → IsValid r
    → 0 < length xs
    → length xs ≤ get_free_size r
    → r.rear_next % r.total_size + length xs ≤ r.total_size
    → Stored r xs (store r xs)
unfolding get_buffer_size
store-Stored {r} xs v pos free fits = record {
  valid = record {
    front_pos = v.front_pos;
    front_in = v.front_in;
    rear_pos = omega arith;
    rear_in = fits;
    cells = length-write_at r.buffer (r.rear_next % r.total_size) xs ∙ v.cells;
  };
  same_size = refl;
  used = use_store xs v pos free fits;
  bytes =
      ap (window (store r xs).buffer r.total_size (r.front_next % r.total_size))
        (use_store xs v pos free fits)
      ∙ window-write_at r.buffer r.total_size (r.front_next % r.total_size) (get_use_size r)
          (r.rear_next % r.total_size) xs v.cells (mod-lt r.front_next (omega arith))
          (omega (arith, use-add-free v)) fits (rear_lem v);
}

pub take-Stored :
    {r : Ring} (chars : List ℕ) (k : ℕ)
    → IsValid r
    → k ≤ length chars
    → 0 < k
    → k ≤ get_free_size r
    → r.rear_next % r.total_size + k ≤ r.total_size
    → Stored r (take k chars) (record r {
      buffer = write_at r.buffer (r.rear_next % r.total_size) (take k chars);
      rear_next = r.rear_next % r.total_size + k;
    })
take-Stored {r} chars k v enough pos free fits =
    subst
      (λ n. Stored r (take k chars) (record r {
        buffer = write_at r.buffer (r.rear_next % r.total_size) (take k chars);
        rear_next = r.rear_next % r.total_size + n;
      }))
      taken (store-Stored (take k chars) v (rw taken pos) (rw taken free) (rw taken fits))
  where
    taken : length (take k chars) ≡ k
    taken = omega (arith, length-take k chars)

pub Stored-nil : {r : Ring} → IsValid r → Stored r [] r
Stored-nil {r} v = record {
  valid = v;
  same_size = refl;
  used = omega arith;
  bytes = sym (append-nil (contents r));
}

pub Stored-trans :
    {r s t : Ring} (xs ys : List ℕ) → Stored r xs s → Stored s ys t → Stored r (xs ++ ys) t
Stored-trans {r} xs ys p q = record {
  valid = q.valid;
  same_size = q.same_size ∙ p.same_size;
  used = omega (arith, p.used, q.used, length-append xs ys);
  bytes = q.bytes ∙ rw p.bytes (append_assoc (contents r) xs ys);
}

-- The bytes free after a copy.
Stored-free :
    {r s : Ring} (xs : List ℕ)
    → IsValid r
    → Stored r xs s
    → get_free_size s + length xs ≡ get_free_size r
unfolding get_buffer_size
Stored-free xs v p = omega (arith, use-add-free v, use-add-free p.valid, p.used, p.same_size)

-- The second copy, at the start of the buffer.
pub second-Stored :
    {r : Ring} (chars : List ℕ) (run rear' left : ℕ)
    → IsValid r
    → run + left ≤ length chars
    → 0 < run
    → 0 < left
    → r.rear_next % r.total_size + run ≤ r.total_size
    → run + left ≤ get_free_size r
    → rear' ≡ (r.rear_next % r.total_size + run) % r.total_size
    → rear' ≡ 0
    → Stored r (take (run + left) chars) (record r {
      buffer =
          write_at
            (write_at r.buffer (r.rear_next % r.total_size) (take run chars))
            rear'
            (take left (drop run chars));
      rear_next = rear' + left;
    })
unfolding get_buffer_size
second-Stored {r} chars run rear' left v enough pos more fits free e zero_ =
    rw (← take-append-take run left chars, e)
      (Stored-trans (take run chars) (take left (drop run chars)) first (
        take-Stored (drop run chars) left first.valid (omega (arith, length-drop run chars)) more
          (omega (arith, Stored-free (take run chars) v first, length-take run chars))
          (omega (arith, use-add-free v))))
  where
    first : Stored r (take run chars) (record r {
      buffer = write_at r.buffer (r.rear_next % r.total_size) (take run chars);
      rear_next = r.rear_next % r.total_size + run;
    })
    first = take-Stored chars run v (omega arith) pos (omega arith) fits

-- `Enqueue` of a positive size stores as many of the bytes as fit, in order, behind those that the
-- ring holds, keeps the ring valid, and returns their number.
pub enqueue-Stored :
    {r : Ring} (chars : List ℕ) (size : ℕ)
    → IsValid r
    → 0 < size
    → size ≤ length chars
    → let (n, r') = enqueue r chars size in
      (n ≡ min size (get_free_size r)) × Stored r (take n chars) r'
unfolding enqueue
enqueue-Stored {r} chars size v pos enough = elim (Bool-cases (r.front_next == rear + 1)) [
  | inl full ↦ rw full (omega (arith, full_iff v ((==_iff _ _).0 full)), Stored-nil v)
  | inr room ↦ rw room (
      let w = Writable_lem v (λ e. ground (arith, e)) in
      elim (Bool-cases (ltb run size)) [
        | inl more ↦ rw more (elim (Bool-cases (rear' + 1 == r.front_next)) [
          | inl e ↦ rw e (
            ground (arith, w.last ((==_iff _ _).0 e)),
            take-Stored chars run v (ground arith) w.run_pos w.run_free w.run_fits,
          )
          | inr e ↦ rw e (
              let h = w.wraps (λ p. ground (arith, p)) in
              let l = left_lem run run' size (get_free_size r) more h.2 (total_run h) in
              (
                l.3,
                second-Stored chars run rear' left v (omega arith) w.run_pos l.0 w.run_fits l.1 refl
                    h.0,
              ))
        ])
        | inr fits ↦ rw fits (
          ground (arith, w.run_free),
          take-Stored chars size v enough pos (ground (arith, w.run_free))
              (ground (arith, w.run_fits)),
        )
      ])
]
  where
    rear : ℕ
    rear = r.rear_next % r.total_size

    run : ℕ
    run = enqueue_run 0 r.front_next rear r.total_size

    rear' : ℕ
    rear' = (rear + run) % r.total_size

    run' : ℕ
    run' = enqueue_run run r.front_next rear' r.total_size

    left : ℕ
    left = if ltb run' (size - run) then run' else size - run

    total_run :
        (rear' ≡ 0)
          × (run + enqueue_run run r.front_next 0 r.total_size ≡ get_free_size r)
          × (run < get_free_size r)
        → run + run' ≡ get_free_size r
    total_run h = rw h.0 h.1
