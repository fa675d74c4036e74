-- ===== src/RingBuffer/Dequeue.antt =====
-- `Dequeue` and `Peek` against the bytes that the ring holds.
use native.Mathlib.Nat.{mod-lt, mod-add-mod}
use login_server_chat.Prelude.{
  ℕ, ◌+◌, ◌-◌, ◌%◌, ◌≤◌, ◌<◌, ◌==◌, ltb, if◌then◌else◌, ◌++◌, take, drop, min, read_at, mod_round,
  ◌≡◌, refl, ap, ap₂, ◌∙◌, sym, arith, Bool-cases, inl, inr, ==_iff,
}
use login_server_chat.RingBuffer.{Ring, get_use_size, get_buffer_size, dequeue_run, dequeue}
use login_server_chat.RingBuffer.Invariant.{
  IsValid, rear_lem, use-add-free, Readable_lem, use_empty, left_lem,
}
use login_server_chat.RingBuffer.Window.{
  contents, window, window-run, window-append, take-window, drop-window,
}
use login_server_chat.RingBuffer.Enqueue.{use_unique}

-- `r'` is the valid ring `r` without its `n` oldest bytes.
pub record Removed (r : Ring) (n : ℕ) (r' : Ring) : Type 0 where
  pub valid : IsValid r'
  pub same_size : r'.total_size ≡ r.total_size
  pub used : get_use_size r' + n ≡ get_use_size r
  pub bytes : contents r' ≡ drop n (contents r)

-- The `n` oldest bytes.
take-contents :
    {r : Ring} (n : ℕ)
    → IsValid r
    → n ≤ get_use_size r
    → take n (contents r) ≡ window r.buffer r.total_size (r.front_next % r.total_size) n
take-contents {r} n v le =
    ap (λ k. take n (window r.buffer r.total_size (r.front_next % r.total_size) k))
      {x = get_use_size r} {y = n + (get_use_size r - n)} (omega arith)
    ∙ take-window r.buffer r.total_size (r.front_next % r.total_size) n (get_use_size r - n)
        (mod-lt r.front_next (omega arith))

-- Moving the read position over `n` bytes in use removes them.
pub advance-Removed :
    {r : Ring} (n front' : ℕ)
    → IsValid r
    → n ≤ get_use_size r
    → 0 < front'
    → front' ≤ r.total_size
    → front' % r.total_size ≡ (r.front_next % r.total_size + n) % r.total_size
    → Removed r n (record r { front_next = front' })
unfolding get_buffer_size
advance-Removed {r} n front' v le pos fits e = record {
  valid = record {
    front_pos = pos;
    front_in = fits;
    rear_pos = v.rear_pos;
    rear_in = v.rear_in;
    cells = v.cells;
  };
  same_size = refl;
  used = omega (arith, left);
  bytes =
      rw (left, e)
        (sym (
          drop-window r.buffer r.total_size front n (get_use_size r - n)
            (mod-lt r.front_next (omega arith))))
      ∙ ap (λ k. drop n (window r.buffer r.total_size front k)) {x = n + (get_use_size r - n)}
          {y = get_use_size r} (omega arith);
}
  where
    front : ℕ
    front = r.front_next % r.total_size

    left : get_use_size (record r { front_next = front' }) ≡ get_use_size r - n
    left =
        use_unique (record r { front_next = front' }) (get_use_size r - n) pos fits v.rear_pos
          v.rear_in (omega (arith, use-add-free v))
          (ground (
            arith,
            use-add-free v,
            rear_lem v,
            mod_round r.front_next r.total_size,
            mod_round (front + get_use_size r) r.total_size,
            mod_round (front + n) r.total_size,
            mod_round (front' % r.total_size + (get_use_size r - n)) r.total_size,
          ))

Removed-zero : {r : Ring} → IsValid r → Removed r 0 r
Removed-zero v = record { valid = v; same_size = refl; used = omega arith; bytes = refl }

-- Two reads, of a run to the end of the buffer and of one from its start, are one window.
two_runs :
    {r : Ring} (run left front' : ℕ)
    → IsValid r
    → r.front_next % r.total_size + run ≤ r.total_size
    → front' ≡ (r.front_next % r.total_size + run) % r.total_size
    → front' + left ≤ r.total_size
    → run + left ≤ get_use_size r
    → read_at 0 r.buffer (r.front_next % r.total_size) run ++ read_at 0 r.buffer front' left
      ≡ take (run + left) (contents r)
two_runs {r} run left front' v fits e fits' le =
    ap₂ ◌++◌ (sym (window-run r.buffer r.total_size (r.front_next % r.total_size) run fits))
      (sym (window-run r.buffer r.total_size front' left fits'))
    ∙ rw (take-contents (run + left) v le, e)
        (sym (
          window-append r.buffer r.total_size (r.front_next % r.total_size) run left
            (mod-lt r.front_next (omega arith))))

one_run :
    {r : Ring} (n : ℕ)
    → IsValid r
    → r.front_next % r.total_size + n ≤ r.total_size
    → n ≤ get_use_size r
    → read_at 0 r.buffer (r.front_next % r.total_size) n ≡ take n (contents r)
one_run {r} n v fits le =
    sym (window-run r.buffer r.total_size (r.front_next % r.total_size) n fits)
    ∙ sym (take-contents n v le)

-- `Dequeue` of a positive size hands out the oldest bytes, as many as there are up to that size, in
-- order, removes exactly these, keeps the ring valid, and returns their number.
pub dequeue-Removed :
    {r : Ring} (size : ℕ)
    → IsValid r
    → 0 < size
    → let (out, n, r') = dequeue r size in
      (out ≡ take n (contents r)) × (n ≡ min size (get_use_size r)) × Removed r n r'
unfolding dequeue get_buffer_size
dequeue-Removed {r} size v pos = elim (Bool-cases (r.rear_next == r.front_next)) [
  | inl empty ↦ rw empty (refl, omega (arith, use_empty r ((==_iff _ _).0 empty)), Removed-zero v)
  | inr some_ ↦ rw some_ (
      let w = Readable_lem v (λ e. ground (arith, e)) in
      elim (Bool-cases (ltb run size)) [
        | inl more ↦ rw more (elim (Bool-cases (r.rear_next == front + run)) [
          | inl e ↦ rw e (
            one_run run v w.run_fits w.run_used,
            ground (arith, w.last ((==_iff _ _).0 e)),
            advance-Removed run (front + run) v w.run_used (omega (arith, w.run_pos)) w.run_fits
                refl,
          )
          | inr e ↦ rw e (
              let h = w.wraps (λ p. ground (arith, p)) in
              let l = left_lem run run' size (get_use_size r) more h.2 (total_run h) in
              (
                two_runs run left front' v w.run_fits refl (omega (arith, use-add-free v)) l.1,
                l.3,
                advance-Removed (run + left) (front' + left) v l.1 (omega arith)
                    (omega (arith, use-add-free v))
                    (mod-add-mod (front + run) r.total_size left
                      ∙ ap (λ k. k % r.total_size) {x = front + run + left}
                          {y = front + (run + left)} (omega arith)),
              ))
        ])
        | inr fits ↦ rw fits (
          one_run size v (ground (arith, w.run_fits)) (ground (arith, w.run_used)),
          ground (arith, w.run_used),
          advance-Removed size (front + size) v (ground (arith, w.run_used)) (omega arith)
              (ground (arith, w.run_fits)) refl,
        )
      ])
]
  where
    front : ℕ
    front = r.front_next % r.total_size

    run : ℕ
    run = dequeue_run front r.rear_next r.total_size

    front' : ℕ
    front' = (front + run) % r.total_size

    run' : ℕ
    run' = dequeue_run front' r.rear_next r.total_size

    left : ℕ
    left = if ltb run' (size - run) then run' else size - run

    total_run :
        (front' ≡ 0)
          × (run + dequeue_run 0 r.rear_next r.total_size ≡ get_use_size r)
          × (run < get_use_size r)
        → run + run' ≡ get_use_size r
    total_run h = rw h.0 h.1
