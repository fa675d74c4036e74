-- ===== src/RingBuffer/Window.antt =====
-- The bytes that a ring holds, oldest first, and how copies change them.
use native.Mathlib.Nat.{mod-lt, mod-eq_of_lt, add-zero}
use login_server_chat.Prelude.{
  sym, take-append, drop-append, ℕ, zero, suc, ◌+◌, ◌%◌, ◌≤◌, ◌<◌, List, [], ◌∷◌, ◌++◌, take, drop,
  length, get_or, get_or-write_at_out, write_at, read_at, read_at-write_at, mod_round, step_round,
  ◌≡◌, refl, ap, ap₂, ◌∙◌, arith,
}
use login_server_chat.RingBuffer.{Ring, get_use_size}

-- The `n` bytes from cell `h` on, going round at `total`.
abbrev pub window : List ℕ → ℕ → ℕ → ℕ → List ℕ
window buf total h zero = []
window buf total h (suc n) = get_or buf h 0 ∷ window buf total ((h + 1) % total) n

-- What the ring holds.
abbrev pub contents : Ring → List ℕ
contents r = window r.buffer r.total_size (r.front_next % r.total_size) (get_use_size r)

module _ (buf : List ℕ) (total : ℕ) where
  pub length-window : (h n : ℕ) → length (window buf total h n) ≡ n
  length-window h zero = refl
  length-window h (suc n) = ap suc (length-window ((h + 1) % total) n)

  pub window-append :
      (h m n : ℕ)
      → h < total
      → window buf total h (m + n) ≡ window buf total h m ++ window buf total ((h + m) % total) n
  window-append h zero n lt =
      ap₂ (window buf total) {x = h} {y = (h + 0) % total} (sym (rw (add-zero h) (mod-eq_of_lt lt)))
        (omega arith)
  window-append h (suc m) n lt =
      ap (window buf total h) {x = suc m + n} {y = suc (m + n)} (omega arith)
      ∙ ap (λ l. get_or buf h 0 ∷ l)
          (window-append ((h + 1) % total) m n (mod-lt (h + 1) (omega arith))
            ∙ ap (λ k. window buf total ((h + 1) % total) m ++ window buf total k n)
                (step_round h m total))

  -- A run of cells that ends inside the buffer is read in one copy.
  pub window-run : (h n : ℕ) → h + n ≤ total → window buf total h n ≡ read_at 0 buf h n
  unfolding read_at
  window-run h zero le = refl
  window-run h (suc zero) le = refl
  window-run h (suc (suc n)) le =
      ap (λ l. get_or buf h 0 ∷ l)
        (rw (mod-eq_of_lt {n = h + 1} {m = total} (omega arith))
          (window-run (h + 1) (suc n) (omega arith)))

  pub take-window :
      (h m n : ℕ) → h < total → take m (window buf total h (m + n)) ≡ window buf total h m
  take-window h m n lt = rw (window-append h m n lt) (take-append _ _ m (length-window h m))

  pub drop-window :
      (h m n : ℕ)
      → h < total
      → drop m (window buf total h (m + n)) ≡ window buf total ((h + m) % total) n
  drop-window h m n lt = rw (window-append h m n lt) (drop-append _ _ m (length-window h m))

-- Windows agree where the cells do.
pub window-ext :
    (xs ys : List ℕ) (total h n : ℕ)
    → h < total
    → ((j : ℕ) → j < n → get_or xs ((h + j) % total) 0 ≡ get_or ys ((h + j) % total) 0)
    → window xs total h n ≡ window ys total h n
window-ext xs ys total h zero lt e = refl
window-ext xs ys total h (suc n) lt e =
    ap₂ ◌∷◌ (rw (add-zero h, mod-eq_of_lt lt) at (e 0 (omega arith))) (
      window-ext xs ys total ((h + 1) % total) n (mod-lt (h + 1) (omega arith))
        λ j below. rw (step_round h j total) (e (suc j) (omega arith)))

-- A copy into the free cells behind a window, which fit in a row, extends it by the copied bytes.
pub window-write_at :
    (buf : List ℕ) (total h n i : ℕ) (xs : List ℕ)
    → length buf ≡ total
    → h < total
    → n + length xs < total
    → i + length xs ≤ total
    → i ≡ (h + n) % total
    → window (write_at buf i xs) total h (n + length xs) ≡ window buf total h n ++ xs
window-write_at buf total h n i xs cells lt room fits e =
    window-append (write_at buf i xs) total h n (length xs) lt ∙ ap₂ ◌++◌ before after
  where
    before : window (write_at buf i xs) total h n ≡ window buf total h n
    before = window-ext (write_at buf i xs) buf total h n lt λ j below.
        get_or-write_at_out buf i xs ((h + j) % total) 0
          (omega (arith, mod_round (h + j) total, mod_round (h + n) total))

    after : window (write_at buf i xs) total ((h + n) % total) (length xs) ≡ xs
    after = rw (← e) (
        window-run (write_at buf i xs) total i (length xs) fits
        ∙ read_at-write_at 0 buf i xs (rw cells fits))
