-- ===== src/Prelude/Lists.antt =====
-- Lists measured and indexed by native numbers, under the library's names, and memory copies.
use Prim.Native.Nat.{ℕ, zero, suc, ◌+◌, ◌-◌, ◌≤◌, ◌<◌, min}
use mathlib.Core.Path.{◌≡◌, refl, ap, ap₂, ◌∙◌}
use mathlib.Core.Logic.{◌≢◌, ◌⊎◌}
use mathlib.Core.List.{List, [], ◌∷◌, ◌++◌}
use native.Mathlib.Nat.{add-zero, zero-add, add_comm}
use native.Mathlib.Numerals.{add-one}
use native.Mathlib.Omega.{arith}

module _ {ℓ} {A : Type ℓ} where
  abbrev pub length : List A → ℕ
  length [] = 0
  length (x ∷ xs) = suc (length xs)

  -- A write out of bounds changes nothing.
  abbrev pub set : List A → ℕ → A → List A
  set [] i v = []
  set (x ∷ xs) zero v = v ∷ xs
  set (x ∷ xs) (suc i) v = x ∷ set xs i v

  abbrev pub get_or : List A → ℕ → A → A
  get_or [] i d = d
  get_or (x ∷ xs) zero d = x
  get_or (x ∷ xs) (suc i) d = get_or xs i d

  abbrev pub take : ℕ → List A → List A
  take zero xs = []
  take (suc n) [] = []
  take (suc n) (x ∷ xs) = x ∷ take n xs

  abbrev pub drop : ℕ → List A → List A
  drop zero xs = xs
  drop (suc n) [] = []
  drop (suc n) (x ∷ xs) = drop n xs

  pub length-append : (xs ys : List A) → length (xs ++ ys) ≡ length xs + length ys
  length-append [] ys = omega arith
  length-append (x ∷ xs) ys = omega (arith, length-append xs ys)

  pub length-set : (xs : List A) (i : ℕ) (v : A) → length (set xs i v) ≡ length xs
  length-set [] i v = refl
  length-set (x ∷ xs) zero v = refl
  length-set (x ∷ xs) (suc i) v = ap suc (length-set xs i v)

  pub length-take : (n : ℕ) (xs : List A) → length (take n xs) ≡ min n (length xs)
  length-take zero xs = omega arith
  length-take (suc n) [] = omega arith
  length-take (suc n) (x ∷ xs) = omega (arith, length-take n xs)

  pub length-drop : (n : ℕ) (xs : List A) → length (drop n xs) ≡ length xs - n
  length-drop zero xs = omega arith
  length-drop (suc n) [] = omega arith
  length-drop (suc n) (x ∷ xs) = omega (arith, length-drop n xs)

  pub take-length : (n : ℕ) (xs : List A) → length xs ≤ n → take n xs ≡ xs
  take-length zero [] h = refl
  take-length zero (x ∷ xs) h = absurd (omega arith)
  take-length (suc n) [] h = refl
  take-length (suc n) (x ∷ xs) h = ap (λ l. x ∷ l) (take-length n xs (omega arith))

  pub drop-length : (n : ℕ) (xs : List A) → length xs ≤ n → drop n xs ≡ []
  drop-length zero [] h = refl
  drop-length zero (x ∷ xs) h = absurd (omega arith)
  drop-length (suc n) [] h = refl
  drop-length (suc n) (x ∷ xs) h = drop-length n xs (omega arith)

  pub take-nil : (n : ℕ) → take n [] ≡ []
  take-nil zero = refl
  take-nil (suc n) = refl

  -- A prefix taken in two steps.
  pub take-append-take : (m n : ℕ) (xs : List A) → take m xs ++ take n (drop m xs) ≡ take (m + n) xs
  take-append-take zero n xs = ap (λ k. take k xs) (omega arith)
  take-append-take (suc m) n [] = rw (take-nil n, take-nil (suc m + n))
  take-append-take (suc m) n (x ∷ xs) =
      ap (λ l. x ∷ l) (take-append-take m n xs)
      ∙ ap (λ k. take k (x ∷ xs)) {x = suc (m + n)} {y = suc m + n} (omega arith)

  pub take-append : (xs ys : List A) (n : ℕ) → length xs ≡ n → take n (xs ++ ys) ≡ xs
  take-append [] ys zero e = refl
  take-append [] ys (suc n) e = absurd (omega arith)
  take-append (x ∷ xs) ys zero e = absurd (omega arith)
  take-append (x ∷ xs) ys (suc n) e = ap (λ l. x ∷ l) (take-append xs ys n (omega arith))

  pub drop-append : (xs ys : List A) (n : ℕ) → length xs ≡ n → drop n (xs ++ ys) ≡ ys
  drop-append [] ys zero e = refl
  drop-append [] ys (suc n) e = absurd (omega arith)
  drop-append (x ∷ xs) ys zero e = absurd (omega arith)
  drop-append (x ∷ xs) ys (suc n) e = drop-append xs ys n (omega arith)

  pub get_or-set_self :
      (xs : List A) (i : ℕ) (v d : A) → i < length xs → get_or (set xs i v) i d ≡ v
  get_or-set_self [] i v d h = absurd (omega arith)
  get_or-set_self (x ∷ xs) zero v d h = refl
  get_or-set_self (x ∷ xs) (suc i) v d h = get_or-set_self xs i v d (omega arith)

  pub get_or-set_ne :
      (xs : List A) (i j : ℕ) (v d : A) → i ≢ j → get_or (set xs i v) j d ≡ get_or xs j d
  get_or-set_ne [] i j v d h = refl
  get_or-set_ne (x ∷ xs) zero zero v d h = absurd (h refl)
  get_or-set_ne (x ∷ xs) zero (suc j) v d h = refl
  get_or-set_ne (x ∷ xs) (suc i) zero v d h = refl
  get_or-set_ne (x ∷ xs) (suc i) (suc j) v d h = get_or-set_ne xs i j v d (λ e. h (ap suc e))

  -- `memcpy(buf + i, src, |src|)`: the bytes are stored one after another.
  unfoldable pub write_at : List A → ℕ → List A → List A
  write_at buf i [] = buf
  write_at buf i (x ∷ xs) = write_at (set buf i x) (i + 1) xs

  pub length-write_at :
      (buf : List A) (i : ℕ) (xs : List A) → length (write_at buf i xs) ≡ length buf
  unfolding write_at
  length-write_at buf i [] = refl
  length-write_at buf i (x ∷ xs) = length-write_at (set buf i x) (i + 1) xs ∙ length-set buf i x

  -- Bytes outside the copied range stay.
  pub get_or-write_at_out :
      (buf : List A) (i : ℕ) (xs : List A) (j : ℕ) (d : A)
      → (j < i) ⊎ (i + length xs ≤ j)
      → get_or (write_at buf i xs) j d ≡ get_or buf j d
  unfolding write_at
  get_or-write_at_out buf i [] j d h = refl
  get_or-write_at_out buf i (x ∷ xs) j d h =
      get_or-write_at_out (set buf i x) (i + 1) xs j d (omega arith)
      ∙ get_or-set_ne buf i j x d (omega arith)

  -- Bytes inside the copied range are the source's.
  pub get_or-write_at_in :
      (buf : List A) (i : ℕ) (xs : List A) (j : ℕ) (d : A)
      → j < length xs
      → i + length xs ≤ length buf
      → get_or (write_at buf i xs) (i + j) d ≡ get_or xs j d
  unfolding write_at
  get_or-write_at_in buf i [] j d h k = absurd (omega arith)
  get_or-write_at_in buf i (x ∷ xs) zero d h k = rw (add-zero i) (
      get_or-write_at_out (set buf i x) (i + 1) xs i d (omega arith)
      ∙ get_or-set_self buf i x d (omega arith))
  get_or-write_at_in buf i (x ∷ xs) (suc j) d h k =
      ap (λ k. get_or (write_at (set buf i x) (i + 1) xs) k d) (omega arith)
      ∙ get_or-write_at_in (set buf i x) (i + 1) xs j d (omega arith)
          (omega (arith, length-set buf i x))

  -- The `n` items of a buffer from index `i` on, as `memcpy` reads them; past the end it reads `d`.
  unfoldable pub read_at : A → List A → ℕ → ℕ → List A
  read_at d buf i zero = []
  read_at d buf i (suc n) = get_or buf i d ∷ read_at d buf (i + 1) n

  pub length-read_at : (d : A) (buf : List A) (i n : ℕ) → length (read_at d buf i n) ≡ n
  unfolding read_at
  length-read_at d buf i zero = refl
  length-read_at d buf i (suc n) = ap suc (length-read_at d buf (i + 1) n)

  -- Two buffers that agree on a range read the same there.
  pub read_at-ext :
      (d : A) (xs ys : List A) (i k n : ℕ)
      → ((j : ℕ) → j < n → get_or xs (i + j) d ≡ get_or ys (k + j) d)
      → read_at d xs i n ≡ read_at d ys k n
  unfolding read_at
  read_at-ext d xs ys i k zero h = refl
  read_at-ext d xs ys i k (suc n) h = ap₂ ◌∷◌ (rw (add-zero i, add-zero k) at (h 0 (omega arith))) (
      read_at-ext d xs ys (i + 1) (k + 1) n λ j lt.
        ap (λ t. get_or xs t d) (omega arith)
        ∙ h (suc j) (omega arith)
        ∙ ap (λ t. get_or ys t d) (omega arith))

  pub read_at-all : (d : A) (xs : List A) → read_at d xs 0 (length xs) ≡ xs
  unfolding read_at
  read_at-all d [] = refl
  read_at-all d (x ∷ xs) =
      ap (λ l. x ∷ l)
        (read_at-ext d (x ∷ xs) xs 1 0 (length xs) (λ j lt.
            ap (λ t. get_or (x ∷ xs) t d) (add_comm 1 j ∙ add-one j)
            ∙ ap (λ t. get_or xs t d) (omega arith))
          ∙ read_at-all d xs)

  -- What was copied in is read back.
  pub read_at-write_at :
      (d : A) (buf : List A) (i : ℕ) (xs : List A)
      → i + length xs ≤ length buf
      → read_at d (write_at buf i xs) i (length xs) ≡ xs
  read_at-write_at d buf i xs h =
      read_at-ext d (write_at buf i xs) xs i 0 (length xs)
        (λ j lt. get_or-write_at_in buf i xs j d lt h ∙ ap (λ t. get_or xs t d) (omega arith))
      ∙ read_at-all d xs

  pub get_or-read_at :
      (d : A) (xs : List A) (i n j : ℕ)
      → j < n
      → get_or (read_at d xs i n) j d ≡ get_or xs (i + j) d
  unfolding read_at
  get_or-read_at d xs i zero j lt = absurd (omega arith)
  get_or-read_at d xs i (suc n) zero lt = ap (λ k. get_or xs k d) {x = i} {y = i + 0} (omega arith)
  get_or-read_at d xs i (suc n) (suc j) lt =
      get_or-read_at d xs (i + 1) n j (omega arith)
      ∙ ap (λ k. get_or xs k d) {x = i + 1 + j} {y = i + suc j} (omega arith)

  pub read_at-nil : (d : A) (xs : List A) (i : ℕ) → read_at d xs i 0 ≡ []
  unfolding read_at
  read_at-nil d xs i = refl

  pub read_at-append :
      (d : A) (xs : List A) (i m n : ℕ)
      → read_at d xs i (m + n) ≡ read_at d xs i m ++ read_at d xs (i + m) n
  unfolding read_at
  read_at-append d xs i zero n = rw (add-zero i, zero-add n)
  read_at-append d xs i (suc m) n =
      ap (read_at d xs i) {x = suc m + n} {y = suc (m + n)} (omega arith)
      ∙ ap (λ l. get_or xs i d ∷ l)
          (read_at-append d xs (i + 1) m n
            ∙ ap (λ k. read_at d xs (i + 1) m ++ read_at d xs k n) {x = i + 1 + m} {y = i + suc m}
                (omega arith))

  -- A store before the range that is read.
  pub read_at-set_before :
      (d : A) (xs : List A) (i j n : ℕ) (v : A)
      → j < i
      → read_at d (set xs j v) i n ≡ read_at d xs i n
  read_at-set_before d xs i j n v lt =
      read_at-ext d (set xs j v) xs i i n λ k below. get_or-set_ne xs j (i + k) v d (omega arith)

  pub read_at-write_at_out :
      (d : A) (buf : List A) (i : ℕ) (xs : List A) (k n : ℕ)
      → (k + n ≤ i) ⊎ (i + length xs ≤ k)
      → read_at d (write_at buf i xs) k n ≡ read_at d buf k n
  read_at-write_at_out d buf i xs k n h =
      read_at-ext d (write_at buf i xs) buf k k n
        λ j below. get_or-write_at_out buf i xs (k + j) d (omega arith)
