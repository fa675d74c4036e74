-- ===== src/Prelude/Totals.antt =====
-- The sum of a weight over the first values of a function on indices.
use Prim.Native.Nat.{ℕ, zero, suc, ◌+◌, ◌≤◌, ◌<◌}
use mathlib.Core.Path.{◌≡◌, refl, ap}
use mathlib.Core.Logic.{inl, inr}
use native.Mathlib.Omega.{arith}
use login_server_chat.Prelude.Tests.{◌==◌, Bool-cases, ==_iff}
use login_server_chat.Prelude.Assign.{assign, assign_here, assign_there}

abbrev pub total {ℓ} : {A : Type ℓ} → (A → ℕ) → (ℕ → A) → ℕ → ℕ
total w f zero = 0
total w f (suc n) = w (f n) + total w f n

pub total_outside {ℓ} :
    {A : Type ℓ} (w : A → ℕ) (f : ℕ → A) (i : ℕ) (x : A) (n : ℕ)
    → n ≤ i
    → total w (assign f i x) n ≡ total w f n
total_outside w f i x zero le = refl
total_outside w f i x (suc n) le =
    omega
      (arith, total_outside w f i x n (omega arith), ap w (assign_there f i x n (λ e. omega arith)))

pub total-assign {ℓ} :
    {A : Type ℓ} (w : A → ℕ) (f : ℕ → A) (i : ℕ) (x : A) (n : ℕ)
    → i < n
    → total w (assign f i x) n + w (f i) ≡ total w f n + w x
total-assign w f i x zero lt = omega arith
total-assign w f i x (suc n) lt = elim (Bool-cases (n == i)) [
  | inl same ↦
      let e : n ≡ i = (==_iff n i).0 same in
      omega (
        arith,
        total_outside w f i x n (omega arith),
        ap (λ k. w (f k)) e,
        ap (λ k. w (assign f i x k)) e,
        ap w (assign_here f i x),
      )
  | inr other ↦
      omega
        (arith, total-assign w f i x n (ground arith), ap w (assign_there f i x n (ground arith)))
]

pub total-le {ℓ} :
    {A : Type ℓ} (w : A → ℕ) (f : ℕ → A) (n : ℕ) → ((x : A) → w x ≤ 1) → total w f n ≤ n
total-le w f zero one = omega arith
total-le w f (suc n) one = omega (arith, one (f n), total-le w f n one)

-- A value without weight leaves room.
pub total-lt {ℓ} :
    {A : Type ℓ} (w : A → ℕ) (f : ℕ → A) (i n : ℕ)
    → ((x : A) → w x ≤ 1)
    → i < n
    → w (f i) ≡ 0
    → total w f n < n
total-lt w f i zero one lt none_ = omega arith
total-lt w f i (suc n) one lt none_ = elim (Bool-cases (n == i)) [
  | inl same ↦ omega (arith, total-le w f n one, ap (λ k. w (f k)) ((==_iff n i).0 same), none_)
  | inr other ↦ omega (arith, one (f n), total-lt w f i n one (ground arith) none_)
]

pub total-in {ℓ} : {A : Type ℓ} (w : A → ℕ) (f : ℕ → A) (i n : ℕ) → i < n → w (f i) ≤ total w f n
total-in w f i zero lt = omega arith
total-in w f i (suc n) lt = elim (Bool-cases (n == i)) [
  | inl same ↦ omega (arith, ap (λ k. w (f k)) ((==_iff n i).0 same))
  | inr other ↦ omega (arith, total-in w f i n (ground arith))
]

pub total_rest {ℓ} : {A : Type ℓ} (w : A → ℕ) (x : A) (n : ℕ) → w x ≡ 0 → total w (λ i. x) n ≡ 0
total_rest w x zero e = refl
total_rest w x (suc n) e = omega (arith, e, total_rest w x n e)
