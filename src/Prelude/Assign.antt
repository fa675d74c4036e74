-- ===== src/Prelude/Assign.antt =====
-- A function on addresses or indices that is assigned at one of them.
use Prim.Native.Nat.{ℕ}
use mathlib.Core.Path.{◌≡◌}
use mathlib.Core.Logic.{◌≢◌, inl, inr}
use native.Mathlib.Omega.{arith}
use login_server_chat.Prelude.Tests.{◌==◌, if◌then◌else◌, Bool-cases, ==_iff}

unfoldable pub assign {ℓ} : {A : Type ℓ} → (ℕ → A) → ℕ → A → ℕ → A
assign f i x j = if j == i then x else f j

-- Split on whether it is the cell that was assigned.
pub assign_elim {ℓ ℓ'} :
    {A : Type ℓ} (P : A → Type ℓ') (f : ℕ → A) (i : ℕ) (x : A) (j : ℕ)
    → (j ≡ i → P x)
    → (j ≢ i → P (f j))
    → P (assign f i x j)
unfolding assign
assign_elim P f i x j here there = elim (Bool-cases (j == i)) [
  | inl same ↦ rw same (here ((==_iff j i).0 same))
  | inr other ↦ rw other (there (ground arith))
]

pub assign_here {ℓ} : {A : Type ℓ} (f : ℕ → A) (i : ℕ) (x : A) → assign f i x i ≡ x
unfolding assign
assign_here f i x = ground arith

pub assign_there {ℓ} :
    {A : Type ℓ} (f : ℕ → A) (i : ℕ) (x : A) (j : ℕ) → j ≢ i → assign f i x j ≡ f j
unfolding assign
assign_there f i x j ne = ground arith
