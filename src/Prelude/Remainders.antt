-- ===== src/Prelude/Remainders.antt =====
-- Remainders of numbers that go round at most once.
use Prim.Native.Nat.{ℕ, suc, ◌+◌, ◌-◌, ◌%◌, ◌≤◌, ◌<◌}
use mathlib.Core.Path.{◌≡◌, ◌∙◌, ap}
use mathlib.Core.Logic.{◌⊎◌, inl, inr}
use native.Mathlib.Decide.{dec_lt}
use native.Mathlib.Nat.{mod-eq_of_lt, mod-eq-sub-mod, mod-add-mod}
use native.Mathlib.Omega.{arith}

pub mod_round : (x t : ℕ) → x < t + t → ((x < t) × (x % t ≡ x)) ⊎ ((t ≤ x) × (x % t ≡ x - t))
mod_round x t h = elim (dec_lt x t) [
  | yes p ↦ inl (p, mod-eq_of_lt p)
  | no p ↦ inr (
    omega arith,
    mod-eq-sub-mod {n = x} {m = t} (omega arith) ∙ mod-eq_of_lt {n = x - t} {m = t} (omega arith),
  )
]

-- One step round, and then `n` more.
pub step_round : (h n t : ℕ) → ((h + 1) % t + n) % t ≡ (h + suc n) % t
step_round h n t = rw mod-add-mod (ap (λ k. k % t) {x = h + 1 + n} {y = h + suc n} (omega arith))
