-- ===== src/Base/Mod.antt =====
-- Remainders under addition.
use Prim.Native.Nat.{ℕ, ◌+◌, ◌-◌, ◌%◌, ◌<◌, ◌≤◌}
use mathlib.Core.Path.{ap, ◌≡◌, sym, ◌∙◌}
use mathlib.Core.Logic.{◌≢◌, ◌⊎◌, inl, inr}
use native.Mathlib.Nat.{mod-add-mod, mod-eq_of_lt, mod-eq-sub-mod, mod-lt}
use native.Mathlib.Omega.{arith}

-- A step that stays below the modulus adds to the remainder.
pub mod-add_below : (t k m : ℕ) → t % m + k < m → (t + k) % m ≡ t % m + k
mod-add_below t k m h = rw (← mod-add-mod) (mod-eq_of_lt h)

-- A step that reaches the modulus leaves no remainder.
pub mod-add_wrap : (t k m : ℕ) → 0 < m → t % m + k ≡ m → (t + k) % m ≡ 0
mod-add_wrap t k m p h = grind (arith, mod-add-mod)

-- Numbers that are less than the modulus apart have different remainders.
pub mod-ne_near : (a b m : ℕ) → a < b → b < a + m → a % m ≢ b % m
mod-ne_near a b m lt near e = elim (cases (a % m + (b - a))) [
  | inl below ↦
      let same : a % m ≡ a % m + (b - a) = shifted ∙ mod-eq_of_lt below in omega (arith, same, lt)
  | inr over ↦
      let low : a % m < m = mod-lt a (omega (arith, lt, near)) in
      let same : a % m ≡ a % m + (b - a) - m =
        shifted ∙ mod-eq-sub-mod over ∙ mod-eq_of_lt (omega (arith, low, lt, near)) in
      omega (arith, same, lt, near, low, over)
]
  where
    cases : (n : ℕ) → (n < m) ⊎ (m ≤ n)
    cases n = grind arith

    back : a + (b - a) ≡ b
    back = omega (arith, lt)

    shifted : a % m ≡ (a % m + (b - a)) % m
    shifted = e ∙ sym (mod-add-mod a m (b - a) ∙ ap (λ k. k % m) back)
