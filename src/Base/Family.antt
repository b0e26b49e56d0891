-- ===== src/Base/Family.antt =====
-- Arrays as functions of the index: writing an element, and counting those that pass a test.
use Prim.Native.Nat.{ℕ, zero, suc, ◌+◌, ◌≤◌, ◌<◌}
use mathlib.Core.Path.{◌≡◌, refl, subst}
use mathlib.Core.Bool.{Bool, true, false}
use native.Mathlib.Omega.{arith}
use native.Mathlib.Decide.{dec_lt}
use c8005_assn.Base.Tests.{◌==◌, if◌then◌else◌}

abbrev pub update {ℓ} : {A : Type ℓ} → (ℕ → A) → ℕ → A → ℕ → A
update f i a j = if i == j then a else f j

abbrev pub one_if : Bool → ℕ
one_if true = 1
one_if false = 0

module _ {ℓ} {A : Type ℓ} (p : A → Bool) where
  -- How many of the first `n` elements pass the test.
  pub count : ℕ → (ℕ → A) → ℕ
  count zero f = 0
  count (suc n) f = count n f + one_if (p (f n))

  count-update_above :
      (n : ℕ) (f : ℕ → A) (i : ℕ) (a : A) → n ≤ i → count n (update f i a) ≡ count n f
  unfolding count
  count-update_above zero f i a h = refl
  count-update_above (suc n) f i a h = ground (arith, count-update_above n f i a)

  pub count-update :
      (n : ℕ) (f : ℕ → A) (i : ℕ) (a : A)
      → i < n
      → count n (update f i a) + one_if (p (f i)) ≡ count n f + one_if (p a)
  unfolding count
  count-update zero f i a h = elim h [ ]
  count-update (suc n) f i a h = elim (dec_lt i n) [
    | yes below ↦ ground (arith, count-update n f i a below)
    | no last ↦ ground (arith, count-update_above n f i a)
  ]

-- One element more.
pub count-push {ℓ} :
    {A : Type ℓ} (p : A → Bool) (n : ℕ) (f : ℕ → A) (a : A)
    → count p (suc n) (update f n a) ≡ count p n f + one_if (p a)
unfolding count
count-push p n f a =
    let same : update f n a n ≡ a = ground arith in
    rw (count-update_above p n f n a (omega arith)) (rw same)

pub count-none {ℓ} :
    {A : Type ℓ} (p : A → Bool) (n : ℕ) (f : ℕ → A) → ((i : ℕ) → p (f i) ≡ false) → count p n f ≡ 0
unfolding count
count-none p zero f h = refl
count-none p (suc n) f h = ground (arith, count-none p n f h, h n)

-- An element that passes the test is counted.
pub count-some {ℓ} :
    {A : Type ℓ} (p : A → Bool) (n : ℕ) (f : ℕ → A) (i : ℕ)
    → i < n
    → p (f i) ≡ true
    → 1 ≤ count p n f
unfolding count
count-some p zero f i h e = elim h [ ]
count-some p (suc n) f i h e = elim (dec_lt i n) [
  | yes below ↦ ground (arith, count-some p n f i below e)
  | no last ↦
      let same : i ≡ n = omega arith in
      let q : p (f n) ≡ true = subst (λ k. p (f k) ≡ true) same e in ground (arith, q)
]
