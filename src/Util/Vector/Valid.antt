-- ===== src/Util/Vector/Valid.antt =====
-- When a vector of util/vector.c is in order, and how it grows.
use c8005_assn.Base.{ℕ, ◌+◌, ◌*◌, ◌/◌, ◌^◌, ◌≤◌, ◌<◌, ◌≡◌, arith, length, length-take, size_mod}
use c8005_assn.Util.Vector.{Vector, contents}

-- The block has the capacity's items, and the size is within it.
pub record IsValid {A : Type 0} (v : Vector A) : Type 0 where
  pub block : length v.items ≡ v.cap
  pub within : v.size ≤ v.cap
  pub small : v.cap < size_mod

pub length-contents : {A : Type 0} {v : Vector A} → IsValid v → length (contents v) ≡ v.size
length-contents {v} h = omega (arith, length-take v.size v.items, h.block)

-- `roundf` of the product in `float`, which is exact for such a capacity.
pub record IsGrowth (grow : ℕ → ℕ) : Type 0 where
  pub rounds : (cap : ℕ) → cap < 2 ^ 22 → grow cap ≡ (3 * cap + 1) / 2
