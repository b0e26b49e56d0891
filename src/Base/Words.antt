-- ===== src/Base/Words.antt =====
-- Machine words: `size_t` arithmetic, and a `uint32_t` as its four bytes, lowest first.
use Prim.Native.Nat.{ℕ, zero, suc, ◌+◌, ◌-◌, ◌*◌, ◌/◌, ◌%◌, ◌^◌, ◌<◌}
use mathlib.Core.Path.{◌≡◌, refl, ap}
use mathlib.Core.List.{◌++◌, List, [], ◌∷◌}
use native.Mathlib.Omega.{arith}
use c8005_assn.Base.Lists.{write_at, length}

abbrev pub size_mod : ℕ
size_mod = 2 ^ 64

abbrev pub add_size : ℕ → ℕ → ℕ
add_size a b = (a + b) % size_mod

-- `-` on ℕ stops at 0, so the modulus is added first.
abbrev pub sub_size : ℕ → ℕ → ℕ
sub_size a b = (a + size_mod - b % size_mod) % size_mod

abbrev pub u32 : ℕ → ℕ
u32 n = n % 2 ^ 32

abbrev pub u16 : ℕ → ℕ
u16 n = n % 2 ^ 16

-- What a little-endian machine reads from the bytes of an unsigned integer.
abbrev pub decode : List ℕ → ℕ
decode [] = 0
decode (b ∷ bs) = b + 256 * decode bs

-- The bytes of an integer that is `k` bytes wide.
abbrev pub encode : ℕ → ℕ → List ℕ
encode zero n = []
encode (suc k) n = n % 256 ∷ encode k (n / 256)

pub length-encode : (k n : ℕ) → length (encode k n) ≡ k
length-encode zero n = refl
length-encode (suc k) n = ap suc (length-encode k (n / 256))

pub decode-encode : (n : ℕ) → n < 2 ^ 32 → decode (encode 4 n) ≡ n
decode-encode n h = omega arith

-- Each number fits a byte.
abbrev pub IsBytes : List ℕ → Type 0
IsBytes [] = Unit
IsBytes (b ∷ bs) = (b < 256) × IsBytes bs

pub IsBytes-append : (bs cs : List ℕ) → IsBytes (bs ++ cs) → IsBytes bs × IsBytes cs
IsBytes-append [] cs h = (tt, h)
IsBytes-append (b ∷ bs) cs (small, h) =
    let (left, right) = IsBytes-append bs cs h in ((small, left), right)

pub IsBytes-write_at :
    (xs : List ℕ) (i : ℕ) (bs : List ℕ) → IsBytes xs → IsBytes bs → IsBytes (write_at xs i bs)
IsBytes-write_at [] i bs h k = tt
IsBytes-write_at (x ∷ xs) zero [] h k = h
IsBytes-write_at (x ∷ xs) zero (b ∷ bs) (small, h) (fits, k) =
    (fits, IsBytes-write_at xs zero bs h k)
IsBytes-write_at (x ∷ xs) (suc i) bs (small, h) k = (small, IsBytes-write_at xs i bs h k)

-- Four bytes hold an integer of 32 bits.
pub decode-IsBytes : (bs : List ℕ) → length bs ≡ 4 → IsBytes bs → decode bs < 2 ^ 32
decode-IsBytes (a ∷ b ∷ c ∷ d ∷ []) n (p, (q, (r, (s, _)))) = omega arith
decode-IsBytes [] n h = absurd (omega (arith, n))
decode-IsBytes (a ∷ []) n h = absurd (omega (arith, n))
decode-IsBytes (a ∷ b ∷ []) n h = absurd (omega (arith, n))
decode-IsBytes (a ∷ b ∷ c ∷ []) n h = absurd (omega (arith, n))
decode-IsBytes (a ∷ b ∷ c ∷ d ∷ e ∷ es) n h = absurd (omega (arith, n))
