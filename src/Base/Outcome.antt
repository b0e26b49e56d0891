-- ===== src/Base/Outcome.antt =====
-- The outcome of running C code: a value, a memory fault, or a loop that has not ended yet.
use Prim.Native.Nat.{ℕ}
use mathlib.Core.Path.{◌≡◌, refl, subst}

pub data Run {ℓ} (A : Type ℓ) : Type ℓ where
  ok : A → Run A
  fault : Run A  -- an access outside its block, or through NULL
  timeout : Run A  -- the fuel is used up

infixl 5 ◌>>=◌
abbrev pub ◌>>=◌ {ℓ κ} : {A : Type ℓ} {B : Type κ} → Run A → (A → Run B) → Run B
ok a >>= f = f a
fault >>= f = fault
timeout >>= f = timeout

-- The run ends with a value for which `P` holds.
abbrev pub Returns {ℓ} : {A : Type ℓ} → (A → Type 0) → Run A → Type 0
Returns P (ok a) = P a
Returns P fault = ⊥
Returns P timeout = ⊥

-- A run that returns has a value.
pub Returns-ok {ℓ} :
    {A : Type ℓ} (P : A → Type 0) (r : Run A) → Returns P r → (a : A) × (r ≡ ok a) × P a
Returns-ok P (ok a) h = (a, refl, h)
Returns-ok P fault h = absurd h
Returns-ok P timeout h = absurd h

-- If the run ends with a value, `P` holds for it.
abbrev pub Ensures {ℓ} : {A : Type ℓ} → (A → Type 0) → Run A → Type 0
Ensures P (ok a) = P a
Ensures P fault = Unit
Ensures P timeout = Unit

pub Ensures-bind {ℓ κ} :
    {A : Type ℓ} {B : Type κ} (P : A → Type 0) (Q : B → Type 0) (m : Run A) (f : A → Run B)
    → Ensures P m
    → ((a : A) → P a → Ensures Q (f a))
    → Ensures Q (m >>= f)
Ensures-bind P Q (ok a) f h k = k a h
Ensures-bind P Q fault f h k = tt
Ensures-bind P Q timeout f h k = tt

pub Ensures-after {ℓ κ} :
    {A : Type ℓ} {B : Type κ} (Q : B → Type 0) (m : Run A) (f : A → Run B)
    → ((a : A) → Ensures Q (f a))
    → Ensures Q (m >>= f)
Ensures-after Q (ok a) f k = k a
Ensures-after Q fault f k = tt
Ensures-after Q timeout f k = tt

pub Returns-bind {ℓ κ} :
    {A : Type ℓ} {B : Type κ} (P : A → Type 0) (Q : B → Type 0) (m : Run A) (f : A → Run B)
    → Returns P m
    → ((a : A) → P a → Returns Q (f a))
    → Returns Q (m >>= f)
Returns-bind P Q (ok a) f h k = k a h
Returns-bind P Q fault f h k = h
Returns-bind P Q timeout f h k = h

-- The run does not use up its fuel, and `P` holds for the value that it ends with.
abbrev pub Stops {ℓ} : {A : Type ℓ} → (A → Type 0) → Run A → Type 0
Stops P (ok a) = P a
Stops P fault = Unit
Stops P timeout = ⊥

pub Stops-bind {ℓ κ} :
    {A : Type ℓ} {B : Type κ} (P : A → Type 0) (Q : B → Type 0) (m : Run A) (f : A → Run B)
    → Stops P m
    → ((a : A) → P a → Stops Q (f a))
    → Stops Q (m >>= f)
Stops-bind P Q (ok a) f h k = k a h
Stops-bind P Q fault f h k = tt
Stops-bind P Q timeout f h k = absurd h

pub Stops-weaken {ℓ} :
    {A : Type ℓ} (P Q : A → Type 0) (m : Run A) → Stops P m → ((a : A) → P a → Q a) → Stops Q m
Stops-weaken P Q (ok a) h k = k a h
Stops-weaken P Q fault h k = tt
Stops-weaken P Q timeout h k = absurd h

-- A run that does not use up its fuel, and of whose value `P` holds if there is one.
pub Stops-both {ℓ} :
    {A : Type ℓ} (P : A → Type 0) (m : Run A) → Stops (λ _. Unit) m → Ensures P m → Stops P m
Stops-both P (ok a) h e = e
Stops-both P fault h e = tt
Stops-both P timeout h e = absurd h

-- Where a loop can stand before one of its rounds; a round is given some fuel, and the loop goes on
-- where its result is `go`.
pub data Turns {A B : Type 0} (step : ℕ → A → Run (B × A)) (go : B) (a : A) : A → Type 0 where
  first : Turns step go a a
  turn : (fuel : ℕ) {b c : A} → Turns step go a b → step fuel b ≡ ok (go, c) → Turns step go a c

-- What each round keeps holds before every round.
pub Turns-keeps :
    {A B : Type 0} (step : ℕ → A → Run (B × A)) (go : B) (P : A → Type 0)
    → ((fuel : ℕ) (a : A) → P a → Ensures (λ r. P r.1) (step fuel a))
    → {a b : A} → P a
    → Turns step go a b
    → P b
Turns-keeps step go P keeps p first = p
Turns-keeps step go P keeps p (turn fuel {b} t e) =
    subst (Ensures (λ r. P r.1)) e (keeps fuel b (Turns-keeps step go P keeps p t))

pub Ensures-both {ℓ} :
    {A : Type ℓ} (P Q : A → Type 0) (m : Run A)
    → Ensures P m
    → Ensures Q m
    → Ensures (λ a. P a × Q a) m
Ensures-both P Q (ok a) h k = (h, k)
Ensures-both P Q fault h k = tt
Ensures-both P Q timeout h k = tt

pub Ensures-weaken {ℓ} :
    {A : Type ℓ} (P Q : A → Type 0) (m : Run A) → Ensures P m → ((a : A) → P a → Q a) → Ensures Q m
Ensures-weaken P Q (ok a) h k = k a h
Ensures-weaken P Q fault h k = tt
Ensures-weaken P Q timeout h k = tt

pub Returns-Ensures {ℓ} : {A : Type ℓ} (P : A → Type 0) (m : Run A) → Returns P m → Ensures P m
Returns-Ensures P (ok a) h = h
Returns-Ensures P fault h = tt
Returns-Ensures P timeout h = tt

-- What is known of the value of a run that has one.
pub Ensures-ok {ℓ} :
    {A : Type ℓ} (P : A → Type 0) (m : Run A) (a : A) → Ensures P m → m ≡ ok a → P a
Ensures-ok P m a h e = subst (Ensures P) e h
