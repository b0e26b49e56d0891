-- ===== src/Base/Lists.antt =====
-- Lists measured and indexed by native numbers, and blocks of memory as lists.
use Prim.Native.Nat.{ℕ, zero, suc, ◌+◌, ◌-◌, ◌≤◌, ◌<◌, min}
use mathlib.Core.Path.{◌≡◌, refl, ap}
use mathlib.Core.Logic.{◌≢◌, ◌⊎◌, inl, inr}
use mathlib.Core.List.{List, [], ◌∷◌, ◌++◌}
use mathlib.Core.Option.{Option, none, some}
use native.Mathlib.Omega.{arith}

module _ {ℓ} {A : Type ℓ} where
  abbrev pub length : List A → ℕ
  length [] = 0
  length (x ∷ xs) = suc (length xs)

  abbrev pub get_elem? : List A → ℕ → Option A
  get_elem? [] i = none
  get_elem? (x ∷ xs) zero = some x
  get_elem? (x ∷ xs) (suc i) = get_elem? xs i

  abbrev pub set : List A → ℕ → A → List A
  set [] i v = []
  set (x ∷ xs) zero v = v ∷ xs
  set (x ∷ xs) (suc i) v = x ∷ set xs i v

  abbrev pub take : ℕ → List A → List A
  take zero xs = []
  take (suc n) [] = []
  take (suc n) (x ∷ xs) = x ∷ take n xs

  abbrev pub drop : ℕ → List A → List A
  drop zero xs = xs
  drop (suc n) [] = []
  drop (suc n) (x ∷ xs) = drop n xs

  abbrev pub replicate : ℕ → A → List A
  replicate zero a = []
  replicate (suc n) a = a ∷ replicate n a

  -- `memcpy` of `bs` to index `i` of a block; the callers check that it fits.
  abbrev pub write_at : List A → ℕ → List A → List A
  write_at [] i bs = []
  write_at (x ∷ xs) zero [] = x ∷ xs
  write_at (x ∷ xs) zero (b ∷ bs) = b ∷ write_at xs zero bs
  write_at (x ∷ xs) (suc i) bs = x ∷ write_at xs i bs

module _ {ℓ} {A : Type ℓ} where
  pub length-append : (xs ys : List A) → length (xs ++ ys) ≡ length xs + length ys
  length-append [] ys = omega arith
  length-append (x ∷ xs) ys = omega (arith, length-append xs ys)

  pub length-set : (xs : List A) (i : ℕ) (v : A) → length (set xs i v) ≡ length xs
  length-set [] i v = refl
  length-set (x ∷ xs) zero v = refl
  length-set (x ∷ xs) (suc i) v = ap suc (length-set xs i v)

  pub get_elem?-set_self :
      (xs : List A) (i : ℕ) (v : A) → i < length xs → get_elem? (set xs i v) i ≡ some v
  get_elem?-set_self [] i v h = elim h [ ]
  get_elem?-set_self (x ∷ xs) zero v h = refl
  get_elem?-set_self (x ∷ xs) (suc i) v h = get_elem?-set_self xs i v (omega arith)

  pub get_elem?-set_ne :
      (xs : List A) (i j : ℕ) (v : A) → i ≢ j → get_elem? (set xs i v) j ≡ get_elem? xs j
  get_elem?-set_ne [] i j v h = refl
  get_elem?-set_ne (x ∷ xs) zero zero v h = absurd (h refl)
  get_elem?-set_ne (x ∷ xs) zero (suc j) v h = refl
  get_elem?-set_ne (x ∷ xs) (suc i) zero v h = refl
  get_elem?-set_ne (x ∷ xs) (suc i) (suc j) v h = get_elem?-set_ne xs i j v (λ e. h (ap suc e))

  pub get_elem?-lt : (xs : List A) (i : ℕ) → i < length xs → (x : A) × (get_elem? xs i ≡ some x)
  get_elem?-lt [] i h = elim h [ ]
  get_elem?-lt (x ∷ xs) zero h = (x, refl)
  get_elem?-lt (x ∷ xs) (suc i) h = get_elem?-lt xs i (omega arith)

  pub length-take : (n : ℕ) (xs : List A) → length (take n xs) ≡ min n (length xs)
  length-take zero xs = omega arith
  length-take (suc n) [] = omega arith
  length-take (suc n) (x ∷ xs) = omega (arith, length-take n xs)

  pub length-drop : (n : ℕ) (xs : List A) → length (drop n xs) ≡ length xs - n
  length-drop zero xs = omega arith
  length-drop (suc n) [] = omega arith
  length-drop (suc n) (x ∷ xs) = omega (arith, length-drop n xs)

  pub length-write_at : (xs : List A) (i : ℕ) (bs : List A) → length (write_at xs i bs) ≡ length xs
  length-write_at [] i bs = refl
  length-write_at (x ∷ xs) zero [] = refl
  length-write_at (x ∷ xs) zero (b ∷ bs) = ap suc (length-write_at xs zero bs)
  length-write_at (x ∷ xs) (suc i) bs = ap suc (length-write_at xs i bs)

  pub take-append-drop : (n : ℕ) (xs : List A) → take n xs ++ drop n xs ≡ xs
  take-append-drop zero xs = refl
  take-append-drop (suc n) [] = refl
  take-append-drop (suc n) (x ∷ xs) = rw (take-append-drop n xs)

  pub take_all : (xs : List A) (n : ℕ) → length xs ≤ n → take n xs ≡ xs
  take_all [] zero h = refl
  take_all [] (suc n) h = refl
  take_all (x ∷ xs) zero h = elim h [ ]
  take_all (x ∷ xs) (suc n) h = ap (λ t. x ∷ t) (take_all xs n (omega arith))

  pub take-append_left : (n : ℕ) (xs ys : List A) → n ≤ length xs → take n (xs ++ ys) ≡ take n xs
  take-append_left zero xs ys h = refl
  take-append_left (suc n) [] ys h = elim h [ ]
  take-append_left (suc n) (x ∷ xs) ys h = ap (λ t. x ∷ t) (take-append_left n xs ys (omega arith))

  pub take-length-append : (xs ys : List A) → take (length xs) (xs ++ ys) ≡ xs
  take-length-append [] ys = refl
  take-length-append (x ∷ xs) ys = ap (λ t. x ∷ t) (take-length-append xs ys)

  pub drop-length-append : (xs ys : List A) → drop (length xs) (xs ++ ys) ≡ ys
  drop-length-append [] ys = refl
  drop-length-append (x ∷ xs) ys = drop-length-append xs ys

  pub write_at-zero :
      (xs bs : List A) → length bs ≤ length xs → write_at xs 0 bs ≡ bs ++ drop (length bs) xs
  write_at-zero [] [] h = refl
  write_at-zero [] (b ∷ bs) h = elim h [ ]
  write_at-zero (x ∷ xs) [] h = refl
  write_at-zero (x ∷ xs) (b ∷ bs) h = ap (λ t. b ∷ t) (write_at-zero xs bs (omega arith))

  pub drop_all : (xs : List A) (n : ℕ) → length xs ≤ n → drop n xs ≡ []
  drop_all [] zero h = refl
  drop_all [] (suc n) h = refl
  drop_all (x ∷ xs) zero h = elim h [ ]
  drop_all (x ∷ xs) (suc n) h = drop_all xs n (omega arith)

  -- Overwriting a whole block.
  pub write_at_whole : (xs bs : List A) → length bs ≡ length xs → write_at xs 0 bs ≡ bs
  write_at_whole [] [] h = refl
  write_at_whole [] (b ∷ bs) h = absurd (omega arith)
  write_at_whole (x ∷ xs) [] h = absurd (omega arith)
  write_at_whole (x ∷ xs) (b ∷ bs) h = ap (λ t. b ∷ t) (write_at_whole xs bs (omega arith))

  -- Two adjacent writes are one.
  pub write_at-append :
      (xs : List A) (i : ℕ) (bs cs : List A)
      → write_at (write_at xs i bs) (i + length bs) cs ≡ write_at xs i (bs ++ cs)
  write_at-append xs i bs cs = go xs i bs _ (omega arith)
    where
      from_zero :
          (xs bs : List A) → write_at (write_at xs 0 bs) (length bs) cs ≡ write_at xs 0 (bs ++ cs)
      from_zero [] bs = refl
      from_zero (x ∷ xs) [] = refl
      from_zero (x ∷ xs) (b ∷ bs) = ap (λ t. b ∷ t) (from_zero xs bs)

      go :
          (xs : List A) (i : ℕ) (bs : List A) (j : ℕ)
          → j ≡ i + length bs
          → write_at (write_at xs i bs) j cs ≡ write_at xs i (bs ++ cs)
      go xs zero bs j e = let e' : j ≡ length bs = omega arith in rw e' (from_zero xs bs)
      go [] (suc i) bs j e = refl
      go (x ∷ xs) (suc i) bs zero e = absurd (omega arith)
      go (x ∷ xs) (suc i) bs (suc j) e = ap (λ t. x ∷ t) (go xs i bs j (omega arith))

pub take-nil {ℓ} : (A : Type ℓ) (n : ℕ) → take {A = A} n [] ≡ []
take-nil A zero = refl
take-nil A (suc n) = refl

pub List-cases {ℓ} :
    {A : Type ℓ} (xs : List A) → (xs ≡ []) ⊎ ((x : A) × (rest : List A) × (xs ≡ x ∷ rest))
List-cases [] = inl refl
List-cases (x ∷ xs) = inr (x, xs, refl)

module _ {ℓ} {A : Type ℓ} where
  pub take-add : (n k j : ℕ) (xs : List A) → j ≡ n + k → take j xs ≡ take n xs ++ take k (drop n xs)
  take-add zero k j xs e = let e' : j ≡ k = omega arith in rw e'
  take-add (suc n) k zero xs e = absurd (omega arith)
  take-add (suc n) zero (suc j) [] e = refl
  take-add (suc n) (suc k) (suc j) [] e = refl
  take-add (suc n) k (suc j) (x ∷ xs) e = ap (λ t. x ∷ t) (take-add n k j xs (omega arith))

  pub drop-add : (n k j : ℕ) (xs : List A) → j ≡ n + k → drop j xs ≡ drop k (drop n xs)
  drop-add zero k j xs e = let e' : j ≡ k = omega arith in rw e'
  drop-add (suc n) k zero xs e = absurd (omega arith)
  drop-add (suc n) zero (suc j) [] e = refl
  drop-add (suc n) (suc k) (suc j) [] e = refl
  drop-add (suc n) k (suc j) (x ∷ xs) e = drop-add n k j xs (omega arith)

pub length-replicate {ℓ} : {A : Type ℓ} (n : ℕ) (a : A) → length (replicate n a) ≡ n
length-replicate zero a = refl
length-replicate (suc n) a = ap suc (length-replicate n a)

-- Lists with the same length and the same items are equal.
pub eq_of_get_elem? {ℓ} :
    {A : Type ℓ} (xs ys : List A)
    → length xs ≡ length ys
    → ((i : ℕ) → i < length xs → get_elem? xs i ≡ get_elem? ys i)
    → xs ≡ ys
eq_of_get_elem? [] [] e h = refl
eq_of_get_elem? [] (y ∷ ys) e h = absurd (omega arith)
eq_of_get_elem? (x ∷ xs) [] e h = absurd (omega arith)
eq_of_get_elem? (x ∷ xs) (y ∷ ys) e h =
    cc (h 0 (omega arith), eq_of_get_elem? xs ys (omega arith) (λ i lt. h (suc i) (omega arith)))

module _ {ℓ} {A : Type ℓ} where
  pub get_elem?-take_lt : (n i : ℕ) (xs : List A) → i < n → get_elem? (take n xs) i ≡ get_elem? xs i
  get_elem?-take_lt zero i xs h = elim h [ ]
  get_elem?-take_lt (suc n) i [] h = refl
  get_elem?-take_lt (suc n) zero (x ∷ xs) h = refl
  get_elem?-take_lt (suc n) (suc i) (x ∷ xs) h = get_elem?-take_lt n i xs (omega arith)

  -- The list without its item at `i`, and with `x` before its item at `i`.
  abbrev pub remove_nth : ℕ → List A → List A
  remove_nth i [] = []
  remove_nth zero (x ∷ xs) = xs
  remove_nth (suc i) (x ∷ xs) = x ∷ remove_nth i xs

  abbrev pub insert_nth : ℕ → A → List A → List A
  insert_nth zero a xs = a ∷ xs
  insert_nth (suc i) a [] = a ∷ []
  insert_nth (suc i) a (x ∷ xs) = x ∷ insert_nth i a xs

  pub length-remove_nth :
      (i : ℕ) (xs : List A) → i < length xs → length (remove_nth i xs) + 1 ≡ length xs
  length-remove_nth i [] h = elim h [ ]
  length-remove_nth zero (x ∷ xs) h = omega arith
  length-remove_nth (suc i) (x ∷ xs) h = omega (arith, length-remove_nth i xs (omega arith))

  pub length-insert_nth : (i : ℕ) (a : A) (xs : List A) → length (insert_nth i a xs) ≡ length xs + 1
  length-insert_nth zero a xs = omega arith
  length-insert_nth (suc i) a [] = omega arith
  length-insert_nth (suc i) a (x ∷ xs) = omega (arith, length-insert_nth i a xs)

  pub remove_nth_below :
      (i j : ℕ) (xs : List A) → j < i → get_elem? (remove_nth i xs) j ≡ get_elem? xs j
  remove_nth_below i j [] h = refl
  remove_nth_below zero j (x ∷ xs) h = elim h [ ]
  remove_nth_below (suc i) zero (x ∷ xs) h = refl
  remove_nth_below (suc i) (suc j) (x ∷ xs) h = remove_nth_below i j xs (omega arith)

  pub remove_nth_above :
      (i j : ℕ) (xs : List A) → i ≤ j → get_elem? (remove_nth i xs) j ≡ get_elem? xs (suc j)
  remove_nth_above i j [] h = refl
  remove_nth_above zero j (x ∷ xs) h = refl
  remove_nth_above (suc i) zero (x ∷ xs) h = elim h [ ]
  remove_nth_above (suc i) (suc j) (x ∷ xs) h = remove_nth_above i j xs (omega arith)

  pub insert_nth_below :
      (i j : ℕ) (a : A) (xs : List A)
      → j < i
      → i ≤ length xs
      → get_elem? (insert_nth i a xs) j ≡ get_elem? xs j
  insert_nth_below zero j a xs h le = elim h [ ]
  insert_nth_below (suc i) j a [] h le = elim le [ ]
  insert_nth_below (suc i) zero a (x ∷ xs) h le = refl
  insert_nth_below (suc i) (suc j) a (x ∷ xs) h le =
      insert_nth_below i j a xs (omega arith) (omega arith)

  pub insert_nth_at :
      (i : ℕ) (a : A) (xs : List A) → i ≤ length xs → get_elem? (insert_nth i a xs) i ≡ some a
  insert_nth_at zero a xs le = refl
  insert_nth_at (suc i) a [] le = elim le [ ]
  insert_nth_at (suc i) a (x ∷ xs) le = insert_nth_at i a xs (omega arith)

  pub insert_nth_above :
      (i j : ℕ) (a : A) (xs : List A)
      → i ≤ j
      → i ≤ length xs
      → get_elem? (insert_nth i a xs) (suc j) ≡ get_elem? xs j
  insert_nth_above zero j a xs h le = refl
  insert_nth_above (suc i) j a [] h le = elim le [ ]
  insert_nth_above (suc i) zero a (x ∷ xs) h le = elim h [ ]
  insert_nth_above (suc i) (suc j) a (x ∷ xs) h le =
      insert_nth_above i j a xs (omega arith) (omega arith)
