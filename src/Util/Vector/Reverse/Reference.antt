-- ===== src/Util/Vector/Reverse/Reference.antt =====
-- `vector_reverse` against the reverse of a list.
use c8005_assn.Base.{
  ℕ, zero, suc, ◌-◌, ◌≤◌, ◌<◌, ◌≡◌, ◌∙◌, refl, ap, sym, arith, true, false, none, some, List, [],
  ◌∷◌, ◌++◌, length, length-append, get_elem?, get_elem?-take_lt, eq_of_get_elem?, Returns, ◌⊎◌,
  inl, inr,
}
use mathlib.Core.List.{reverse, reverse-cons}
use c8005_assn.Util.Vector
use c8005_assn.Util.Vector.{Vector, Allocator, contents}
use c8005_assn.Util.Vector.Valid.{IsValid, length-contents}
use c8005_assn.Util.Vector.Reverse.{IsMirrored, reverse-IsMirrored}

module _ {A : Type 0} where
  length-reverse : (xs : List A) → length (reverse xs) ≡ length xs
  length-reverse [] = refl
  length-reverse (x ∷ xs) =
      ap length (reverse-cons x xs)
      ∙ omega (arith, length-append (reverse xs) (x ∷ []), length-reverse xs)

  get_elem?-append_left :
      (xs ys : List A) (i : ℕ) → i < length xs → get_elem? (xs ++ ys) i ≡ get_elem? xs i
  get_elem?-append_left [] ys i h = absurd (omega (arith, h))
  get_elem?-append_left (x ∷ xs) ys zero h = refl
  get_elem?-append_left (x ∷ xs) ys (suc i) h = get_elem?-append_left xs ys i (omega arith)

  get_elem?-append_last :
      (xs : List A) (y : A) (i : ℕ) → i ≡ length xs → get_elem? (xs ++ y ∷ []) i ≡ some y
  get_elem?-append_last [] y i h = rw h refl
  get_elem?-append_last (x ∷ xs) y zero h = absurd (omega (arith, h))
  get_elem?-append_last (x ∷ xs) y (suc i) h = get_elem?-append_last xs y i (omega (arith, h))

  get_elem?-later :
      (x : A) (xs : List A) (i j : ℕ) → i ≡ suc j → get_elem? (x ∷ xs) i ≡ get_elem? xs j
  get_elem?-later x xs i j h = rw h refl

  get_elem?-reverse :
      (xs : List A) (i : ℕ)
      → i < length xs
      → get_elem? (reverse xs) i ≡ get_elem? xs (length xs - 1 - i)
  get_elem?-reverse [] i h = absurd (omega (arith, h))
  get_elem?-reverse (x ∷ xs) i h =
      ap (λ l. get_elem? l i) (reverse-cons x xs)
      ∙ elim (le_or_eq i (length xs) (omega (arith, h))) [
        | inl low ↦
            get_elem?-append_left (reverse xs) (x ∷ []) i (omega (arith, low, length-reverse xs))
            ∙ get_elem?-reverse xs i low
            ∙ sym (
                get_elem?-later x xs (length (x ∷ xs) - 1 - i) (length xs - 1 - i)
                  (omega (arith, low)))
        | inr last ↦
            get_elem?-append_last (reverse xs) x i (omega (arith, last, length-reverse xs))
            ∙ sym (
                ap (get_elem? (x ∷ xs)) {x = length (x ∷ xs) - 1 - i} {y = 0} (omega (arith, last)))
      ]
    where
      le_or_eq : (i n : ℕ) → i ≤ n → (i < n) ⊎ (i ≡ n)
      le_or_eq i n h = grind arith

  IsMirrored-reverse :
      (v v' : Vector A) → IsValid v → IsMirrored v v' → contents v' ≡ reverse (contents v)
  IsMirrored-reverse v v' h m =
      let n = length-contents h in
      let n' = length-contents m.valid in
      eq_of_get_elem? (contents v') (reverse (contents v))
        (omega (arith, n, n', m.size, length-reverse (contents v)))
        (λ i lt.
          let low : i < v.size = omega (arith, lt, n', m.size) in
          get_elem?-take_lt v'.size i v'.items (omega (arith, low, m.size))
          ∙ m.mirrored i low
          ∙ sym (get_elem?-take_lt v.size (v.size - 1 - i) v.items (omega (arith, low)))
          ∙ sym (ap (λ k. get_elem? (contents v) (k - 1 - i)) n)
          ∙ sym (get_elem?-reverse (contents v) i (omega (arith, low, n))))

  -- For a valid vector `vector_reverse` returns, and if it does not fail the result is valid and holds
  -- the reverse of the list that the vector held; it fails only for a full vector, where memory has run
  -- out, and then leaves the vector as it was.
  pub vector_reverse-reverse :
      (alloc : Allocator A) (grow : ℕ → ℕ) (v : Vector A) (s : alloc.State)
      → IsValid v
      → Returns
          (λ r.
            ((r.0 ≡ true) × IsValid r.1 × (contents r.1 ≡ reverse (contents v)))
            ⊎ ((r.0 ≡ false) × (r.1 ≡ v) × (v.size ≡ v.cap) × ((alloc.malloc 1 s).0 ≡ none)))
          (Vector.reverse alloc grow v s)
  vector_reverse-reverse alloc grow v s h =
      let (r, e, c) = reverse-IsMirrored alloc grow v s h in
      rw (e, Returns)
        (elim c [
          | inl failed ↦ inr failed
          | inr (done, m) ↦ inl (done, m.valid, IsMirrored-reverse v r.1 h m)
        ])
