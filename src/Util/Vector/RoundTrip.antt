-- ===== src/Util/Vector/RoundTrip.antt =====
-- An item that is put into a vector and taken out again.
use c8005_assn.Base.{
  ℕ, zero, suc, ◌≤◌, ◌<◌, ◌≡◌, ◌^◌, ◌∙◌, refl, ap, arith, ok, List, [], ◌∷◌, length, remove_nth,
  insert_nth, length-insert_nth, Returns, ◌⊎◌, inl, inr,
}
use c8005_assn.Util.Vector.{Vector, Allocator, contents, remove_at, insert_at}
use c8005_assn.Util.Vector.Valid.{IsValid, IsGrowth, length-contents}
use c8005_assn.Util.Vector.Edit.{IsRefused, remove_at_lem, insert_at_lem}

remove_nth-insert_nth :
    {A : Type 0} (i : ℕ) (a : A) (xs : List A)
    → i ≤ length xs
    → remove_nth i (insert_nth i a xs) ≡ xs
remove_nth-insert_nth zero a xs h = refl
remove_nth-insert_nth (suc i) a [] h = absurd (omega (arith, h))
remove_nth-insert_nth (suc i) a (x ∷ xs) h =
    ap (λ t. x ∷ t) (remove_nth-insert_nth i a xs (omega arith))

module _ {A : Type 0} (alloc : Allocator A) (grow : ℕ → ℕ) (g : IsGrowth grow) where
  -- For a valid vector with a capacity from 1 and below 2^22, and a place up to its size:
  -- `vector_insert_at` returns,
  -- and if it succeeds then `vector_remove_at` at the same place returns too, and gives a valid vector
  -- that holds what the first one did; it fails only where the vector is full and `realloc` gives no
  -- block of the next capacity, and then the vector is as it was.
  pub remove_at-insert_at :
      (v : Vector A) (item : A) (i : ℕ) (s : alloc.State)
      → IsValid v
      → 0 < v.cap
      → v.cap < 2 ^ 22
      → i ≤ v.size
      → Returns
          (λ r.
            IsRefused alloc grow v s r
            ⊎ ((v' : Vector A) × (remove_at r.1 i ≡ ok v')
                × IsValid v'
                × (contents v' ≡ contents v)))
          (insert_at alloc grow v item i s)
  remove_at-insert_at v item i s h pos bound le =
      let (r, e, c) = insert_at_lem alloc grow g v item i s h pos bound le in
      let inside : i ≤ length (contents v) = omega (arith, le, length-contents h) in
      rw (e, Returns)
        (elim c [
          | inl refused ↦ inl refused
          | inr (done, valid, put) ↦
              let grown : i < r.1.size = omega (
                arith,
                inside,
                length-contents valid,
                ap length put,
                length-insert_nth i item (contents v),
              ) in
              let (v', e', valid', left, _) = remove_at_lem r.1 i valid grown in
              inr (
                v',
                e',
                valid',
                left ∙ ap (remove_nth i) put ∙ remove_nth-insert_nth i item (contents v) inside,
              )
        ])
