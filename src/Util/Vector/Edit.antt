-- ===== src/Util/Vector/Edit.antt =====
-- `vector_insert_at`, `vector_push_back` and `vector_remove_at` of util/vector.c as operations on the
-- list that the vector holds.
use c8005_assn.Base.{
  ne→==, [], ◌∷◌, ◌++◌, ℕ, zero, suc, ◌+◌, ◌-◌, ◌^◌, ◌≤◌, ◌<◌, ◌≡◌, ◌⊎◌, refl, sym, ap, ◌∙◌, inl,
  inr, Bool, true, false, List, ◌==◌, none, ==→eq, arith, length, get_elem?, take, length-take,
  get_elem?-take_lt, eq_of_get_elem?, remove_nth, insert_nth, length-remove_nth, remove_nth_below,
  remove_nth_above, u32, sub_size, ok, Bool-cases, Option-cases,
}
use native.Mathlib.Decide.{dec_lt}
use c8005_assn.Util.Vector.{Vector, Allocator, contents, remove_at, insert_at, push_back}
use c8005_assn.Util.Vector.Shift.{IsDown, shift_down-IsDown}
use c8005_assn.Util.Vector.Valid.{IsValid, IsGrowth, length-contents}
use c8005_assn.Util.Vector.Room.{place_lem, resize_lem, resize_refused, resize_given}

module _ {A : Type 0} where
  removed :
      (v : Vector A) (i : ℕ) (out : List A)
      → IsValid v
      → i < v.size
      → IsDown v.items i v.size out
      → take (v.size - 1) out ≡ remove_nth i (contents v)
  removed v i out h lt d =
      eq_of_get_elem? (take (v.size - 1) out) (remove_nth i (contents v))
        (omega (
          arith,
          length-take (v.size - 1) out,
          d.size,
          h.block,
          h.within,
          length-contents h,
          length-remove_nth i (contents v),
        ))
        (λ j k. item j (omega (arith, length-take (v.size - 1) out)))
    where
      item :
          (j : ℕ)
          → j < v.size - 1
          → get_elem? (take (v.size - 1) out) j ≡ get_elem? (remove_nth i (contents v)) j
      item j k = get_elem?-take_lt (v.size - 1) j out k ∙ elim (dec_lt j i) [
        | yes p ↦
            d.below j p
            ∙ sym (
                remove_nth_below i j (contents v) p
                ∙ get_elem?-take_lt v.size j v.items (omega arith))
        | no p ↦
            d.moved j (omega arith) (omega arith)
            ∙ sym (
                remove_nth_above i j (contents v) (omega arith)
                ∙ get_elem?-take_lt v.size (suc j) v.items (omega arith))
      ]

  -- `vector_remove_at` inside a valid vector returns, and takes out the item at `i`.
  pub remove_at_lem :
      (v : Vector A) (i : ℕ)
      → IsValid v
      → i < v.size
      → (v' : Vector A) × (remove_at v i ≡ ok v')
        × IsValid v'
        × (contents v' ≡ remove_nth i (contents v))
        × (v'.cap ≡ v.cap)
  unfolding remove_at
  remove_at_lem v i h lt =
      let (out, q, d) =
        shift_down-IsDown (length v.items) v.items i (i + 1) v.size (omega arith) (omega arith)
          (omega (arith, h.block, h.within)) (omega (arith, h.block, h.within)) in
      let pred : sub_size v.size 1 ≡ v.size - 1 = omega (arith, h.within, h.small) in
      (
        record v { items = out; size = sub_size v.size 1 },
        rw q,
        record {
          block = d.size ∙ h.block;
          within = omega (arith, pred, h.within);
          small = h.small;
        },
        rw pred (removed v i out h lt d),
        refl,
      )

module _ {A : Type 0} (alloc : Allocator A) (grow : ℕ → ℕ) where
  open alloc use {State, realloc}

  -- The result -1: the vector is full, it cannot have more memory, and it is as it was.
  abbrev pub IsRefused : Vector A → State → Bool × Vector A × State → Type 0
  IsRefused v s r =
      (r.0 ≡ false) × (r.1 ≡ v) × (v.size ≡ v.cap) × ((realloc v.items (grow v.cap) s).0 ≡ none)

  -- The vector is as it was, or the item stands at `i`.
  abbrev pub Inserted : Vector A → A → ℕ → State → Bool × Vector A × State → Type 0
  Inserted v item i s r =
      IsRefused v s r
      ⊎ ((r.0 ≡ true) × IsValid r.1 × (contents r.1 ≡ insert_nth i item (contents v)))

  -- For a valid vector with a capacity from 1 and below 2^22, and a position up to its size,
  -- `vector_insert_at` returns. It fails only where the vector is full and `realloc` gives no block of
  -- the next capacity, and then leaves the vector as it was; otherwise the vector, which has grown if it was full, holds the item at `i` with the items
  -- from `i` on one place higher.
  pub insert_at_lem :
      (g : IsGrowth grow) (v : Vector A) (item : A) (i : ℕ) (s : State)
      → IsValid v
      → 0 < v.cap
      → v.cap < 2 ^ 22
      → i ≤ v.size
      → (r : Bool × Vector A × State) × (insert_at alloc grow v item i s ≡ ok r)
        × Inserted v item i s r
  unfolding insert_at
  insert_at_lem g v item i s h pos bound le = elim (Bool-cases (v.size == v.cap)) [
    | inr room ↦
        let (v', q, valid, put, _) =
          place_lem alloc grow v item i h (ground (arith, h.within)) le in
        ((true, v', s), rw (room, insert_at) (rw q), inr (refl, valid, put))
    | inl full ↦ elim (Option-cases (realloc v.items (grow v.cap) s).0) [
      | inl refused ↦ (
        (false, v, (realloc v.items (grow v.cap) s).1),
        rw (full, insert_at)
            (let r = resize_refused alloc grow v (grow v.cap) s refused in rw r (rw r)),
        inl (refl, refl, ==→eq v.size v.cap full, refused),
      )
      | inr (block, e) ↦
          let more : v.cap < grow v.cap = omega (arith, g.rounds v.cap bound) in
          let (valid, same) =
            resize_lem alloc grow v (grow v.cap) s block h more
              (omega (arith, g.rounds v.cap bound)) e in
          let v1 = record v { items = block; cap = grow v.cap } in
          let (v', q, valid', put, _) =
            place_lem alloc grow v1 item i valid (omega (arith, more, h.within)) le in
          (
            (true, v', (realloc v.items (grow v.cap) s).1),
            rw (full, insert_at)
                (let given = resize_given alloc grow v (grow v.cap) s block e in
                  rw given (rw given (rw q))),
            inr (refl, valid', put ∙ ap (insert_nth i item) same),
          )
    ]
  ]

  insert_nth_end : (xs : List A) (x : A) (n : ℕ) → n ≡ length xs → insert_nth n x xs ≡ xs ++ x ∷ []
  insert_nth_end [] x zero e = refl
  insert_nth_end [] x (suc n) e = absurd (omega arith)
  insert_nth_end (y ∷ xs) x zero e = absurd (omega arith)
  insert_nth_end (y ∷ xs) x (suc n) e = ap (λ t. y ∷ t) (insert_nth_end xs x n (omega arith))

  -- For a valid vector with a capacity from 1 and below 2^22 `vector_push_back` returns. It fails only
  -- where the vector is full and `realloc` gives no block of the next capacity, and then leaves the
  -- vector as it was; otherwise the item stands behind those that were there.
  pub push_back_lem :
      (g : IsGrowth grow) (v : Vector A) (item : A) (s : State)
      → IsValid v
      → 0 < v.cap
      → v.cap < 2 ^ 22
      → (r : Bool × Vector A × State) × (push_back alloc grow v item s ≡ ok r)
        × (IsRefused v s r
            ⊎ ((r.0 ≡ true) × IsValid r.1 × (contents r.1 ≡ contents v ++ item ∷ [])))
  unfolding push_back
  push_back_lem g v item s h pos bound =
      let whole : u32 v.size ≡ v.size = omega (arith, h.within) in
      let (r, q, done) = insert_at_lem g v item v.size s h pos bound (omega arith) in
      (
        r,
        ap (λ k. insert_at alloc grow v item k s) whole ∙ q,
        elim done [
          | inl failed ↦ inl failed
          | inr (t, valid, put) ↦
              inr
                (t, valid, put ∙ insert_nth_end (contents v) item v.size (sym (length-contents h)))
        ],
      )

  -- With room for one more item, `vector_push_back` succeeds.
  pub push_back_room :
      (v : Vector A) (item : A) (s : State)
      → IsValid v
      → v.cap < 2 ^ 22
      → v.size < v.cap
      → (v' : Vector A) × (push_back alloc grow v item s ≡ ok (true, v', s))
        × IsValid v'
        × (contents v' ≡ contents v ++ item ∷ [])
        × (v'.cap ≡ v.cap)
  unfolding push_back insert_at
  push_back_room v item s h bound room =
      let whole : u32 v.size ≡ v.size = omega (arith, h.within) in
      let (v', q, valid, put, cap) = place_lem alloc grow v item v.size h room (omega arith) in
      (
        v',
        ap (λ k. insert_at alloc grow v item k s) whole
            ∙ (rw (ne→== v.size v.cap (λ e. omega (arith, room, e)), insert_at) (rw q refl)),
        valid,
        put ∙ insert_nth_end (contents v) item v.size (sym (length-contents h)),
        cap,
      )
