-- ===== src/Util/Vector/Room.antt =====
-- The two parts of `vector_insert_at`: making room, and putting the item into its place.
use c8005_assn.Base.{
  ℕ, suc, ◌+◌, ◌-◌, ◌≤◌, ◌<◌, ◌≡◌, refl, sym, ◌∙◌, true, false, none, some, List, arith, length,
  get_elem?, set, take, length-set, length-take, get_elem?-set_self, get_elem?-set_ne,
  get_elem?-take_lt, eq_of_get_elem?, insert_nth, length-insert_nth, insert_nth_below,
  insert_nth_at, insert_nth_above, size_mod, add_size, ok,
}
use native.Mathlib.Decide.{dec_lt}
use c8005_assn.Util.Vector.{Vector, Allocator, contents, place, resize}
use c8005_assn.Util.Vector.Shift.{IsUp, shift_up-IsUp, store_lem}
use c8005_assn.Util.Vector.Valid.{IsValid, length-contents}

module _ {A : Type 0} (alloc : Allocator A) (grow : ℕ → ℕ) where
  open alloc use {State, realloc}

  pub inserted :
      (v : Vector A) (item : A) (i : ℕ) (mid : List A)
      → IsValid v
      → v.size < v.cap
      → i ≤ v.size
      → IsUp v.items i v.size mid
      → take (v.size + 1) (set mid i item) ≡ insert_nth i item (contents v)
  inserted v item i mid h room le u =
      eq_of_get_elem? (take (v.size + 1) (set mid i item)) (insert_nth i item (contents v))
        (omega (
          arith,
          length-take (v.size + 1) (set mid i item),
          length-set mid i item,
          u.size,
          h.block,
          length-contents h,
          length-insert_nth i item (contents v),
        ))
        (λ j k. get_elem?-take_lt (v.size + 1) j (set mid i item) (inside j k) ∙ at j (inside j k))
    where
      inside : (j : ℕ) → j < length (take (v.size + 1) (set mid i item)) → j < v.size + 1
      inside j k = omega (arith, length-take (v.size + 1) (set mid i item))

      le' : i ≤ length (contents v)
      le' = omega (arith, length-contents h)

      after :
          (j : ℕ)
          → i ≤ j
          → j < v.size
          → get_elem? (set mid i item) (suc j) ≡ get_elem? (insert_nth i item (contents v)) (suc j)
      after j p k =
          get_elem?-set_ne mid i (suc j) item (omega arith)
          ∙ u.moved j p k
          ∙ sym
              (insert_nth_above i j item (contents v) p le' ∙ get_elem?-take_lt v.size j v.items k)

      at :
          (j : ℕ)
          → j < v.size + 1
          → get_elem? (set mid i item) j ≡ get_elem? (insert_nth i item (contents v)) j
      at j k = elim (dec_lt j i) [
        | yes p ↦
            get_elem?-set_ne mid i j item (omega arith)
            ∙ u.below j (omega arith)
            ∙ sym (
                insert_nth_below i j item (contents v) p le'
                ∙ get_elem?-take_lt v.size j v.items (omega arith))
        | no p ↦ elim (dec_lt i j) [
          | yes q ↦
              let e : j ≡ suc (j - 1) = omega arith in
              rw e (after (j - 1) (omega arith) (omega arith))
          | no q ↦
              let e : j ≡ i = omega arith in
              rw e (
                get_elem?-set_self mid i item (omega (arith, u.size, h.block))
                ∙ sym (insert_nth_at i item (contents v) le'))
        ]
      ]

  pub place_lem :
      (v : Vector A) (item : A) (i : ℕ)
      → IsValid v
      → v.size < v.cap
      → i ≤ v.size
      → (v' : Vector A) × (place alloc grow v item i ≡ ok v')
        × IsValid v'
        × (contents v' ≡ insert_nth i item (contents v))
        × (v'.cap ≡ v.cap)
  unfolding place
  place_lem v item i h room le =
      let (mid, q, u) = shift_up-IsUp v.items v.size i (omega (arith, h.block)) in
      let succ : add_size v.size 1 ≡ v.size + 1 = omega (arith, h.small) in
      (
        record v { items = set mid i item; size = add_size v.size 1 },
        rw q (rw (store_lem mid i item (omega (arith, u.size, h.block)))),
        record {
          block = length-set mid i item ∙ u.size ∙ h.block;
          within = omega (arith, succ);
          small = h.small;
        },
        rw succ (inserted v item i mid h room le u),
        refl,
      )

  -- Growing keeps what the vector holds, and makes room.
  pub resize_lem :
      (v : Vector A) (cap : ℕ) (s : State) (block : List A)
      → IsValid v
      → v.cap < cap
      → cap < size_mod
      → (realloc v.items cap s).0 ≡ some block
      → let v' = record v { items = block; cap = cap } in IsValid v' × (contents v' ≡ contents v)
  resize_lem v n s block h more small e = (
    record {
      block = alloc.realloc_length v.items n s block e;
      within = omega (arith, h.within);
      small = small;
    },
    eq_of_get_elem? (take v.size block) (contents v)
        (omega (
          arith,
          length-take v.size block,
          alloc.realloc_length v.items n s block e,
          h.within,
          length-contents h,
        ))
        (λ j k. same j (omega (arith, length-take v.size block))),
  )
    where
      same : (j : ℕ) → j < v.size → get_elem? (take v.size block) j ≡ get_elem? (contents v) j
      same j k =
          get_elem?-take_lt v.size j block k
          ∙ alloc.realloc_keeps v.items n s block e j (omega (arith, h.within, h.block))
              (omega (arith, h.within))
          ∙ sym (get_elem?-take_lt v.size j v.items k)

  pub resize_refused :
      (v : Vector A) (cap : ℕ) (s : State)
      → (realloc v.items cap s).0 ≡ none
      → resize alloc grow v cap s ≡ (false, v, (realloc v.items cap s).1)
  unfolding resize
  resize_refused v n s e = rw (e, resize)

  pub resize_given :
      (v : Vector A) (cap : ℕ) (s : State) (block : List A)
      → (realloc v.items cap s).0 ≡ some block
      → resize alloc grow v cap s
        ≡ (true, record v { items = block; cap = cap }, (realloc v.items cap s).1)
  unfolding resize
  resize_given v n s block e = rw (e, resize)
