-- ===== src/Util/Vector/Reverse.antt =====
-- `vector_reverse` of util/vector.c, with the temporary item outside the block or in the slot behind
-- the last item.
pub mod Reference
use c8005_assn.Base.{
  ℕ, zero, suc, ◌+◌, ◌-◌, ◌≤◌, ◌<◌, ◌≡◌, ◌≢◌, ◌⊎◌, refl, sym, ap, ◌∙◌, inl, inr, Bool, true, false,
  none, List, ltb, ◌==◌, arith, length, get_elem?, set, length-set, get_elem?-set_self,
  get_elem?-set_ne, get_elem?-lt, ok, Bool-cases, Option-cases, le→ltb, ltb→lt, ==→eq,
}
use native.Mathlib.Decide.{ℕ_discrete}
use c8005_assn.Util.Vector.{
  Vector, Allocator, Scratch, outside, slot, swap, reverse_loop, reverse_items, reverse_no_alloc,
  reverse,
}
use c8005_assn.Util.Vector.Shift.{copy-IsCopied, store_lem}
use c8005_assn.Util.Vector.Valid.{IsValid}

module _ {A : Type 0} (last : ℕ) where
  -- The temporary item is no item up to `last`.
  pub IsAside : List A → Scratch → Type 0
  IsAside items outside = Unit
  IsAside items (slot k) = (last < k) × (k < length items)

  -- `out` has the items at `front` and `back` exchanged, and the others up to `last` as before.
  record IsSwapped (items : List A) (front back : ℕ) (out : List A) : Type 0 where
    size : length out ≡ length items
    low : (j : ℕ) → j ≡ front → get_elem? out j ≡ get_elem? items back
    high : (j : ℕ) → j ≡ back → get_elem? out j ≡ get_elem? items front
    others : (j : ℕ) → j ≢ front → j ≢ back → j ≤ last → get_elem? out j ≡ get_elem? items j

  swap-IsSwapped :
      (tmp : Scratch) (items : List A) (front back : ℕ)
      → front < back
      → back ≤ last
      → last < length items
      → IsAside items tmp
      → (out : List A) × (swap tmp items front back ≡ ok out) × IsSwapped items front back out
  unfolding swap IsAside
  swap-IsSwapped outside items front back lt le fit aside =
      let (x, e) = get_elem?-lt items front (omega arith) in
      let (mid, q, c) = copy-IsCopied items front back (omega arith) (omega arith) in
      let inside : back < length mid = omega (arith, c.size) in
      (
        set mid back x,
        rw (e, swap) (rw q (store_lem mid back x inside)),
        record {
          size = length-set mid back x ∙ c.size;
          low = λ j h. get_elem?-set_ne mid back j x (omega arith) ∙ c.there j back h refl;
          high = λ j h. rw h (get_elem?-set_self mid back x inside ∙ sym e);
          others =
              λ j h k _. get_elem?-set_ne mid back j x (omega arith) ∙ c.others j (omega arith);
        },
      )
  swap-IsSwapped (slot t) items front back lt le fit (free, room) =
      let (m1, q1, c1) = copy-IsCopied items t front room (omega arith) in
      let (m2, q2, c2) =
        copy-IsCopied m1 front back (omega (arith, c1.size)) (omega (arith, c1.size)) in
      let (m3, q3, c3) =
        copy-IsCopied m2 back t (omega (arith, c1.size, c2.size))
          (omega (arith, c1.size, c2.size)) in
      (
        m3,
        rw q1 (rw q2 q3),
        record {
          size = c3.size ∙ c2.size ∙ c1.size;
          low = λ j h.
              c3.others j (omega arith) ∙ c2.there j back h refl ∙ c1.others back (omega arith);
          high =
              λ j h. c3.there j t h refl ∙ c2.others t (omega arith) ∙ c1.there t front refl refl;
          others = λ j h k m.
              c3.others j (omega arith) ∙ c2.others j (omega arith) ∙ c1.others j (omega arith);
        },
      )

  record IsTurned (items : List A) (front back : ℕ) (out : List A) : Type 0 where
    size : length out ≡ length items
    turned : (j : ℕ) → front ≤ j → j ≤ back → get_elem? out j ≡ get_elem? items (last - j)
    before : (j : ℕ) → j < front → j ≤ last → get_elem? out j ≡ get_elem? items j
    after : (j : ℕ) → back < j → j ≤ last → get_elem? out j ≡ get_elem? items j

  IsAside-size :
      (tmp : Scratch) (items items' : List A)
      → length items' ≡ length items
      → IsAside items tmp
      → IsAside items' tmp
  unfolding IsAside
  IsAside-size outside items items' e h = tt
  IsAside-size (slot k) items items' e h = omega arith

  reverse_loop-IsTurned :
      (fuel : ℕ) (tmp : Scratch) (items : List A) (front back : ℕ)
      → back ≤ front + fuel
      → front + back ≡ last
      → last < length items
      → IsAside items tmp
      → (out : List A) × (reverse_loop fuel tmp items front back ≡ ok out)
        × IsTurned items front back out
  unfolding reverse_loop
  reverse_loop-IsTurned zero tmp items front back f e fit aside = (
    items,
    rw (le→ltb front back (omega arith)),
    record {
      size = refl;
      turned = λ j h k. ap (get_elem? items) (omega arith);
      before = λ j h k. refl;
      after = λ j h k. refl;
    },
  )
  reverse_loop-IsTurned (suc fuel) tmp items front back f e fit aside =
      elim (Bool-cases (ltb front back)) [
        | inr done ↦ (
          items,
          rw (done, reverse_loop),
          record {
            size = refl;
            turned = λ j h k. ap (get_elem? items) (ground arith);
            before = λ j h k. refl;
            after = λ j h k. refl;
          },
        )
        | inl more ↦
            let lt : front < back = ltb→lt front back more in
            let (mid, q, s) = swap-IsSwapped tmp items front back lt (omega arith) fit aside in
            let (out, q', t) =
              reverse_loop-IsTurned fuel tmp mid (front + 1) (back - 1) (omega arith) (omega arith)
                (omega (arith, s.size)) (IsAside-size tmp items mid s.size aside) in
            (
              out,
              rw (more, reverse_loop) (rw q q'),
              record {
                size = t.size ∙ s.size;
                turned = λ j h k. elim (ℕ_discrete j front) [
                  | yes low ↦
                      t.before j (omega arith) (omega arith)
                      ∙ s.low j low
                      ∙ ap (get_elem? items) (omega arith)
                  | no above ↦ elim (ℕ_discrete j back) [
                    | yes high ↦
                        t.after j (omega arith) (omega arith)
                        ∙ s.high j high
                        ∙ ap (get_elem? items) (omega arith)
                    | no below ↦
                        t.turned j (omega arith) (omega arith)
                        ∙ s.others (last - j) (omega arith) (omega arith) (omega arith)
                  ]
                ];
                before =
                    λ j h k. t.before j (omega arith) k ∙ s.others j (omega arith) (omega arith) k;
                after =
                    λ j h k. t.after j (omega arith) k ∙ s.others j (omega arith) (omega arith) k;
              },
            )
      ]

-- Each item stands where its mirror image stood.
pub record IsMirrored {A : Type 0} (v v' : Vector A) : Type 0 where
  pub valid : IsValid v'
  pub size : v'.size ≡ v.size
  pub mirrored : (j : ℕ) → j < v.size → get_elem? v'.items j ≡ get_elem? v.items (v.size - 1 - j)

module _ {A : Type 0} where
  abbrev IsFree : List A → ℕ → Scratch → Type 0
  IsFree items size outside = Unit
  IsFree items size (slot k) = (size ≤ k) × (k < length items)

  IsFree-IsAside :
      (items : List A) (last : ℕ) (tmp : Scratch)
      → IsFree items (suc last) tmp
      → IsAside last items tmp
  unfolding IsAside
  IsFree-IsAside items last outside h = tt
  IsFree-IsAside items last (slot k) h = h

  reverse_items_lem :
      (tmp : Scratch) (items : List A) (size : ℕ)
      → size ≤ length items
      → IsFree items size tmp
      → (out : List A) × (reverse_items tmp items size ≡ ok out)
        × (length out ≡ length items)
        × ((j : ℕ) → j < size → get_elem? out j ≡ get_elem? items (size - 1 - j))
  unfolding reverse_items
  reverse_items_lem tmp items zero fit free = (items, refl, refl, λ j h. elim h [ ])
  reverse_items_lem tmp items (suc last) fit free =
      let (out, q, t) =
        reverse_loop-IsTurned last (suc last) tmp items 0 last (omega arith) (omega arith) fit
          (IsFree-IsAside items last tmp free) in
      (
        out,
        q,
        t.size,
        λ j h. t.turned j (omega arith) (omega arith) ∙ ap (get_elem? items) (omega arith),
      )

  reverse_no_alloc-IsMirrored :
      (v : Vector A) (tmp : Scratch)
      → IsValid v
      → IsFree v.items v.size tmp
      → (v' : Vector A) × (reverse_no_alloc v tmp ≡ ok v') × IsMirrored v v'
  unfolding reverse_no_alloc
  reverse_no_alloc-IsMirrored v tmp h free =
      let (out, q, size, m) =
        reverse_items_lem tmp v.items v.size (omega (arith, h.block, h.within)) free in
      (
        record v { items = out },
        rw q,
        record {
          valid = record { block = size ∙ h.block; within = h.within; small = h.small };
          size = refl;
          mirrored = m;
        },
      )

module _ {A : Type 0} (alloc : Allocator A) (grow : ℕ → ℕ) where
  open alloc use {State, malloc}

  -- `vector_reverse` of a valid vector returns. It fails only if the vector is full and memory has run out, and then
  -- leaves the vector as it was; otherwise each item stands where its mirror image stood.
  pub reverse-IsMirrored :
      (v : Vector A) (s : State)
      → IsValid v
      → (r : Bool × Vector A × State) × (reverse alloc grow v s ≡ ok r)
        × (((r.0 ≡ false) × (r.1 ≡ v) × (v.size ≡ v.cap) × ((malloc 1 s).0 ≡ none))
            ⊎ ((r.0 ≡ true) × IsMirrored v r.1))
  unfolding reverse
  reverse-IsMirrored v s h = elim (Bool-cases (v.size == v.cap)) [
    | inl full ↦ elim (Option-cases (malloc 1 s).0) [
      | inl refused ↦ (
        (false, v, (malloc 1 s).1),
        rw (full, reverse) (rw (refused, reverse)),
        inl (refl, refl, ==→eq v.size v.cap full, refused),
      )
      | inr (block, e) ↦
          let (v', q, m) = reverse_no_alloc-IsMirrored v outside h tt in
          ((true, v', (malloc 1 s).1), rw (full, reverse) (rw (e, reverse) (rw q)), inr (refl, m))
    ]
    | inr room ↦
        let (v', q, m) =
          reverse_no_alloc-IsMirrored v (slot v.size) h
            (omega arith, ground (arith, h.block, h.within)) in
        ((true, v', s), rw (room, reverse) (rw q), inr (refl, m))
  ]
