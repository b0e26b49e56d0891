-- ===== src/Util/Vector/Shift.antt =====
-- The copying loops of util/vector.c, item by item.
use c8005_assn.Base.{
  ==→eq, sym, ℕ, zero, suc, ◌+◌, ◌≤◌, ◌<◌, ◌≡◌, ◌≢◌, refl, ◌∙◌, inl, inr, List, ltb, ◌==◌, arith,
  length, get_elem?, set, length-set, get_elem?-set_self, get_elem?-set_ne, get_elem?-lt, ok,
  lt→ltb, ltb→lt, Bool-cases, eq→==,
}
use c8005_assn.Util.Vector.{store, copy, shift_down, shift_up}

module _ {A : Type 0} where
  pub store_lem :
      (items : List A) (dst : ℕ) (x : A)
      → dst < length items
      → store items dst x ≡ ok (set items dst x)
  unfolding store
  store_lem items dst x h = rw (lt→ltb dst (length items) h)

  pub record IsCopied (items : List A) (dst src : ℕ) (items' : List A) : Type 0 where
    pub size : length items' ≡ length items
    pub there : (j i : ℕ) → j ≡ dst → i ≡ src → get_elem? items' j ≡ get_elem? items i
    pub others : (j : ℕ) → dst ≢ j → get_elem? items' j ≡ get_elem? items j

  pub copy-IsCopied :
      (items : List A) (dst src : ℕ)
      → dst < length items
      → src < length items
      → (items' : List A) × (copy items dst src ≡ ok items') × IsCopied items dst src items'
  unfolding copy
  copy-IsCopied items dst src hd hs =
      let (x, e) = get_elem?-lt items src hs in
      (
        set items dst x,
        rw (e, copy) (store_lem items dst x hd),
        record {
          size = length-set items dst x;
          there = λ j i p q. rw (p, q) (get_elem?-set_self items dst x hd ∙ sym e);
          others = λ j ne. get_elem?-set_ne items dst j x ne;
        },
      )

  -- `items'` has the items between `prev` and `end` one place lower.
  pub record IsDown (items : List A) (prev end : ℕ) (items' : List A) : Type 0 where
    pub size : length items' ≡ length items
    pub below : (j : ℕ) → j < prev → get_elem? items' j ≡ get_elem? items j
    pub moved : (j : ℕ) → prev ≤ j → suc j < end → get_elem? items' j ≡ get_elem? items (suc j)

  pub shift_down-IsDown :
      (fuel : ℕ) (items : List A) (prev cur end : ℕ)
      → cur ≡ suc prev
      → cur ≤ end
      → end ≤ length items
      → end ≤ cur + fuel
      → (items' : List A) × (shift_down fuel items prev cur end ≡ ok items')
        × IsDown items prev end items'
  unfolding shift_down
  shift_down-IsDown zero items prev cur end e le fit f = (
    items,
    rw (eq→== cur end (omega arith)),
    record { size = refl; below = λ j h. refl; moved = λ j h k. absurd (omega arith) },
  )
  shift_down-IsDown (suc fuel) items prev cur end e le fit f = elim (Bool-cases (cur == end)) [
    | inl same ↦ (
      items,
      rw (same, shift_down),
      record {
        size = refl;
        below = λ j h. refl;
        moved = λ j h k. absurd (omega (arith, ==→eq cur end same));
      },
    )
    | inr more ↦
        let lt : cur < end = ground arith in
        let (mid, q, c) = copy-IsCopied items prev cur (omega arith) (omega arith) in
        let (out, q', d) =
          shift_down-IsDown fuel mid cur (cur + 1) end (omega arith) (omega arith)
            (omega (arith, c.size)) (omega arith) in
        (
          out,
          rw (more, shift_down) (rw q q'),
          record {
            size = d.size ∙ c.size;
            below = λ j h. d.below j (omega arith) ∙ c.others j (omega arith);
            moved = λ j h k. elim (Bool-cases (prev == j)) [
              | inl here ↦
                  d.below j (omega (arith, ==→eq prev j here))
                  ∙ c.there j (suc j) (omega (arith, ==→eq prev j here))
                      (omega (arith, ==→eq prev j here))
              | inr later ↦ d.moved j (ground arith) k ∙ c.others (suc j) (omega arith)
            ];
          },
        )
  ]

  -- `items'` has the items from `start` to before `cur` one place higher.
  pub record IsUp (items : List A) (start cur : ℕ) (items' : List A) : Type 0 where
    pub size : length items' ≡ length items
    pub below : (j : ℕ) → j ≤ start → get_elem? items' j ≡ get_elem? items j
    pub moved : (j : ℕ) → start ≤ j → j < cur → get_elem? items' (suc j) ≡ get_elem? items j
    pub above : (j : ℕ) → cur < j → get_elem? items' j ≡ get_elem? items j

  pub shift_up-IsUp :
      (items : List A) (cur start : ℕ)
      → cur < length items
      → (items' : List A) × (shift_up items cur start ≡ ok items') × IsUp items start cur items'
  unfolding shift_up
  shift_up-IsUp items zero start fit = (
    items,
    refl,
    record { size = refl; below = λ j h. refl; moved = λ j h k. elim k [ ]; above = λ j h. refl },
  )
  shift_up-IsUp items (suc cur) start fit = elim (Bool-cases (ltb start (suc cur))) [
    | inr done ↦ (
      items,
      rw (done, shift_up),
      record {
        size = refl;
        below = λ j h. refl;
        moved = λ j h k. absurd (ground arith);
        above = λ j h. refl;
      },
    )
    | inl more ↦
        let lt : start < suc cur = ltb→lt start (suc cur) more in
        let (mid, q, c) = copy-IsCopied items (suc cur) cur fit (omega arith) in
        let (out, q', u) = shift_up-IsUp mid cur start (omega (arith, c.size)) in
        (
          out,
          rw (more, shift_up) (rw q q'),
          record {
            size = u.size ∙ c.size;
            below = λ j h. u.below j h ∙ c.others j (omega arith);
            moved = λ j h k. elim (Bool-cases (cur == j)) [
              | inl here ↦
                  u.above (suc j) (omega (arith, ==→eq cur j here))
                  ∙ c.there (suc j) j (omega (arith, ==→eq cur j here))
                      (omega (arith, ==→eq cur j here))
              | inr earlier ↦ u.moved j h (ground arith) ∙ c.others j (omega arith)
            ];
            above = λ j h. u.above j (omega arith) ∙ c.others j (omega arith);
          },
        )
  ]
