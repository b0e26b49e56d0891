-- ===== src/Util/Vector.antt =====
-- util/vector.c. A block of `cap` items is a list; every pointer that the code forms is the block's
-- start plus a multiple of `item_size`, so a pointer is the index of an item. `malloc` and `realloc`
-- come from a parameter, as does `grow`, the value of `(size_t)roundf(cap * VECTOR_GROWTH_RATE)`.
pub mod Valid
pub mod Shift
pub mod Room
pub mod Edit
pub mod Reverse
pub mod RoundTrip
use c8005_assn.Base.{
  ℕ, zero, suc, ◌+◌, ◌-◌, ◌*◌, ◌/◌, ◌%◌, ◌^◌, ◌≤◌, ◌<◌, ◌≡◌, Bool, true, false, Option, none, some,
  List, ltb, ◌==◌, if◌then◌else◌, length, get_elem?, set, take, min, u32, add_size, sub_size, Run,
  ok, fault, timeout, ◌>>=◌,
}

abbrev pub vector_default_capacity : ℕ
vector_default_capacity = 8

pub record Vector (A : Type 0) : Type 0 where
  pub items : List A
  pub item_size : ℕ
  pub size : ℕ
  pub cap : ℕ

-- What the vector holds.
abbrev pub contents : {A : Type 0} → Vector A → List A
contents v = take v.size v.items

-- The memory that the C library hands out, in items of a type `A`.
pub record Allocator (A : Type 0) : Type 1 where
  pub State : Type 0
  pub malloc : ℕ → State → Option (List A) × State
  pub realloc : List A → ℕ → State → Option (List A) × State
  -- `malloc` of a `vector_t`.
  pub malloc_struct : State → Bool × State
  pub free : List A → State → State
  pub malloc_length :
      (n : ℕ) (s : State) (block : List A) → (malloc n s).0 ≡ some block → length block ≡ n
  pub realloc_length :
      (old : List A) (n : ℕ) (s : State) (block : List A)
      → (realloc old n s).0 ≡ some block
      → length block ≡ n
  pub realloc_keeps :
      (old : List A) (n : ℕ) (s : State) (block : List A)
      → (realloc old n s).0 ≡ some block
      → (i : ℕ) → i < length old
      → i < n
      → get_elem? block i ≡ get_elem? old i

-- `memcpy` of one item inside a block, and of one into it.
pub store : {A : Type 0} → List A → ℕ → A → Run (List A)
store items dst x = if ltb dst (length items) then ok (set items dst x) else fault

pub copy : {A : Type 0} → List A → ℕ → ℕ → Run (List A)
copy items dst src = elim (get_elem? items src) [ none ↦ fault | some x ↦ store items dst x ]

-- `for (cur = start; cur != end; …) { memcpy(prev, cur, …); prev = cur; }`.
pub shift_down : {A : Type 0} → ℕ → List A → ℕ → ℕ → ℕ → Run (List A)
shift_down zero items prev cur end = if cur == end then ok items else timeout
shift_down (suc fuel) items prev cur end = elim (cur == end) [
  | true ↦ ok items
  | false ↦ do items' ← copy items prev cur; shift_down fuel items' cur (cur + 1) end
]

-- `cur` moves up and stays inside the block, so as many rounds as it has items are enough.
pub remove_at : {A : Type 0} → Vector A → ℕ → Run (Vector A)
remove_at v i = do
  items' ← shift_down (length v.items) v.items i (i + 1) v.size
  ok (record v { items = items'; size = sub_size v.size 1 })

-- `for (cur = end; cur > start; cur -= …) { memcpy(cur, cur - item_size, …); }`.
pub shift_up : {A : Type 0} → List A → ℕ → ℕ → Run (List A)
shift_up items zero start = ok items
shift_up items (suc cur) start = elim (ltb start (suc cur)) [
  | false ↦ ok items
  | true ↦ do items' ← copy items (suc cur) cur; shift_up items' cur start
]

-- Where the temporary item of `vector_reverse_no_alloc` stands: outside the block or in a slot.
pub data Scratch : Type 0 where
  outside : Scratch
  slot : ℕ → Scratch

-- The three copies of a swap.
pub swap : {A : Type 0} → Scratch → List A → ℕ → ℕ → Run (List A)
swap outside items front back = elim (get_elem? items front) [
  | none ↦ fault
  | some tmp ↦ do items' ← copy items front back; store items' back tmp
]
swap (slot tmp) items front back = do
  items' ← copy items tmp front
  items'' ← copy items' front back
  copy items'' back tmp

pub reverse_loop : {A : Type 0} → ℕ → Scratch → List A → ℕ → ℕ → Run (List A)
reverse_loop zero tmp items front back = if ltb front back then timeout else ok items
reverse_loop (suc fuel) tmp items front back = elim (ltb front back) [
  | false ↦ ok items
  | true ↦ do
    items' ← swap tmp items front back
    reverse_loop fuel tmp items' (front + 1) (back - 1)
]

-- In an empty vector `back` stands before the block, and the loop does not start.
reverse_items : {A : Type 0} → Scratch → List A → ℕ → Run (List A)
reverse_items tmp items zero = ok items
reverse_items tmp items (suc last) = reverse_loop (suc last) tmp items 0 last

pub reverse_no_alloc : {A : Type 0} → Vector A → Scratch → Run (Vector A)
unfolding reverse_items
reverse_no_alloc v tmp = do
  items' ← reverse_items tmp v.items v.size
  ok (record v { items = items' })

module _ {A : Type 0} (alloc : Allocator A) (grow : ℕ → ℕ) where
  open alloc use {State, malloc, realloc, malloc_struct}

  -- A result of -1 is `none` or `false`.
  pub init : ℕ → ℕ → State → Option (Vector A) × State
  init item_size cap s =
      let cap' = if cap == 0 then vector_default_capacity else cap in
      let (block, s') = malloc cap' s in
      elim block [
        | none ↦ (none, s')
        | some items ↦
            (some (record { items = items; item_size = item_size; size = 0; cap = cap' }), s')
      ]

  pub create : ℕ → ℕ → State → Option (Vector A) × State
  create item_size cap s =
      let (allocated, s') = malloc_struct s in
      elim allocated [ false ↦ (none, s') | true ↦ init item_size cap s' ]

  pub free_items : Vector A → State → State
  free_items v s = alloc.free v.items s

  pub resize : Vector A → ℕ → State → Bool × Vector A × State
  resize v cap s =
      let (block, s') = realloc v.items cap s in
      elim block [
        | none ↦ (false, v, s')
        | some items ↦ (true, record v { items = items; cap = cap }, s')
      ]

  -- The part of `vector_insert_at` after the growth. `i` is an `unsigned`.
  pub place : Vector A → A → ℕ → Run (Vector A)
  place v item i = do
    items' ← shift_up v.items v.size i
    items'' ← store items' i item
    ok (record v { items = items''; size = add_size v.size 1 })

  pub insert_at : Vector A → A → ℕ → State → Run (Bool × Vector A × State)
  insert_at v item i s = elim (v.size == v.cap) [
    | false ↦ do v' ← place v item i; ok (true, v', s)
    | true ↦
        let (grown, v', s') = resize v (grow v.cap) s in
        elim grown [
          | false ↦ ok (false, v', s')
          | true ↦ do v'' ← place v' item i; ok (true, v'', s')
        ]
  ]

  -- The size is cut to an `unsigned`.
  pub push_back : Vector A → A → State → Run (Bool × Vector A × State)
  push_back v item s = insert_at v item (u32 v.size) s

  pub reverse : Vector A → State → Run (Bool × Vector A × State)
  reverse v s = elim (v.size == v.cap) [
    | true ↦
        let (tmp, s') = malloc 1 s in
        elim tmp [
          | none ↦ ok (false, v, s')
          | some block ↦ do v' ← reverse_no_alloc v outside; ok (true, v', s')
        ]
    | false ↦ do v' ← reverse_no_alloc v (slot v.size); ok (true, v', s)
  ]
