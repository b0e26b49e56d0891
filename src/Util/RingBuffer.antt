-- ===== src/Util/RingBuffer.antt =====
-- util/ring_buffer.c, one atomic access or `memcpy` at a time: any number of writers in
-- `ring_buffer_put` and one reader in `ring_buffer_get`, interleaved in any order. The items are
-- numbers, and the memory is a function of the slot's index.
pub mod Invariant
pub mod Safety
pub mod Races
pub mod Queue
use c8005_assn.Base.{
  ℕ, zero, suc, ◌+◌, ◌-◌, ◌%◌, ◌^◌, ◌<◌, ◌≡◌, Bool, true, false, Option, none, some, ltb, ◌==◌,
  if◌then◌else◌, update, add_size, sub_size, size_mod,
}

-- `ring_buffer_t`; `elem_size` is 1 item.
pub record Ring : Type 0 where
  pub head : ℕ
  pub tail : ℕ
  pub reader_guard : Bool
  pub mem : ℕ → ℕ
  pub size : ℕ

unfoldable pub init : (ℕ → ℕ) → ℕ → Ring
init mem size = record { head = 0; tail = 0; reader_guard = false; mem = mem; size = size }

-- Where a writer stands in `ring_buffer_put`, with the local variables that are live there.
pub data Put : Type 0 where
  idle : Put
  start : (item : ℕ) → Put  -- the head of the loop
  loaded : (item head : ℕ) → Put
  trying : (item head tail : ℕ) → Put  -- before the compare-exchange
  claimed : (item tail : ℕ) → Put  -- before the `memcpy`
  written : Put  -- before the store to `reader_guard`

-- The next access of a writer; the compare-exchange is part of the condition, behind `&&`.
unfoldable pub step_put : Ring → Put → Ring × Put
step_put r idle = (r, idle)
step_put r (start item) = (r, loaded item r.head)
step_put r (loaded item head) =
    (r, if ltb (sub_size r.tail head) r.size then trying item head r.tail else start item)
step_put r (trying item head tail) =
    if r.tail == tail
    then (record r { tail = add_size tail 1 }, claimed item tail)
    else (r, start item)
step_put r (claimed item tail) = (record r { mem = update r.mem (tail % r.size) item }, written)
step_put r written = (record r { reader_guard = true }, idle)

-- Where the reader stands in `ring_buffer_get`. A call that ends leaves its result in `returned`:
-- `none` if it left the loop by `break`.
pub data Get : Type 0 where
  begin : Get  -- the head of the loop
  seen : (head : ℕ) → Get
  empty : Get  -- before the store of 0 to `reader_guard`
  waiting : (head : ℕ) → Get  -- before the load of `reader_guard`
  reading : (head : ℕ) → Get
  release : (head out : ℕ) → Get  -- before the store to `head`
  returned : Option ℕ → Get

unfoldable pub step_get : Ring → Get → Ring × Get
step_get r begin = (r, seen r.head)
step_get r (seen head) = (r, if head == r.tail then empty else waiting head)
step_get r empty = (record r { reader_guard = false }, returned none)
step_get r (waiting head) = (r, if r.reader_guard then reading head else begin)
step_get r (reading head) = (r, release head (r.mem (head % r.size)))
step_get r (release head out) = (record r { head = add_size head 1 }, returned (some out))
step_get r (returned out) = (r, returned out)

-- The threads over one ring. `claims` counts the compare-exchanges that succeeded, and is no part of
-- the program.
pub record System : Type 0 where
  pub ring : Ring
  pub writers : ℕ → Put
  pub reader : Get
  pub claims : ℕ

-- Whether the next access of a writer is a compare-exchange that succeeds.
unfoldable pub wins : Ring → Put → ℕ
wins r (trying item head tail) = if r.tail == tail then 1 else 0
wins r _ = 0

abbrev pub begin_system : (ℕ → ℕ) → ℕ → System
begin_system mem size = record {
  ring = record { head = 0; tail = 0; reader_guard = false; mem = mem; size = size };
  writers = λ _. idle;
  reader = begin;
  claims = 0;
}

abbrev pub write : System → ℕ → System
write s i = record {
  ring = (step_put s.ring (s.writers i)).0;
  writers = update s.writers i (step_put s.ring (s.writers i)).1;
  reader = s.reader;
  claims = s.claims + wins s.ring (s.writers i);
}

abbrev pub read : System → System
read s = record s { ring = (step_get s.ring s.reader).0; reader = (step_get s.ring s.reader).1 }

-- A writer or the reader goes on, an idle writer calls `ring_buffer_put`, or the reader calls
-- `ring_buffer_get` again.
pub data Step (s : System) : System → Type 0 where
  writes : (i : ℕ) → Step s (write s i)
  reads : Step s (read s)
  puts :
      (i item : ℕ)
      → s.writers i ≡ idle
      → Step s (record s { writers = update s.writers i (start item) })
  gets : (out : Option ℕ) → s.reader ≡ returned out → Step s (record s { reader = begin })

pub data Reach (mem : ℕ → ℕ) (size : ℕ) : System → Type 0 where
  here : Reach mem size (begin_system mem size)
  next : {s t : System} → Reach mem size s → Step s t → Reach mem size t
