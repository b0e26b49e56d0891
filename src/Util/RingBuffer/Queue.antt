-- ===== src/Util/RingBuffer/Queue.antt =====
-- `ring_buffer_put` and `ring_buffer_get` as whole calls, made one after another, and the bounded queue
-- that they implement.
pub mod Refinement
use c8005_assn.Base.{
  ℕ, zero, suc, ◌+◌, ◌<◌, Bool, true, false, Option, none, some, List, [], ◌∷◌, ◌++◌, length, ltb,
  Run, ok, timeout, ◌>>=◌,
}
use c8005_assn.Util.RingBuffer.{Ring, Put, idle, start, step_put, Get, begin, returned, step_get}

-- The accesses of a writer until it is done.
unfoldable pub finish_put : ℕ → Ring → Put → Run Ring
finish_put fuel r idle = ok r
finish_put zero r p = timeout
finish_put (suc fuel) r p = finish_put fuel (step_put r p).0 (step_put r p).1

-- The accesses of the reader until it is done.
unfoldable pub finish_get : ℕ → Ring → Get → Run (Option ℕ × Ring)
finish_get fuel r (returned out) = ok (out, r)
finish_get zero r g = timeout
finish_get (suc fuel) r g = finish_get fuel (step_get r g).0 (step_get r g).1

pub data Call : Type 0 where
  put : (item : ℕ) → Call
  get : Call

-- The results of the `get`s are listed in order.
unfoldable pub run_calls : ℕ → Ring → List Call → Run (List (Option ℕ) × Ring)
run_calls fuel r [] = ok ([], r)
run_calls fuel r (put item ∷ calls) = do
  r' ← finish_put fuel r (start item)
  run_calls fuel r' calls
run_calls fuel r (get ∷ calls) = do
  (out, r') ← finish_get fuel r begin
  (outs, r'') ← run_calls fuel r' calls
  ok (out ∷ outs, r'')

-- The queue of at most `size` items: a `put` to a full queue waits, and a `get` from an empty one gives
-- none.
unfoldable pub run_queue : ℕ → List ℕ → List Call → Run (List (Option ℕ) × List ℕ)
run_queue size q [] = ok ([], q)
run_queue size q (put item ∷ calls) = elim (ltb (length q) size) [
  | true ↦ run_queue size (q ++ item ∷ []) calls
  | false ↦ timeout
]
run_queue size [] (get ∷ calls) = do (outs, q') ← run_queue size [] calls; ok (none ∷ outs, q')
run_queue size (x ∷ q) (get ∷ calls) = do
  (outs, q') ← run_queue size q calls
  ok (some x ∷ outs, q')
