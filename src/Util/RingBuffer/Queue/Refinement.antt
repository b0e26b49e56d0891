-- ===== src/Util/RingBuffer/Queue/Refinement.antt =====
-- Calls on a ring do what they do on the queue.
use c8005_assn.Base.{
  ltb→ge, ltb→lt, inl, inr, le→ltb, ℕ, zero, suc, ◌+◌, ◌%◌, ◌<◌, ◌≤◌, ◌≡◌, ◌∙◌, refl, sym, ap,
  arith, true, false, Option, none, some, List, [], ◌∷◌, ◌++◌, length, length-append, ltb, lt→ltb,
  ◌==◌, if◌then◌else◌, ne→==, eq→==, update, add_size, sub_size, size_mod, mod-ne_near, Bool-cases,
  Run, ok, timeout, fault, ◌>>=◌,
}
use mathlib.Core.List.{head-eq_of_cons-eq, tail-eq_of_cons-eq}
use c8005_assn.Util.RingBuffer.{
  Ring, start, loaded, trying, claimed, step_put, begin, empty, waiting, reading, step_get,
}
use c8005_assn.Util.RingBuffer.Queue.{finish_put, finish_get, Call, put, get, run_calls, run_queue}

abbrev pub five_more : ℕ → ℕ
five_more n = suc (suc (suc (suc (suc n))))

-- What `n` places from the position `head` on hold.
abbrev pub items : (ℕ → ℕ) → ℕ → ℕ → ℕ → List ℕ
items mem size head zero = []
items mem size head (suc n) = mem (head % size) ∷ items mem size (head + 1) n

items-push :
    (mem : ℕ → ℕ) (size head n : ℕ)
    → items mem size head (suc n) ≡ items mem size head n ++ mem ((head + n) % size) ∷ []
items-push mem size head zero =
    ap (λ k. mem (k % size) ∷ []) {x = head} {y = head + 0} (omega arith)
items-push mem size head (suc n) =
    let shift : head + 1 + n ≡ head + suc n = omega arith in
    let rest : items mem size (head + 1) (suc n)
        ≡ items mem size (head + 1) n ++ mem ((head + suc n) % size) ∷ [] =
      items-push mem size (head + 1) n
      ∙ ap (λ k. items mem size (head + 1) n ++ mem (k % size) ∷ []) shift in
    ap (λ t. mem (head % size) ∷ t) rest

items-update :
    (mem : ℕ → ℕ) (size head n tail item : ℕ)
    → head + n ≤ tail
    → tail < head + size
    → items (update mem (tail % size) item) size head n ≡ items mem size head n
items-update mem size head zero tail item low near = refl
items-update mem size head (suc n) tail item low near =
    rw
      (ne→== (tail % size) (head % size)
        (λ e. mod-ne_near head tail size (omega arith) near (sym e)))
      (ap (λ t. mem (head % size) ∷ t)
        (items-update mem size (head + 1) n tail item (omega arith) (omega arith)))

-- The ring holds the queue, and no call is under way.
pub record IsQueue (size : ℕ) (r : Ring) (q : List ℕ) : Type 0 where
  pub sized : r.size ≡ size
  pub held : items r.mem r.size r.head (length q) ≡ q
  pub filled : r.tail ≡ r.head + length q
  pub fits : length q ≤ size
  pub guarded : 0 < length q → r.reader_guard ≡ true

-- The same results and a ring that holds the queue, or both wait.
abbrev pub Agrees : ℕ → Run (List (Option ℕ) × Ring) → Run (List (Option ℕ) × List ℕ) → Type 0
Agrees size (ok (outs, r)) (ok (outs', q)) = (outs ≡ outs') × IsQueue size r q
Agrees size timeout timeout = Unit
Agrees size _ _ = ⊥

put_done :
    (n size item : ℕ) (r : Ring) (q : List ℕ)
    → IsQueue size r q
    → length q < size
    → r.tail + 1 < size_mod
    → (r' : Ring) × (finish_put (five_more n) r (start item) ≡ ok r')
      × IsQueue size r' (q ++ item ∷ [])
      × (r'.tail ≡ r.tail + 1)
unfolding finish_put step_put
put_done n size item r q v room few =
    let small : sub_size r.tail r.head < r.size = omega (arith, v.sized, v.filled, room, few) in
    let checked : step_put r (loaded item r.head) ≡ (r, trying item r.head r.tail) =
      ap (λ b. (r, if b then trying item r.head r.tail else start item)) (lt→ltb _ _ small) in
    let won : step_put r (trying item r.head r.tail)
        ≡ (record r { tail = add_size r.tail 1 }, claimed item r.tail) =
      ap
        (λ b.
          if b
          then (record r { tail = add_size r.tail 1 }, claimed item r.tail)
          else (r, start item))
        (eq→== r.tail r.tail refl) in
    let grown : add_size r.tail 1 ≡ r.tail + 1 = omega (arith, few) in
    let mem' = update r.mem (r.tail % r.size) item in
    let longer : length (q ++ item ∷ []) ≡ suc (length q) =
      omega (arith, length-append q (item ∷ [])) in
    let kept : items mem' r.size r.head (length q) ≡ q =
      items-update r.mem r.size r.head (length q) r.tail item (omega (arith, v.filled))
        (omega (arith, v.filled, v.sized, room))
      ∙ v.held in
    let new : mem' ((r.head + length q) % r.size) ≡ item =
      rw (eq→== (r.tail % r.size) ((r.head + length q) % r.size) (ap (λ k. k % r.size) v.filled))
        refl in
    (
      record r { tail = add_size r.tail 1; mem = mem'; reader_guard = true },
      ap (λ s. finish_put (suc (suc (suc n))) s.0 s.1) checked
          ∙ ap (λ s. finish_put (suc (suc n)) s.0 s.1) won,
      record {
        sized = v.sized;
        held =
            ap (items mem' r.size r.head) longer
            ∙ items-push mem' r.size r.head (length q)
            ∙ ap (λ t. t ++ mem' ((r.head + length q) % r.size) ∷ []) kept
            ∙ ap (λ x. q ++ x ∷ []) new;
        filled = omega (arith, grown, v.filled, length-append q (item ∷ []));
        fits = omega (arith, room, length-append q (item ∷ []));
        guarded = λ h. refl;
      },
      grown,
    )

-- A writer that finds the queue full goes round for ever.
put_waits :
    (fuel size item : ℕ) (r : Ring) (q : List ℕ)
    → IsQueue size r q
    → length q ≡ size
    → r.tail < size_mod
    → finish_put fuel r (start item) ≡ timeout
unfolding finish_put step_put
put_waits zero size item r q v full few = refl
put_waits (suc zero) size item r q v full few = refl
put_waits (suc (suc fuel)) size item r q v full few =
    let large : ltb (sub_size r.tail r.head) r.size ≡ false =
      le→ltb (sub_size r.tail r.head) r.size (omega (arith, v.sized, v.filled, full, few)) in
    rw (large, finish_put) (put_waits fuel size item r q v full few)

get_done :
    (n size x : ℕ) (r : Ring) (q : List ℕ)
    → IsQueue size r (x ∷ q)
    → r.tail < size_mod
    → (r' : Ring) × (finish_get (five_more n) r begin ≡ ok (some x, r'))
      × IsQueue size r' q
      × (r'.tail ≡ r.tail)
unfolding finish_get step_get
get_done n size x r q v few =
    let head_ne : (r.head == r.tail) ≡ false = ne→== r.head r.tail (omega (arith, v.filled)) in
    let grown : add_size r.head 1 ≡ r.head + 1 = omega (arith, few, v.filled) in
    (
      record r { head = add_size r.head 1 },
      ap (λ b. finish_get (suc (suc (suc n))) r (if b then empty else waiting r.head)) head_ne
          ∙ ap (λ b. finish_get (suc (suc n)) r (if b then reading r.head else begin))
              (v.guarded (omega arith))
          ∙ ap (λ y. ok (some y, record r { head = add_size r.head 1 }))
              (head-eq_of_cons-eq v.held),
      record {
        sized = v.sized;
        held = ap (λ h. items r.mem r.size h (length q)) grown ∙ tail-eq_of_cons-eq v.held;
        filled = omega (arith, grown, v.filled);
        fits = omega (arith, v.fits);
        guarded = λ h. v.guarded (omega arith);
      },
      refl,
    )

get_none :
    (n size : ℕ) (r : Ring)
    → IsQueue size r []
    → (r' : Ring) × (finish_get (five_more n) r begin ≡ ok (none, r'))
      × IsQueue size r' []
      × (r'.tail ≡ r.tail)
unfolding finish_get step_get
get_none n size r v = (
  record r { reader_guard = false },
  rw (eq→== r.head r.tail (omega (arith, v.filled)), finish_get) refl,
  record {
    sized = v.sized;
    held = refl;
    filled = v.filled;
    fits = v.fits;
    guarded = λ h. absurd (omega (arith, h));
  },
  refl,
)

Agrees-cons :
    (size : ℕ) (out : Option ℕ) (a : Run (List (Option ℕ) × Ring))
    (b : Run (List (Option ℕ) × List ℕ))
    → Agrees size a b
    → Agrees size (do (outs, r) ← a; ok (out ∷ outs, r)) (do (outs, q) ← b; ok (out ∷ outs, q))
Agrees-cons size out (ok (outs, r)) (ok (outs', q)) (same, v) = (ap (λ t. out ∷ t) same, v)
Agrees-cons size out timeout timeout h = tt
Agrees-cons size out (ok a) fault h = absurd h
Agrees-cons size out (ok a) timeout h = absurd h
Agrees-cons size out fault b h = absurd h
Agrees-cons size out timeout (ok b) h = absurd h
Agrees-cons size out timeout fault h = absurd h

-- A ring that holds a queue, with fewer calls to come than positions up to 2^64: with five accesses or
-- more for each call, calls made one after another give what they give on the queue of at most `size`
-- items, and leave a ring that holds the queue that is left; or both wait in a `put` to a full queue.
-- A `get` on an empty ring does not wait, as ring_buffer.h says it would: it gives nothing and goes on,
-- and so does the queue it is compared with.
pub run_calls-Agrees :
    (n size : ℕ) (calls : List Call) (r : Ring) (q : List ℕ)
    → IsQueue size r q
    → r.tail + length calls < size_mod
    → Agrees size (run_calls (five_more n) r calls) (run_queue size q calls)
unfolding run_calls run_queue
run_calls-Agrees n size [] r q v few = (refl, v)
run_calls-Agrees n size (put item ∷ calls) r q v few = elim (Bool-cases (ltb (length q) size)) [
  | inr full ↦
      let e =
        put_waits (five_more n) size item r q v (omega (arith, v.fits, ltb→ge _ _ full))
          (omega (arith, few)) in
      rw (full, run_queue) (rw (e, Agrees) tt)
  | inl room ↦
      let (r', e, v', grown) = put_done n size item r q v (ltb→lt _ _ room) (omega (arith, few)) in
      rw (room, run_queue)
        (rw (e, Agrees)
          (run_calls-Agrees n size calls r' (q ++ item ∷ []) v' (omega (arith, few, grown))))
]
run_calls-Agrees n size (get ∷ calls) r [] v few =
    let (r', e, v', kept) = get_none n size r v in
    rw (e, Agrees)
      (Agrees-cons size none (run_calls (five_more n) r' calls) (run_queue size [] calls)
        (run_calls-Agrees n size calls r' [] v' (omega (arith, few, kept))))
run_calls-Agrees n size (get ∷ calls) r (x ∷ q) v few =
    let (r', e, v', kept) = get_done n size x r q v (omega (arith, few)) in
    rw (e, Agrees)
      (Agrees-cons size (some x) (run_calls (five_more n) r' calls) (run_queue size q calls)
        (run_calls-Agrees n size calls r' q v' (omega (arith, few, kept))))
