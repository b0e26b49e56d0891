-- ===== src/Util/RingBuffer/Races.antt =====
-- Orders of the accesses in which `ring_buffer_get` goes wrong.
use c8005_assn.Base.{
  ◌∙◌, ap, lt→ltb, subst, ℕ, ◌+◌, ◌%◌, ◌≡◌, refl, true, some, arith, ltb, if◌then◌else◌, update,
  sub_size,
}
use native.Mathlib.Nat.{zero-mod, mod-eq_of_lt}
use c8005_assn.Util.RingBuffer.{
  Put, start, loaded, trying, claimed, step_put, release, step_get, System, wins, begin_system,
  writes, reads, puts, gets, Reach, here, next,
}

-- The first item is in the place 0.
unwritten : (mem : ℕ → ℕ) (n a : ℕ) → update mem (0 % (n + 2)) a (1 % (n + 2)) ≡ mem 1
unwritten mem n a = rw (zero-mod (n + 2), mod-eq_of_lt {n = 1} {m = n + 2} (omega arith))

-- The test finds room, so the writer goes on to its compare-exchange.
admitted :
    {mem : ℕ → ℕ} {size : ℕ} (s : System) (i item head : ℕ)
    → s.writers i ≡ loaded item head
    → ltb (sub_size s.ring.tail head) s.ring.size ≡ true
    → Reach mem size s
    → Reach mem size (record s {
      writers = update s.writers i (trying item head s.ring.tail);
      claims = s.claims + 0;
    })
unfolding step_put wins
admitted {mem} {size} s i item head e q r =
    subst (Reach mem size)
      (ap (after s i) e
        ∙ ap
            (λ b. record s {
              writers = update s.writers i (if b then trying item head s.ring.tail else start item);
              claims = s.claims + 0;
            })
            q)
      (next r (writes i))
  where
    after : System → ℕ → Put → System
    after s i p = record {
      ring = (step_put s.ring p).0;
      writers = update s.writers i (step_put s.ring p).1;
      reader = s.reader;
      claims = s.claims + wins s.ring p;
    }

-- For every ring of two places or more there is an order of the accesses in which `ring_buffer_get`
-- copies the place 1 before the writer that has claimed it copies its item there: it is about to give
-- what the memory held before.
pub torn_read :
    (mem : ℕ → ℕ) (n a b : ℕ)
    → (s : System) × Reach mem (n + 2) s
      × (s.writers 1 ≡ claimed b 1)
      × (s.reader ≡ release 1 (mem 1))
unfolding step_put step_get wins
torn_read mem n a b =
    let r : Reach mem (n + 2) (begin_system mem (n + 2)) = here in
    let r0 = next (next r (puts 0 a refl)) (puts 1 b refl) in
    let r1 =
      next (admitted _ 0 a 0 refl (lt→ltb 0 (n + 2) (omega arith)) (next r0 (writes 0)))
        (writes 0) in
    let r2 =
      next (admitted _ 1 b 0 refl (lt→ltb 1 (n + 2) (omega arith)) (next r1 (writes 1)))
        (writes 1) in
    let r3 = next (next r2 (writes 0)) (writes 0) in
    let r4 = next (next (next r3 reads) reads) reads in
    let r5 = next (next (next r4 reads) reads) (gets (some _) refl) in
    let r6 = next (next (next (next r5 reads) reads) reads) reads in
    (_, r6, refl, ap (release 1) (unwritten mem n a))
