-- ===== src/Util/RingBuffer/Safety.antt =====
-- What holds of the ring whatever the order of the accesses.
use c8005_assn.Base.{
  ==→ne, ltb→lt, ==→eq, inr, inl, Bool-cases, subst, ℕ, ◌+◌, ◌%◌, ◌≤◌, ◌<◌, ◌≡◌, refl, sym, ◌∙◌,
  true, false, none, some, arith, ltb, ◌==◌, if◌then◌else◌, update, add_size, sub_size, size_mod,
}
use native.Mathlib.Nat.{mod-eq_of_lt}
use c8005_assn.Util.RingBuffer.{
  Ring, Put, idle, start, loaded, trying, claimed, written, step_put, Get, begin, seen, empty,
  waiting, reading, release, returned, step_get, System, wins, begin_system, Step, writes, reads,
  puts, gets, Reach, here, next,
}
use c8005_assn.Util.RingBuffer.Invariant.{
  IsFreshPut, IsFreshGet, Inv, IsFreshPut-mono, ticketless, Inv-move, Inv-claim,
}

-- The test of `ring_buffer_put` leaves room at the tail; `head` may be old.
room :
    (size : ℕ) (s : System) (head : ℕ)
    → head ≤ s.ring.head
    → s.claims + 0 < size_mod
    → sub_size s.ring.tail head < s.ring.size
    → Inv size s
    → s.ring.tail < head + s.ring.size
room size s head f few q v = omega (arith, q, few, v.ordered, v.counted)

-- One access of a writer.
Inv-write :
    (size : ℕ) (s : System) (i : ℕ) (p : Put)
    → s.writers i ≡ p
    → s.claims + wins s.ring p < size_mod
    → Inv size s
    → Inv size (record {
      ring = (step_put s.ring p).0;
      writers = update s.writers i (step_put s.ring p).1;
      reader = s.reader;
      claims = s.claims + wins s.ring p;
    })
unfolding step_put wins
Inv-write size s i idle e few v =
    Inv-move size s i s.ring idle (s.claims + 0) (omega arith) refl refl refl refl tt v
Inv-write size s i (start item) e few v =
    Inv-move size s i s.ring (loaded item s.ring.head) (s.claims + 0) (omega arith) refl refl refl
      refl (omega arith) v
Inv-write size s i (loaded item head) e few v =
    let f : head ≤ s.ring.head = subst (IsFreshPut s.ring) e (v.putting i) in
    elim (Bool-cases (ltb (sub_size s.ring.tail head) s.ring.size)) [
      | inl q ↦ rw (q) (
          Inv-move size s i s.ring (trying item head s.ring.tail) (s.claims + 0) (omega arith) refl
            refl refl refl (f, room size s head f few (ltb→lt _ _ q) v, omega arith) v)
      | inr q ↦ rw (q) (
          Inv-move size s i s.ring (start item) (s.claims + 0) (omega arith) refl refl refl refl tt
            v)
    ]
Inv-write size s i (trying item head tail) e few v =
    let f : IsFreshPut s.ring (trying item head tail) = subst (IsFreshPut s.ring) e (v.putting i) in
    elim (Bool-cases (s.ring.tail == tail)) [
      | inl q ↦
          let t : s.ring.tail ≡ tail = ==→eq s.ring.tail tail q in
          let few' : s.claims + 1 < size_mod =
            subst (λ b. s.claims + (if b then 1 else 0) < size_mod) q few in
          let goal =
            Inv-claim size s i item (omega (arith, few', v.counted)) (omega (arith, f.0, f.1, t))
              v in
          rw (q) (rw (← t) goal)
      | inr q ↦ rw (q) (
          Inv-move size s i s.ring (start item) (s.claims + 0) (omega arith) refl refl refl refl tt
            v)
    ]
Inv-write size s i (claimed item tail) e few v =
    Inv-move size s i (record (s.ring) { mem = update s.ring.mem (tail % s.ring.size) item })
      written (s.claims + 0) (omega arith) refl refl refl refl tt v
Inv-write size s i written e few v =
    Inv-move size s i (record (s.ring) { reader_guard = true }) idle (s.claims + 0) (omega arith)
      refl refl refl refl tt v

-- The reader goes on. The writers' locals do not see it.
Inv-turn :
    (size : ℕ) (s : System) (r : Ring) (g : Get)
    → r.tail ≡ s.ring.tail
    → r.size ≡ s.ring.size
    → s.ring.head ≤ r.head
    → r.head ≤ r.tail
    → IsFreshGet r g
    → Inv size s
    → Inv size (record { ring = r; writers = s.writers; reader = g; claims = s.claims })
Inv-turn size s r g b c up below f v = record {
  sized = c ∙ v.sized;
  counted = b ∙ v.counted;
  ordered = below;
  bounded = omega (arith, v.bounded);
  putting = λ j. IsFreshPut-mono s.ring r (s.writers j) up (sym c) (omega arith) (v.putting j);
  getting = f;
  unique = v.unique;
}

-- One access of the reader.
Inv-read :
    (size : ℕ) (s : System) (g : Get)
    → s.reader ≡ g
    → s.claims < size_mod
    → Inv size s
    → Inv size (record {
      ring = (step_get s.ring g).0;
      writers = s.writers;
      reader = (step_get s.ring g).1;
      claims = s.claims;
    })
unfolding step_get
Inv-read size s begin e few v =
    Inv-turn size s s.ring (seen s.ring.head) refl refl (omega arith) v.ordered refl v
Inv-read size s (seen head) e few v =
    let f : head ≡ s.ring.head = subst (IsFreshGet s.ring) e v.getting in
    elim (Bool-cases (head == s.ring.tail)) [
      | inl q ↦ rw (q) (Inv-turn size s s.ring empty refl refl (omega arith) v.ordered tt v)
      | inr q ↦ rw (q) (
          Inv-turn size s s.ring (waiting head) refl refl (omega arith) v.ordered
            (f, omega (arith, f, v.ordered, ==→ne head s.ring.tail q)) v)
    ]
Inv-read size s empty e few v =
    Inv-turn size s (record (s.ring) { reader_guard = false }) (returned none) refl refl
      (omega arith) v.ordered tt v
Inv-read size s (waiting head) e few v =
    let f : IsFreshGet s.ring (waiting head) = subst (IsFreshGet s.ring) e v.getting in
    elim s.ring.reader_guard
      as (λ b. Inv size (record s { reader = if b then reading head else begin })) [
        | true ↦ Inv-turn size s s.ring (reading head) refl refl (omega arith) v.ordered f v
        | false ↦ Inv-turn size s s.ring begin refl refl (omega arith) v.ordered tt v
      ]
Inv-read size s (reading head) e few v =
    let f : IsFreshGet s.ring (reading head) = subst (IsFreshGet s.ring) e v.getting in
    Inv-turn size s s.ring (release head (s.ring.mem (head % s.ring.size))) refl refl (omega arith)
      v.ordered f v
Inv-read size s (release head out) e few v =
    let f : IsFreshGet s.ring (release head out) = subst (IsFreshGet s.ring) e v.getting in
    let q : add_size head 1 ≡ head + 1 = mod-eq_of_lt (omega (arith, f.0, f.1, few, v.counted)) in
    Inv-turn size s (record (s.ring) { head = add_size head 1 }) (returned (some out)) refl refl
      (omega (arith, q, f.0)) (omega (arith, q, f.0, f.1)) tt v
Inv-read size s (returned out) e few v =
    Inv-turn size s s.ring (returned out) refl refl (omega arith) v.ordered tt v

Inv-begin : (mem : ℕ → ℕ) (size : ℕ) → Inv size (begin_system mem size)
Inv-begin mem size = record {
  sized = refl;
  counted = refl;
  ordered = omega arith;
  bounded = omega arith;
  putting = λ j. tt;
  getting = tt;
  unique = λ i j t x y. absurd (ticketless x);
}

Inv-Step :
    {s t : System} (size : ℕ)
    → Step s t
    → t.claims < size_mod
    → (s.claims < size_mod → Inv size s)
    → Inv size t
Inv-Step {s} size (writes i) few v =
    Inv-write size s i (s.writers i) refl few (v (omega (arith, few)))
Inv-Step {s} size reads few v = Inv-read size s s.reader refl few (v few)
Inv-Step {s} size (puts i item q) few v =
    Inv-move size s i s.ring (start item) s.claims refl refl refl refl refl tt (v few)
Inv-Step {s} size (gets out q) few v =
    Inv-turn size s s.ring begin refl refl (omega arith) ((v few).ordered) tt (v few)

-- In a state that is reached with fewer than 2^64 claims, by any order of the accesses, the
-- invariant holds: the head is at most the tail, which is at most `size` ahead of it, no position is
-- claimed by two writers, and what the writers and the reader have loaded bounds the head and the
-- tail.
pub Reach-Inv :
    {mem : ℕ → ℕ} {size : ℕ} {s : System} → Reach mem size s → s.claims < size_mod → Inv size s
Reach-Inv {mem} {size} here few = Inv-begin mem size
Reach-Inv {size = size} (next r step) few = Inv-Step size step few (λ f. Reach-Inv r f)
