-- ===== src/Util/RingBuffer/Invariant.antt =====
-- What holds of the ring between two accesses, and how a writer keeps it.
use c8005_assn.Base.{
  ==→eq, inr, inl, Bool-cases, subst, ℕ, ◌+◌, ◌≤◌, ◌<◌, ◌≡◌, refl, ap, sym, ◌∙◌, true, false,
  Option, none, some, arith, ◌==◌, if◌then◌else◌, update, add_size, size_mod,
}
use native.Mathlib.Nat.{mod-eq_of_lt}
use mathlib.Core.Option.{some-injective}
use c8005_assn.Util.RingBuffer.{
  Ring, Put, idle, start, loaded, trying, claimed, written, Get, begin, seen, empty, waiting,
  reading, release, returned, System,
}

-- What the locals of a writer say about the ring.
abbrev pub IsFreshPut : Ring → Put → Type 0
IsFreshPut r (loaded item head) = head ≤ r.head
IsFreshPut r (trying item head tail) = (head ≤ r.head) × (tail < head + r.size) × (tail ≤ r.tail)
IsFreshPut r (claimed item tail) = tail < r.tail
IsFreshPut r _ = Unit

-- What the locals of the reader say about the ring.
abbrev pub IsFreshGet : Ring → Get → Type 0
IsFreshGet r (seen head) = head ≡ r.head
IsFreshGet r (waiting head) = (head ≡ r.head) × (r.head < r.tail)
IsFreshGet r (reading head) = (head ≡ r.head) × (r.head < r.tail)
IsFreshGet r (release head out) = (head ≡ r.head) × (r.head < r.tail)
IsFreshGet r _ = Unit

-- The position that a writer has claimed.
abbrev pub ticket : Put → Option ℕ
ticket (claimed item tail) = some tail
ticket _ = none

pub record Inv (size : ℕ) (s : System) : Type 0 where
  pub sized : s.ring.size ≡ size
  pub counted : s.ring.tail ≡ s.claims
  pub ordered : s.ring.head ≤ s.ring.tail
  pub bounded : s.ring.tail ≤ s.ring.head + s.ring.size
  pub putting : (i : ℕ) → IsFreshPut s.ring (s.writers i)
  pub getting : IsFreshGet s.ring s.reader
  pub unique : (i j t : ℕ) → ticket (s.writers i) ≡ some t → ticket (s.writers j) ≡ some t → i ≡ j

pub IsFreshPut-mono :
    (r r' : Ring) (p : Put)
    → r.head ≤ r'.head
    → r.size ≡ r'.size
    → r.tail ≤ r'.tail
    → IsFreshPut r p
    → IsFreshPut r' p
IsFreshPut-mono r r' idle a b c f = tt
IsFreshPut-mono r r' (start item) a b c f = tt
IsFreshPut-mono r r' (loaded item head) a b c f = omega (arith, f)
IsFreshPut-mono r r' (trying item head tail) a b c f =
    (omega (arith, f.0), omega (arith, f.1), omega (arith, f.2))
IsFreshPut-mono r r' (claimed item tail) a b c f = omega (arith, f)
IsFreshPut-mono r r' written a b c f = tt

pub IsFreshGet-mono :
    (r r' : Ring) (g : Get) → r.head ≡ r'.head → r.tail ≤ r'.tail → IsFreshGet r g → IsFreshGet r' g
IsFreshGet-mono r r' begin a b f = tt
IsFreshGet-mono r r' (seen head) a b f = f ∙ a
IsFreshGet-mono r r' empty a b f = tt
IsFreshGet-mono r r' (waiting head) a b f = (f.0 ∙ a, omega (arith, f.1))
IsFreshGet-mono r r' (reading head) a b f = (f.0 ∙ a, omega (arith, f.1))
IsFreshGet-mono r r' (release head out) a b f = (f.0 ∙ a, omega (arith, f.1))
IsFreshGet-mono r r' (returned out) a b f = tt

pub ticketless : {t : ℕ} → none ≡ some t → ⊥
ticketless e = cc

pub ticket_below : (r : Ring) (p : Put) (t : ℕ) → IsFreshPut r p → ticket p ≡ some t → t < r.tail
ticket_below r (claimed item tail) t f e = subst (λ k. k < r.tail) (some-injective _ _ e) f
ticket_below r idle t f e = absurd (ticketless e)
ticket_below r (start item) t f e = absurd (ticketless e)
ticket_below r (loaded item head) t f e = absurd (ticketless e)
ticket_below r (trying item head tail) t f e = absurd (ticketless e)
ticket_below r written t f e = absurd (ticketless e)

-- A writer without a position adds none.
pub still :
    (s : System) (i j : ℕ) (p : Put) (t : ℕ)
    → ticket p ≡ none
    → ticket (update s.writers i p j) ≡ some t
    → ticket (s.writers j) ≡ some t
still s i j p t quiet x = elim (Bool-cases (i == j)) [
  | inl e ↦
      absurd
        (ticketless (sym quiet ∙ subst (λ b. ticket (if b then p else s.writers j) ≡ some t) e x))
  | inr e ↦ subst (λ b. ticket (if b then p else s.writers j) ≡ some t) e x
]

-- A writer goes on without a claim.
pub Inv-move :
    (size : ℕ) (s : System) (i : ℕ) (r : Ring) (p : Put) (claims : ℕ)
    → claims ≡ s.claims
    → r.head ≡ s.ring.head
    → r.tail ≡ s.ring.tail
    → r.size ≡ s.ring.size
    → ticket p ≡ none
    → IsFreshPut r p
    → Inv size s
    → Inv size
        (record { ring = r; writers = update s.writers i p; reader = s.reader; claims = claims })
Inv-move size s i r p claims same a b c quiet f v = record {
  sized = c ∙ v.sized;
  counted = b ∙ v.counted ∙ sym same;
  ordered = omega (arith, v.ordered);
  bounded = omega (arith, v.bounded);
  putting = λ j. elim (Bool-cases (i == j)) [
    | inl e ↦ rw e f
    | inr e ↦
        rw e
          (IsFreshPut-mono s.ring r (s.writers j) (omega arith) (sym c) (omega arith) (v.putting j))
  ];
  getting = IsFreshGet-mono s.ring r s.reader (sym a) (omega arith) v.getting;
  unique = λ j k t x y. v.unique j k t (still s i j p t quiet x) (still s i k p t quiet y);
}

-- The other writers keep their positions.
pub unclaimed :
    (s : System) (i j item t : ℕ)
    → (i == j) ≡ false
    → ticket (update s.writers i (claimed item s.ring.tail) j) ≡ some t
    → ticket (s.writers j) ≡ some t
unclaimed s i j item t e x =
    subst (λ b. ticket (if b then claimed item s.ring.tail else s.writers j) ≡ some t) e x

-- The writer that claims gets the tail.
pub own_claim :
    (s : System) (i j item t : ℕ)
    → (i == j) ≡ true
    → ticket (update s.writers i (claimed item s.ring.tail) j) ≡ some t
    → s.ring.tail ≡ t
own_claim s i j item t e x =
    some-injective _ _
      (subst (λ b. ticket (if b then claimed item s.ring.tail else s.writers j) ≡ some t) e x)

pub taken :
    {size : ℕ} (s : System) (k t : ℕ)
    → s.ring.tail ≡ t
    → ticket (s.writers k) ≡ some t
    → Inv size s
    → ⊥
taken s k t q z v = omega (arith, ticket_below s.ring (s.writers k) t (v.putting k) z)

-- A writer takes the position at the tail.
pub Inv-claim :
    (size : ℕ) (s : System) (i item : ℕ)
    → s.ring.tail + 1 < size_mod
    → s.ring.tail < s.ring.head + s.ring.size
    → Inv size s
    → Inv size (record {
      ring = record (s.ring) { tail = add_size s.ring.tail 1 };
      writers = update s.writers i (claimed item s.ring.tail);
      reader = s.reader;
      claims = s.claims + 1;
    })
Inv-claim size s i item few room v =
    let grown : add_size s.ring.tail 1 ≡ s.ring.tail + 1 = mod-eq_of_lt few in
    let r' = record (s.ring) { tail = add_size s.ring.tail 1 } in
    let up : s.ring.tail ≤ add_size s.ring.tail 1 = omega (arith, grown) in
    record {
      sized = v.sized;
      counted = grown ∙ ap (λ k. k + 1) v.counted;
      ordered = omega (arith, v.ordered, up);
      bounded = omega (arith, room, grown);
      putting = λ j. elim (Bool-cases (i == j)) [
        | inl e ↦ rw e (omega (arith, grown))
        | inr e ↦ rw e (IsFreshPut-mono s.ring r' (s.writers j) (omega arith) refl up (v.putting j))
      ];
      getting = IsFreshGet-mono s.ring r' s.reader refl up v.getting;
      unique = λ j k t x y. elim (Bool-cases (i == j)) [
        | inl a ↦ elim (Bool-cases (i == k)) [
          | inl b ↦ sym (==→eq i j a) ∙ ==→eq i k b
          | inr b ↦ absurd (taken s k t (own_claim s i j item t a x) (unclaimed s i k item t b y) v)
        ]
        | inr a ↦ elim (Bool-cases (i == k)) [
          | inl b ↦ absurd (taken s j t (own_claim s i k item t b y) (unclaimed s i j item t a x) v)
          | inr b ↦ v.unique j k t (unclaimed s i j item t a x) (unclaimed s i k item t b y)
        ]
      ];
    }
