-- ===== src/Server/Thread/Handshake/Invariant.antt =====
-- The invariant of the workers and the acceptor, and what one access does to it.
use c8005_assn.Base.{
  ◌∙◌, List, [], ◌∷◌, ◌++◌, if◌then◌else◌, ℕ, ◌+◌, ◌<◌, ◌≤◌, ◌≡◌, refl, sym, subst, inl, inr, Bool,
  true, false, none, some, arith, ◌==◌, update, one_if, count, count-update, Bool-cases, ==→eq,
}
use c8005_assn.Server.Thread.Handshake.{
  Slot, Worker, polling, asking, taken, serving, closing, gone, step_worker, ends, Acceptor, idle,
  scanning, storing, raising, System,
}

-- A worker that serves a client has `busy` set, and its slot holds that client, which it closes too.
abbrev pub IsSound : Slot → Worker → Type 0
IsSound s taken = s.busy ≡ true
IsSound s (serving client) = (s.busy ≡ true) × (s.client ≡ client)
IsSound s (closing client closed) = (s.busy ≡ true) × (s.client ≡ client) × (closed ≡ client)
IsSound s _ = Unit

-- The acceptor writes only to a slot that is not busy, and raises `busy` when its client is there.
abbrev pub IsAt : (ℕ → Slot) → ℕ → Acceptor → Type 0
IsAt slots size idle = Unit
IsAt slots size (scanning client i) = i ≤ size
IsAt slots size (storing client i) = (i < size) × ((slots i).busy ≡ false)
IsAt slots size (raising client i) =
    (i < size) × ((slots i).busy ≡ false) × ((slots i).client ≡ client)

-- A busy slot with the client `c`.
abbrev pub holds : ℕ → Slot → Bool
holds c s = if s.busy then s.client == c else false

-- How often `c` is in the list, and in the acceptor's hand.
unfoldable pub times : ℕ → List ℕ → ℕ
times c [] = 0
times c (x ∷ xs) = one_if (x == c) + times c xs

unfoldable pub in_hand : ℕ → Acceptor → ℕ
in_hand c idle = 0
in_hand c (scanning client i) = one_if (client == c)
in_hand c (storing client i) = one_if (client == c)
in_hand c (raising client i) = one_if (client == c)

pub record Inv (s : System) : Type 0 where
  pub sound : (i : ℕ) → i < s.size → IsSound (s.slots i) (s.workers i)
  pub accepting : IsAt s.slots s.size s.acceptor
  pub counted :
      (c : ℕ)
      → times c s.accepted
        ≡ times c s.served + count (holds c) s.size s.slots + in_hand c s.acceptor

times-append : (c : ℕ) (xs ys : List ℕ) → times c (xs ++ ys) ≡ times c xs + times c ys
unfolding times
times-append c [] ys = omega arith
times-append c (x ∷ xs) ys = omega (arith, times-append c xs ys)

-- A slot that is not busy has no worker that serves.
IsSound-change : (s t : Slot) (w : Worker) → IsSound s w → s.busy ≡ false → IsSound t w
IsSound-change s t (polling d) h f = tt
IsSound-change s t asking h f = tt
IsSound-change s t taken h f = cc
IsSound-change s t (serving c) h f = cc (h.0)
IsSound-change s t (closing c d) h f = cc (h.0)
IsSound-change s t gone h f = tt

-- What a worker's access does to its slot: it keeps the client, it does not set `busy`, and where the
-- slot no longer holds a client, that client has been served.
pub record Keeps (s t : Slot) (ended : List ℕ) : Type 0 where
  pub same : t.client ≡ s.client
  pub low : s.busy ≡ false → t.busy ≡ false
  pub moved : (c : ℕ) → one_if (holds c t) + times c ended ≡ one_if (holds c s)

pub Keeps-same : (s t : Slot) → t.client ≡ s.client → t.busy ≡ s.busy → Keeps s t []
unfolding times
Keeps-same s t client busy = record {
  same = client;
  low = λ h. busy ∙ h;
  moved = λ c. rw client (rw busy (omega arith));
}

polling-IsSound :
    (leaves : Bool) (s : Slot) (b : Bool)
    → s.busy ≡ b
    → let r : Slot × Worker =
        if b
        then (if leaves then (record s { freed = true }, gone) else (s, taken))
        else (s, asking) in
      IsSound r.0 r.1 × Keeps s r.0 []
polling-IsSound leaves s false e = (tt, Keeps-same s s refl refl)
polling-IsSound true s true e = (tt, Keeps-same s (record s { freed = true }) refl refl)
polling-IsSound false s true e = (e, Keeps-same s s refl refl)

-- A worker's access keeps its slot sound.
pub step_worker-IsSound :
    (junk done : Bool) (s : Slot) (w : Worker)
    → IsSound s w
    → IsSound (step_worker junk done s w).0 (step_worker junk done s w).1
      × Keeps s (step_worker junk done s w).0 (ends w)
unfolding step_worker ends times
step_worker-IsSound junk done s (polling none) h = polling-IsSound junk s s.busy refl
step_worker-IsSound junk done s (polling (some d)) h = polling-IsSound d s s.busy refl
step_worker-IsSound junk true s asking h = (tt, Keeps-same s (record s { freed = true }) refl refl)
step_worker-IsSound junk false s asking h = (tt, Keeps-same s s refl refl)
step_worker-IsSound junk done s taken h = ((h, refl), Keeps-same s s refl refl)
step_worker-IsSound junk done s (serving c) h = ((h.0, h.1, h.1), Keeps-same s s refl refl)
step_worker-IsSound junk done s (closing c d) h = (
  tt,
  record {
    same = refl;
    low = λ _. refl;
    moved = λ e. rw (h.0) (rw (h.2) (rw (h.1) (omega arith)));
  },
)
step_worker-IsSound junk done s gone h = (tt, Keeps-same s s refl refl)

pub not_held : (c : ℕ) (s : Slot) → s.busy ≡ false → one_if (holds c s) ≡ 0
not_held c s h = rw h refl

-- A slot that is not busy stays so, and keeps its client.
pub still_low :
    (s : System) (i k : ℕ) (t : Slot)
    → ((s.slots i).busy ≡ false → t.busy ≡ false)
    → (s.slots k).busy ≡ false
    → (update s.slots i t k).busy ≡ false
still_low s i k t low h = elim (Bool-cases (i == k)) [
  | inr e ↦ rw e h
  | inl e ↦ rw e (low (subst (λ j. (s.slots j).busy ≡ false) (sym (==→eq i k e)) h))
]

still_there :
    (s : System) (i k c : ℕ) (t : Slot)
    → t.client ≡ (s.slots i).client
    → (s.slots k).client ≡ c
    → (update s.slots i t k).client ≡ c
still_there s i k c t same h = elim (Bool-cases (i == k)) [
  | inr e ↦ rw e h
  | inl e ↦ rw e (same ∙ subst (λ j. (s.slots j).client ≡ c) (sym (==→eq i k e)) h)
]

IsAt-worker :
    (s : System) (a : Acceptor) (i : ℕ) (t : Slot) (ended : List ℕ)
    → Keeps (s.slots i) t ended
    → IsAt s.slots s.size a
    → IsAt (update s.slots i t) s.size a
IsAt-worker s idle i t ended k h = tt
IsAt-worker s (scanning c j) i t ended k h = h
IsAt-worker s (storing c j) i t ended k h = (h.0, still_low s i j t k.low h.1)
IsAt-worker s (raising c j) i t ended k h =
    (h.0, still_low s i j t k.low h.1, still_there s i j c t k.same h.2)

-- A worker's slot and state change, and `served` and `done` with them.
pub Inv-worker :
    (s : System) (i : ℕ) (t : Slot) (w : Worker) (ended : List ℕ) (done : Bool)
    → i < s.size
    → IsSound t w
    → Keeps (s.slots i) t ended
    → Inv s
    → Inv (record s {
      slots = update s.slots i t;
      workers = update s.workers i w;
      served = ended ++ s.served;
      done = done;
    })
Inv-worker s i t w ended done inside h k v = record {
  sound = λ j m. elim (Bool-cases (i == j)) [ inl e ↦ rw e h | inr e ↦ rw e (v.sound j m) ];
  accepting = IsAt-worker s s.acceptor i t ended k v.accepting;
  counted = λ c. omega (
    arith,
    v.counted c,
    k.moved c,
    times-append c ended s.served,
    count-update (holds c) s.size s.slots i t inside,
  );
}

-- The acceptor writes to a slot that is not busy.
pub IsSound-write :
    (s : System) (i : ℕ) (t : Slot)
    → (s.slots i).busy ≡ false
    → Inv s
    → (j : ℕ) → j < s.size
    → IsSound (update s.slots i t j) (s.workers j)
IsSound-write s i t low v j k = elim (Bool-cases (i == j)) [
  | inl q ↦ rw q (
      IsSound-change (s.slots i) t (s.workers j)
        (subst (λ m. IsSound (s.slots m) (s.workers j)) (sym (==→eq i j q)) (v.sound j k)) low)
  | inr q ↦ rw q (v.sound j k)
]
