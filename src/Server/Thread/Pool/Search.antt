-- ===== src/Server/Thread/Pool/Search.antt =====
-- The search of `thread_server_add_client` for a worker that is not busy.
use c8005_assn.Base.{
  ==→ne, ℕ, zero, suc, ◌+◌, ◌≤◌, ◌<◌, ◌≡◌, refl, sym, ◌∙◌, subst, ◌⊎◌, inl, inr, arith, true, false,
  Option, none, some, length, get_elem?, get_elem?-lt, ◌==◌, ==→eq, Bool-cases, Returns, Returns-ok,
}
use mathlib.Core.Option.{some-injective}
use c8005_assn.Os.{Os}
use c8005_assn.Util.Vector.{Allocator}
use c8005_assn.Server.Thread.Pool.{Pool, find_idle}

module _ (os : Os) (alloc : Allocator ℕ) (grow : ℕ → ℕ) where
  -- The worker at a place of the list from `i` on, which is not busy.
  pub record IsFirst (p : Pool os alloc) (i n q : ℕ) : Type 0 where
    pub place : ℕ
    pub above : i ≤ place
    pub below : place < i + n
    pub listed : get_elem? p.list.items place ≡ some q
    pub idle : (p.params q).busy ≡ false

  IsFirst-later : {p : Pool os alloc} {i n q : ℕ} → IsFirst p (suc i) n q → IsFirst p i (suc n) q
  IsFirst-later f = record {
    place = f.place;
    above = omega (arith, f.above);
    below = omega (arith, f.below);
    listed = f.listed;
    idle = f.idle;
  }

  -- The search ends, with a worker that is not busy or with none where all are busy.
  abbrev pub AllBusy : Pool os alloc → ℕ → ℕ → Type 0
  AllBusy p i n =
      (j q : ℕ) → i ≤ j → j < i + n → get_elem? p.list.items j ≡ some q → (p.params q).busy ≡ true

  abbrev pub Found : Pool os alloc → ℕ → ℕ → Option ℕ → Type 0
  Found p i n o = ((o ≡ none) × AllBusy p i n) ⊎ ((q : ℕ) × (o ≡ some q) × IsFirst p i n q)

  Found-later :
      (p : Pool os alloc) (i n q : ℕ) (o : Option ℕ)
      → get_elem? p.list.items i ≡ some q
      → (p.params q).busy ≡ true
      → Found p (suc i) n o
      → Found p i (suc n) o
  Found-later p i n q o e busy (inr (q', r, f)) = inr (q', r, IsFirst-later f)
  Found-later p i n q o e busy (inl (r, all)) = inl (
    r,
    λ j q' low high e'. elim (Bool-cases (i == j)) [
      | inl here ↦
          let same : some q' ≡ some q =
            sym e' ∙ subst (λ k. get_elem? p.list.items k ≡ some q) (==→eq i j here) e in
          subst (λ k. (p.params k).busy ≡ true) (sym (some-injective _ _ same)) busy
      | inr later ↦ all j q' (omega (arith, ==→ne i j later, low)) (omega (arith, high)) e'
    ],
  )

  pub find_idle_lem :
      (n i : ℕ) (p : Pool os alloc)
      → i + n ≤ length p.list.items
      → Returns (Found p i n) (find_idle os alloc grow n i p)
  unfolding find_idle
  find_idle_lem zero i p inside = inl (refl, λ j q low high e. absurd (omega (arith, low, high)))
  find_idle_lem (suc n) i p inside =
      let (q, e) = get_elem?-lt p.list.items i (omega arith) in
      elim (Bool-cases ((p.params q).busy)) [
        | inr idle ↦
            rw (e, find_idle)
              (rw (idle, find_idle)
                (inr (
                  q,
                  refl,
                  record {
                    place = i;
                    above = omega arith;
                    below = omega arith;
                    listed = e;
                    idle = idle;
                  },
                )))
        | inl busy ↦
            let (o, r, h) =
              Returns-ok (Found p (suc i) n) (find_idle os alloc grow n (suc i) p)
                (find_idle_lem n (suc i) p (omega arith)) in
            rw (e, find_idle)
              (rw (busy, find_idle) (rw (r, find_idle) (Found-later p i n q o e busy h)))
      ]
