-- ===== src/Server/Thread/Pool/Listing.antt =====
-- The workers that `thread_server_start` lists.
use c8005_assn.Base.{
  ℕ, zero, suc, ◌+◌, ◌≤◌, ◌<◌, ◌≡◌, ◌∙◌, ◌⊎◌, refl, sym, ap, subst, inl, inr, arith, true, false,
  List, [], ◌∷◌, ◌++◌, Bool, some, get_elem?, append_assoc, append-nil, length, length-append, ◌==◌,
  ne→==, eq→==, Bool-cases, ==→eq, ==→ne, update, Returns, Returns-ok,
}
use mathlib.Core.Option.{some-injective, none-ne-some}
use c8005_assn.Os.{Os}
use c8005_assn.Util.Vector.{Allocator, contents}
use c8005_assn.Util.Vector.Valid.{length-contents}
use c8005_assn.Util.Vector.Edit.{push_back_room}
use c8005_assn.Server.Thread.Pool.{Pool, list_workers}
use c8005_assn.Server.Thread.Pool.Dispatch.{IsPool}

-- The addresses of `n` allocations, from `q` on.
abbrev pub addresses : ℕ → ℕ → List ℕ
addresses zero q = []
addresses (suc n) q = q ∷ addresses n (q + 1)

-- `n` workers have been listed behind those of `p`; none of them is busy, and the list is in order,
-- with the next address above all that are listed.
pub record IsListed {os : Os} {alloc : Allocator ℕ} (n : ℕ) (p p' : Pool os alloc) : Type 0 where
  pub pool : IsPool p'
  pub listed : contents p'.list ≡ contents p.list ++ addresses n p.next_params
  pub idle : (q : ℕ) → p.next_params ≤ q → q < p.next_params + n → (p'.params q).busy ≡ false
  pub others : (q : ℕ) → q < p.next_params → p'.params q ≡ p.params q
  pub next : p'.next_params ≡ p.next_params + n

-- One more address below the bound.
push-below :
    (xs : List ℕ) (y n : ℕ)
    → ((j q : ℕ) → get_elem? xs j ≡ some q → q < n)
    → y < n
    → (j q : ℕ) → get_elem? (xs ++ y ∷ []) j ≡ some q
    → q < n
push-below [] y n h k zero q e = omega (arith, k, some-injective _ _ e)
push-below [] y n h k (suc j) q e = absurd (none-ne-some q e)
push-below (x ∷ xs) y n h k zero q e = h 0 q e
push-below (x ∷ xs) y n h k (suc j) q e = push-below xs y n (λ i. h (suc i)) k j q e

module _ (os : Os) (alloc : Allocator ℕ) (grow : ℕ → ℕ) where
  -- There is no memory for the worker after the first `k`, which have been listed.
  abbrev pub IsShort : ℕ → Pool os alloc → Bool × Pool os alloc → Type 0
  IsShort n p r =
      (r.0 ≡ false)
      × (k : ℕ) × (k < n)
      × (q : Pool os alloc) × IsListed k p q
      × ((os.malloc_struct q.world).0 ≡ false)
      × (r.1 ≡ record q { world = (os.malloc_struct q.world).1 })

  IsListed-zero : (p : Pool os alloc) → IsPool p → IsListed 0 p p
  IsListed-zero p v = record {
    pool = v;
    listed = sym (append-nil _);
    idle = λ q low high. absurd (omega (arith, low, high));
    others = λ q below. refl;
    next = omega arith;
  }

  -- One worker, and those after it.
  IsListed-cons :
      (n : ℕ) (p p1 p' : Pool os alloc)
      → contents p1.list ≡ contents p.list ++ p.next_params ∷ []
      → p1.next_params ≡ p.next_params + 1
      → (p1.params p.next_params).busy ≡ false
      → ((q : ℕ) → q < p.next_params → p1.params q ≡ p.params q)
      → IsListed n p1 p'
      → IsListed (suc n) p p'
  IsListed-cons n p p1 p' listed next idle others rest = record {
    pool = rest.pool;
    listed =
        rest.listed
        ∙ ap (λ t. t ++ addresses n p1.next_params) listed
        ∙ append_assoc (contents p.list) (p.next_params ∷ []) (addresses n p1.next_params)
        ∙ ap (λ q. contents p.list ++ p.next_params ∷ addresses n q) next;
    idle = λ q low high. elim (Bool-cases (p.next_params == q)) [
      | inl here ↦
          subst (λ k. (p'.params k).busy ≡ false) (==→eq p.next_params q here)
            (ap (λ r. r.busy) (rest.others p.next_params (omega (arith, next))) ∙ idle)
      | inr later ↦
          rest.idle q (omega (arith, next, low, ==→ne p.next_params q later))
            (omega (arith, next, high))
    ];
    others = λ q below. rest.others q (omega (arith, next, below)) ∙ others q below;
    next = omega (arith, rest.next, next);
  }

  -- The first loop of `thread_server_start`, for a list in order with room for `n` more and a capacity
  -- from 1 and below 2^22, where `malloc` gives addresses above those that are listed: it returns. It
  -- fails only where `malloc` gives no memory for a worker, with the workers before that one listed;
  -- otherwise the list, which is in order, has `n` new workers behind those that it had, at `n`
  -- different addresses that were not listed before, none of them busy. In both cases the parameters
  -- below the new addresses are as they were.
  pub list_workers_lem :
      (n : ℕ) (p : Pool os alloc)
      → IsPool p
      → p.list.size + n ≤ p.list.cap
      → Returns
          (λ r. IsShort n p r ⊎ ((r.0 ≡ true) × IsListed n p r.1))
          (list_workers os alloc grow n p)
  unfolding list_workers
  list_workers_lem zero p v room = inr (refl, IsListed-zero p v)
  list_workers_lem (suc n) p v room = elim (Bool-cases (os.malloc_struct p.world).0) [
    | inr refused ↦
        rw (refused, list_workers) (inl (refl, 0, omega arith, p, IsListed-zero p v, refused, refl))
    | inl got ↦
        let q = p.next_params in
        let (list, e, valid, put, cap) =
          push_back_room alloc grow p.list q p.memory v.list_valid v.small (omega (arith, room)) in
        let p1 = record p {
          world = (os.malloc_struct p.world).1;
          list = list;
          params = update p.params q (record (p.params q) { busy = false });
          next_params = q + 1;
        } in
        let pool : IsPool p1 = record {
          list_valid = valid;
          filled = omega (arith, cap, v.filled);
          small = omega (arith, cap, v.small);
          known = λ j k.
              subst (λ xs. get_elem? xs j ≡ some k → k < q + 1) (sym put)
                (push-below (contents p.list) q (q + 1) (λ i m e. omega (arith, v.known i m e))
                  (omega arith) j k);
        } in
        let first : (p1.params q).busy ≡ false = rw (eq→== q q refl) refl in
        let before : (k : ℕ) → k < q → p1.params k ≡ p.params k =
          λ k below. rw (ne→== q k (λ e. omega (arith, below, e))) refl in
        let (r, e', h) = Returns-ok _ (list_workers os alloc grow n p1) (
          list_workers_lem n p1 pool (
            omega (
              arith,
              room,
              cap,
              length-contents valid,
              length-contents v.list_valid,
              ap length put,
              length-append (contents p.list) (q ∷ []),
            ))) in
        rw (got, list_workers)
          (rw (e, list_workers)
            (rw (e', list_workers)
              (elim h [
                | inl (lost, k, less, m, rest, refused, same) ↦ inl (
                  lost,
                  suc k,
                  omega (arith, less),
                  m,
                  IsListed-cons k p p1 m put refl first before rest,
                  refused,
                  same,
                )
                | inr (fine, rest) ↦ inr (fine, IsListed-cons n p p1 r.1 put refl first before rest)
              ])))
  ]
