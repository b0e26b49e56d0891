-- ===== src/Server/Thread/Pool/Dispatch.antt =====
-- Who gets a new client.
use c8005_assn.Base.{
  Option-cases, ℕ, ◌+◌, ◌^◌, ◌<◌, ◌≡◌, ◌≢◌, refl, sym, ◌∙◌, subst, ◌⊎◌, inl, inr, arith, Bool, true,
  false, Option, none, some, [], ◌∷◌, ◌++◌, get_elem?, get_elem?-take_lt, if◌then◌else◌, ne→==, ap,
  eq→==, Bool-cases, Run, ok, Returns, Returns-ok,
}
use mathlib.Core.Option.{some-injective}
use c8005_assn.Os.{Os}
use c8005_assn.Server.Acceptor.{Accepted}
use c8005_assn.Util.Vector.{Vector, Allocator, contents}
use c8005_assn.Util.Vector.Valid.{IsValid, IsGrowth}
use c8005_assn.Util.Vector.Edit.{push_back_lem}
use c8005_assn.Server.Thread.Pool.Search.{AllBusy, Found, find_idle_lem}
use c8005_assn.Server.Thread.Pool.{
  Pool, set_done, find_idle, hand_over, spawn, add_worker, add_client,
}

-- The list is in order, and the next address that `malloc` gives is above all that are listed.
pub record IsPool {os : Os} {alloc : Allocator ℕ} (p : Pool os alloc) : Type 0 where
  pub list_valid : IsValid p.list
  pub filled : 0 < p.list.cap
  pub small : p.list.cap < 2 ^ 22
  pub known : (j q : ℕ) → get_elem? (contents p.list) j ≡ some q → q < p.next_params

module _ (os : Os) (alloc : Allocator ℕ) (grow : ℕ → ℕ) where
  -- The worker `q` has the client, and no other worker's client has changed.
  pub record IsHanded (p : Pool os alloc) (client : Accepted) (q : ℕ) (p' : Pool os alloc)
      : Type 0 where
    pub given : p'.params q ≡ record { busy = true; client = client }
    pub others : (k : ℕ) → k ≢ q → p'.params k ≡ p.params k

  hand_over-IsHanded :
      (p p' : Pool os alloc) (client : Accepted) (q : ℕ)
      → p'.params ≡ p.params
      → IsHanded p client q (hand_over os alloc grow q client p')
  unfolding hand_over
  hand_over-IsHanded p p' client q same = record {
    given = rw (eq→== q q refl);
    others = λ k h. rw (ne→== q k (λ e. h (sym e))) (ap (λ f. f k) same);
  }

  -- There is no thread, or it cannot be detached.
  abbrev pub NoThread : os.World → Type 0
  NoThread w =
      ((os.thread_create w).0 ≡ none) ⊎ ((os.thread_detach (os.thread_create w).1).0 ≡ none)

  spawn-NoThread : (w : os.World) → (spawn os alloc grow w).0 ≡ false → NoThread w
  unfolding spawn
  spawn-NoThread w h = elim (Option-cases (os.thread_create w).0) [
    | inl refused ↦ inl refused
    | inr (t, created) ↦ elim (Option-cases (os.thread_detach (os.thread_create w).1).0) [
      | inl refused ↦ inr refused
      | inr (d, detached) ↦
          let runs : (spawn os alloc grow w).0 ≡ true =
            rw (created, spawn) (rw (detached, spawn) refl) in
          absurd (cc (sym h ∙ runs))
    ]
  ]

  -- Why there is no new worker: no memory for it, none for its place in a full list, or no thread.
  abbrev pub NoWorker : Pool os alloc → Type 0
  NoWorker p =
      ((os.malloc_struct p.world).0 ≡ false)
      ⊎ (((p.list.size ≡ p.list.cap)
            × ((alloc.realloc p.list.items (grow p.list.cap) p.memory).0 ≡ none))
          ⊎ NoThread (os.malloc_struct p.world).1)

  -- What becomes of a new client.
  abbrev pub Dispatched : Pool os alloc → Accepted → Bool × Pool os alloc → Type 0
  Dispatched p client r =
      ((r.0 ≡ false)
        × (r.1.flags.done ≡ true)
        × AllBusy os alloc grow p 0 p.list.size
        × NoWorker p
        × ((k : ℕ) → k ≢ p.next_params → r.1.params k ≡ p.params k))
      ⊎ ((r.0 ≡ true)
          × (q : ℕ) × IsHanded p client q r.1
          × ((((j : ℕ) × (j < p.list.size) × (get_elem? (contents p.list) j ≡ some q))
                × ((p.params q).busy ≡ false)
                × (r.1.list ≡ p.list))
              ⊎ ((q ≡ p.next_params)
                  × ((j : ℕ) → get_elem? (contents p.list) j ≢ some q)
                  × (contents r.1.list ≡ contents p.list ++ q ∷ [])
                  × AllBusy os alloc grow p 0 p.list.size)))

  -- The part of `add_worker` after the new worker is listed.
  listed :
      (p : Pool os alloc) (client : Accepted) (v : IsPool p)
      (all : AllBusy os alloc grow p 0 p.list.size) (b : Bool) (list : Vector ℕ)
      (memory : alloc.State)
      → ((b ≡ false)
          × (list ≡ p.list)
          × (p.list.size ≡ p.list.cap)
          × ((alloc.realloc p.list.items (grow p.list.cap) p.memory).0 ≡ none))
        ⊎ ((b ≡ true) × IsValid list × (contents list ≡ contents p.list ++ p.next_params ∷ []))
      → let w = (os.malloc_struct p.world).1 in
        let p' = record p {
          world = w;
          list = list;
          memory = memory;
          next_params = p.next_params + 1;
        } in
        let p'' =
          hand_over os alloc grow p.next_params client
            (record p' { world = (spawn os alloc grow w).1 }) in
        Returns (Dispatched p client) (elim b as (λ _. Run (Bool × Pool os alloc)) [
          | false ↦ ok (false, set_done os alloc grow p')
          | true ↦ ok (
              if (spawn os alloc grow w).0
              then (true, p'')
              else (false, set_done os alloc grow p''))
        ])
  unfolding hand_over set_done
  listed p client v all false list memory (inr c) = cc (c.0)
  listed p client v all false list memory (inl c) =
      inl (refl, refl, all, inr (inl (c.2, c.3)), λ k h. refl)
  listed p client v all true list memory (inl c) = cc (c.0)
  listed p client v all true list memory (inr c) =
      let w = (os.malloc_struct p.world).1 in
      elim (Bool-cases (spawn os alloc grow w).0) [
        | inr lost ↦ rw lost (
            inl (
              refl,
              refl,
              all,
              inr (inr (spawn-NoThread w lost)),
              λ k h. rw (ne→== p.next_params k (λ e. h (sym e))) refl,
            ))
        | inl runs ↦
            let p' = record p {
              world = (spawn os alloc grow w).1;
              list = list;
              memory = memory;
              next_params = p.next_params + 1;
            } in
            rw runs (
              inr (
                refl,
                p.next_params,
                hand_over-IsHanded p p' client p.next_params refl,
                inr (refl, λ j e. absurd (omega (arith, v.known j p.next_params e)), c.2, all),
              ))
      ]

  add_worker_lem :
      (g : IsGrowth grow) (p : Pool os alloc) (client : Accepted)
      → IsPool p
      → AllBusy os alloc grow p 0 p.list.size
      → Returns (Dispatched p client) (add_worker os alloc grow client p)
  unfolding add_worker set_done
  add_worker_lem g p client v all = elim (Bool-cases (os.malloc_struct p.world).0) [
    | inr refused ↦ rw (refused, add_worker) (inl (refl, refl, all, inl refused, λ k h. refl))
    | inl got ↦
        let ((pushed, list, memory), e, cases) =
          push_back_lem alloc grow g p.list p.next_params p.memory v.list_valid v.filled v.small in
        rw (got, add_worker) (rw (e, add_worker) (listed p client v all pushed list memory cases))
  ]

  -- For a pool with a list in order, with a capacity from 1 and below 2^22, where `malloc` gives
  -- addresses above those that are listed, `thread_server_add_client` returns. It fails only where all
  -- listed workers are busy and there is no memory for a new one, none for its place in a full list,
  -- or no detached thread, and then `done` is set and no parameters but the new ones have changed.
  -- Otherwise one worker has the client: a listed one that was not busy, and the list is as it was,
  -- or, where all listed are busy, one whose address was not listed, which stands behind the others.
  -- No other worker's parameters have changed.
  pub thread_add-Dispatched :
      (g : IsGrowth grow) (p : Pool os alloc) (client : Accepted)
      → IsPool p
      → Returns (Dispatched p client) (add_client os alloc grow client p)
  unfolding add_client hand_over
  thread_add-Dispatched g p client v =
      let (o, e, h) =
        Returns-ok (Found os alloc grow p 0 p.list.size) (find_idle os alloc grow p.list.size 0 p)
          (find_idle_lem os alloc grow p.list.size 0 p (omega (arith, v.list_valid))) in
      rw (e, add_client) (found o h)
    where
      found :
          (o : Option ℕ)
          → Found os alloc grow p 0 p.list.size o
          → Returns (Dispatched p client) (elim o as (λ _. Run (Bool × Pool os alloc)) [
            | some q ↦ ok (true, hand_over os alloc grow q client p)
            | none ↦ add_worker os alloc grow client p
          ])
      found none (inr (q, r, f)) = cc (r)
      found none (inl h) = add_worker_lem g p client v h.1
      found (some q) (inl h) = cc (h.0)
      found (some q) (inr (q', r, f)) =
          let r' : some q' ≡ some q = sym r in
          let same : q' ≡ q = sym (some-injective _ _ r) in
          inr (
            refl,
            q,
            hand_over-IsHanded p p client q refl,
            inl (
              (
                f.place,
                omega (arith, f.below),
                get_elem?-take_lt p.list.size f.place p.list.items (omega (arith, f.below))
                    ∙ f.listed
                    ∙ r',
              ),
              subst (λ k. (p.params k).busy ≡ false) same f.idle,
              refl,
            ),
          )
