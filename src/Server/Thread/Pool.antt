-- ===== src/Server/Thread/Pool.antt =====
-- The accepting side of server/thread_server.c: the list of workers and who gets a client. A pointer
-- to a `worker_params` is a number, and `params` is what stands there.
pub mod Dispatch
pub mod Listing
pub mod Search
use c8005_assn.Base.{
  ℕ, zero, suc, ◌+◌, ◌-◌, Bool, true, false, Option, none, some, List, [], ◌∷◌, ltb, ◌==◌,
  if◌then◌else◌, get_elem?, not, ◌||◌, add_size, update, Run, ok, fault, timeout, ◌>>=◌,
}
use c8005_assn.Os.{Os}
use c8005_assn.Server.Signals.{Flags, load_done}
use c8005_assn.Server.Acceptor.{Accepted, accept_client}
use c8005_assn.Util.Vector.{Vector, Allocator, init, free_items, push_back}

abbrev pub worker_pool_size : ℕ
worker_pool_size = 200

-- `worker_params`.
pub record Params : Type 0 where
  pub busy : Bool
  pub client : Accepted

-- `server_t` and `thread_server_private`, with the world, the flags, the memory of the vector, and
-- the next address that `malloc` gives for a `worker_params`: addresses are taken to rise, so that
-- memory that a worker has freed is not given out again while it is listed.
pub record Pool (os : Os) (alloc : Allocator ℕ) : Type 0 where
  pub world : os.World
  pub flags : Flags
  pub memory : alloc.State
  pub max_concurrent : ℕ
  pub total_served : ℕ
  pub list : Vector ℕ
  pub params : ℕ → Params
  pub next_params : ℕ

module _ (os : Os) (alloc : Allocator ℕ) (grow : ℕ → ℕ) where
  open os use {World, malloc_struct, thread_create, thread_detach, mutex_init, set_nonblocking}

  -- What `atomic_store(&done, 1)` leaves.
  pub set_done : Pool os alloc → Pool os alloc
  set_done p = record p { flags = record (p.flags) { done = true } }

  -- The `for` of `thread_server_add_client` from `i` on, with `n` workers left: the first that is not
  -- busy, if there is one.
  pub find_idle : ℕ → ℕ → Pool os alloc → Run (Option ℕ)
  find_idle zero i p = ok none
  find_idle (suc n) i p = elim (get_elem? p.list.items i) [
    | none ↦ fault
    | some q ↦ elim ((p.params q).busy) [ false ↦ ok (some q) | true ↦ find_idle n (suc i) p ]
  ]

  -- The client is stored before `busy` is.
  pub hand_over : ℕ → Accepted → Pool os alloc → Pool os alloc
  hand_over q client p = record p {
    params = update p.params q (record { busy = true; client = client });
  }

  -- `pthread_create` and `pthread_detach`, which the code takes to give -1 where they fail.
  pub spawn : World → Bool × World
  spawn w =
      let (created, w') = thread_create w in
      elim created [
        | none ↦ (false, w')
        | some _ ↦
            let (detached, w'') = thread_detach w' in
            elim detached [ none ↦ (false, w'') | some _ ↦ (true, w'') ]
      ]

  -- All workers are busy: one more, with a thread of its own. `false` is -1.
  pub add_worker : Accepted → Pool os alloc → Run (Bool × Pool os alloc)
  add_worker client p =
      let (allocated, w) = malloc_struct p.world in
      elim allocated [
        | false ↦ ok (false, set_done (record p { world = w }))
        | true ↦
            let q = p.next_params in
            do
              (pushed, list, memory) ← push_back alloc grow p.list q p.memory
              let p' = record p { world = w; list = list; memory = memory; next_params = q + 1 }
              elim pushed [
                | false ↦ ok (false, set_done p')
                | true ↦
                    let (spawned, w') = spawn w in
                    let p'' = hand_over q client (record p' { world = w' }) in
                    ok (if spawned then (true, p'') else (false, set_done p''))
              ]
      ]

  pub add_client : Accepted → Pool os alloc → Run (Bool × Pool os alloc)
  add_client client p = do
    idle ← find_idle p.list.size 0 p
    elim idle [ some q ↦ ok (true, hand_over q client p) | none ↦ add_worker client p ]

  -- The counters of `accept_loop`.
  pub count_client : Pool os alloc → Pool os alloc
  count_client p = record p {
    total_served = add_size p.total_served 1;
    max_concurrent = if ltb p.max_concurrent p.list.size then p.list.size else p.max_concurrent;
  }

  pub accept_loop : ℕ → ℕ → Pool os alloc → Run (Pool os alloc)
  accept_loop zero acceptor p = timeout
  accept_loop (suc fuel) acceptor p =
      let (r, f, w) = accept_client os acceptor p.flags p.world in
      elim r [
        | none ↦ ok (record p { flags = f; world = w })
        | some client ↦
            let (done, f', w') = load_done os f w in
            let p' = record p { flags = f'; world = w' } in
            elim done [
              | true ↦ ok p'
              | false ↦ do
                (added, p'') ← add_client client p'
                elim added [ false ↦ ok p'' | true ↦ accept_loop fuel acceptor (count_client p'') ]
            ]
      ]

  -- The first loop of `thread_server_start`: `n` more workers are allocated and listed, what
  -- `vector_push_back` gives is not read. `false` if memory runs out.
  pub list_workers : ℕ → Pool os alloc → Run (Bool × Pool os alloc)
  list_workers zero p = ok (true, p)
  list_workers (suc n) p =
      let (allocated, w) = malloc_struct p.world in
      elim allocated [
        | false ↦ ok (false, record p { world = w })
        | true ↦
            let q = p.next_params in
            do
              (pushed, list, memory) ← push_back alloc grow p.list q p.memory
              list_workers n (record p {
                world = w;
                list = list;
                memory = memory;
                params = update p.params q (record (p.params q) { busy = false });
                next_params = q + 1;
              })
      ]

  -- The second loop: a thread for each of `n` more workers.
  pub start_workers : ℕ → World → Bool × World
  start_workers zero w = (true, w)
  start_workers (suc n) w =
      let (created, w') = thread_create w in
      elim created [ none ↦ (false, w') | some _ ↦ start_workers n (thread_detach w').1 ]

  -- The part of `thread_server_start` after the list is made. `false` is -1.
  pub run_workers : ℕ → ℕ → Pool os alloc → Run (Bool × Pool os alloc)
  run_workers fuel acceptor p =
      let (started, w) = start_workers worker_pool_size p.world in
      elim started [
        | false ↦ ok (false, set_done (record p { world = w }))
        | true ↦ do p' ← accept_loop fuel acceptor (record p { world = w }); ok (true, p')
      ]

  -- `thread_server_start`, for the counters and memory of `p`; what its list holds is not used.
  pub start : ℕ → ℕ → Pool os alloc → Run (Bool × Pool os alloc)
  start fuel acceptor p =
      let (allocated, w) = malloc_struct p.world in
      elim allocated [
        | false ↦ ok (false, record p { world = w })
        | true ↦
            let (locked, w') = mutex_init w in
            elim locked [
              | none ↦ ok (false, record p { world = w' })
              | some _ ↦
                  let (list, memory) = init alloc grow 8 worker_pool_size p.memory in
                  elim list [
                    | none ↦ ok (false, record p { world = w'; memory = memory })
                    | some l ↦ do
                      (listed, p') ←
                          list_workers worker_pool_size
                            (record p { world = w'; list = l; memory = memory })
                      elim listed [
                        | false ↦
                            ok (
                              false,
                              record p' { memory = free_items alloc grow p'.list p'.memory },
                            )
                        | true ↦ run_workers fuel acceptor p'
                      ]
                  ]
            ]
      ]

  -- `thread_server_cleanup`; the workers free their own parameters.
  pub cleanup : Pool os alloc → Pool os alloc
  cleanup p = set_done (record p { memory = free_items alloc grow p.list p.memory })
