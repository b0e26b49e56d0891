-- ===== src/Server/Thread/Handshake.antt =====
-- How server/thread_server.c gives clients to workers: the accesses of `thread_server_add_client` and
-- of the workers to `busy`, `client` and `done`, one at a time and in any order. A client is a number.
-- A worker that leaves its loop frees its parameters in the same step. The acceptor that goes on to
-- use them is a fault, after which there are no more steps, whatever `malloc` has done with the
-- memory since. What it sends and receives, and
-- memory or threads that run out, are in Server/Thread and Server/Thread/Pool.
pub mod Invariant
pub mod Safety
pub mod Lost
use c8005_assn.Base.{
  ℕ, zero, suc, ◌+◌, ◌<◌, ◌≡◌, Bool, true, false, Option, none, some, List, [], ◌∷◌, ◌++◌, ◌==◌,
  if◌then◌else◌, update,
}

-- `worker_params`; `freed` is set by the worker's `free(params)`.
pub record Slot : Type 0 where
  pub busy : Bool
  pub client : ℕ
  pub freed : Bool

-- Where a worker stands. `done_local` is none until it is assigned in this round of `while (1)`.
pub data Worker : Type 0 where
  polling : (done_local : Option Bool) → Worker  -- before the load of `busy`
  asking : Worker  -- before the load of `done`
  taken : Worker  -- before `params->client` is read
  serving : (client : ℕ) → Worker  -- up to the `close`, which reads `params->client` again
  closing : (client closed : ℕ) → Worker  -- before `busy` is cleared
  gone : Worker

-- The next access. `junk` is what `done_local` holds while it has not been assigned.
unfoldable pub step_worker : Bool → Bool → Slot → Worker → Slot × Worker
step_worker junk done s (polling done_local) =
    if s.busy
    then (if (elim done_local [ none ↦ junk | some d ↦ d ])
        then (record s { freed = true }, gone)
        else (s, taken))
    else (s, asking)
step_worker junk done s asking =
    if done then (record s { freed = true }, gone) else (s, polling (some false))
step_worker junk done s taken = (s, serving s.client)
step_worker junk done s (serving client) = (s, closing client s.client)
step_worker junk done s (closing client closed) = (record s { busy = false }, polling none)
step_worker junk done s gone = (s, gone)

-- The client whose service the next access ends: the one that has been closed.
pub ends : Worker → List ℕ
ends (closing client closed) = closed ∷ []
ends _ = []

-- Where the acceptor stands in `thread_server_add_client`.
pub data Acceptor : Type 0 where
  idle : Acceptor
  scanning : (client i : ℕ) → Acceptor  -- before the load of `busy` of worker `i`
  storing : (client i : ℕ) → Acceptor  -- before the store to its `client`
  raising : (client i : ℕ) → Acceptor  -- before the store to its `busy`

-- `faulted` is set where the acceptor uses freed memory. `accepted` and `served` list the clients that
-- were accepted, and those whose service ended; they are no part of the program.
pub record System : Type 0 where
  pub slots : ℕ → Slot
  pub workers : ℕ → Worker
  pub size : ℕ
  pub acceptor : Acceptor
  pub done : Bool
  pub faulted : Bool
  pub accepted : List ℕ
  pub served : List ℕ

-- A worker's access; `i` is its place.
abbrev pub work : Bool → System → ℕ → System
work junk s i =
    let r = step_worker junk s.done (s.slots i) (s.workers i) in
    record s {
      slots = update s.slots i r.0;
      workers = update s.workers i r.1;
      served = ends (s.workers i) ++ s.served;
    }

-- A new worker, which finds `busy` set when its thread starts.
pub add_worker : ℕ → System → System
add_worker client s = record s {
  slots = update s.slots s.size (record { busy = true; client = client; freed = false });
  workers = update s.workers s.size (polling none);
  size = suc s.size;
  acceptor = idle;
}

-- The acceptor's access.
unfoldable pub step_acceptor : System → Acceptor → System
step_acceptor s idle = s
step_acceptor s (scanning client i) = if i == s.size then add_worker client s else record s {
  acceptor = if (s.slots i).busy then scanning client (suc i) else storing client i;
}
step_acceptor s (storing client i) = record s {
  slots = update s.slots i (record (s.slots i) { client = client });
  acceptor = raising client i;
}
step_acceptor s (raising client i) = record s {
  slots = update s.slots i (record (s.slots i) { busy = true });
  acceptor = idle;
}

-- Whether the acceptor's access is to parameters that have been freed.
unfoldable pub dangles : System → Acceptor → Bool
dangles s idle = false
dangles s (scanning client i) = if i == s.size then false else (s.slots i).freed
dangles s (storing client i) = (s.slots i).freed
dangles s (raising client i) = (s.slots i).freed

abbrev pub hand : System → System
hand s = if dangles s s.acceptor then record s { faulted = true } else step_acceptor s s.acceptor

-- A worker or the acceptor goes on, a client is accepted, a worker breaks off its service because of an
-- error, which sets `done`, or a signal does so.
pub data Step (s : System) : System → Type 0 where
  works : (junk : Bool) (i : ℕ) → i < s.size → Step s (work junk s i)
  hands : Step s (hand s)
  comes :
      (client : ℕ)
      → s.acceptor ≡ idle
      → Step s (record s { acceptor = scanning client 0; accepted = client ∷ s.accepted })
  breaks :
      (i client : ℕ)
      → i < s.size
      → s.workers i ≡ serving client
      → Step s (record s {
        slots = update s.slots i (record (s.slots i) { freed = true });
        workers = update s.workers i gone;
        done = true;
      })
  signals : Step s (record s { done = true })

-- The workers that `thread_server_start` makes: none is busy.
abbrev pub begin_system : ℕ → System
begin_system size = record {
  slots = λ _. record { busy = false; client = 0; freed = false };
  workers = λ _. polling none;
  size = size;
  acceptor = idle;
  done = false;
  faulted = false;
  accepted = [];
  served = [];
}

-- What can come after `start`. A fault is the end.
pub data After (start : System) : System → Type 0 where
  here : After start start
  next : {s t : System} → After start s → s.faulted ≡ false → Step s t → After start t

abbrev pub Reach : ℕ → System → Type 0
Reach size s = After (begin_system size) s
