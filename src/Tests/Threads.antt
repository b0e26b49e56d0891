-- ===== src/Tests/Threads.antt =====
-- server/thread_server.c on small inputs.
use c8005_assn.Base.{
  ◌⊎◌, ◌+◌, ok, ◌++◌, ◌∷◌, Returns, zero, suc, ◌<◌, get_elem?, ◌≡◌, List, some, [], ℕ, arith, refl,
  true, false,
}
use mathlib.Core.Option.{some-injective, none-ne-some}
use c8005_assn.Os.{Os}
use c8005_assn.Os.Stream.{Ready}
use c8005_assn.Server.Acceptor.{Accepted}
use c8005_assn.Server.Thread.{Request, serve_messages}
use c8005_assn.Server.Request.Session.{frames}
use c8005_assn.Server.Thread.Session.{serve_messages-echo}
use c8005_assn.Server.Thread.Pool.{Pool, add_client}
use c8005_assn.Server.Thread.Pool.{list_workers}
use c8005_assn.Server.Thread.Pool.Listing.{IsListed, IsShort, list_workers_lem}
use c8005_assn.Server.Thread.Pool.Dispatch.{IsPool, Dispatched, thread_add-Dispatched}
use c8005_assn.Server.Thread.Handshake.{scanning, System, hand, begin_system}
use c8005_assn.Server.Thread.Handshake.Lost.{lost}
use c8005_assn.Base.{inl}
use c8005_assn.Server.Thread.{served, serve_client}
use c8005_assn.Server.Thread.Life.{IsServing, serve_client-session}
use c8005_assn.Tests.Sim.{sim_heap}
use c8005_assn.Tests.Epolls.{sim-IsCalm, messages}
use c8005_assn.Tests.Sim.{sim, Wire, wire, wire_writable, receive_ready, wire_with}
use c8005_assn.Tests.Epolls.{no_peer}
use c8005_assn.Tests.Utils.{no_memory, half_more, half_more-IsGrowth}

wire-Ready : Ready sim 7 wire
wire-Ready = record { gives = λ n w p h. receive_ready n w w.inbox p h }

-- The size 2 has been read.
abbrev size_read : Request
size_read = record { transferred = 4; msg_size = 2 ∷ 0 ∷ 0 ∷ 0 ∷ []; msg = some (9 ∷ 9 ∷ []) }

abbrev to_come : List ℕ
to_come = (1 ∷ 2 ∷ []) ++ frames ((3 ∷ 4 ∷ []) ∷ [])

serve_messages-echo_example :
    (r : Request) × (w : Wire) × (serve_messages sim 2 7 size_read (wire_with to_come) ≡ ok (r, w))
    × (w.outbox ≡ 1 ∷ 2 ∷ 3 ∷ 4 ∷ [])
    × (w.inbox ≡ [])
    × (r.transferred + 2 ≡ 4 + 12)
serve_messages-echo_example =
    serve_messages-echo sim 7 wire wire-Ready wire_writable 2 2 size_read (9 ∷ 9 ∷ []) (1 ∷ 2 ∷ [])
      ((3 ∷ 4 ∷ []) ∷ []) (wire_with to_come) refl refl refl (refl, (refl, tt)) (omega arith)
      (omega arith) refl (omega arith)

-- The peer has gone.
abbrev closed_sim : Os
closed_sim = record sim { recv = λ sock n w. (some [], w) }

abbrev newcomer : Accepted
newcomer = record { peer = no_peer; sock = 9 }

-- One worker, at the address 0, that is busy, and room for a second in the list.
abbrev one_worker : Pool sim no_memory
one_worker = record {
  world = wire_with [];
  flags = record { done = false; handled = false };
  memory = 0;
  max_concurrent = 1;
  total_served = 1;
  list = record { items = 0 ∷ 0 ∷ []; item_size = 8; size = 1; cap = 2 };
  params = λ _. record { busy = true; client = newcomer };
  next_params = 1;
}

listed_first : (j q : ℕ) → get_elem? (0 ∷ []) j ≡ some q → q < 1
listed_first zero q e = omega (arith, some-injective _ _ e)
listed_first (suc j) q e = absurd (none-ne-some q e)

one_worker-IsPool : IsPool one_worker
one_worker-IsPool = record {
  list_valid = record { block = refl; within = omega arith; small = omega arith };
  filled = omega arith;
  small = omega arith;
  known = λ j q e. listed_first j q e;
}

-- An empty list with room for three.
abbrev no_workers : Pool sim no_memory
no_workers = record one_worker {
  list = record { items = 0 ∷ 0 ∷ 0 ∷ []; item_size = 8; size = 0; cap = 3 };
}

no_workers-IsPool : IsPool no_workers
no_workers-IsPool = record {
  list_valid = record { block = refl; within = omega arith; small = omega arith };
  filled = omega arith;
  small = omega arith;
  known = λ j q e. absurd (none-ne-some q e);
}

list_workers_lem_example :
    Returns
      (λ r.
        IsShort sim no_memory half_more 2 no_workers r ⊎ ((r.0 ≡ true) × IsListed 2 no_workers r.1))
      (list_workers sim no_memory half_more 2 no_workers)
list_workers_lem_example =
    list_workers_lem sim no_memory half_more 2 no_workers no_workers-IsPool (omega arith)

thread_add-Dispatched_example :
    Returns
      (Dispatched sim no_memory half_more one_worker newcomer)
      (add_client sim no_memory half_more newcomer one_worker)
thread_add-Dispatched_example =
    thread_add-Dispatched sim no_memory half_more half_more-IsGrowth one_worker newcomer
      one_worker-IsPool

-- The only worker gets the client 5.
abbrev one_given : System
one_given =
    let s = record (begin_system 1) { acceptor = scanning 5 0; accepted = 5 ∷ [] } in
    hand (hand (hand s))

-- The client 5 is lost, and the client 6 comes.
abbrev six_waits : System
six_waits = record (lost 5) { acceptor = scanning 6 0; accepted = 6 ∷ 5 ∷ [] }

abbrev seventh : Accepted
seventh = record { peer = no_peer; sock = 7 }

wire-IsServing : IsServing {os = sim} {sock = 7} wire 2 1
wire-IsServing = record {
  ready = wire-Ready;
  writable = wire_writable;
  heap = sim_heap;
  calm = sim-IsCalm;
  kept = λ d. record { kept_close = λ w h. h; kept_write = λ line w h. h; kept_error = λ w h. h };
  ends = λ w. inl (λ e. omega (arith, e));
  closes = λ w. refl;
}

serve_client-session_example :
    Returns
      (λ r. (r.0 ≡ served) × (r.1.outbox ≡ 1 ∷ 2 ∷ 3 ∷ 4 ∷ 5 ∷ 6 ∷ []))
      (serve_client sim 2 2 seventh (9 ∷ 9 ∷ 9 ∷ 9 ∷ []) (wire_with (frames messages)))
serve_client-session_example =
    serve_client-session sim seventh wire 2 1 wire-IsServing 3 (9 ∷ 9 ∷ 9 ∷ 9 ∷ []) (1 ∷ 2 ∷ 3 ∷ [])
      ((4 ∷ 5 ∷ 6 ∷ []) ∷ []) (wire_with (frames messages)) refl (refl, (refl, tt)) (omega arith)
      (omega arith) refl (omega arith)
