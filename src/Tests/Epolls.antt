-- ===== src/Tests/Epolls.antt =====
-- server/epoll_server.c on the simulated connection.
use c8005_assn.Base.{
  Stops, ℕ, ◌≡◌, refl, Bool, true, false, some, none, List, [], ◌∷◌, arith, update, count-none,
  count-update, ok, inl, Ensures, timeout,
}
use c8005_assn.Os.{Peer}
use c8005_assn.Server.Acceptor.{Accepted}
use c8005_assn.Server.Request.Session.{frames, IsReady, IsCalm}
use c8005_assn.Server.Epoll.{Epoll, no_request, num_epoll_events, handle_request, event_loop}
use c8005_assn.Server.Epoll.Invariant.{IsValid, Follows, handle_request-Follows}
use c8005_assn.Server.Epoll.Service.{
  IsApart, IsServed, handle_request-session, event_loop_never_ends,
}
use c8005_assn.Server.Epoll.Total.{handle_request-Stops}
use c8005_assn.Tests.Sim.{sim, wire, wire_arrived, wire_writable, sim_heap, wire_with}

abbrev pub messages : List (List ℕ)
messages = (1 ∷ 2 ∷ 3 ∷ []) ∷ (4 ∷ 5 ∷ 6 ∷ []) ∷ []

abbrev pub no_peer : Peer
no_peer = record { sin_addr = 0; sin_port = 0 }

-- Socket 7 is registered, on zeroed memory.
abbrev one_client : Epoll sim
one_client = record {
  world = wire_with (frames messages);
  flags = record { done = false; handled = false };
  log_fd = 2;
  max_concurrent = 1;
  total_served = 1;
  epfd = 3;
  clients =
      update (λ _. record { client = record { peer = no_peer; sock = none }; request = no_request })
        7 (record { client = record { peer = no_peer; sock = some 7 }; request = no_request });
  connected_count = 1;
}

abbrev only_seven : ℕ → Bool
only_seven = update (λ _. false) 7 true

one_client-IsValid : IsValid sim only_seven one_client
one_client-IsValid = record {
  counted = omega (
    arith,
    count-update (λ b. b) num_epoll_events (λ _. false) 7 true (omega arith),
    count-none (λ (b : Bool). b) num_epoll_events (λ _. false) (λ i. refl),
  );
  peak = omega arith;
  total = omega arith;
  small = omega arith;
  owned = λ i h. ground arith;
  idle = λ i h. ground arith;
}

pub no_request-IsReady : IsReady 3 no_request
no_request-IsReady = record {
  aligned = refl;
  aligned_next = refl;
  size_bytes = refl;
  buffer = inl refl;
}

pub sim-IsCalm : IsCalm sim
sim-IsCalm = record { quiet = λ w. refl; roomy = λ n w. (_, refl) }

sim-IsApart : IsApart sim 7 wire 4 2 3
sim-IsApart = record {
  log = λ d. record { kept_close = λ w h. h; kept_write = λ line w h. h; kept_error = λ w h. h };
  drop = λ w. refl;
  ends = λ w. inl (omega arith);
}

handle_request-session_example :
    (e' : Epoll sim) × (handle_request sim 5 1 7 one_client ≡ ok (true, e'))
    × IsServed sim 7 wire only_seven one_client e' (1 ∷ 2 ∷ 3 ∷ 4 ∷ 5 ∷ 6 ∷ [])
handle_request-session_example =
    handle_request-session sim 7 wire wire_arrived wire_writable sim_heap sim-IsCalm only_seven 3 4
      0 one_client messages one_client-IsValid refl (omega arith) no_request-IsReady refl
      sim-IsApart (refl, (refl, tt)) (omega arith) (omega arith) refl (omega arith)

handle_request-Follows_example :
    Ensures (Follows sim only_seven 7 one_client) (handle_request sim 9 1 7 one_client)
handle_request-Follows_example =
    handle_request-Follows sim only_seven 7 refl 9 1 one_client one_client-IsValid

abbrev pub newcomer : Accepted
newcomer = record { peer = no_peer; sock = 9 }

event_loop_never_ends_example :
    event_loop sim 4 1 5 (record one_client { flags = record { done = true; handled = true } })
    ≡ timeout
event_loop_never_ends_example =
    event_loop_never_ends sim (record { waits = λ epfd w. ([], refl) }) 4 1 5 _ refl

handle_request-Stops_example :
    Stops (Follows sim only_seven 7 one_client) (handle_request sim 20 1 7 one_client)
handle_request-Stops_example =
    handle_request-Stops sim 7 wire wire_writable 2 19 (λ w. inl (λ e. omega (arith, e))) only_seven
      0 one_client refl one_client-IsValid refl (omega arith)
