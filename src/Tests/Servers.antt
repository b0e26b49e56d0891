-- ===== src/Tests/Servers.antt =====
-- server/select_server.c, the port string and the options of server/main.c on small inputs.
use c8005_assn.Base.{
  inl, Stops, ℕ, ◌≡◌, ◌<◌, ◌/◌, refl, true, false, Option, some, none, List, [], ◌∷◌, arith, update,
  count-none, count-update, ltb, if◌then◌else◌, Returns, Ensures,
}
use c8005_assn.Server.Acceptor.{Client}
use c8005_assn.Server.Epoll.{no_request}
use c8005_assn.Server.Select.{Select, fd_setsize, handle_request, register_fds}
use c8005_assn.Server.Select.Invariant.{IsValid, Follows, is_live, select_request-Follows}
use c8005_assn.Server.Select.Sets.{register_fds_lem}
use c8005_assn.Server.Serve.{port_string}
use c8005_assn.Server.Serve.Port.{read_decimal, port_string_lem}
use c8005_assn.Server.Main.{set_port, set_option, epoll, set_options}
use c8005_assn.Server.Main.Options.{last_port, set_options-port}
use c8005_assn.Server.Request.Session.{frames}
use c8005_assn.Server.Select.Service.{IsApart, IsServed, select_request-session}
use c8005_assn.Server.Select.Total.{select_request-Stops}
use c8005_assn.Tests.Sim.{wire, wire_writable, wire_arrived, sim_heap}
use c8005_assn.Tests.Sim.{sim, wire_with}
use c8005_assn.Base.{ok}
use c8005_assn.Tests.Epolls.{sim-IsCalm, no_request-IsReady, messages, no_peer}

abbrev nobody : Client
nobody = record { peer = no_peer; sock = none }

abbrev seven : Client
seven = record { peer = no_peer; sock = some 7 }

abbrev acceptor_three : Client
acceptor_three = record { peer = no_peer; sock = some 3 }

-- The acceptor has socket 3 and a client socket 7.
abbrev one_client : Select sim
one_client = record {
  world = wire_with (frames messages);
  flags = record { done = false; handled = false };
  log_fd = 2;
  max_concurrent = 1;
  total_served = 1;
  set = update (λ _. false) 7 true;
  max_fd = 7;
  clients = update (update (λ _. nobody) 3 acceptor_three) 7 seven;
  requests = λ _. no_request;
  connected_count = 1;
}

one_client-IsValid : IsValid sim 3 one_client
one_client-IsValid = record {
  counted = omega (
    arith,
    count-update is_live fd_setsize (update (λ _. nobody) 3 acceptor_three) 7 seven (omega arith),
    count-update is_live fd_setsize (λ _. nobody) 3 acceptor_three (omega arith),
    count-none is_live fd_setsize (λ _. nobody) (λ i. refl),
  );
  accepting = refl;
  owned = λ i fd h. ground (arith, h);
  reset = λ i h. refl;
  below = λ i h. ground (arith, h);
  peak = omega arith;
  total = omega arith;
  small = omega arith;
}

select_request-Follows_example :
    Ensures (Follows sim 3 7 one_client) (handle_request sim 9 1 7 one_client)
select_request-Follows_example =
    select_request-Follows sim 3 7 (λ e. omega (arith, e)) 9 1 one_client refl (omega arith)
      one_client-IsValid

register_fds_lem_example :
    Returns
      (λ set. (fd : ℕ) → fd < fd_setsize → set fd ≡ is_live (one_client.clients fd))
      (register_fds 3 one_client.clients)
register_fds_lem_example = register_fds_lem sim 3 one_client (omega arith) one_client-IsValid

port_string_lem_example :
    read_decimal 0 (port_string 18005) ≡ (if ltb 18005 10000 then 18005 else 18005 / 10)
port_string_lem_example = port_string_lem 18005 (omega arith)

-- A string of one digit.
abbrev one_digit : List ℕ → Option ℕ
one_digit [] = none
one_digit (c ∷ cs) = some c

abbrev options : List (ℕ × List ℕ)
options = (112, 9 ∷ []) ∷ (112, 7 ∷ []) ∷ []

set_options-port_example : (7 ≡ last_port one_digit options 5) × (7 < 65536)
unfolding set_options set_option set_port
set_options-port_example =
    set_options-port one_digit options (record { port = 5; server = epoll })
      (record { port = 7; server = epoll }) (omega arith) refl

select_request-Stops_example :
    Stops (Follows sim 3 7 one_client) (handle_request sim 20 1 7 one_client)
select_request-Stops_example =
    select_request-Stops sim 7 wire wire_writable 2 19 (λ w. inl (λ e. omega (arith, e))) 3 0
      one_client (λ e. omega (arith, e)) refl (omega arith) one_client-IsValid refl (omega arith)

sim-IsApart : IsApart sim 3 7 (λ e. omega (arith, e)) wire 4 2
sim-IsApart = record {
  log = λ d. record { kept_close = λ w h. h; kept_write = λ line w h. h; kept_error = λ w h. h };
  drop = λ w. refl;
  ends = λ w. inl (λ e. omega (arith, e));
}

select_request-session_example :
    (e' : Select sim) × (handle_request sim 5 1 7 one_client ≡ ok (true, e'))
    × IsServed sim 3 7 (λ e. omega (arith, e)) wire one_client e' (1 ∷ 2 ∷ 3 ∷ 4 ∷ 5 ∷ 6 ∷ [])
select_request-session_example =
    select_request-session sim 3 7 (λ e. omega (arith, e)) wire wire_arrived wire_writable sim_heap
      sim-IsCalm 3 4 0 one_client messages one_client-IsValid refl (omega arith) (omega arith)
      no_request-IsReady refl sim-IsApart (refl, (refl, tt)) (omega arith) (omega arith) refl
      (omega arith)
