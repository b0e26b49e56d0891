-- ===== src/Tests/Loops.antt =====
-- The loops of the `epoll` and the `select` server, and `serve`, on a kernel with a table of descriptors.
use c8005_assn.Base.{ℕ, ◌≡◌, refl, Bool, true, false, some, none, arith, update, ok, first, turn}
use c8005_assn.Os.{ewouldblock}
use c8005_assn.Server.Signals.{load_done}
use c8005_assn.Server.Acceptor.{accept_client}
use c8005_assn.Server.Epoll.{
  run_events, accept_all, add_client, enter, Epoll, no_request, num_epoll_events, event_round,
}
use c8005_assn.Server.Epoll.Loop.{Turns-event_round-IsServing}
use c8005_assn.Server.Select
use c8005_assn.Server.Epoll
use c8005_assn.Server.Acceptor.{Client}
use c8005_assn.Server.Select.{
  Select, fd_setsize, select_round, selected, register_fds, register_clients, fd_set, serve_ready,
  serve_clients, is_selected,
}
use c8005_assn.Server.Select.Loop.{Turns-select_round-IsServing}
use c8005_assn.Server.Serve.{Server, serve}
use c8005_assn.Server.Serve.Servers.{select_server, select_server-IsLawful}
use c8005_assn.Server.Serve.Opening.{Opening, serve-Opening}
use c8005_assn.Tests.Epolls.{no_peer}
use c8005_assn.Tests.Tables.{
  table_os, table, table-IsTable, table-IsWatching, table-IsSelecting, table-IsListening,
}

-- Socket 4 listens, and nobody has come.
abbrev fresh_server : Epoll table_os
fresh_server = record {
  world = record {
    opened = update (λ _. false) 4 true;
    watched = λ _. false;
    waiting = true;
    code = 0;
  };
  flags = record { done = false; handled = false };
  log_fd = 2;
  max_concurrent = 0;
  total_served = 0;
  epfd = 0;
  clients = λ _. record { client = record { peer = no_peer; sock = none }; request = no_request };
  connected_count = 0;
}

fresh_server-IsFirst : Epoll.Loop.IsFirst table 4 fresh_server
fresh_server-IsFirst = record {
  nobody = refl;
  idle = λ i. refl;
  peak = omega arith;
  counted = omega arith;
  listening = refl;
}

-- The client has come, and the kernel watches its socket.
abbrev server_with_client : Epoll table_os
server_with_client = record fresh_server {
  world = record {
    opened = update (update (update (λ _. false) 4 true) 3 true) 7 true;
    watched = update (update (λ _. false) 4 true) 7 true;
    waiting = false;
    code = ewouldblock;
  };
  epfd = 3;
  max_concurrent = 1;
  total_served = 1;
  clients =
      update (λ _. record { client = record { peer = no_peer; sock = none }; request = no_request })
        7 (record { client = record { peer = no_peer; sock = some 7 }; request = no_request });
  connected_count = 1;
}

first_round :
    event_round table_os 9 1 4 (Epoll.set_up table_os 4 fresh_server).1
    ≡ ok (true, server_with_client)
unfolding Epoll.set_up event_round run_events accept_all accept_client add_client enter load_done
first_round = refl

ready : (Epoll.set_up table_os 4 fresh_server).0 ≡ true
unfolding Epoll.set_up
ready = refl

Turns-event_round-IsServing_example :
    (live : ℕ → Bool) × Epoll.Table.IsServing table 4 live server_with_client
Turns-event_round-IsServing_example =
    Turns-event_round-IsServing table_os table table-IsTable table-IsWatching 4 1 fresh_server
      server_with_client fresh_server-IsFirst ready (turn 9 first first_round)

abbrev nobody : Client
nobody = record { peer = no_peer; sock = none }

abbrev listener : Client
listener = record { peer = no_peer; sock = some 4 }

abbrev comer : Client
comer = record { peer = no_peer; sock = some 7 }

-- The `select` server on socket 4.
abbrev fresh_select : Select table_os
fresh_select = record {
  world = fresh_server.world;
  flags = record { done = false; handled = false };
  log_fd = 2;
  max_concurrent = 0;
  total_served = 0;
  set = λ _. false;
  max_fd = 0;
  clients = λ _. nobody;
  requests = λ _. no_request;
  connected_count = 0;
}

fresh_select-IsFirst : Select.Loop.IsFirst table 4 fresh_select
fresh_select-IsFirst = record { peak = omega arith; counted = omega arith; listening = refl }

abbrev set_up_select : Select table_os
set_up_select = record fresh_select {
  world = fresh_server.world;
  set = update (λ _. false) 4 true;
  max_fd = 4;
  clients = update (λ _. nobody) 4 listener;
  requests = λ _. no_request;
}

select_set_up : Select.set_up table_os 4 fresh_select ≡ ok (true, set_up_select)
unfolding Select.set_up Select.first_clients fd_set
select_set_up = refl

abbrev select_with_client : Select table_os
select_with_client = record set_up_select {
  world = record server_with_client.world {
    opened = update (update (λ _. false) 4 true) 7 true;
    watched = λ _. false;
  };
  max_concurrent = 1;
  total_served = 1;
  set = update (update (λ _. false) 4 true) 4 true;
  max_fd = 7;
  clients = update (update (λ _. nobody) 4 listener) 7 comer;
  connected_count = 1;
}

first_select : select_round table_os 9 1 4 set_up_select ≡ ok (none, select_with_client)
unfolding select_round selected register_fds register_clients fd_set serve_ready serve_clients
    is_selected Select.accept_all accept_client Select.add_client Select.enter load_done
first_select = refl

Turns-select_round-IsServing_example : Select.Table.IsServing table 4 select_with_client
Turns-select_round-IsServing_example =
    Turns-select_round-IsServing table_os table table-IsTable table-IsSelecting 4 1 fresh_select
      set_up_select select_with_client fresh_select-IsFirst select_set_up
      (turn 9 first first_select)

abbrev small_select : Server table_os
small_select = select_server table_os 9 1

-- Before `serve` nothing is open.
abbrev idle_select : Select table_os
idle_select = record fresh_select { world = record fresh_server.world { opened = λ _. false } }

idle_state : small_select.State
unfolding select_server
idle_state = idle_select

serve-Opening_example :
    Opening table_os small_select
      (select_server-IsLawful table_os 9 1)
      table
      table-IsTable
      table-IsListening
      9
      (small_select.world idle_state)
      (small_select.reset idle_state)
      (serve table_os small_select 9 8005 idle_state)
serve-Opening_example =
    serve-Opening table_os small_select (select_server-IsLawful table_os 9 1) table table-IsTable
      table-IsListening 9 8005 idle_state
