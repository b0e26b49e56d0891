-- ===== src/Tests/Clients.antt =====
-- client/main.c on the simulated connection.
use c8005_assn.Base.{
  ◌+◌, ◌*◌, ◌≢◌, take, ◌-◌, false, true, Option, ℕ, ◌≡◌, refl, arith, List, [], ◌∷◌, none, some,
  Returns, ◌⊎◌,
}
use c8005_assn.Client.{Session, send_requests, make_random_string, strlen}
use c8005_assn.Client.Frames.{IsCounted, IsSending, send_requests_lem}
use c8005_assn.Client.Text.{make_random_string_lem}
use c8005_assn.Os.{Os}
use c8005_assn.Base.{ok}
use c8005_assn.Client.{connect_to_server}
use c8005_assn.Client.Refused.{IsRefusing, connect_to_server-refused}
use c8005_assn.Client.Options.{Info, default_info, set_options}
use c8005_assn.Client.Options.Bounds.{AllSane, client_options-IsSane}
use c8005_assn.Client.Threads.{request_all, exchange}
use c8005_assn.Client.Threads.Served.{IsClient, IsEchoed, exchange_served}
use c8005_assn.Server.Signals.{Flags}
use c8005_assn.Tests.Epolls.{sim-IsCalm}
use c8005_assn.Tests.Sim.{wire_arrived, sim_heap, Wire, sim, wire, wire_writable, wire_with}

abbrev two_letters : List ℕ
two_letters = 97 ∷ 98 ∷ []

-- The replies to the first two requests have arrived.
abbrev connected : Session sim
connected = record {
  client_count = 0;
  request_time = 0;
  data_received = 0;
  world = wire_with (97 ∷ 98 ∷ 97 ∷ 98 ∷ []);
}

send_requests_lem_example :
    Returns (IsSending wire two_letters 3 connected) (send_requests sim 3 7 two_letters connected)
send_requests_lem_example =
    send_requests_lem sim 7 wire wire_writable two_letters (λ w. refl) 3 connected (omega arith)

make_random_string_lem_example :
    Returns
      (λ r.
        ((r.0 ≡ none) × ((sim.malloc 6 (wire_with [])).0 ≡ none))
        ⊎ ((s : List ℕ) × (r.0 ≡ some s) × (strlen s ≡ 5)))
      (make_random_string sim 5 (wire_with []))
make_random_string_lem_example =
    make_random_string_lem sim 5 (wire_with []) (omega arith) (omega arith)

-- ECONNREFUSED.
abbrev refusing : Os
refusing = record sim { errno = λ w. 111 }

refusing-IsRefusing : IsRefusing refusing
refusing-IsRefusing = record {
  opens = λ w. (5, refl);
  refuses = λ sock address w. refl;
  other = λ w e. omega (arith, e);
}

connect_to_server-refused_example :
    (s : ℕ) × (w' : Wire) × (connect_to_server refusing 1 none (wire_with []) ≡ ok (some s, w'))
connect_to_server-refused_example =
    connect_to_server-refused refusing refusing-IsRefusing 0 1 [] none (wire_with []) refl

-- `sscanf` on text of one digit.
abbrev decimal_from : ℕ → List ℕ → ℕ
decimal_from n [] = n
decimal_from n (c ∷ cs) = decimal_from (n * 10 + (c - 48)) cs

abbrev decimal : List ℕ → Option ℕ
decimal [] = none
decimal (c ∷ cs) = some (decimal_from 0 (c ∷ cs))

-- -p 7 -s 3
client_options-IsSane_example :
    Returns
      (λ r. AllSane decimal r.0)
      (set_options sim decimal decimal
        ((112, 55 ∷ []) ∷ (115, 51 ∷ []) ∷ [])
        default_info
        (wire_with []))
unfolding default_info
client_options-IsSane_example =
    client_options-IsSane sim decimal decimal (λ n w e. cc) ((112, 55 ∷ []) ∷ (115, 51 ∷ []) ∷ [])
      (wire_with []) refl

abbrev two_requests : Info
two_requests = record {
  ip = [];
  port = 56 ∷ [];
  num_of_clients = 5;
  max_requests = 2;
  msg_size = 2;
}

abbrev quiet_flags : Flags
quiet_flags = record { done = false; handled = false }

wire-IsClient : IsClient wire 2 0
wire-IsClient = record {
  writable = wire_writable;
  kept = λ d. record { kept_close = λ w h. h; kept_write = λ line w h. h; kept_error = λ w h. h };
  ends = λ w e. omega (arith, e);
  closes = λ w. refl;
  rests = λ w. refl;
}

exchange_served_example :
    Returns
      (λ r.
        (r.0 ≡ true)
        × (s : Session sim) × (request_all sim 2 7 (some (97 ∷ 98 ∷ 0 ∷ [])) (record {
          client_count = 0;
          request_time = 0;
          data_received = 0;
          world = wire_with [];
        })
            ≡ ok s)
        × (k : ℕ) × IsCounted sim 7 (97 ∷ 98 ∷ []) 2 k 0 s
        × (IsEchoed sim sim 7 7 wire wire 2 0 wire-IsClient wire_arrived wire_writable sim_heap
              sim-IsCalm
              (λ w. wire_with w.outbox)
              (λ w. refl)
              k
              0
              two_requests
              (take (strlen (97 ∷ 98 ∷ 0 ∷ [])) (97 ∷ 98 ∷ 0 ∷ []))
              quiet_flags
              r.1
            ⊎ (sim.errno s.world ≢ 0)))
      (exchange sim 1 two_requests 7 2 (some (97 ∷ 98 ∷ 0 ∷ [])) (wire_with []))
unfolding strlen
exchange_served_example =
    exchange_served sim sim 7 7 wire wire 2 0 wire-IsClient wire_arrived wire_writable sim_heap
      sim-IsCalm (λ w. wire_with w.outbox) (λ w. refl) 0 two_requests (97 ∷ 98 ∷ 0 ∷ []) quiet_flags
      (wire_with []) (omega arith) (omega arith) (omega arith) refl refl
