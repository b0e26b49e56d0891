-- ===== src/Server/Select.antt =====
-- server/select_server.c; `select_server_client_set` with the world, the flags and the log's
-- descriptor. The two arrays are functions of the index, used below FD_SETSIZE, and the set of
-- descriptors is a function into Bool, used below EXT_FD_SETSIZE. Printed text is left out.
pub mod Invariant
pub mod Slots
pub mod Total
pub mod Sets
pub mod Table
pub mod Accepting
pub mod Service
pub mod Loop
use c8005_assn.Base.{
  ℕ, zero, suc, ◌+◌, ◌-◌, Bool, true, false, Option, none, some, ltb, ◌==◌, if◌then◌else◌, ◌&&◌,
  ◌||◌, add_size, sub_size, update, Run, ok, fault, timeout, ◌>>=◌,
}
use c8005_assn.Os.{Os, Timeval, eintr}
use c8005_assn.Server.Signals.{Flags, load_done}
use c8005_assn.Server.Acceptor.{Client, Accepted, accept_client}
use c8005_assn.Server.Timing.{add_time}
use c8005_assn.Server.Request.{Request, Next, again, blocked, finished, failed, Served, serve_loop}
use c8005_assn.Server.Epoll.{no_request}
use c8005_assn.Util.Log.{log_msg}

abbrev pub fd_setsize : ℕ
fd_setsize = 1024

abbrev pub ext_fd_setsize : ℕ
ext_fd_setsize = 65536

pub record Select (os : Os) : Type 0 where
  pub world : os.World
  pub flags : Flags
  pub log_fd : ℕ
  pub max_concurrent : ℕ
  pub total_served : ℕ
  pub set : ℕ → Bool
  pub max_fd : ℕ
  pub clients : ℕ → Client
  pub requests : ℕ → Request
  pub connected_count : ℕ

-- `FD_SET`, in an `ext_fd_set`.
unfoldable pub fd_set : ℕ → (ℕ → Bool) → Run (ℕ → Bool)
fd_set fd set = if ltb fd ext_fd_setsize then ok (update set fd true) else fault

-- The loop of `register_fds` over the clients, after `n` rounds.
unfoldable pub register_clients : ℕ → (ℕ → Client) → (ℕ → Bool) → Run (ℕ → Bool)
register_clients zero clients set = ok set
register_clients (suc n) clients set = do
  set' ← register_clients n clients set
  elim ((clients n).sock) [ none ↦ ok set' | some fd ↦ fd_set fd set' ]

unfoldable pub register_fds : ℕ → (ℕ → Client) → Run (ℕ → Bool)
register_fds acceptor clients = do
  set ← fd_set acceptor (λ _. false)
  register_clients fd_setsize clients set

module _ (os : Os) where
  open os use {
    World, errno, gettimeofday, close, set_nonblocking, select, malloc_struct, format_csv,
  }

  -- The part after the loop for a client that stays.
  pub keep : ℕ → Timeval → Request → Select os → Select os
  keep sock start r e =
      let (end, w) = gettimeofday e.world in
      record e {
        world = w;
        requests =
            update e.requests sock
              (record r { transfer_time = add_time r.transfer_time start end });
      }

  -- What both ways through `cleanup` share.
  pub drop_client : ℕ → World → Select os → Select os
  drop_client sock w e = record e {
    world = close sock w;
    clients = update e.clients sock (record (e.clients sock) { sock = none });
    requests = update e.requests sock no_request;
    connected_count = sub_size e.connected_count 1;
  }

  -- The label `cleanup` with the result 0.
  pub log_and_drop : ℕ → ℕ → Timeval → Request → Select os → Run (Select os)
  log_and_drop fuel sock start r e =
      let (end, w) = gettimeofday e.world in
      let time = add_time r.transfer_time start end in
      let line = format_csv time r.transferred ((e.clients sock).peer) in
      do (logged, w') ← log_msg os fuel e.log_fd line w; ok (drop_client sock w' e)

  -- `false` is the result -1.
  pub settle : ℕ → ℕ → Timeval → Served os → Select os → Run (Bool × Select os)
  settle fuel sock start s e = elim s.next [
    | finished ↦ do e' ← log_and_drop fuel sock start s.request e; ok (true, e')
    | failed ↦ ok (false, drop_client sock e.world e)
    | _ ↦ ok (true, keep sock start s.request e)
  ]

  pub handle_request : ℕ → ℕ → ℕ → Select os → Run (Bool × Select os)
  handle_request fuel spins sock e = elim (ltb sock fd_setsize) [
    | false ↦ fault
    | true ↦
        let (start, w) = gettimeofday e.world in
        do
          s ← serve_loop os fuel spins sock (e.requests sock) e.flags w
          settle fuel sock start s (record e { world = s.world; flags = s.flags })
  ]

  -- The counters, the slot and `max_fd` for a new client.
  unfoldable pub enter : Accepted → Select os → Select os
  enter a e =
      let connected = add_size e.connected_count 1 in
      record e {
        total_served = add_size e.total_served 1;
        connected_count = connected;
        max_concurrent = if ltb e.max_concurrent connected then connected else e.max_concurrent;
        clients = update e.clients a.sock (record { peer = a.peer; sock = some a.sock });
        max_fd = if ltb e.max_fd a.sock then a.sock else e.max_fd;
      }

  unfoldable pub add_client : Accepted → Select os → Run (Bool × Select os)
  add_client a e =
      let (unblocked, w) = set_nonblocking a.sock e.world in
      elim unblocked [
        | false ↦ ok (false, record e { world = w })
        | true ↦ elim (ltb a.sock fd_setsize) [
          | false ↦ fault
          | true ↦ ok (true, enter a (record e { world = w }))
        ]
      ]

  -- `while(1)` over `accept_client`; nothing reads the `err` that it sets.
  unfoldable pub accept_all : ℕ → ℕ → Select os → Run (Select os)
  accept_all zero acceptor e = timeout
  accept_all (suc fuel) acceptor e =
      let (r, f, w) = accept_client os acceptor e.flags e.world in
      let e' = record e { flags = f; world = w } in
      elim r [
        | none ↦ ok e'
        | some a ↦ do
          (added, e'') ← add_client a e'
          elim added [ false ↦ ok e'' | true ↦ accept_all fuel acceptor e'' ]
      ]

  -- Whether slot `i` has a client whose descriptor is in the set.
  unfoldable pub is_selected : ℕ → Select os → Option ℕ
  is_selected i e = elim ((e.clients i).sock) [
    | none ↦ none
    | some fd ↦ if e.set fd then some fd else none
  ]

  -- The `for` over the slots from `i` on, of which `n` are left. `false` is `return -1`.
  unfoldable pub serve_clients : ℕ → ℕ → ℕ → ℕ → Select os → Run (Bool × Select os)
  serve_clients fuel spins zero i e = ok (true, e)
  serve_clients fuel spins (suc n) i e =
      let (done, f, w) = load_done os e.flags e.world in
      let e' = record e { flags = f; world = w } in
      elim done [
        | true ↦ ok (true, e')
        | false ↦ elim (is_selected i e') [
          | none ↦ serve_clients fuel spins n (suc i) e'
          | some fd ↦ do
            (served, e'') ← handle_request fuel spins fd e'
            elim served [ false ↦ ok (false, e'') | true ↦ serve_clients fuel spins n (suc i) e'' ]
        ]
      ]

  -- What follows a `select` that found something.
  unfoldable pub serve_ready : ℕ → ℕ → ℕ → Select os → Run (Bool × Select os)
  serve_ready fuel spins acceptor e = do
    e' ← if e.set acceptor then accept_all fuel acceptor e else ok e
    serve_clients fuel spins (fd_setsize - (acceptor + 1)) (acceptor + 1) e'

  -- What follows a `select`, by its result: the result with which the loop ends, if it does.
  unfoldable pub selected :
      ℕ → ℕ → ℕ → Option (ℕ × (ℕ → Bool)) → Select os → Run (Option Bool × Select os)
  selected fuel spins acceptor none e = ok (some true, e)
  selected fuel spins acceptor (some (zero, ready)) e = ok (none, record e { set = ready })
  selected fuel spins acceptor (some (suc n, ready)) e = do
    (served, e') ← serve_ready fuel spins acceptor (record e { set = ready })
    ok (if served then none else some false, e')

  -- One round of `while(!atomic_load(&done))`, the test included.
  unfoldable pub select_round : ℕ → ℕ → ℕ → Select os → Run (Option Bool × Select os)
  select_round fuel spins acceptor e =
      let (done, f, w) = load_done os e.flags e.world in
      elim done [
        | true ↦ ok (some true, record e { flags = f; world = w })
        | false ↦ do
          set ← register_fds acceptor e.clients
          let (r, w') = select (e.max_fd + 1) set w
          selected fuel spins acceptor r (record e { flags = f; world = w'; set = set })
      ]

  pub select_loop : ℕ → ℕ → ℕ → Select os → Run (Bool × Select os)
  select_loop zero spins acceptor e = timeout
  select_loop (suc fuel) spins acceptor e = do
    (ended, e') ← select_round fuel spins acceptor e
    elim ended [ none ↦ select_loop fuel spins acceptor e' | some served ↦ ok (served, e') ]

  -- The arrays before the loop: the acceptor's slot is taken. The rest of a slot is memory that
  -- nothing reads before it is written.
  unfoldable pub first_clients : ℕ → ℕ → Client
  first_clients acceptor =
      let nobody : Client = record { peer = record { sin_addr = 0; sin_port = 0 }; sock = none } in
      update (λ _. nobody) acceptor (record nobody { sock = some acceptor })

  -- `errno && errno != EINTR`.
  pub exit_code : Bool × Select os → Bool × Select os
  exit_code (served, e) = (served && ((errno e.world == 0) || (errno e.world == eintr)), e)

  -- `select_server_start` up to its loop, for the counters and the log of `e`; `false` where a call
  -- fails.
  unfoldable pub set_up : ℕ → Select os → Run (Bool × Select os)
  set_up acceptor e =
      let (allocated, w) = malloc_struct e.world in
      elim allocated [
        | false ↦ ok (false, record e { world = w })
        | true ↦
            let (unblocked, w') = set_nonblocking acceptor w in
            elim unblocked [
              | false ↦ ok (false, record e { world = w' })
              | true ↦ elim (ltb acceptor fd_setsize) [
                | false ↦ fault
                | true ↦ do
                  set ← fd_set acceptor (λ _. false)
                  ok (
                    true,
                    record e {
                      world = w';
                      set = set;
                      max_fd = acceptor;
                      clients = first_clients acceptor;
                      requests = λ _. no_request;
                      connected_count = 0;
                    },
                  )
              ]
            ]
      ]

  -- `true` is the result 0.
  pub start : ℕ → ℕ → ℕ → Select os → Run (Bool × Select os)
  start fuel spins acceptor e = do
    (ready, e') ← set_up acceptor e
    elim ready [
      | false ↦ ok (false, e')
      | true ↦ do r ← select_loop fuel spins acceptor e'; ok (exit_code r)
    ]

  -- The loop of `select_server_cleanup` over the first `n` slots.
  pub close_clients : ℕ → (ℕ → Client) → World → World
  close_clients zero clients w = w
  close_clients (suc n) clients w =
      let w' = close_clients n clients w in
      elim ((clients n).sock) [ none ↦ w' | some fd ↦ close fd w' ]

  pub cleanup : Select os → World
  cleanup e = close_clients fd_setsize e.clients e.world
