-- ===== src/Server/Epoll.antt =====
-- server/epoll_server.c. The array of clients is a function of the index, used below its capacity;
-- its members `set` and `max_fd` are never used. Printed text is left out.
pub mod Invariant
pub mod Service
pub mod Total
pub mod Table
pub mod Accepting
pub mod Loop
pub mod Untouched
pub mod Round
use c8005_assn.Base.{
  ℕ, zero, suc, Bool, true, false, Option, none, some, List, [], ◌∷◌, ltb, ◌==◌, if◌then◌else◌, not,
  ◌&&◌, ◌||◌, add_size, sub_size, update, Run, ok, fault, timeout, ◌>>=◌,
}
use c8005_assn.Os.{Os, Timeval, ewouldblock, eintr}
use c8005_assn.Server.Signals.{Flags, load_done}
use c8005_assn.Server.Acceptor.{Client, Accepted, accept_client}
use c8005_assn.Server.Timing.{add_time}
use c8005_assn.Server.Request.{Request, Next, again, blocked, finished, failed, Served, serve_loop}
use c8005_assn.Util.Log.{log_msg}

abbrev pub num_epoll_events : ℕ
num_epoll_events = 98304

-- `epoll_server_client`.
pub record Slot : Type 0 where
  pub client : Client
  pub request : Request

-- A request as the cleanup leaves it, and as zeroed memory reads.
abbrev pub no_request : Request
no_request = record {
  transferred = 0;
  transfer_time = 0;
  partial_msg_size = 0 ∷ 0 ∷ 0 ∷ 0 ∷ [];
  msg_size = 0;
  msg = none;
}

-- `server_t` and `epoll_server_private`, with the world, the flags and the log's descriptor.
pub record Epoll (os : Os) : Type 0 where
  pub world : os.World
  pub flags : Flags
  pub log_fd : ℕ
  pub max_concurrent : ℕ
  pub total_served : ℕ
  pub epfd : ℕ
  pub clients : ℕ → Slot
  pub connected_count : ℕ

module _ (os : Os) where
  open os use {World, errno, gettimeofday, close, set_nonblocking, epoll_ctl_add, epoll_ctl_del}
  open os use {epoll_wait, epoll_create, malloc_struct, format_csv}

  -- The part after the loop for a client that stays: the time is added up.
  pub keep : ℕ → Timeval → Request → Epoll os → Epoll os
  keep sock start r e =
      let (end, w) = gettimeofday e.world in
      let r' = record r { transfer_time = add_time r.transfer_time start end } in
      record e {
        world = w;
        clients = update e.clients sock (record (e.clients sock) { request = r' });
      }

  -- What both ways through `cleanup` share: the client is dropped and its slot reset.
  pub drop_client : ℕ → World → Epoll os → Epoll os
  drop_client sock w e = record e {
    world = close sock (epoll_ctl_del e.epfd sock w);
    clients = update e.clients sock (record {
      client = record ((e.clients sock).client) { sock = none };
      request = no_request;
    });
    connected_count = sub_size e.connected_count 1;
  }

  -- The label `cleanup` with the result 0: the line for the log is written first.
  pub log_and_drop : ℕ → ℕ → Timeval → Request → Epoll os → Run (Epoll os)
  log_and_drop fuel sock start r e =
      let (end, w) = gettimeofday e.world in
      let time = add_time r.transfer_time start end in
      let line = format_csv time r.transferred (e.clients sock).client.peer in
      do (logged, w') ← log_msg os fuel e.log_fd line w; ok (drop_client sock w' e)

  -- How the loop ended decides what follows. `false` is the result -1.
  pub settle : ℕ → ℕ → Timeval → Served os → Epoll os → Run (Bool × Epoll os)
  settle fuel sock start s e = elim s.next [
    | finished ↦ do e' ← log_and_drop fuel sock start s.request e; ok (true, e')
    | failed ↦ ok (false, drop_client sock e.world e)
    | _ ↦ ok (true, keep sock start s.request e)
  ]

  -- `fuel` bounds the rounds of the loop and the wait of the log, `spins` the calls of `send_data`.
  pub handle_request : ℕ → ℕ → ℕ → Epoll os → Run (Bool × Epoll os)
  handle_request fuel spins sock e = elim (ltb sock num_epoll_events) [
    | false ↦ fault
    | true ↦
        let (start, w) = gettimeofday e.world in
        do
          s ← serve_loop os fuel spins sock (e.clients sock).request e.flags w
          settle fuel sock start s (record e { world = s.world; flags = s.flags })
  ]

  -- The counters and the slot of a new client.
  unfoldable pub enter : Accepted → Epoll os → Epoll os
  enter a e =
      let connected = add_size e.connected_count 1 in
      record e {
        total_served = add_size e.total_served 1;
        connected_count = connected;
        max_concurrent = if ltb e.max_concurrent connected then connected else e.max_concurrent;
        clients =
            update e.clients a.sock
              (record (e.clients a.sock) { client = record { peer = a.peer; sock = some a.sock } });
      }

  unfoldable pub add_client : Accepted → Epoll os → Run (Bool × Epoll os)
  add_client a e =
      let (unblocked, w) = set_nonblocking a.sock e.world in
      elim unblocked [
        | false ↦ ok (false, record e { world = w })
        | true ↦
            let (added, w') = epoll_ctl_add e.epfd a.sock w in
            elim added [
              | false ↦ ok (false, record e { world = w' })
              | true ↦ elim (ltb a.sock num_epoll_events) [
                | false ↦ fault
                | true ↦ ok (true, enter a (record e { world = w' }))
              ]
            ]
      ]

  -- `while(1)` over `accept_client`. The result is `err`.
  unfoldable pub accept_all : ℕ → ℕ → Epoll os → Run (Bool × Epoll os)
  accept_all zero acceptor e = timeout
  accept_all (suc fuel) acceptor e =
      let (r, f, w) = accept_client os acceptor e.flags e.world in
      let e' = record e { flags = f; world = w } in
      elim r [
        | none ↦ ok (not (errno w == ewouldblock), e')
        | some a ↦ do
          (added, e'') ← add_client a e'
          elim added [ false ↦ ok (true, e'') | true ↦ accept_all fuel acceptor e'' ]
      ]

  -- The `for` over the events that are ready; `err` is carried along.
  unfoldable pub run_events : ℕ → ℕ → ℕ → List ℕ → Bool → Epoll os → Run (Bool × Epoll os)
  run_events fuel spins acceptor [] err e = ok (err, e)
  run_events fuel spins acceptor (fd ∷ fds) err e =
      let (done, f, w) = load_done os e.flags e.world in
      let e' = record e { flags = f; world = w } in
      elim done [
        | true ↦ ok (err, e')
        | false ↦ elim (fd == acceptor) [
          | true ↦ do
            (refused, e'') ← accept_all fuel acceptor e'
            run_events fuel spins acceptor fds (err || refused) e''
          | false ↦ do
            (served, e'') ← handle_request fuel spins fd e'
            elim served [
              | false ↦ ok (true, e'')
              | true ↦ run_events fuel spins acceptor fds err e''
            ]
        ]
      ]

  -- The body of `while (1)`: whether the loop goes on.
  unfoldable pub event_round : ℕ → ℕ → ℕ → Epoll os → Run (Bool × Epoll os)
  event_round fuel spins acceptor e =
      let (r, w) = epoll_wait e.epfd e.world in
      let e' = record e { world = w } in
      elim r [
        | none ↦ ok (false, e')
        | some [] ↦ ok (true, e')
        | some (fd ∷ fds) ↦ do
          (err, e'') ← run_events fuel spins acceptor (fd ∷ fds) false e'
          ok (not err, e'')
      ]

  pub event_loop : ℕ → ℕ → ℕ → Epoll os → Run (Epoll os)
  event_loop zero spins acceptor e = timeout
  event_loop (suc fuel) spins acceptor e = do
    (goes_on, e') ← event_round fuel spins acceptor e
    elim goes_on [ true ↦ event_loop fuel spins acceptor e' | false ↦ ok e' ]

  -- `(errno && errno != EINTR) * -1`; `true` is 0.
  pub exit_code : World → Bool
  exit_code w = (errno w == 0) || (errno w == eintr)

  -- The part of `epoll_server_start` that sets the acceptor up; `false` where a call fails.
  unfoldable pub set_up : ℕ → Epoll os → Bool × Epoll os
  set_up acceptor e =
      let (unblocked, w) = set_nonblocking acceptor e.world in
      elim unblocked [
        | false ↦ (false, record e { world = w })
        | true ↦
            let (epfd, w') = epoll_create w in
            elim epfd [
              | none ↦ (false, record e { world = w' })
              | some fd ↦
                  let (added, w'') = epoll_ctl_add fd acceptor w' in
                  (added, record e { world = w''; epfd = fd })
            ]
      ]

  -- That part and the loop.
  pub watch : ℕ → ℕ → ℕ → Epoll os → Run (Bool × Epoll os)
  watch fuel spins acceptor e =
      let (ready, e') = set_up acceptor e in
      elim ready [
        | false ↦ ok (false, e')
        | true ↦ do e'' ← event_loop fuel spins acceptor e'; ok (exit_code e''.world, e'')
      ]

  -- `epoll_server_start`, for the counters and the log of `e`; `first` is what the array of clients
  -- holds, which `vector_init` allocates and nothing clears. `true` is the result 0.
  pub start : ℕ → ℕ → ℕ → (ℕ → Slot) → Epoll os → Run (Bool × Epoll os)
  start fuel spins acceptor first e =
      let (allocated, w) = malloc_struct e.world in
      elim allocated [
        | false ↦ ok (false, record e { world = w })
        | true ↦
            let (items, w') = malloc_struct w in
            elim items [
              | false ↦ ok (false, record e { world = w' })
              | true ↦
                  watch fuel spins acceptor
                    (record e { world = w'; clients = first; connected_count = 0 })
            ]
      ]

  -- `free(private)` comes before the read of `private->epfd`; the descriptor is taken to be as it was.
  pub cleanup : Epoll os → World
  cleanup e = close e.epfd e.world
