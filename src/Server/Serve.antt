-- ===== src/Server/Serve.antt =====
-- `serve` of server/server.c. What `perror` and `printf` print, and the `sigaction` calls, are left
-- out; the handlers that they install are `nonfatal_sighandler` in Server/Signals and `fatal_sighandler`.
pub mod Port
pub mod Servers
pub mod Opening
use c8005_assn.Base.{
  ℕ, zero, suc, ◌+◌, ◌/◌, ◌%◌, Bool, true, false, Option, none, some, List, [], ◌∷◌, ◌++◌, take,
  ltb, if◌then◌else◌, Run, ok, timeout, ◌>>=◌,
}
use c8005_assn.Os.{Os}
use c8005_assn.Util.Log.{log_flush, log_close}
use c8005_assn.Server.Signals.{Flags}
use c8005_assn.Server.Acceptor.{Accepted, accept_client, cleanup_acceptor}

-- `%hu`: the decimal digits of a number below 10 ^ `n`.
pub print_decimal : ℕ → ℕ → List ℕ
print_decimal zero port = []
print_decimal (suc n) port =
    let rest = print_decimal n (port / 10) in
    let last = 48 + port % 10 in if ltb port 10 then last ∷ [] else rest ++ last ∷ []

-- `char buf[5]` and `snprintf(buf, 5, "%hu", port)`: four characters and the 0.
pub port_string : ℕ → List ℕ
port_string port = take 4 (print_decimal 5 port)

-- `server_t`: the operations, and the state that they share with `serve`.
pub record Server (os : Os) : Type 1 where
  pub State : Type 0
  pub world : State → os.World
  pub flags : State → Flags
  pub put : Flags → os.World → State → State
  -- `total_served` and `max_concurrent` are set to 0.
  pub reset : State → State
  -- Whether it succeeds, and `handles_accept`.
  pub start : ℕ → State → Run (Bool × Bool × State)
  pub add_client : Accepted → State → Run (Bool × State)
  pub cleanup : State → State

-- `fatal_sighandler` up to its `exit`.
pub fatal_sighandler : (os : Os) → ℕ → os.World → os.World
fatal_sighandler os log_fd w = log_close os log_fd (log_flush os log_fd w).1

module _ (os : Os) (server : Server os) where
  open os use {World, getaddrinfo, socket, set_reuse, bind, listen, freeaddrinfo}
  open server use {State, world, flags, put, reset, start, add_client, cleanup}

  pub move : (World → World) → State → State
  move f s = put (flags s) (f (world s)) s

  -- `while(1)` for a server that does not accept by itself.
  pub accept_loop : ℕ → ℕ → State → Run State
  accept_loop zero acceptor s = timeout
  accept_loop (suc fuel) acceptor s =
      let (r, f, w) = accept_client os acceptor (flags s) (world s) in
      elim r [
        | none ↦ ok (put (record f { done = true }) w s)
        | some client ↦ do (added, s') ← add_client client (put f w s); accept_loop fuel acceptor s'
      ]

  -- The part after `start`. `true` is the result 0.
  pub finish : ℕ → Bool × Bool × State → ℕ → Run (Bool × State)
  finish fuel (started, handles_accept, s) acceptor = elim started [
    | false ↦ ok (false, s)
    | true ↦ do
      s' ← if handles_accept then ok s else accept_loop fuel acceptor s
      let s'' = move (cleanup_acceptor os acceptor) (cleanup s')
      ok ((flags s'').handled, s'')
  ]

  -- `bind` and `listen`, and what follows.
  pub open_acceptor : ℕ → ℕ → State → Run (Bool × State)
  open_acceptor fuel acceptor s =
      let (bound, w) = bind acceptor (set_reuse acceptor (world s)).1 in
      elim bound [
        | false ↦ ok (false, put (flags s) (cleanup_acceptor os acceptor w) s)
        | true ↦
            let (listening, w') = listen acceptor w in
            elim listening [
              | false ↦ ok (false, put (flags s) (cleanup_acceptor os acceptor w') s)
              | true ↦ do r ← start acceptor (put (flags s) w' s); finish fuel r acceptor
            ]
      ]

  pub serve : ℕ → ℕ → State → Run (Bool × State)
  serve fuel port s =
      let s' = reset s in
      let (found, w) = getaddrinfo (port_string port) (world s') in
      elim found [
        | false ↦ ok (false, put (flags s') w s')
        | true ↦
            let (acceptor, w') = socket w in
            elim acceptor [
              | none ↦ ok (false, put (flags s') (freeaddrinfo w') s')
              | some sock ↦ open_acceptor fuel sock (put (flags s') w' s')
            ]
      ]
