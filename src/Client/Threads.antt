-- ===== src/Client/Threads.antt =====
-- The threads of client/main.c: `main` after the options, `start_client`, and the loop of `clients`. The
-- threads run apart: each is `clients` on its own.
pub mod Exchange
pub mod Served
use c8005_assn.Base.{
  ℕ, zero, suc, ◌+◌, ◌-◌, ◌*◌, ◌^◌, ◌%◌, Bool, true, false, Option, none, some, List, [], take, ltb,
  ◌==◌, if◌then◌else◌, Run, ok, fault, timeout, ◌>>=◌,
}
use c8005_assn.Os.{Os}
use c8005_assn.Client.{
  Session, strlen, make_random_string, connect_to_server, send_requests, say_goodbye,
}
use c8005_assn.Client.Options.{Info, runs, exits, default_info, set_options}

-- An unsigned int, read as an int and then turned into a `size_t`.
pub to_size : ℕ → ℕ
to_size n = if ltb n (2 ^ 31) then n else n + (2 ^ 64 - 2 ^ 32)

module _ (os : Os) where
  open os use {World, malloc, thread_create, thread_join, open_log}

  -- The string up to its 0. `none` is NULL.
  pub text_of : Option (List ℕ) → Run (List ℕ)
  text_of none = fault
  text_of (some bs) = ok (take (strlen bs) bs)

  -- The `for` over the requests, which reads the string only if there is a request.
  pub request_all : ℕ → ℕ → Option (List ℕ) → Session os → Run (Session os)
  request_all zero sock msg s = ok s
  request_all (suc n) sock msg s = do text ← text_of msg; send_requests os (suc n) sock text s

  -- What a connection sends and receives, for counts that begin at 0.
  pub exchange : ℕ → Info → ℕ → ℕ → Option (List ℕ) → World → Run (Bool × World)
  exchange spins d sock file msg w = do
    s ←
        request_all d.max_requests sock msg
          (record { client_count = 0; request_time = 0; data_received = 0; world = w })
    say_goodbye os spins sock file s

  -- The body of `while (1)`. `false` is a `return`.
  pub serve_once : ℕ → ℕ → Info → ℕ → World → Run (Bool × World)
  serve_once fuel spins d file w = do
    (msg, w1) ← make_random_string os d.msg_size w
    let (block, w2) = malloc d.msg_size w1
    elim block [
      | none ↦ ok (false, w2)
      | some _ ↦ do
        (sock, w3) ← connect_to_server os fuel none w2
        elim sock [ none ↦ ok (false, w3) | some s ↦ exchange spins d s file msg w3 ]
    ]

  pub clients : ℕ → ℕ → Info → ℕ → World → Run World
  clients zero spins d file w = timeout
  clients (suc fuel) spins d file w = do
    (again, w') ← serve_once (suc fuel) spins d file w
    elim again [ true ↦ clients fuel spins d file w' | false ↦ ok w' ]

  -- The second `for` of `start_client`, for `n` more threads: whether all were created.
  pub create_threads : ℕ → World → Bool × World
  create_threads zero w = (true, w)
  create_threads (suc n) w =
      let (created, w') = thread_create w in
      elim created [
        | none ↦ (false, w')
        | some zero ↦ create_threads n w'
        | some (suc e) ↦ (false, w')
      ]

  -- The third.
  pub join_threads : ℕ → World → World
  join_threads zero w = w
  join_threads (suc n) w = join_threads n (thread_join w)

  -- A `client_info` has 40 bytes and a `pthread_t` 8; `threads` is not tested for NULL. `false` is -1.
  pub start_client : Info → World → Run (Bool × World)
  start_client d w =
      let count = if ltb d.num_of_clients (2 ^ 31) then d.num_of_clients else 0 in
      let (infos, w1) = malloc (40 * to_size d.num_of_clients % 2 ^ 64) w in
      let (threads, w2) = malloc (8 * to_size d.num_of_clients % 2 ^ 64) w1 in
      elim infos [
        | none ↦ ok (false, w2)
        | some _ ↦ elim (if count == 0 then some [] else threads) [
          | none ↦ fault
          | some _ ↦
              let (all, w3) = create_threads count w2 in
              ok (if all then (true, join_threads count w3) else (false, w3))
        ]
      ]

  -- The result is whether the program ends with 0.
  pub main :
      (List ℕ → Option ℕ)
      → (List ℕ → Option ℕ)
      → List ℕ
      → List (ℕ × List ℕ)
      → World
      → Run (Bool × World)
  main read_uint read_int file_name options w = do
    (r, w1) ← set_options os read_uint read_int options default_info w
    elim r [
      | exits b ↦ ok (b, w1)
      | runs d ↦
          let (file, w2) = open_log file_name w1 in
          elim file [ none ↦ ok (false, w2) | some _ ↦ start_client d w2 ]
    ]
