-- ===== src/Server/Thread.antt =====
-- `worker_func` of server/thread_server.c, for one client: what stands between the wait for `busy` and
-- the store that clears it. The socket blocks. Printed text, its mutex and `free` are left out.
pub mod Session
pub mod Life
pub mod Hangup
pub mod Pool
pub mod Handshake
use c8005_assn.Base.{
  ℕ, zero, suc, ◌+◌, ◌-◌, Bool, true, false, Option, none, some, List, [], ◌∷◌, leb, ◌==◌,
  if◌then◌else◌, length, take, write_at, decode, Run, ok, fault, timeout, ◌>>=◌,
}
use c8005_assn.Os.{Os, Peer, Timeval}
use c8005_assn.Protocol.{Received, read_data, send_data}
use c8005_assn.Server.Acceptor.{Accepted}
use c8005_assn.Server.Timing.{time_diff}
use c8005_assn.Server.Request.{store}
use c8005_assn.Util.Log.{log_msg}

-- `thread_server_request`. `msg_size` is its four bytes, and `msg` the block that it points to, or
-- none while the pointer has not been set.
pub record Request : Type 0 where
  pub transferred : ℕ
  pub msg_size : List ℕ
  pub msg : Option (List ℕ)

-- How `worker_func` leaves a client: served, or by a `break` out of the loop after `done` is set.
pub data Leave : Type 0 where
  served stopped : Leave

module _ (os : Os) where
  open os use {World, gettimeofday, malloc, close, format_csv}

  -- `send_data` of `msg_size` bytes from `msg`; the result is not read.
  pub send_back : ℕ → Request → World → Run World
  send_back sock r w = elim (decode r.msg_size == 0) [
    | true ↦ do s ← send_data os sock [] w; ok s.world
    | false ↦ elim r.msg [
      | none ↦ fault
      | some block ↦ elim (leb (decode r.msg_size) (length block)) [
        | false ↦ fault
        | true ↦ do s ← send_data os sock (take (decode r.msg_size) block) w; ok s.world
      ]
    ]
  ]

  -- The body of the inner `while(1)`: the results of `read_data` are not read either.
  pub serve_message : ℕ → Request → World → Run (Request × World)
  serve_message sock r w = do
    body ← read_data os sock (decode r.msg_size) w
    m ← store r.msg body.bytes
    w' ← send_back sock (record r { msg = m }) body.world
    size ← read_data os sock 4 w'
    let raw = write_at r.msg_size 0 size.bytes
    ok (
      record { transferred = r.transferred + 4 + decode raw; msg_size = raw; msg = m },
      size.world,
    )

  pub serve_messages : ℕ → ℕ → Request → World → Run (Request × World)
  serve_messages zero sock r w = timeout
  serve_messages (suc fuel) sock r w = do
    (r', w') ← serve_message sock r w
    elim (decode r'.msg_size == 0) [ true ↦ ok (r', w') | false ↦ serve_messages fuel sock r' w' ]

  -- The part after the messages: `close` and the line for the log.
  pub finish_client : ℕ → ℕ → Accepted → Timeval → Request → World → Run World
  finish_client fuel log_fd client start r w =
      let (end, w') = gettimeofday (close client.sock w) in
      do
        (logged, w'') ←
            log_msg os fuel log_fd (format_csv (time_diff start end) r.transferred client.peer) w'
        ok w''

  -- The messages of a client whose first size has been read into `r`, and the end.
  pub serve_rest : ℕ → ℕ → Accepted → Timeval → Request → World → Run (Leave × World)
  serve_rest fuel log_fd client start r w = do
    (r', w') ← serve_messages fuel client.sock r w
    w'' ← finish_client fuel log_fd client start r' w'
    ok (served, w'')

  -- `count` bytes of the first size were read: the block for the messages. `done` is set where the
  -- result is `stopped`.
  pub prepare : ℕ → ℕ → Accepted → Timeval → ℕ → Request → World → Run (Leave × World)
  prepare fuel log_fd client start count r w = elim (count == 0) [
    | true ↦ serve_rest fuel log_fd client start r w
    | false ↦
        let (b, w') = malloc (decode r.msg_size) w in
        elim b [
          | none ↦ ok (stopped, close client.sock w')
          | some block ↦ serve_rest fuel log_fd client start (record r { msg = some block }) w'
        ]
  ]

  -- `junk` is what the four bytes of `msg_size` hold before anything is read into them.
  pub serve_client : ℕ → ℕ → Accepted → List ℕ → World → Run (Leave × World)
  serve_client fuel log_fd client junk w =
      let (start, w') = gettimeofday w in
      do
        t ← read_data os client.sock 4 w'
        elim t.count [
          | none ↦ ok (stopped, t.world)
          | some count ↦
              prepare fuel log_fd client start count
                (record { transferred = 4; msg_size = write_at junk 0 t.bytes; msg = none }) t.world
        ]
