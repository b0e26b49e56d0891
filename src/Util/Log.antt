-- ===== src/Util/Log.antt =====
-- util/log.c, with the file descriptor as an argument. What `perror` prints is left out.
pub mod Laws
use c8005_assn.Base.{
  Option, ℕ, zero, suc, Bool, true, false, List, Run, ok, timeout, ◌>>=◌, ◌==◌, if◌then◌else◌,
}
use c8005_assn.Os.{Os, einprogress}

module _ (os : Os) where
  open os use {World, close, aio_write, aio_error, open_log, fsync}

  -- The descriptor, or -1.
  pub log_open : List ℕ → World → Option ℕ × World
  log_open name w = open_log name w

  pub log_flush : ℕ → World → Bool × World
  log_flush log_fd w = fsync log_fd w

  pub log_close : ℕ → World → World
  log_close log_fd w = close log_fd w

  -- A handler that no code installs.
  pub handle_signal : ℕ → World → World
  handle_signal log_fd w = log_close log_fd (log_flush log_fd w).1

  -- `while ((error = aio_error(&cb)) == EINPROGRESS);`
  pub await : ℕ → World → Run (ℕ × World)
  await zero w = timeout
  await (suc fuel) w =
      let (error, w') = aio_error w in
      elim (error == einprogress) [ true ↦ await fuel w' | false ↦ ok (error, w') ]

  -- After the wait: an error closes the log.
  pub settle : ℕ → ℕ × World → Bool × World
  settle log_fd (error, w) = if error == 0 then (true, w) else (false, log_close log_fd w)

  -- `true` is the result 0.
  pub log_msg : ℕ → ℕ → List ℕ → World → Run (Bool × World)
  log_msg fuel log_fd message w =
      let (queued, w') = aio_write log_fd message w in
      elim queued [
        | false ↦ ok (false, log_close log_fd w')
        | true ↦ do e ← await fuel w'; ok (settle log_fd e)
      ]
