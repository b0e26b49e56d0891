-- ===== src/Os.antt =====
-- What the program takes from the kernel and the C library: a parameter of every module that calls
-- it. A value of `World` is all the state outside the program. A result -1 is `none` or `false`,
-- and the code that `errno` then holds is read from the world.
pub mod Stream
use c8005_assn.Base.{ℕ, Bool, Option, List}

-- The fields of a `struct sockaddr_in` that the program reads.
pub record Peer : Type 0 where
  pub sin_addr : ℕ
  pub sin_port : ℕ

-- A `struct timeval`.
pub record Timeval : Type 0 where
  pub tv_sec : ℕ
  pub tv_usec : ℕ

-- Sockets are numbers below the limit on open files.
pub record Os : Type 1 where
  pub World : Type 0
  pub errno : World → ℕ
  -- Socket, length: the bytes received, none of them at the end of the stream.
  pub recv : ℕ → ℕ → World → Option (List ℕ) × World
  pub send : ℕ → List ℕ → World → Option ℕ × World
  pub close : ℕ → World → World
  -- `malloc` gives the block with the bytes that stand in it.
  pub malloc : ℕ → World → Option (List ℕ) × World
  pub gettimeofday : World → Timeval × World
  -- Whether the handler of SIGQUIT and SIGINT has run since it was last asked.
  pub signalled : World → Bool × World
  pub accept : ℕ → World → Option (ℕ × Peer) × World
  -- `fcntl` with `F_SETFL` and `O_NONBLOCK`.
  pub set_nonblocking : ℕ → World → Bool × World
  pub shutdown : ℕ → World → World
  pub freeaddrinfo : World → World
  -- `malloc` of a structure whose bytes are all written before they are read.
  pub malloc_struct : World → Bool × World
  pub epoll_create : World → Option ℕ × World
  -- Epoll descriptor, socket.
  pub epoll_ctl_add : ℕ → ℕ → World → Bool × World
  pub epoll_ctl_del : ℕ → ℕ → World → World
  -- The sockets of the events that are ready.
  pub epoll_wait : ℕ → World → Option (List ℕ) × World
  -- Number of descriptors, those asked for: how many are ready, and which.
  pub select : ℕ → (ℕ → Bool) → World → Option (ℕ × (ℕ → Bool)) × World
  -- `getaddrinfo` for a port, given as its digits.
  pub getaddrinfo : List ℕ → World → Bool × World
  pub socket : World → Option ℕ × World
  pub set_reuse : ℕ → World → Bool × World
  pub bind : ℕ → World → Bool × World
  pub listen : ℕ → World → Bool × World
  -- File name.
  pub open_log : List ℕ → World → Option ℕ × World
  pub fsync : ℕ → World → Bool × World
  -- `setrlimit` of the number of open files.
  pub setrlimit : ℕ → World → Bool × World
  -- `pthread_mutex_init`, `pthread_create` and `pthread_detach`: a result of -1 is `none`, and 0 is
  -- success. POSIX gives a positive number where they fail.
  pub mutex_init : World → Option ℕ × World
  pub thread_create : World → Option ℕ × World
  pub thread_detach : World → Option ℕ × World
  pub thread_join : World → World
  -- `getaddrinfo` for the client: the addresses in its list.
  pub resolve : World → Option (List ℕ) × World
  -- Socket, address.
  pub connect : ℕ → ℕ → World → Bool × World
  pub rand : World → ℕ × World
  pub usleep : World → World
  -- `sprintf` of a client's count of requests, time and bytes.
  pub format_result : ℕ → ℕ → ℕ → List ℕ
  -- `snprintf` of the line with the transfer time, the bytes transferred and the peer.
  pub format_csv : ℕ → ℕ → Peer → List ℕ
  pub aio_write : ℕ → List ℕ → World → Bool × World
  pub aio_error : World → ℕ × World

-- The codes of Linux.
abbrev pub eintr : ℕ
eintr = 4

-- EAGAIN is the same code.
abbrev pub ewouldblock : ℕ
ewouldblock = 11

abbrev pub einprogress : ℕ
einprogress = 115

abbrev pub eaddrnotavail : ℕ
eaddrnotavail = 99
