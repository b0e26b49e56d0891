-- ===== src/Server/Descriptors.antt =====
-- What the servers rely on of the kernel's table of open descriptors.
pub mod Kept
use c8005_assn.Base.{
  [], refl, ◌≢◌, ◌∷◌, ◌∙◌, ℕ, ◌+◌, ◌<◌, ◌≡◌, ◌⊎◌, Bool, true, false, Option, none, some, List,
  update, size_mod,
}
use c8005_assn.Os.{Os, Peer, einprogress}

-- `opened` says which descriptors are open, `watched` for which of them `epoll_wait` gives events,
-- and `accepts` counts the connections that were accepted. A descriptor that `accept` gives was not
-- open, and only `close` closes one. Fewer than 2^64 connections are ever accepted.
pub record Descriptors (os : Os) : Type 0 where
  pub opened : os.World → ℕ → Bool
  pub watched : os.World → ℕ → Bool
  pub accepts : os.World → ℕ
  pub few : (w : os.World) → accepts w < size_mod

-- What a call leaves that has no part in the table.
pub record IsSame {os : Os} (d : Descriptors os) (w w' : os.World) : Type 0 where
  pub opened : d.opened w' ≡ d.opened w
  pub watched : d.watched w' ≡ d.watched w
  pub accepts : d.accepts w' ≡ d.accepts w

-- What `close` leaves.
pub record IsClosed {os : Os} (d : Descriptors os) (sock : ℕ) (w w' : os.World) : Type 0 where
  pub opened : d.opened w' ≡ update (d.opened w) sock false
  pub watched : d.watched w' ≡ update (d.watched w) sock false
  pub accepts : d.accepts w' ≡ d.accepts w

-- What an `accept` that succeeds leaves.
pub record IsAccepted {os : Os} (d : Descriptors os) (sock : ℕ) (w w' : os.World) : Type 0 where
  pub fresh : d.opened w sock ≡ false
  pub opened : d.opened w' ≡ update (d.opened w) sock true
  pub watched : d.watched w' ≡ d.watched w
  pub accepts : d.accepts w' ≡ d.accepts w + 1

-- What an `epoll_create` that succeeds leaves; the new instance watches nothing.
pub record IsCreated {os : Os} (d : Descriptors os) (epfd : ℕ) (w w' : os.World) : Type 0 where
  pub opened : d.opened w' ≡ update (d.opened w) epfd true
  pub watched : (i : ℕ) → d.watched w' i ≡ false
  pub accepts : d.accepts w' ≡ d.accepts w

-- What an `epoll_ctl` that registers a socket leaves.
pub record IsAdded {os : Os} (d : Descriptors os) (sock : ℕ) (w w' : os.World) : Type 0 where
  pub opened : d.opened w' ≡ d.opened w
  pub watched : d.watched w' ≡ update (d.watched w) sock true
  pub accepts : d.accepts w' ≡ d.accepts w

-- What one that takes a socket out leaves.
pub record IsRemoved {os : Os} (d : Descriptors os) (sock : ℕ) (w w' : os.World) : Type 0 where
  pub opened : d.opened w' ≡ d.opened w
  pub watched : d.watched w' ≡ update (d.watched w) sock false
  pub accepts : d.accepts w' ≡ d.accepts w

abbrev pub All : (ℕ → Type 0) → List ℕ → Type 0
All P [] = Unit
All P (fd ∷ fds) = P fd × All P fds

pub All-both :
    {P Q R : ℕ → Type 0} (fds : List ℕ)
    → ((fd : ℕ) → P fd → Q fd → R fd)
    → All P fds
    → All Q fds
    → All R fds
All-both [] f p q = tt
All-both (fd ∷ fds) f (p, ps) (q, qs) = (f fd p q, All-both fds f ps qs)

-- A list without repetitions.
abbrev pub IsDistinct : List ℕ → Type 0
IsDistinct [] = Unit
IsDistinct (fd ∷ fds) = All (λ other. other ≢ fd) fds × IsDistinct fds

-- The calls of the servers, and a log whose writes do not fail.
pub record IsTable {os : Os} (d : Descriptors os) : Type 0 where
  pub on_recv : (sock n : ℕ) (w : os.World) → IsSame d w (os.recv sock n w).1
  pub on_send : (sock : ℕ) (bs : List ℕ) (w : os.World) → IsSame d w (os.send sock bs w).1
  pub on_malloc : (n : ℕ) (w : os.World) → IsSame d w (os.malloc n w).1
  pub on_time : (w : os.World) → IsSame d w (os.gettimeofday w).1
  pub on_signal : (w : os.World) → IsSame d w (os.signalled w).1
  pub on_nonblocking : (sock : ℕ) (w : os.World) → IsSame d w (os.set_nonblocking sock w).1
  pub on_write : (fd : ℕ) (line : List ℕ) (w : os.World) → IsSame d w (os.aio_write fd line w).1
  pub on_error : (w : os.World) → IsSame d w (os.aio_error w).1
  pub writes : (fd : ℕ) (line : List ℕ) (w : os.World) → (os.aio_write fd line w).0 ≡ true
  pub settles : (w : os.World) → ((os.aio_error w).0 ≡ 0) ⊎ ((os.aio_error w).0 ≡ einprogress)
  pub on_struct : (w : os.World) → IsSame d w (os.malloc_struct w).1
  pub on_close : (sock : ℕ) (w : os.World) → IsClosed d sock w (os.close sock w)
  pub on_refuse :
      (acceptor : ℕ) (w : os.World)
      → (os.accept acceptor w).0 ≡ none
      → IsSame d w (os.accept acceptor w).1
  pub on_accept :
      (acceptor : ℕ) (w : os.World) (sock : ℕ) (peer : Peer)
      → (os.accept acceptor w).0 ≡ some (sock, peer)
      → IsAccepted d sock w (os.accept acceptor w).1

-- The calls of the epoll server. `epoll_wait` gives a socket once at most.
pub record IsWatching {os : Os} (d : Descriptors os) : Type 0 where
  pub on_wait : (epfd : ℕ) (w : os.World) → IsSame d w (os.epoll_wait epfd w).1
  pub on_create :
      (epfd : ℕ) (w : os.World)
      → (os.epoll_create w).0 ≡ some epfd
      → IsCreated d epfd w (os.epoll_create w).1
  pub ready :
      (epfd : ℕ) (w : os.World) (fds : List ℕ)
      → (os.epoll_wait epfd w).0 ≡ some fds
      → IsDistinct fds × All (λ fd. d.watched w fd ≡ true) fds
  pub on_add :
      (epfd sock : ℕ) (w : os.World)
      → (os.epoll_ctl_add epfd sock w).0 ≡ true
      → IsAdded d sock w (os.epoll_ctl_add epfd sock w).1
  pub on_add_refused :
      (epfd sock : ℕ) (w : os.World)
      → (os.epoll_ctl_add epfd sock w).0 ≡ false
      → IsSame d w (os.epoll_ctl_add epfd sock w).1
  pub on_remove : (epfd sock : ℕ) (w : os.World) → IsRemoved d sock w (os.epoll_ctl_del epfd sock w)

-- The call of the `select` server.
pub record IsSelecting {os : Os} (d : Descriptors os) : Type 0 where
  pub on_select : (n : ℕ) (set : ℕ → Bool) (w : os.World) → IsSame d w (os.select n set w).1

-- What a `socket` that succeeds leaves.
pub record IsOpened {os : Os} (d : Descriptors os) (sock : ℕ) (w w' : os.World) : Type 0 where
  pub fresh : d.opened w sock ≡ false
  pub opened : d.opened w' ≡ update (d.opened w) sock true
  pub watched : d.watched w' ≡ d.watched w
  pub accepts : d.accepts w' ≡ d.accepts w

-- The calls of `serve`.
pub record IsListening {os : Os} (d : Descriptors os) : Type 0 where
  pub on_getaddrinfo : (port : List ℕ) (w : os.World) → IsSame d w (os.getaddrinfo port w).1
  pub on_socket :
      (sock : ℕ) (w : os.World) → (os.socket w).0 ≡ some sock → IsOpened d sock w (os.socket w).1
  pub on_no_socket : (w : os.World) → (os.socket w).0 ≡ none → IsSame d w (os.socket w).1
  pub on_reuse : (sock : ℕ) (w : os.World) → IsSame d w (os.set_reuse sock w).1
  pub on_bind : (sock : ℕ) (w : os.World) → IsSame d w (os.bind sock w).1
  pub on_listen : (sock : ℕ) (w : os.World) → IsSame d w (os.listen sock w).1
  pub on_shutdown : (sock : ℕ) (w : os.World) → IsSame d w (os.shutdown sock w)
  pub on_freeaddrinfo : (w : os.World) → IsSame d w (os.freeaddrinfo w)

pub IsSame-refl : {os : Os} (d : Descriptors os) (w : os.World) → IsSame d w w
IsSame-refl d w = record { opened = refl; watched = refl; accepts = refl }

pub IsSame-trans :
    {os : Os} (d : Descriptors os) (a b c : os.World) → IsSame d a b → IsSame d b c → IsSame d a c
IsSame-trans d a b c h k = record {
  opened = k.opened ∙ h.opened;
  watched = k.watched ∙ h.watched;
  accepts = k.accepts ∙ h.accepts;
}
