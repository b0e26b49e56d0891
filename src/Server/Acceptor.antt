-- ===== src/Server/Acceptor.antt =====
-- server/acceptor.c, and `client_t` of include/assn2/server/client.h. What `perror` prints is left
-- out.
use c8005_assn.Base.{ℕ, true, Option, none, some, ◌==◌, if◌then◌else◌}
use c8005_assn.Os.{Os, Peer, ewouldblock}
use c8005_assn.Server.Signals.{Flags}

-- `client_t`; the socket -1 is `none`.
pub record Client : Type 0 where
  pub peer : Peer
  pub sock : Option ℕ

-- An accepted client, whose socket is a descriptor.
pub record Accepted : Type 0 where
  pub peer : Peer
  pub sock : ℕ

module _ (os : Os) where
  open os use {World, errno, accept, shutdown, close, freeaddrinfo}

  -- `none` is -1. EAGAIN and EWOULDBLOCK are one code.
  unfoldable pub accept_client : ℕ → Flags → World → Option Accepted × Flags × World
  accept_client acceptor f w =
      let (r, w') = accept acceptor w in
      elim r [
        | none ↦ (none, if errno w' == ewouldblock then f else record f { done = true }, w')
        | some (peer_sock, peer) ↦ (some (record { peer = peer; sock = peer_sock }), f, w')
      ]

  unfoldable pub cleanup_acceptor : ℕ → World → World
  cleanup_acceptor acceptor w = freeaddrinfo (close acceptor (shutdown acceptor w))
