-- ===== src/Server/Thread/Hangup.antt =====
-- A client of the thread server that closes its end before it has sent the size 0.
use c8005_assn.Base.{ℕ, ◌≡◌, some, [], ◌>>=◌}
use c8005_assn.Os.{Os}
use c8005_assn.Server.Thread.{Request}

-- `recv` gives the end of the stream, each time.
pub record IsClosed (os : Os) (sock : ℕ) : Type 0 where
  pub ended : (n : ℕ) (w : os.World) → (os.recv sock n w).0 ≡ some []
