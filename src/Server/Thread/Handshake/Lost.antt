-- ===== src/Server/Thread/Handshake/Lost.antt =====
-- The unassigned `done_local` of `worker_func`.
use c8005_assn.Base.{◌⊎◌, [], update, ℕ, ◌∷◌, ◌≡◌, true, false}
use c8005_assn.Server.Thread.Handshake.{idle, gone, scanning, System, hand, work, begin_system}

-- The client has been given to the only worker.
abbrev given : ℕ → System
given client = record (begin_system 1) {
  slots =
      update
        (update (begin_system 1).slots 0 (record { busy = false; client = client; freed = false }))
        0 (record { busy = true; client = client; freed = false });
  accepted = client ∷ [];
}

-- The worker has found `busy` set at its first load, with something other than 0 in `done_local`.
abbrev pub lost : ℕ → System
lost client = work true (given client) 0

-- The only worker is gone and has freed its parameters, the slot stays busy with the client, nothing has
-- been served, and the acceptor has no client, or one for which its next access is to what is freed.
pub record IsLost (client : ℕ) (s : System) : Type 0 where
  pub one : s.size ≡ 1
  pub ended : s.workers 0 ≡ gone
  pub kept : s.slots 0 ≡ record { busy = true; client = client; freed = true }
  pub unserved : s.served ≡ []
  pub waiting :
      (s.acceptor ≡ idle)
      ⊎ ((other : ℕ) × (s.acceptor ≡ scanning other 0) × ((hand s).faulted ≡ true))
