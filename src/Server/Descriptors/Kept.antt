-- ===== src/Server/Descriptors/Kept.antt =====
-- What a request and a line for the log leave of the table of descriptors.
use c8005_assn.Base.{Option-cases, none, some, ◌≡◌, ◌⊎◌, inl, inr, refl, ℕ, List, Ensures}
use c8005_assn.Os.{Os}
use c8005_assn.Util.Log.{log_msg}
use c8005_assn.Util.Log.Laws.{log_msg-Reliable}
use c8005_assn.Server.Acceptor.{Accepted, accept_client}
use c8005_assn.Server.Signals.{Flags}
use c8005_assn.Server.Request.{Request, serve_loop}
use c8005_assn.Server.Request.Untouched.{serve_loop-Ensures}
use c8005_assn.Server.Descriptors.{Descriptors, IsAccepted, IsSame, IsSame-trans, IsTable}

module _ (os : Os) (d : Descriptors os) (table : IsTable d) (start : os.World) where
  open os use {World, aio_error, aio_write}

  abbrev Kept : World → Type 0
  Kept w = IsSame d start w

  pub log_msg-IsSame :
      (fuel log_fd : ℕ) (line : List ℕ) (w : World)
      → Kept w
      → Ensures (λ r. Kept r.1) (log_msg os fuel log_fd line w)
  log_msg-IsSame fuel log_fd line w h =
      log_msg-Reliable os log_fd Kept
        (record { writes = table.writes log_fd; settles = table.settles })
        (λ line w h. IsSame-trans d start w _ h (table.on_write log_fd line w))
        (λ w h. IsSame-trans d start w _ h (table.on_error w)) fuel line w h

  pub serve_loop-IsSame :
      (sock fuel spins : ℕ) (r : Request) (f : Flags) (w : World)
      → Kept w
      → Ensures (λ s. Kept s.world) (serve_loop os fuel spins sock r f w)
  serve_loop-IsSame sock = serve_loop-Ensures os sock Kept (record {
    quiet = record {
      on_recv = λ n w h. IsSame-trans d start w _ h (table.on_recv sock n w);
      on_send = λ bs w h. IsSame-trans d start w _ h (table.on_send sock bs w);
    };
    on_malloc = λ n w h. IsSame-trans d start w _ h (table.on_malloc n w);
    on_signal = λ w h. IsSame-trans d start w _ h (table.on_signal w);
    on_time = λ w h. IsSame-trans d start w _ h (table.on_time w);
  })

module _ (os : Os) (d : Descriptors os) (table : IsTable d) where
  open os use {World, accept}

  -- What `accept_client` gives and leaves.
  pub accept_client-cases :
      (acceptor : ℕ) (f : Flags) (w : World)
      → (((accept_client os acceptor f w).0 ≡ none) × IsSame d w (accept_client os acceptor f w).2)
        ⊎ ((a : Accepted) × ((accept_client os acceptor f w).0 ≡ some a)
            × IsAccepted d a.sock w (accept_client os acceptor f w).2)
  unfolding accept_client
  accept_client-cases acceptor f w = elim (Option-cases (accept acceptor w).0) [
    | inl refused ↦ inl (rw (refused, accept_client) (refl, table.on_refuse acceptor w refused))
    | inr (client, given) ↦ inr (
        rw (given, accept_client)
          (
            record { peer = client.1; sock = client.0 },
            refl,
            table.on_accept acceptor w client.0 client.1 given,
          ))
  ]
