-- ===== src/Server/Epoll/Total.antt =====
-- `handle_request` of server/epoll_server.c comes to an end, with its books in order.
use c8005_assn.Base.{
  ℕ, suc, ◌<◌, ◌≡◌, sym, ap, subst, arith, Bool, true, ltb, length, inl, inr, Bool-cases, ok, ◌>>=◌,
  Stops, Stops-bind, Stops-both,
}
use c8005_assn.Os.{Os, Timeval}
use c8005_assn.Os.Stream.{Connection, Writable}
use c8005_assn.Util.Log.{log_msg}
use c8005_assn.Util.Log.Laws.{EndsWithin, log_msg-Stops}
use c8005_assn.Server.Request.{Request, Next, again, blocked, finished, failed, Served, serve_loop}
use c8005_assn.Server.Request.Progress.{serve_loop-Stops}
use c8005_assn.Server.Timing.{add_time}
use c8005_assn.Server.Epoll.{
  drop_client, Epoll, num_epoll_events, log_and_drop, settle, handle_request,
}
use c8005_assn.Server.Epoll.Invariant.{IsValid, Follows, handle_request-Follows}

module _ (os : Os) (sock : ℕ) (c : Connection os sock) (o : Writable os sock) (log_fd n : ℕ)
    (ends : (w : os.World) → EndsWithin os log_fd n w) where
  log_and_drop-Stops :
      (start : Timeval) (r : Request) (e : Epoll os)
      → e.log_fd ≡ log_fd
      → Stops (λ _. Unit) (log_and_drop os (suc n) sock start r e)
  unfolding log_and_drop
  log_and_drop-Stops start r e same =
      let (end, w) = os.gettimeofday e.world in
      let line =
        os.format_csv (add_time r.transfer_time start end) r.transferred
          (e.clients sock).client.peer in
      subst
        (λ fd.
          Stops (λ _. Unit)
            (do (logged, w') ← log_msg os (suc n) fd line w; ok (drop_client os sock w' e)))
        (sym same)
        (Stops-bind (λ _. Unit) (λ _. Unit) (log_msg os (suc n) log_fd line w) _
          (log_msg-Stops os log_fd n line w (ends (os.aio_write log_fd line w).1)) (λ _ _. tt))

  settle-Stops :
      (start : Timeval) (s : Served os) (e : Epoll os)
      → e.log_fd ≡ log_fd
      → Stops (λ _. Unit) (settle os (suc n) sock start s e)
  unfolding settle
  settle-Stops start s e same = go s.next
    where
      go : (x : Next) → Stops (λ _. Unit) (settle os (suc n) sock start (record s { next = x }) e)
      go again = tt
      go blocked = tt
      go finished =
          Stops-bind (λ _. Unit) (λ _. Unit) (log_and_drop os (suc n) sock start s.request e) _
            (log_and_drop-Stops start s.request e same) (λ _ _. tt)
      go failed = tt

  -- On a socket that takes bytes, with a log that ends its writes, and for a registered socket and books
  -- that are in order: `handle_request` does not go on for ever, whatever the peer has sent, for a fuel
  -- of more rounds than there are bytes to come and than the log needs. It ends with the books in
  -- order, the client being kept, or gone from them with its slot reset, or with an access outside a
  -- block.
  pub handle_request-Stops :
      (live : ℕ → Bool) (spins : ℕ) (e : Epoll os)
      → live sock ≡ true
      → IsValid os live e
      → e.log_fd ≡ log_fd
      → length (c.stream e.world) < suc n
      → Stops (Follows os live sock e) (handle_request os (suc n) (suc spins) sock e)
  unfolding handle_request
  handle_request-Stops live spins e on v same enough =
      Stops-both (Follows os live sock e) (handle_request os (suc n) (suc spins) sock e) ends_there
        (handle_request-Follows os live sock on (suc n) (suc spins) e v)
    where
      ends_there : Stops (λ _. Unit) (handle_request os (suc n) (suc spins) sock e)
      ends_there = elim (Bool-cases (ltb sock num_epoll_events)) [
        | inr outside ↦ rw (outside, handle_request) tt
        | inl inside ↦
            rw (inside, handle_request)
              (Stops-bind (λ _. Unit) (λ _. Unit)
                (serve_loop os (suc n) (suc spins) sock (e.clients sock).request e.flags
                  (os.gettimeofday e.world).1)
                _
                (serve_loop-Stops os sock c o (suc n) spins (e.clients sock).request e.flags
                  (os.gettimeofday e.world).1
                  (omega (arith, enough, ap length (c.time_apart e.world).0)))
                (λ s _.
                  settle-Stops (os.gettimeofday e.world).0 s
                    (record e { world = s.world; flags = s.flags }) same))
      ]
