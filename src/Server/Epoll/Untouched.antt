-- ===== src/Server/Epoll/Untouched.antt =====
-- What `handle_request` of server/epoll_server.c leaves alone outside its socket.
use c8005_assn.Base.{
  ℕ, suc, ◌≡◌, sym, subst, true, ltb, inl, inr, Bool-cases, ok, Ensures, Ensures-bind,
  Returns-Ensures,
}
use c8005_assn.Os.{Os, Timeval}
use c8005_assn.Util.Log.{log_msg}
use c8005_assn.Util.Log.Laws.{IsKept, EndsWithin, log_msg-Returns}
use c8005_assn.Server.Timing.{add_time}
use c8005_assn.Server.Request.{Request, Next, again, blocked, finished, failed, Served, serve_loop}
use c8005_assn.Server.Request.Untouched.{IsUntouched, serve_loop-Ensures}
use c8005_assn.Server.Epoll.{
  keep, drop_client, Epoll, num_epoll_events, log_and_drop, settle, handle_request,
}

-- The calls of a request, of the log and of the end of a connection keep `P`, and the log's writes end.
module _ (os : Os) (sock n log_fd epfd : ℕ) (P : os.World → Type 0) (u : IsUntouched os sock P)
    (log : IsKept os log_fd P) (ends : (w : os.World) → EndsWithin os log_fd n w)
    (drop : (w : os.World) → P w → P (os.close sock (os.epoll_ctl_del epfd sock w))) where
  open os use {World, gettimeofday, format_csv, close, epoll_ctl_del}

  drop_client-keeps :
      (w : World) (e : Epoll os) → e.epfd ≡ epfd → P w → P (drop_client os sock w e).world
  unfolding drop_client
  drop_client-keeps w e same p =
      subst (λ k. P (close sock (epoll_ctl_del k sock w))) (sym same) (drop w p)

  log_and_drop-Ensures :
      (start : Timeval) (r : Request) (e : Epoll os)
      → e.log_fd ≡ log_fd
      → e.epfd ≡ epfd
      → P e.world
      → Ensures (λ e'. P e'.world) (log_and_drop os (suc n) sock start r e)
  unfolding log_and_drop
  log_and_drop-Ensures start r e same_log same p =
      let (end, w) = gettimeofday e.world in
      let line =
        format_csv (add_time r.transfer_time start end) r.transferred
          (e.clients sock).client.peer in
      Ensures-bind (λ q. P q.1) (λ e'. P e'.world) (log_msg os (suc n) e.log_fd line w)
        (λ q. ok (drop_client os sock q.1 e))
        (subst (λ fd. Ensures (λ q. P q.1) (log_msg os (suc n) fd line w)) (sym same_log)
          (Returns-Ensures (λ q. P q.1) (log_msg os (suc n) log_fd line w)
            (log_msg-Returns os log_fd P log n line w (ends _) (u.on_time e.world p))))
        (λ q h. drop_client-keeps q.1 e same h)

  settle-Ensures :
      (start : Timeval) (s : Served os) (e : Epoll os)
      → e.log_fd ≡ log_fd
      → e.epfd ≡ epfd
      → P e.world
      → Ensures (λ r. P r.1.world) (settle os (suc n) sock start s e)
  unfolding settle keep
  settle-Ensures start s e same_log same p = go s.next
    where
      go :
          (x : Next)
          → Ensures (λ r. P r.1.world) (settle os (suc n) sock start (record s { next = x }) e)
      go again = u.on_time e.world p
      go blocked = u.on_time e.world p
      go finished =
          Ensures-bind (λ e'. P e'.world) (λ r. P r.1.world)
            (log_and_drop os (suc n) sock start s.request e) (λ e'. ok (true, e'))
            (log_and_drop-Ensures start s.request e same_log same p) (λ _ h. h)
      go failed = drop_client-keeps e.world e same p

  pub handle_request-Ensures :
      (spins : ℕ) (e : Epoll os)
      → e.log_fd ≡ log_fd
      → e.epfd ≡ epfd
      → P e.world
      → Ensures (λ r. P r.1.world) (handle_request os (suc n) spins sock e)
  unfolding handle_request
  handle_request-Ensures spins e same_log same p = elim (Bool-cases (ltb sock num_epoll_events)) [
    | inr outside ↦ rw (outside, handle_request) tt
    | inl inside ↦
        rw (inside, handle_request)
          (Ensures-bind (λ s. P s.world) (λ r. P r.1.world)
            (serve_loop os (suc n) spins sock (e.clients sock).request e.flags
              (gettimeofday e.world).1)
            (λ s.
              settle os (suc n) sock (gettimeofday e.world).0 s
                (record e { world = s.world; flags = s.flags }))
            (serve_loop-Ensures os sock P u (suc n) spins (e.clients sock).request e.flags
              (gettimeofday e.world).1 (u.on_time e.world p))
            (λ s h.
              settle-Ensures (gettimeofday e.world).0 s
                (record e { world = s.world; flags = s.flags }) same_log same h))
  ]
