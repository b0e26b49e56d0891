-- ===== src/Server/Epoll/Service.antt =====
-- A whole session of a client with server/epoll_server.c, and the loop after a signal.
use c8005_assn.Base.{
  Returns-ok, Returns-bind, Returns, ◌≢◌, ap, ℕ, zero, suc, ◌+◌, ◌*◌, ◌^◌, ◌≡◌, refl, ◌∙◌, ◌≤◌, ◌<◌,
  inl, inr, Bool, true, false, arith, some, none, List, ◌∷◌, ◌++◌, length, update, ok, timeout,
  lt→ltb, List-cases,
}
use c8005_assn.Os.{Os, Timeval}
use c8005_assn.Os.Stream.{Connection, Arrived, Writable, Heap}
use c8005_assn.Server.Signals.{load_done, load_done-done}
use c8005_assn.Util.Log.Laws.{IsKept, EndsWithin, log_msg-Returns}
use c8005_assn.Server.Timing.{add_time}
use c8005_assn.Server.Epoll.Invariant.{IsValid, drop_client-IsValid, IsValid-moved}
use c8005_assn.Server.Request.{Request, finished, Served}
use c8005_assn.Server.Request.Session.{
  frames, concat, AllLength, IsReady, IsCalm, serve_loop-IsSession,
}
use c8005_assn.Util.Log.{log_msg}
use c8005_assn.Server.Epoll.{
  Flags, Epoll, no_request, num_epoll_events, drop_client, log_and_drop, settle, handle_request,
  event_round, event_loop, run_events,
}

-- `epoll_wait` brings sockets or nothing, and never fails.
pub record IsNeverInterrupted (os : Os) : Type 0 where
  pub waits : (epfd : ℕ) (w : os.World) → (fds : List ℕ) × ((os.epoll_wait epfd w).0 ≡ some fds)

-- After `done` the events are passed over.
abbrev stopped : (os : Os) → Epoll os → Epoll os
stopped os e = record e {
  flags = (load_done os e.flags e.world).1;
  world = (load_done os e.flags e.world).2;
}

run_events-done :
    (os : Os) (fuel spins acceptor fd : ℕ) (fds : List ℕ) (err : Bool) (e : Epoll os)
    → e.flags.done ≡ true
    → run_events os fuel spins acceptor (fd ∷ fds) err e ≡ ok (err, stopped os e)
unfolding run_events
run_events-done os fuel spins acceptor fd fds err e d =
    rw ((load_done-done os e.flags e.world d).0, run_events)

-- A round after `done` goes on, and `done` stays set.
event_round-done :
    (os : Os) (never : IsNeverInterrupted os) (fuel spins acceptor : ℕ) (e : Epoll os)
    → e.flags.done ≡ true
    → (e' : Epoll os) × (event_round os fuel spins acceptor e ≡ ok (true, e'))
      × (e'.flags.done ≡ true)
unfolding event_round
event_round-done os never fuel spins acceptor e d =
    let w = (os.epoll_wait e.epfd e.world).1 in
    let e' = record e { world = w } in
    let (ready, q) = never.waits e.epfd e.world in
    elim (List-cases ready) [
      | inl nothing ↦ (e', rw (q ∙ ap some nothing, event_round) refl, d)
      | inr (fd, fds, more) ↦ (
        stopped os e',
        rw (q ∙ ap some more, event_round)
            (rw (run_events-done os fuel spins acceptor fd fds false e' d) refl),
        (load_done-done os e.flags w d).1,
      )
    ]

-- Once `done` is set, the `while (1)` ends only by a failing `epoll_wait`: while that call does not
-- fail, no number of rounds is enough, so a signal that does not interrupt it does not stop the
-- server.
pub event_loop_never_ends :
    (os : Os) (never : IsNeverInterrupted os) (fuel spins acceptor : ℕ) (e : Epoll os)
    → e.flags.done ≡ true
    → event_loop os fuel spins acceptor e ≡ timeout
unfolding event_loop
event_loop_never_ends os never zero spins acceptor e d = refl
event_loop_never_ends os never (suc fuel) spins acceptor e d =
    let (e', q, d') = event_round-done os never fuel spins acceptor e d in
    rw (q, event_loop) (event_loop_never_ends os never fuel spins acceptor e' d')

module _ (os : Os) (sock : ℕ) (c : Connection os sock) where
  open os use {World, gettimeofday, format_csv, close, epoll_ctl_del}

  -- What a session leaves of the server's state: `sent` went to the client, and the client is gone.
  pub record IsServed (live : ℕ → Bool) (e e' : Epoll os) (sent : List ℕ) : Type 0 where
    pub echoed : c.delivered e'.world ≡ c.delivered e.world ++ sent
    pub reset : (e'.clients sock).request ≡ no_request
    pub closed : (e'.clients sock).client.sock ≡ none
    pub others : (i : ℕ) → i ≢ sock → e'.clients i ≡ e.clients i
    pub connected : e'.connected_count + 1 ≡ e.connected_count
    pub valid : IsValid os (update live sock false) e'
    pub flags : e'.flags ≡ e.flags
    pub log_fd : e'.log_fd ≡ e.log_fd
    pub epfd : e'.epfd ≡ e.epfd

  -- The log and the end of the connection send the client nothing, and the log's write ends.
  pub record IsApart (n log_fd epfd : ℕ) : Type 0 where
    pub log : (d : List ℕ) → IsKept os log_fd (λ w. c.delivered w ≡ d)
    pub drop : (w : World) → c.delivered (close sock (epoll_ctl_del epfd sock w)) ≡ c.delivered w
    pub ends : (w : World) → EndsWithin os log_fd n w

  -- The state after the label `cleanup` with the result 0.
  abbrev Dropped : List ℕ → Epoll os → Epoll os → Type 0
  Dropped d e e' = (w : World) × (c.delivered w ≡ d) × (e' ≡ drop_client os sock w e)

  log_and_drop-Dropped :
      (n : ℕ) (start : Timeval) (r : Request) (e : Epoll os)
      → IsApart n e.log_fd e.epfd
      → Returns (Dropped (c.delivered e.world) e) (log_and_drop os (suc n) sock start r e)
  unfolding log_and_drop
  log_and_drop-Dropped n start r e p =
      let (end, w) = gettimeofday e.world in
      let line =
        format_csv (add_time r.transfer_time start end) r.transferred
          (e.clients sock).client.peer in
      Returns-bind (λ r. c.delivered r.1 ≡ c.delivered e.world) (Dropped (c.delivered e.world) e)
        (log_msg os (suc n) e.log_fd line w) (λ q. ok (drop_client os sock q.1 e))
        (log_msg-Returns os e.log_fd (λ v. c.delivered v ≡ c.delivered e.world)
          (p.log (c.delivered e.world)) n line w (p.ends _) (c.time_apart e.world).1)
        (λ q h. (q.1, h, refl))

  settle-finished :
      (n : ℕ) (start : Timeval) (s : Served os) (e : Epoll os)
      → s.next ≡ finished
      → IsApart n e.log_fd e.epfd
      → Returns
          (λ r. (r.0 ≡ true) × Dropped (c.delivered e.world) e r.1)
          (settle os (suc n) sock start s e)
  unfolding settle
  settle-finished n start s e f p =
      rw (f, settle)
        (Returns-bind (Dropped (c.delivered e.world) e)
          (λ r. (r.0 ≡ true) × Dropped (c.delivered e.world) e r.1)
          (log_and_drop os (suc n) sock start s.request e) (λ e'. ok (true, e'))
          (log_and_drop-Dropped n start s.request e p) (λ e' h. (refl, h)))

  Dropped-IsServed :
      (live : ℕ → Bool) (e e' : Epoll os) (v : World) (f : Flags) (w : World)
      → f ≡ e.flags
      → live sock ≡ true
      → sock < num_epoll_events
      → IsValid os live e
      → ((w' : World) → c.delivered (close sock (epoll_ctl_del e.epfd sock w')) ≡ c.delivered w')
      → e' ≡ drop_client os sock w (record e { world = v; flags = f })
      → (sent : List ℕ) → c.delivered w ≡ c.delivered e.world ++ sent
      → IsServed live e e' sent
  unfolding drop_client
  Dropped-IsServed live e e' v f w same is_live inside valid apart q sent out =
      let (valid', connected) =
        drop_client-IsValid os live sock is_live w (record e { world = v; flags = f }) inside
          (IsValid-moved v f valid) in
      rw q (record {
        echoed = apart w ∙ out;
        reset = ground arith;
        closed = ground arith;
        others = λ i ne. ground arith;
        connected = connected;
        valid = valid';
        flags = same;
        log_fd = refl;
        epfd = refl;
      })

module _ (os : Os) (sock : ℕ) (c : Connection os sock) (a : Arrived os sock c)
    (o : Writable os sock) (heap : Heap os) (calm : IsCalm os) where
  open os use {gettimeofday}

  -- No signal comes, memory does not run out and the socket takes bytes. A registered client whose
  -- messages, all of one size `m`, and final size 0 have arrived: one call
  -- of `handle_request` returns 0 and has sent every message back, in order and nothing else; the
  -- client is gone from the books and its slot is as new, and no other slot has changed. The fuel
  -- needed is two rounds for each message, and the looks at the log's write.
  pub handle_request-session :
      (live : ℕ → Bool) (m n spins : ℕ) (e : Epoll os) (bodies : List (List ℕ))
      → IsValid os live e
      → live sock ≡ true
      → sock < num_epoll_events
      → IsReady m (e.clients sock).request
      → e.flags.done ≡ false
      → IsApart os sock c n e.log_fd e.epfd
      → AllLength m bodies
      → 0 < m
      → m < 2 ^ 32
      → c.stream e.world ≡ frames bodies
      → 2 * length bodies ≤ n
      → (e' : Epoll os) × (handle_request os (suc n) (suc spins) sock e ≡ ok (true, e'))
        × IsServed os sock c live e e' (concat bodies)
  unfolding handle_request
  handle_request-session live m n spins e bodies v is_live inside ready d p all pos small arrived
        enough =
      let (start, w) = gettimeofday e.world in
      let (s, q, h) =
        serve_loop-IsSession os sock c a o heap calm m (suc n) spins (e.clients sock).request
          e.flags w bodies ready d all pos small ((c.time_apart e.world).0 ∙ arrived)
          (omega arith) in
      let (r, q', ended) =
        Returns-ok _ (settle os (suc n) sock start s (moved s))
          (settle-finished os sock c n start s (moved s) h.ended p) in
      let (sent, gone) = ended in
      let (w', out, dropped) = gone in
      (
        r.1,
        rw (lt→ltb sock num_epoll_events inside, handle_request)
            (rw q (q' ∙ ap (λ b. ok (b, r.1)) sent)),
        Dropped-IsServed os sock c live e r.1 s.world s.flags w' h.flags is_live inside v p.drop
            dropped (concat bodies)
            (out ∙ h.echoed ∙ ap (λ t. t ++ concat bodies) (c.time_apart e.world).1),
      )
    where
      moved : Served os → Epoll os
      moved s = record e { world = s.world; flags = s.flags }
