-- ===== src/Server/Select/Service.antt =====
-- A whole session of a client with server/select_server.c.
use c8005_assn.Base.{
  Returns, Returns-ok, Returns-bind, ◌≢◌, ap, ℕ, suc, ◌+◌, ◌*◌, ◌^◌, ◌≡◌, refl, ◌∙◌, ◌≤◌, ◌<◌, inl,
  inr, true, false, arith, some, none, List, ◌++◌, length, ok, lt→ltb,
}
use c8005_assn.Os.{Os, Timeval}
use c8005_assn.Os.Stream.{Connection, Arrived, Writable, Heap}
use c8005_assn.Util.Log.{log_msg}
use c8005_assn.Util.Log.Laws.{IsKept, EndsWithin, log_msg-Returns}
use c8005_assn.Server.Signals.{Flags}
use c8005_assn.Server.Timing.{add_time}
use c8005_assn.Server.Request.{Request, finished, Served}
use c8005_assn.Server.Request.Session.{
  frames, concat, AllLength, IsReady, IsCalm, serve_loop-IsSession,
}
use c8005_assn.Server.Epoll.{no_request}
use c8005_assn.Server.Select.{Select, fd_setsize, drop_client, log_and_drop, settle, handle_request}
use c8005_assn.Server.Select.Invariant.{IsValid, IsValid-moved, drop_client-Follows}

none-ne-some : (fd : ℕ) → none ≢ some fd
none-ne-some fd e = cc

module _ (os : Os) (acceptor sock : ℕ) (client : sock ≢ acceptor) (c : Connection os sock) where
  open os use {World, gettimeofday, format_csv, close}

  -- The log and the end of the connection send the client nothing, and the log's write ends.
  pub record IsApart (n log_fd : ℕ) : Type 0 where
    pub log : (d : List ℕ) → IsKept os log_fd (λ w. c.delivered w ≡ d)
    pub drop : (w : World) → c.delivered (close sock w) ≡ c.delivered w
    pub ends : (w : World) → EndsWithin os log_fd n w

  -- What a session leaves of the server's state: `sent` went to the client, and the client is gone.
  pub record IsServed (e e' : Select os) (sent : List ℕ) : Type 0 where
    pub echoed : c.delivered e'.world ≡ c.delivered e.world ++ sent
    pub reset : e'.requests sock ≡ no_request
    pub closed : (e'.clients sock).sock ≡ none
    pub others : (i : ℕ) → i ≢ sock → (e'.clients i ≡ e.clients i) × (e'.requests i ≡ e.requests i)
    pub connected : e'.connected_count + 1 ≡ e.connected_count
    pub valid : IsValid os acceptor e'

  -- The state after the label `cleanup` with the result 0.
  abbrev Dropped : List ℕ → Select os → Select os → Type 0
  Dropped d e e' = (w : World) × (c.delivered w ≡ d) × (e' ≡ drop_client os sock w e)

  log_and_drop-Dropped :
      (n : ℕ) (start : Timeval) (r : Request) (e : Select os)
      → IsApart n e.log_fd
      → Returns (Dropped (c.delivered e.world) e) (log_and_drop os (suc n) sock start r e)
  unfolding log_and_drop
  log_and_drop-Dropped n start r e p =
      let (end, w) = gettimeofday e.world in
      let line =
        format_csv (add_time r.transfer_time start end) r.transferred (e.clients sock).peer in
      Returns-bind (λ r. c.delivered r.1 ≡ c.delivered e.world) (Dropped (c.delivered e.world) e)
        (log_msg os (suc n) e.log_fd line w) (λ q. ok (drop_client os sock q.1 e))
        (log_msg-Returns os e.log_fd (λ v. c.delivered v ≡ c.delivered e.world)
          (p.log (c.delivered e.world)) n line w (p.ends _) (c.time_apart e.world).1)
        (λ q h. (q.1, h, refl))

  settle-finished :
      (n : ℕ) (start : Timeval) (s : Served os) (e : Select os)
      → s.next ≡ finished
      → IsApart n e.log_fd
      → Returns
          (λ r. (r.0 ≡ true) × Dropped (c.delivered e.world) e r.1)
          (settle os (suc n) sock start s e)
  unfolding settle
  settle-finished n start s e f p =
      rw (f, settle)
        (Returns-bind (Dropped (c.delivered e.world) e)
          (λ r. (r.0 ≡ true) × Dropped (c.delivered e.world) e r.1)
          (log_and_drop os (suc n) sock start s.request e) (λ e'. ok (true, e'))
          (log_and_drop-Dropped n start s.request e p) (λ e' h. (refl, h)))

  Dropped-IsServed :
      (e e' : Select os) (v : World) (f : Flags) (w : World)
      → (e.clients sock).sock ≡ some sock
      → sock < fd_setsize
      → acceptor < fd_setsize
      → IsValid os acceptor e
      → ((w' : World) → c.delivered (close sock w') ≡ c.delivered w')
      → e' ≡ drop_client os sock w (record e { world = v; flags = f })
      → (sent : List ℕ) → c.delivered w ≡ c.delivered e.world ++ sent
      → IsServed e e' sent
  unfolding drop_client
  Dropped-IsServed e e' v f w live inside room valid apart q sent out =
      let (valid', _, _, _, change) =
        drop_client-Follows os acceptor sock client true w (record e { world = v; flags = f }) live
          inside room (IsValid-moved v f valid) in
      rw q (record {
        echoed = apart w ∙ out;
        reset = ground arith;
        closed = ground arith;
        others = λ i ne. (ground arith, ground arith);
        connected = elim change [
          | inl (_, _, same) ↦
              absurd (none-ne-some sock (ground (arith, ap (λ x. x.sock) same, live)))
          | inr (less, _) ↦ less
        ];
        valid = valid';
      })

module _ (os : Os) (acceptor sock : ℕ) (client : sock ≢ acceptor) (c : Connection os sock)
    (a : Arrived os sock c) (o : Writable os sock) (heap : Heap os) (calm : IsCalm os) where
  open os use {gettimeofday}

  -- No signal comes, memory does not run out, the socket takes bytes and the log ends its writes. A
  -- client of the `select` server whose messages, all of one size `m` other than 0, and final size 0
  -- have arrived: one call of `handle_request` returns 0 and has sent every message back, in order and
  -- nothing else; the client's slot is empty and as new, the books are right with one connection less,
  -- and no other slot has changed. Two rounds for each message, and the looks at the log's write, are
  -- enough.
  pub select_request-session :
      (m n spins : ℕ) (e : Select os) (bodies : List (List ℕ))
      → IsValid os acceptor e
      → (e.clients sock).sock ≡ some sock
      → sock < fd_setsize
      → acceptor < fd_setsize
      → IsReady m (e.requests sock)
      → e.flags.done ≡ false
      → IsApart os acceptor sock client c n e.log_fd
      → AllLength m bodies
      → 0 < m
      → m < 2 ^ 32
      → c.stream e.world ≡ frames bodies
      → 2 * length bodies ≤ n
      → (e' : Select os) × (handle_request os (suc n) (suc spins) sock e ≡ ok (true, e'))
        × IsServed os acceptor sock client c e e' (concat bodies)
  unfolding handle_request
  select_request-session m n spins e bodies v live inside room ready d p all pos small arrived
        enough =
      let (start, w) = gettimeofday e.world in
      let (s, q, h) =
        serve_loop-IsSession os sock c a o heap calm m (suc n) spins (e.requests sock) e.flags w
          bodies ready d all pos small ((c.time_apart e.world).0 ∙ arrived) (omega arith) in
      let (r, q', ended) =
        Returns-ok _ (settle os (suc n) sock start s (moved s))
          (settle-finished os acceptor sock client c n start s (moved s) h.ended p) in
      let (sent, gone) = ended in
      let (w', out, dropped) = gone in
      (
        r.1,
        rw (lt→ltb sock fd_setsize inside, handle_request) (rw q (q' ∙ ap (λ b. ok (b, r.1)) sent)),
        Dropped-IsServed os acceptor sock client c e r.1 s.world s.flags w' live inside room v
            p.drop dropped (concat bodies)
            (out ∙ h.echoed ∙ ap (λ t. t ++ concat bodies) (c.time_apart e.world).1),
      )
    where
      moved : Served os → Select os
      moved s = record e { world = s.world; flags = s.flags }
