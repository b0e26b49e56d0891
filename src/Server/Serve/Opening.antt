-- ===== src/Server/Serve/Opening.antt =====
-- How `serve` of server/server.c opens the acceptor's socket, and what is open where it fails.
use c8005_assn.Base.{
  List, ℕ, ◌≡◌, ◌⊎◌, ◌∙◌, inl, inr, refl, sym, ap, arith, Bool, true, false, some, Run, ok, ◌>>=◌,
  update, Bool-cases, Option-cases,
}
use c8005_assn.Os.{Os}
use c8005_assn.Server.Signals.{Flags}
use c8005_assn.Server.Acceptor.{cleanup_acceptor}
use c8005_assn.Server.Descriptors.{Descriptors, IsSame-trans, IsOpened, IsTable, IsListening}
use c8005_assn.Server.Serve.{Server, port_string, finish, open_acceptor, serve}

-- The operations of a `server_t` that only move its state.
pub record IsLawful {os : Os} (server : Server os) : Type 0 where
  pub world-put :
      (f : Flags) (w : os.World) (s : server.State) → server.world (server.put f w s) ≡ w
  pub flags-put :
      (f : Flags) (w : os.World) (s : server.State) → server.flags (server.put f w s) ≡ f
  pub put-put :
      (f g : Flags) (w v : os.World) (s : server.State)
      → server.put f w (server.put g v s) ≡ server.put f w s
  pub world-reset : (s : server.State) → server.world (server.reset s) ≡ server.world s

module _ (os : Os) (server : Server os) (lawful : IsLawful server) (d : Descriptors os)
    (table : IsTable d) (listening : IsListening d) where
  open os use {World, getaddrinfo, socket, set_reuse, bind, listen, freeaddrinfo, shutdown, close}
  open server use {State, world, flags, put, reset, start}

  -- The same descriptors are open.
  abbrev SameOpen : World → World → Type 0
  SameOpen w v = (i : ℕ) → d.opened v i ≡ d.opened w i

  cleanup_acceptor-SameOpen :
      (sock : ℕ) (w v : World)
      → d.opened w sock ≡ false
      → d.opened v ≡ update (d.opened w) sock true
      → SameOpen w (cleanup_acceptor os sock v)
  unfolding cleanup_acceptor
  cleanup_acceptor-SameOpen sock w v fresh open_now i =
      let shut = listening.on_shutdown sock v in
      let closed = table.on_close sock (shutdown sock v) in
      let freed = listening.on_freeaddrinfo (close sock (shutdown sock v)) in
      ap (λ t. t i) freed.opened
      ∙ ap (λ t. t i) closed.opened
      ∙ ground (arith, ap (λ t. t i) shut.opened, ap (λ t. t i) open_now, fresh)

  -- What became of the acceptor's socket, for the result `r` of `serve` or a part of it, where `w` was the
  -- world before and `s` is the state that `serve` has prepared: nothing is left open, or `start` is
  -- called with a new socket.
  abbrev pub Opening : ℕ → World → State → Run (Bool × State) → Type 0
  Opening fuel w s r =
      ((s' : State) × (r ≡ ok (false, s')) × SameOpen w (world s'))
      ⊎ ((sock : ℕ) × (v : World) × (r
            ≡ (start sock (put (flags s) v s) >>= (λ t. finish os server fuel t sock)))
          × (d.opened w sock ≡ false)
          × (d.opened v ≡ update (d.opened w) sock true)
          × (d.accepts v ≡ d.accepts w))

  open_acceptor-Opening :
      (fuel sock : ℕ) (w v : World) (s : State)
      → world s ≡ v
      → IsOpened d sock w v
      → Opening fuel w s (open_acceptor os server fuel sock s)
  unfolding open_acceptor
  open_acceptor-Opening fuel sock w v s here o =
      let reused = listening.on_reuse sock (world s) in
      let u = (set_reuse sock (world s)).1 in
      let bound = IsSame-trans d (world s) u (bind sock u).1 reused (listening.on_bind sock u) in
      let heard =
        IsSame-trans d (world s) (bind sock u).1 (listen sock (bind sock u).1).1 bound
          (listening.on_listen sock (bind sock u).1) in
      elim (Bool-cases (bind sock u).0) [
        | inr refused ↦
            rw (refused, open_acceptor)
              (inl (
                _,
                refl,
                λ i.
                    ap (λ x. d.opened x i) (lawful.world-put _ _ s)
                    ∙ cleanup_acceptor-SameOpen sock w (bind sock u).1 o.fresh
                        (bound.opened ∙ ap d.opened here ∙ o.opened) i,
              ))
        | inl is_bound ↦
            rw (is_bound, open_acceptor)
              (elim (Bool-cases (listen sock (bind sock u).1).0) [
                | inr refused ↦
                    rw (refused, open_acceptor)
                      (inl (
                        _,
                        refl,
                        λ i.
                            ap (λ x. d.opened x i) (lawful.world-put _ _ s)
                            ∙ cleanup_acceptor-SameOpen sock w (listen sock (bind sock u).1).1
                                o.fresh (heard.opened ∙ ap d.opened here ∙ o.opened) i,
                      ))
                | inl is_heard ↦
                    rw (is_heard, open_acceptor)
                      (inr (
                        sock,
                        (listen sock (bind sock u).1).1,
                        refl,
                        o.fresh,
                        heard.opened ∙ ap d.opened here ∙ o.opened,
                        heard.accepts ∙ ap d.accepts here ∙ o.accepts,
                      ))
              ])
      ]

  found_here :
      (s : State) (port : List ℕ)
      → d.opened (getaddrinfo port (world (reset s))).1 ≡ d.opened (world s)
  found_here s port =
      (listening.on_getaddrinfo port (world (reset s))).opened ∙ ap d.opened (lawful.world-reset s)

  opened :
      (s : State) (sock port : ℕ)
      → (socket (getaddrinfo (port_string port) (world (reset s))).1).0 ≡ some sock
      → IsOpened d sock (world s) (socket (getaddrinfo (port_string port) (world (reset s))).1).1
  opened s sock port q =
      let w1 = (getaddrinfo (port_string port) (world (reset s))).1 in
      let found = listening.on_getaddrinfo (port_string port) (world (reset s)) in
      let o = listening.on_socket sock w1 q in
      record {
        fresh = sym (ap (λ t. t sock) (found_here s (port_string port))) ∙ o.fresh;
        opened = o.opened ∙ ap (λ t. update t sock true) (found_here s (port_string port));
        watched = o.watched ∙ found.watched ∙ ap d.watched (lawful.world-reset s);
        accepts = o.accepts ∙ found.accepts ∙ ap d.accepts (lawful.world-reset s);
      }

  same_state :
      (s : State) (v u : World)
      → put (flags (put (flags s) u s)) v (put (flags s) u s) ≡ put (flags s) v s
  same_state s v u = lawful.put-put _ _ v u s ∙ ap (λ f. put f v s) (lawful.flags-put (flags s) u s)

  -- `serve`, for a server whose state only carries the world and the flags, on a kernel with a table of
  -- descriptors. Either it gives -1 and the open descriptors are those from before, or `start` gets a
  -- socket that was not open, the only one that has been opened, with no client accepted since, and what
  -- follows is `finish`.
  pub serve-Opening :
      (fuel port : ℕ) (s : State) → Opening fuel (world s) (reset s) (serve os server fuel port s)
  unfolding serve
  serve-Opening fuel port s =
      let w = world (reset s) in
      let w1 = (getaddrinfo (port_string port) w).1 in
      elim (Bool-cases (getaddrinfo (port_string port) w).0) [
        | inr refused ↦
            rw (refused, serve)
              (inl (
                _,
                refl,
                λ i.
                    ap (λ x. d.opened x i) (lawful.world-put _ _ (reset s))
                    ∙ ap (λ t. t i) (found_here s _),
              ))
        | inl is_found ↦
            rw (is_found, serve)
              (elim (Option-cases (socket w1).0) [
                | inl no_socket ↦
                    rw (no_socket, serve)
                      (inl (
                        _,
                        refl,
                        λ i.
                            ap (λ x. d.opened x i) (lawful.world-put _ _ (reset s))
                            ∙ ap (λ t. t i) (listening.on_freeaddrinfo (socket w1).1).opened
                            ∙ ap (λ t. t i) (listening.on_no_socket w1 no_socket).opened
                            ∙ ap (λ t. t i) (found_here s _),
                      ))
                | inr (sock, q) ↦
                    rw (q, serve)
                      (elim (open_acceptor-Opening fuel sock (world s) (socket w1).1
                        (put (flags (reset s)) (socket w1).1 (reset s))
                        (lawful.world-put _ _ (reset s)) (opened s sock port q)) [
                          | inl fails ↦ inl fails
                          | inr (sock', v, e, fresh, open_now, accepts) ↦
                              let same = same_state (reset s) v (socket w1).1 in
                              inr (
                                sock',
                                v,
                                e
                                    ∙ ap
                                        (λ z.
                                          start sock' z >>= (λ t. finish os server fuel t sock'))
                                        same,
                                fresh,
                                open_now,
                                accepts,
                              )
                        ])
              ])
      ]
