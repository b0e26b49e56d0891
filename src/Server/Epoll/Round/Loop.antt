-- ===== src/Server/Epoll/Round/Loop.antt =====
-- The `for` over the events and one round of the loop of server/epoll_server.c, where the sessions of
-- several clients have arrived.
use c8005_assn.Base.{
  ℕ, suc, ◌≡◌, ◌≢◌, ◌∙◌, refl, sym, ap, subst, arith, Bool, true, false, some, List, [], ◌∷◌, ◌++◌,
  ne→==, Run, ok, ◌>>=◌, update,
}
use c8005_assn.Os.{Os}
use c8005_assn.Os.Stream.{Connection, Arrived, Writable, Heap}
use c8005_assn.Server.Signals.{load_done, load_done-quiet, load_done-world}
use c8005_assn.Server.Descriptors.{All, All-both, IsDistinct}
use c8005_assn.Server.Request.Session.{concat, IsCalm}
use c8005_assn.Server.Epoll.{Epoll, handle_request, run_events, event_round}
use c8005_assn.Server.Epoll.Invariant.{IsValid, IsValid-moved}
use c8005_assn.Server.Epoll.Round.{
  SameAt, SameAt-trans, IsAlone, IsWaiting, AllServed, serve-one, IsWaiting-moved, AllServed-cons,
}

module _ (os : Os) (c : (i : ℕ) → Connection os i) (a : (i : ℕ) → Arrived os i (c i))
    (o : (i : ℕ) → Writable os i) (heap : Heap os) (calm : IsCalm os) (log_fd epfd n : ℕ)
    (alone : IsAlone os c log_fd epfd n) where
  open os use {World, epoll_wait}

  -- One step of the `for`, for a client whose request is handled.
  run_events-client :
      (spins acceptor fd : ℕ) (fds : List ℕ) (err : Bool) (e e2 : Epoll os)
      (r : Run (Bool × Epoll os))
      → (load_done os e.flags e.world).0 ≡ false
      → fd ≢ acceptor
      → handle_request os (suc n) spins fd (record e {
        flags = (load_done os e.flags e.world).1;
        world = (load_done os e.flags e.world).2;
      })
        ≡ ok (true, e2)
      → run_events os (suc n) spins acceptor fds err e2 ≡ r
      → run_events os (suc n) spins acceptor (fd ∷ fds) err e ≡ r
  unfolding run_events
  run_events-client spins acceptor fd fds err e e2 r on client q rest =
      rw (on, run_events) (rw (ne→== fd acceptor client, run_events) (rw (q, run_events) rest))

  -- The `for` over sockets whose sessions have arrived.
  run_events-AllServed :
      (live : ℕ → Bool) (acceptor spins : ℕ) (m : ℕ → ℕ) (bodies : ℕ → List (List ℕ)) (fds : List ℕ)
      (err : Bool) (e : Epoll os)
      → IsDistinct fds
      → All (IsWaiting os c live acceptor n m bodies e) fds
      → IsValid os live e
      → e.flags.done ≡ false
      → e.log_fd ≡ log_fd
      → e.epfd ≡ epfd
      → (e' : Epoll os) × (run_events os (suc n) (suc spins) acceptor fds err e ≡ ok (err, e'))
        × AllServed os c live bodies fds e e'
  unfolding run_events
  run_events-AllServed live acceptor spins m bodies [] err e distinct waiting v d same_log same = (
    e,
    refl,
    record {
      answered = tt;
      others = λ j h. ((refl, refl), refl);
      valid = v;
      connected = omega arith;
    },
  )
  run_events-AllServed live acceptor spins m bodies (fd ∷ fds) err e (ne, distinct) (x, waiting) v d
        same_log same =
      let flags = (load_done os e.flags e.world).1 in
      let w = (load_done os e.flags e.world).2 in
      let e1 = record e { flags = flags; world = w } in
      let quiet = load_done-quiet os e.flags e.world (calm.quiet e.world) in
      let looked : (j : ℕ) → SameAt os c j e.world w = λ j.
        subst (SameAt os c j e.world) (sym (load_done-world os e.flags e.world))
          ((c j).signalled_apart e.world) in
      let d1 : flags.done ≡ false = ap (λ r. r.1.done) quiet ∙ d in
      let (e2, q, served, apart_from) =
        serve-one os c a o heap calm log_fd epfd n alone live acceptor spins m bodies fd e1
          (IsValid-moved w flags v) d1 same_log same
          (IsWaiting-moved os c a o heap calm log_fd epfd n alone live live acceptor m bodies e e1
            fd refl refl (looked fd).0 x) in
      let (e', q', rest) =
        run_events-AllServed (update live fd false) acceptor spins m bodies fds err e2 distinct
          (All-both fds
            (λ i y other.
              IsWaiting-moved os c a o heap calm log_fd epfd n alone live (update live fd false)
                acceptor m bodies e e2 i (rw (ne→== fd i (λ q. other (sym q))) refl)
                (served.others i other) ((apart_from i (λ q. other (sym q))).0 ∙ (looked i).0) y)
            waiting ne)
          served.valid (ap (λ f. f.done) served.flags ∙ d1) (served.log_fd ∙ same_log)
          (served.epfd ∙ same) in
      (
        e',
        run_events-client (suc spins) acceptor fd fds err e e2 (ok (err, e'))
            (ap (λ r. r.0) quiet ∙ d) x.client q q',
        AllServed-cons os c a o heap calm log_fd epfd n alone live bodies fd fds e e1 e2 e' ne
            looked refl refl served apart_from rest,
      )

  event_round-events :
      (spins acceptor : ℕ) (fds : List ℕ) (e e' : Epoll os)
      → (epoll_wait e.epfd e.world).0 ≡ some fds
      → run_events os
          (suc n)
          spins
          acceptor
          fds
          false
          (record e { world = (epoll_wait e.epfd e.world).1 })
        ≡ ok (false, e')
      → event_round os (suc n) spins acceptor e ≡ ok (true, e')
  unfolding event_round run_events
  event_round-events spins acceptor [] e e' ready q =
      rw (ready, event_round) (ap (λ r. r >>= (λ x. ok (true, x.1))) q)
  event_round-events spins acceptor (fd ∷ fds) e e' ready q =
      rw (ready, event_round) (rw (q, event_round) refl)

  -- A wait before.
  AllServed-moved :
      (live : ℕ → Bool) (bodies : ℕ → List (List ℕ)) (fds : List ℕ) (e : Epoll os) (w : World)
      (e' : Epoll os)
      → ((j : ℕ) → SameAt os c j e.world w)
      → AllServed os c live bodies fds (record e { world = w }) e'
      → AllServed os c live bodies fds e e'
  AllServed-moved live bodies fds e w e' waited served = record {
    answered =
        All-both fds
          (λ i x _. record {
            echoed = x.echoed ∙ ap (λ t. t ++ concat (bodies i)) (waited i).1;
            reset = x.reset;
            closed = x.closed;
          })
          served.answered served.answered;
    others = λ j nes.
        let (same, slot) = served.others j nes in
        (SameAt-trans os c j e.world w e'.world (waited j) same, slot);
    valid = served.valid;
    connected = served.connected;
  }

  -- One round of the event loop, with connections that do not disturb each other, no signal, memory,
  -- sockets that take bytes and a log that ends its writes. `epoll_wait` gives registered clients, each
  -- once, and of each a whole session has arrived: messages of one size of its own, other than 0, and
  -- the size 0. The loop goes on, each of these clients has got its messages back, in order and
  -- nothing else, and is gone from the books with its slot as new, and all other connections and slots
  -- are as they were. Two rounds for each message of the longest session are enough.
  pub event_round-AllServed :
      (live : ℕ → Bool) (acceptor spins : ℕ) (m : ℕ → ℕ) (bodies : ℕ → List (List ℕ)) (fds : List ℕ)
      (e : Epoll os)
      → (epoll_wait e.epfd e.world).0 ≡ some fds
      → IsDistinct fds
      → All (IsWaiting os c live acceptor n m bodies e) fds
      → IsValid os live e
      → e.flags.done ≡ false
      → e.log_fd ≡ log_fd
      → e.epfd ≡ epfd
      → (e' : Epoll os) × (event_round os (suc n) (suc spins) acceptor e ≡ ok (true, e'))
        × AllServed os c live bodies fds e e'
  unfolding event_round
  event_round-AllServed live acceptor spins m bodies fds e ready distinct waiting v d same_log
        same =
      let w = (epoll_wait e.epfd e.world).1 in
      let e1 = record e { world = w } in
      let waited : (j : ℕ) → SameAt os c j e.world w = λ j.
        subst (λ k. SameAt os c j e.world (epoll_wait k e.world).1) (sym same)
          (alone.on_wait j e.world) in
      let (e', q, served) =
        run_events-AllServed live acceptor spins m bodies fds false e1 distinct
          (All-both fds
            (λ i x _.
              IsWaiting-moved os c a o heap calm log_fd epfd n alone live live acceptor m bodies e
                e1 i refl refl (waited i).0 x)
            waiting waiting)
          (IsValid-moved w e.flags v) d same_log same in
      (
        e',
        event_round-events (suc spins) acceptor fds e e' ready q,
        AllServed-moved live bodies fds e w e' waited served,
      )
