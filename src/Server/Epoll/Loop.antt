-- ===== src/Server/Epoll/Loop.antt =====
-- The loop of server/epoll_server.c: the books and the kernel's table of descriptors before each wait.
use c8005_assn.Base.{
  refl, count-none, ℕ, ◌≤◌, ◌≡◌, ◌⊎◌, ◌∙◌, inl, inr, sym, ap, subst, arith, Bool, true, false, ◌||◌,
  List, [], ◌∷◌, ◌==◌, ==→ne, Ensures, Ensures-bind, Bool-cases, Option-cases, List-cases, some,
  Turns, Turns-keeps,
}
use c8005_assn.Os.{Os}
use c8005_assn.Server.Signals.{load_done, load_done-world}
use c8005_assn.Server.Descriptors.{
  Descriptors, IsSame, IsTable, IsWatching, All, All-both, IsDistinct,
}
use c8005_assn.Server.Epoll.{
  no_request, set_up, Epoll, num_epoll_events, handle_request, accept_all, run_events, event_round,
}
use c8005_assn.Server.Epoll.Accepting.{Grows, accept_all-Grows}
use c8005_assn.Server.Epoll.Table.{
  IsServing, IsServing-moved, StillServing, handle_request-StillServing,
}

-- What `epoll_server_start` finds: zeroed requests, no clients, and an open acceptor.
pub record IsFirst {os : Os} (d : Descriptors os) (acceptor : ℕ) (e : Epoll os) : Type 0 where
  pub nobody : e.connected_count ≡ 0
  pub idle : (i : ℕ) → (e.clients i).request ≡ no_request
  pub peak : e.max_concurrent ≤ e.total_served
  pub counted : e.total_served ≤ d.accepts e.world
  pub listening : d.opened e.world acceptor ≡ true

module _ (os : Os) (d : Descriptors os) (table : IsTable d) (watching : IsWatching d)
    (acceptor : ℕ) where
  open os use {World, accept, set_nonblocking, epoll_ctl_add, epoll_wait, errno, epoll_create}

  -- A socket that has an event is the acceptor or that of a client.
  abbrev Known : (ℕ → Bool) → ℕ → Type 0
  Known live fd = (fd ≡ acceptor) ⊎ (live fd ≡ true)

  -- One step of the `for`, with the sockets whose events are still to come.
  run_events-IsServing :
      (fuel spins : ℕ) (fds : List ℕ) (err : Bool) (live : ℕ → Bool) (e : Epoll os)
      → IsDistinct fds
      → All (Known live) fds
      → IsServing d acceptor live e
      → Ensures
          (λ r. (live' : ℕ → Bool) × IsServing d acceptor live' r.1)
          (run_events os fuel spins acceptor fds err e)
  unfolding run_events
  run_events-IsServing fuel spins [] err live e distinct known v = (live, v)
  run_events-IsServing fuel spins (fd ∷ fds) err live e (others, distinct) (here, known) v =
      let (_, f, w) = load_done os e.flags e.world in
      let e' = record e { flags = f; world = w } in
      let v' : IsServing d acceptor live e' =
        IsServing-moved os d acceptor w f
          (subst (IsSame d e.world) (sym (load_done-world os e.flags e.world))
            (table.on_signal e.world))
          v in
      elim (Bool-cases (load_done os e.flags e.world).0) [
        | inl done ↦ rw (done, run_events) (live, v')
        | inr on ↦
            rw (on, run_events)
              (elim (Bool-cases (fd == acceptor)) [
                | inl is_acceptor ↦
                    rw (is_acceptor, run_events)
                      (Ensures-bind (λ r. Grows os d table watching acceptor live r.1)
                        (λ r. (live' : ℕ → Bool) × IsServing d acceptor live' r.1)
                        (accept_all os fuel acceptor e') _
                        (accept_all-Grows os d table watching acceptor fuel live e' v')
                        (λ (refused, e'') (live', v'', more).
                          run_events-IsServing fuel spins fds (err || refused) live' e'' distinct
                            (All-both fds (λ i k _. more_Known live live' i (more i) k) known known)
                            v''))
                | inr is_client ↦
                    rw (is_client, run_events)
                      (elim here [
                        | inl same ↦ absurd (==→ne fd acceptor is_client same)
                        | inr is_live ↦
                            Ensures-bind (λ r. StillServing d acceptor live fd r.1)
                              (λ r. (live' : ℕ → Bool) × IsServing d acceptor live' r.1)
                              (handle_request os fuel spins fd e') _
                              (handle_request-StillServing os d table watching acceptor live fd
                                is_live fuel spins e' v')
                              (λ (served, e'') (live', v'', rest). elim (Bool-cases served) [
                                | inr lost ↦ rw (lost, Ensures) (live', v'')
                                | inl fine ↦
                                    rw (fine, Ensures)
                                      (run_events-IsServing fuel spins fds err live' e'' distinct
                                        (All-both fds
                                          (λ i k ne. more_Known live live' i (rest i ne) k) known
                                          others)
                                        v'')
                              ])
                      ])
              ])
      ]
    where
      more_Known :
          (live live' : ℕ → Bool) (i : ℕ)
          → (live i ≡ true → live' i ≡ true)
          → Known live i
          → Known live' i
      more_Known live live' i h (inl same) = inl same
      more_Known live live' i h (inr on) = inr (h on)

  -- One round of the `while (1)`.
  event_round-IsServing :
      (fuel spins : ℕ) (live : ℕ → Bool) (e : Epoll os)
      → IsServing d acceptor live e
      → Ensures
          (λ r. (live' : ℕ → Bool) × IsServing d acceptor live' r.1)
          (event_round os fuel spins acceptor e)
  unfolding event_round
  event_round-IsServing fuel spins live e v =
      let w = (epoll_wait e.epfd e.world).1 in
      let e' = record e { world = w } in
      let v' = IsServing-moved os d acceptor w e.flags (watching.on_wait e.epfd e.world) v in
      elim (Option-cases (epoll_wait e.epfd e.world).0) [
        | inl failed ↦ rw (failed, event_round) (live, v')
        | inr (ready, q) ↦ elim (List-cases ready) [
          | inl nothing ↦ rw (q ∙ ap some nothing, event_round) (live, v')
          | inr (fd, fds, some_ready) ↦
              let (distinct, watched) =
                subst (λ l. IsDistinct l × All (λ i. d.watched e.world i ≡ true) l) some_ready
                  (watching.ready e.epfd e.world ready q) in
              rw (q ∙ ap some some_ready, event_round)
                (Ensures-bind (λ r. (live' : ℕ → Bool) × IsServing d acceptor live' r.1)
                  (λ r. (live' : ℕ → Bool) × IsServing d acceptor live' r.1)
                  (run_events os fuel spins acceptor (fd ∷ fds) false e') _
                  (run_events-IsServing fuel spins (fd ∷ fds) false live e' distinct
                    (All-both (fd ∷ fds) (λ i h _. v.watched i h) watched watched) v')
                  (λ r h. h))
        ]
      ]

  set_up-IsServing :
      (e : Epoll os)
      → IsFirst d acceptor e
      → (set_up os acceptor e).0 ≡ true
      → IsServing d acceptor (λ _. false) (set_up os acceptor e).1
  unfolding set_up
  set_up-IsServing e f =
      let w = (set_nonblocking acceptor e.world).1 in
      elim (Bool-cases (set_nonblocking acceptor e.world).0) [
        | inr refused ↦ rw (refused, set_up) (λ no. cc)
        | inl unblocked ↦
            rw (unblocked, set_up)
              (elim (Option-cases (epoll_create w).0) [
                | inl failed ↦ rw (failed, set_up) (λ no. cc)
                | inr (fd, q) ↦
                    rw (q, set_up)
                      (λ added.
                        let w' = (epoll_create w).1 in
                        let unblocked = table.on_nonblocking acceptor e.world in
                        let created = watching.on_create fd w q in
                        let watches = watching.on_add fd acceptor w' added in
                        record {
                          valid = record {
                            counted =
                                count-none (λ (b : Bool). b) num_epoll_events (λ _. false)
                                  (λ i. refl)
                                ∙ sym f.nobody;
                            peak = omega (arith, f.nobody);
                            total = f.peak;
                            small = omega (arith, f.counted, d.few e.world);
                            owned = λ i h. cc;
                            idle = λ i h. f.idle i;
                          };
                          opened = λ i h. cc;
                          watched = λ i h.
                              ground (arith, ap (λ t. t i) watches.watched, created.watched i, h);
                          accepted = omega (
                            arith, f.counted, unblocked.accepts, created.accepts, watches.accepts,
                          );
                          listening =
                              ap (λ t. t acceptor) watches.opened
                              ∙ ground (
                                arith,
                                ap (λ t. t acceptor) created.opened,
                                ap (λ t. t acceptor) unblocked.opened,
                                f.listening,
                              );
                          apart = refl;
                        })
              ])
      ]

  -- The epoll server from `epoll_server_start` on, which has found zeroed requests, no clients, counters
  -- in order and an open acceptor. The kernel keeps a table of descriptors, gives an event of each
  -- watched socket at most, accepts fewer than 2^64 clients and does not fail to write the log. Before
  -- each wait of the loop, after any number of rounds and whatever the clients send: the books are right
  -- for a set of clients, each of which has its own slot and an open socket; no other socket is watched
  -- but the acceptor's, which is open; and no more clients are counted than were accepted.
  pub Turns-event_round-IsServing :
      (spins : ℕ) (e e' : Epoll os)
      → IsFirst d acceptor e
      → (set_up os acceptor e).0 ≡ true
      → Turns (λ fuel. event_round os fuel spins acceptor) true (set_up os acceptor e).1 e'
      → (live : ℕ → Bool) × IsServing d acceptor live e'
  Turns-event_round-IsServing spins e e' f ready t =
      Turns-keeps (λ fuel. event_round os fuel spins acceptor) true
        (λ e. (live : ℕ → Bool) × IsServing d acceptor live e)
        (λ fuel a (l, x). event_round-IsServing fuel spins l a x)
        (λ _. false, set_up-IsServing e f ready) t
