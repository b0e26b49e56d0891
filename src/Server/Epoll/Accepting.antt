-- ===== src/Server/Epoll/Accepting.antt =====
-- `add_client` and the `accept_client` loop of server/epoll_server.c, and the kernel's table of
-- descriptors.
use c8005_assn.Base.{
  ℕ, zero, suc, ◌+◌, ◌≤◌, ◌<◌, ◌≡◌, ◌≢◌, ◌∙◌, inl, inr, sym, ap, subst, arith, Bool, true, false,
  ltb, ltb→lt, update, Ensures, Ensures-bind, Ensures-weaken, Bool-cases,
}
use c8005_assn.Os.{Os}
use c8005_assn.Server.Signals.{Flags}
use c8005_assn.Server.Acceptor.{Accepted, accept_client}
use c8005_assn.Server.Descriptors.{Descriptors, IsAccepted, IsAdded, IsTable, IsWatching}
use c8005_assn.Server.Descriptors.Kept.{accept_client-cases}
use c8005_assn.Server.Epoll.{Epoll, num_epoll_events, enter, add_client, accept_all}
use c8005_assn.Server.Epoll.Invariant.{IsValid-moved, enter-IsValid}
use c8005_assn.Server.Epoll.Table.{IsServing, IsServing-moved}

module _ (os : Os) (d : Descriptors os) (table : IsTable d) (watching : IsWatching d)
    (acceptor : ℕ) where
  open os use {World, accept, set_nonblocking, epoll_ctl_add, epoll_wait, errno, epoll_create}

  -- No client has gone.
  abbrev pub Grows : (ℕ → Bool) → Epoll os → Type 0
  Grows live e =
      (live' : ℕ → Bool) × IsServing d acceptor live' e × ((i : ℕ) → live i ≡ true → live' i ≡ true)

  -- What `accept` promises of a client's socket, the client not being in the books yet.
  record IsNew (live : ℕ → Bool) (sock : ℕ) (e : Epoll os) : Type 0 where
    absent : live sock ≡ false
    other : sock ≢ acceptor
    open_now : d.opened e.world sock ≡ true
    room : e.total_served + 1 ≤ d.accepts e.world

  enter-IsServing :
      (live : ℕ → Bool) (a : Accepted) (e : Epoll os) (w : World)
      → a.sock < num_epoll_events
      → IsNew live a.sock e
      → IsAdded d a.sock e.world w
      → IsServing d acceptor live e
      → IsServing d acceptor (update live a.sock true) (enter os a (record e { world = w }))
  unfolding enter
  enter-IsServing live a e w inside n added v =
      let (valid, total, _) =
        enter-IsValid os live a (record e { world = w }) inside n.absent
          (omega (arith, n.room, d.few e.world)) (IsValid-moved w e.flags v.valid) in
      record {
        valid = valid;
        opened = λ i h. ap (λ t. t i) added.opened ∙ ground (arith, v.opened i, h, n.open_now);
        watched = λ i h. ground (arith, ap (λ t. t i) added.watched, v.watched i, h);
        accepted = omega (arith, total, n.room, added.accepts);
        listening = ap (λ t. t acceptor) added.opened ∙ v.listening;
        apart = ground (arith, v.apart, n.other);
      }

  add_client-Grows :
      (live : ℕ → Bool) (a : Accepted) (e : Epoll os)
      → IsNew live a.sock e
      → IsServing d acceptor live e
      → Ensures (λ r. Grows live r.1) (add_client os a e)
  unfolding add_client
  add_client-Grows live a e n v =
      let w = (set_nonblocking a.sock e.world).1 in
      let same = table.on_nonblocking a.sock e.world in
      let w' = (epoll_ctl_add e.epfd a.sock w).1 in
      let v' = IsServing-moved os d acceptor w e.flags same v in
      elim (Bool-cases (set_nonblocking a.sock e.world).0) [
        | inr refused ↦ rw (refused, add_client) (live, v', λ i h. h)
        | inl unblocked ↦
            rw (unblocked, add_client)
              (elim (Bool-cases (epoll_ctl_add e.epfd a.sock w).0) [
                | inr refused ↦
                    rw (refused, add_client)
                      (
                        live,
                        IsServing-moved os d acceptor w' e.flags
                            (watching.on_add_refused e.epfd a.sock w refused) v',
                        λ i h. h,
                      )
                | inl added ↦
                    rw (added, add_client)
                      (elim (Bool-cases (ltb a.sock num_epoll_events)) [
                        | inr outside ↦ rw (outside, add_client) tt
                        | inl inside ↦
                            rw (inside, add_client)
                              (
                                update live a.sock true,
                                enter-IsServing live a (record e { world = w }) w'
                                    (ltb→lt a.sock num_epoll_events inside)
                                    (record {
                                      absent = n.absent;
                                      other = n.other;
                                      open_now = ap (λ t. t a.sock) same.opened ∙ n.open_now;
                                      room =
                                          subst (λ k. e.total_served + 1 ≤ k) (sym same.accepts)
                                            n.room;
                                    })
                                    (watching.on_add e.epfd a.sock w added) v',
                                λ i h. ground (arith, h),
                              )
                      ])
              ])
      ]

  -- After an `accept` that gives a client.
  accepted-IsNew :
      (live : ℕ → Bool) (sock : ℕ) (e : Epoll os) (w : World) (f : Flags)
      → IsAccepted d sock e.world w
      → IsServing d acceptor live e
      → IsNew live sock (record e { world = w; flags = f })
        × IsServing d acceptor live (record e { world = w; flags = f })
  accepted-IsNew live sock e w f a v = (
    record {
      absent = ground (arith, a.fresh, v.opened sock);
      other = λ same. ground (arith, a.fresh, v.listening, ap (d.opened e.world) same);
      open_now = ground (arith, ap (λ t. t sock) a.opened);
      room = omega (arith, a.accepts, v.accepted);
    },
    record {
      valid = IsValid-moved w f v.valid;
      opened = λ i h. ground (arith, ap (λ t. t i) a.opened, v.opened i h);
      watched = λ i h. v.watched i (sym (ap (λ t. t i) a.watched) ∙ h);
      accepted = omega (arith, a.accepts, v.accepted);
      listening = ground (arith, ap (λ t. t acceptor) a.opened, v.listening);
      apart = v.apart;
    },
  )

  pub accept_all-Grows :
      (fuel : ℕ) (live : ℕ → Bool) (e : Epoll os)
      → IsServing d acceptor live e
      → Ensures (λ r. Grows live r.1) (accept_all os fuel acceptor e)
  unfolding accept_all
  accept_all-Grows zero live e v = tt
  accept_all-Grows (suc fuel) live e v =
      let (_, f, w) = accept_client os acceptor e.flags e.world in
      elim (accept_client-cases os d table acceptor e.flags e.world) [
        | inl (refused, same) ↦
            rw (refused, accept_all) (live, IsServing-moved os d acceptor w f same v, λ i h. h)
        | inr (a, given, taken) ↦
            let (n, v') = accepted-IsNew live a.sock e w f taken v in
            rw (given, accept_all)
              (Ensures-bind (λ r. Grows live r.1) (λ r. Grows live r.1)
                (add_client os a (record e { flags = f; world = w })) _
                (add_client-Grows live a (record e { flags = f; world = w }) n v')
                (λ (added, e'') (live', v'', more). elim (Bool-cases added) [
                  | inr refused ↦ rw (refused, Ensures) (live', v'', more)
                  | inl entered ↦
                      rw (entered, Ensures)
                        (Ensures-weaken (λ r. Grows live' r.1) (λ r. Grows live r.1)
                          (accept_all os fuel acceptor e'') (accept_all-Grows fuel live' e'' v'')
                          (λ r (l, x, m). (l, x, λ i h. m i (more i h))))
                ]))
      ]
