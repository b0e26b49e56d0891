-- ===== src/Server/Select/Loop.antt =====
-- The loop of server/select_server.c: the books and the kernel's table of descriptors before each wait.
use c8005_assn.Base.{
  refl, lt→ltb, ltb→lt, count-none, count-update, ℕ, zero, suc, ◌+◌, ◌-◌, ◌≤◌, ◌<◌, ◌≡◌, inl, inr,
  sym, ap, subst, arith, Bool, true, ltb, ltb→lt, ok, Ensures, Ensures-bind, Ensures-after,
  Bool-cases, some, none, Option, Turns, Turns-keeps, if◌then◌else◌,
}
use c8005_assn.Os.{Os}
use c8005_assn.Server.Signals.{load_done, load_done-world}
use c8005_assn.Server.Acceptor.{Client}
use c8005_assn.Server.Descriptors.{
  Descriptors, IsSame, IsSame-refl, IsSame-trans, IsTable, IsSelecting,
}
use c8005_assn.Server.Epoll.{no_request}
use c8005_assn.Server.Select.{
  Select, fd_setsize, accept_all, serve_ready, select_round, selected, register_fds, set_up, fd_set,
  first_clients, ext_fd_setsize, set_up, fd_set, first_clients, ext_fd_setsize,
}
use c8005_assn.Server.Select.Accepting.{accept_all-IsServing}
use c8005_assn.Server.Select.Invariant.{is_live}
use c8005_assn.Server.Select.Slots.{looked, serve_clients-Ensures}
use c8005_assn.Server.Select.Table.{IsServing, IsServing-moved, handle_request-IsServing}

module _ (os : Os) (d : Descriptors os) (table : IsTable d) (selecting : IsSelecting d)
    (acceptor : ℕ) (room : acceptor < fd_setsize) where
  open os use {World, accept, set_nonblocking, select, signalled}

  looked-IsServing : (e : Select os) → IsServing d acceptor e → IsServing d acceptor (looked os e)
  looked-IsServing e =
      IsServing-moved os d acceptor (load_done os e.flags e.world).2
        (load_done os e.flags e.world).1 e.set
        (subst (IsSame d e.world) (sym (load_done-world os e.flags e.world))
          (table.on_signal e.world))

  with_set :
      (set : ℕ → Bool) (e : Select os)
      → IsServing d acceptor e
      → IsServing d acceptor (record e { set = set })
  with_set set e = IsServing-moved os d acceptor e.world e.flags set (IsSame-refl d e.world)

  serve_ready-IsServing :
      (fuel spins : ℕ) (e : Select os)
      → IsServing d acceptor e
      → Ensures (λ r. IsServing d acceptor r.1) (serve_ready os fuel spins acceptor e)
  unfolding serve_ready
  serve_ready-IsServing fuel spins e v =
      Ensures-bind (IsServing d acceptor) (λ r. IsServing d acceptor r.1)
        (if e.set acceptor then accept_all os fuel acceptor e else ok e) _
        (elim (Bool-cases (e.set acceptor)) [
          | inl comes ↦ rw comes (accept_all-IsServing os d table selecting acceptor room fuel e v)
          | inr none_comes ↦ rw none_comes v
        ])
        (λ e' v'.
          serve_clients-Ensures os acceptor fuel spins (IsServing d acceptor) (λ e h. h.valid)
            looked-IsServing
            (λ fd e client live h.
              handle_request-IsServing os d table acceptor fd client room fuel spins e live h)
            (fd_setsize - (acceptor + 1)) (acceptor + 1) e' (omega arith) v')

  selected-IsServing :
      (fuel spins : ℕ) (r : Option (ℕ × (ℕ → Bool))) (e : Select os)
      → IsServing d acceptor e
      → Ensures (λ r. IsServing d acceptor r.1) (selected os fuel spins acceptor r e)
  unfolding selected
  selected-IsServing fuel spins none e v = v
  selected-IsServing fuel spins (some (zero, ready)) e v = with_set ready e v
  selected-IsServing fuel spins (some (suc n, ready)) e v =
      Ensures-bind (λ r. IsServing d acceptor r.1) (λ r. IsServing d acceptor r.1)
        (serve_ready os fuel spins acceptor (record e { set = ready })) _
        (serve_ready-IsServing fuel spins (record e { set = ready }) (with_set ready e v))
        (λ r h. h)

  -- One round of the `while`.
  select_round-IsServing :
      (fuel spins : ℕ) (e : Select os)
      → IsServing d acceptor e
      → Ensures (λ r. IsServing d acceptor r.1) (select_round os fuel spins acceptor e)
  unfolding select_round
  select_round-IsServing fuel spins e v =
      let (_, f, w) = load_done os e.flags e.world in
      elim (Bool-cases (load_done os e.flags e.world).0) [
        | inl done ↦ rw (done, select_round) (looked-IsServing e v)
        | inr go ↦
            rw (go, select_round)
              (Ensures-after (λ r. IsServing d acceptor r.1) (register_fds acceptor e.clients) _
                (λ set. selected-IsServing fuel spins (select (e.max_fd + 1) set w).0 _ (
                  IsServing-moved os d acceptor {e = looked os e} (select (e.max_fd + 1) set w).1 f
                    set (selecting.on_select (e.max_fd + 1) set w) (looked-IsServing e v))))
      ]

-- What `select_server_start` finds: an open acceptor, and counters in order.
pub record IsFirst {os : Os} (d : Descriptors os) (acceptor : ℕ) (e : Select os) : Type 0 where
  pub peak : e.max_concurrent ≤ e.total_served
  pub counted : e.total_served ≤ d.accepts e.world
  pub listening : d.opened e.world acceptor ≡ true

module _ (os : Os) (d : Descriptors os) (table : IsTable d) (selecting : IsSelecting d)
    (acceptor : ℕ) where
  open os use {set_nonblocking, malloc_struct}

  first-IsServing :
      (e : Select os) (w : os.World) (set : ℕ → Bool)
      → acceptor < fd_setsize
      → IsFirst d acceptor e
      → IsSame d e.world w
      → IsServing d acceptor (record e {
        world = w;
        set = set;
        max_fd = acceptor;
        clients = first_clients os acceptor;
        requests = λ _. no_request;
        connected_count = 0;
      })
  unfolding first_clients
  first-IsServing e w set room f same = record {
    valid = record {
      counted = omega (
        arith,
        count-update is_live fd_setsize (λ _. nobody) acceptor
            (record nobody { sock = some acceptor }) room,
        count-none is_live fd_setsize (λ _. nobody) (λ i. refl),
      );
      accepting = ground arith;
      owned = λ i fd h. ground (arith, h);
      reset = λ i h. refl;
      below = λ i h. ground (arith, h);
      peak = omega arith;
      total = f.peak;
      small = omega (arith, f.counted, d.few e.world);
    };
    opened = λ i h. ground (arith, h, ap (λ t. t acceptor) same.opened, f.listening);
    accepted = omega (arith, f.counted, same.accepts);
  }
    where
      nobody : Client
      nobody = record { peer = record { sin_addr = 0; sin_port = 0 }; sock = none }

  -- The state before the first round, and the acceptor is inside the arrays.
  set_up-IsServing :
      (e : Select os)
      → IsFirst d acceptor e
      → Ensures
          (λ r. r.0 ≡ true → (acceptor < fd_setsize) × IsServing d acceptor r.1)
          (set_up os acceptor e)
  unfolding set_up fd_set
  set_up-IsServing e f =
      let w = (malloc_struct e.world).1 in
      elim (Bool-cases (malloc_struct e.world).0) [
        | inr refused ↦ rw (refused, set_up) (λ no. cc)
        | inl allocated ↦
            rw (allocated, set_up)
              (elim (Bool-cases (set_nonblocking acceptor w).0) [
                | inr refused ↦ rw (refused, set_up) (λ no. cc)
                | inl unblocked ↦
                    rw (unblocked, set_up)
                      (elim (Bool-cases (ltb acceptor fd_setsize)) [
                        | inr outside ↦ rw (outside, set_up) tt
                        | inl inside ↦
                            rw (inside, set_up)
                              (let room = ltb→lt acceptor fd_setsize inside in
                                rw (lt→ltb acceptor ext_fd_setsize (omega (arith, room)), fd_set)
                                  (λ yes. (
                                    room,
                                    first-IsServing e (set_nonblocking acceptor w).1 _ room f (
                                        IsSame-trans d e.world w _ (table.on_struct e.world)
                                          (table.on_nonblocking acceptor w)),
                                  )))
                      ])
              ])
      ]

  -- The `select` server from `select_server_start` on, which has found counters in order and an open
  -- acceptor. The kernel keeps a table of descriptors, accepts fewer than 2^64 clients and does not fail
  -- to write the log. Before each wait of the loop, after any number of rounds and whatever the clients
  -- send: the books are right, every socket that stands in a slot is open, and no more clients are
  -- counted than were accepted.
  pub Turns-select_round-IsServing :
      (spins : ℕ) (e first e' : Select os)
      → IsFirst d acceptor e
      → set_up os acceptor e ≡ ok (true, first)
      → Turns (λ fuel. select_round os fuel spins acceptor) none first e'
      → IsServing d acceptor e'
  Turns-select_round-IsServing spins e first e' f ready t =
      let (room, v) =
        subst (Ensures (λ r. r.0 ≡ true → (acceptor < fd_setsize) × IsServing d acceptor r.1)) ready
          (set_up-IsServing e f) refl in
      Turns-keeps (λ fuel. select_round os fuel spins acceptor) none (IsServing d acceptor)
        (λ fuel a x. select_round-IsServing os d table selecting acceptor room fuel spins a x) v t
