-- ===== src/Server/Epoll/Table.antt =====
-- `handle_request` of server/epoll_server.c and the kernel's table of descriptors.
use c8005_assn.Base.{
  ℕ, ◌≤◌, ◌<◌, ◌≡◌, ◌≢◌, ◌⊎◌, ◌∙◌, inl, inr, sym, ap, subst, arith, Bool, true, false, ltb, ltb→lt,
  update, ok, Ensures, Ensures-bind, Bool-cases,
}
use c8005_assn.Os.{Os, Timeval}
use c8005_assn.Server.Signals.{Flags}
use c8005_assn.Server.Timing.{add_time}
use c8005_assn.Server.Request.{Request, Next, again, blocked, finished, failed, Served, serve_loop}
use c8005_assn.Util.Log.{log_msg}
use c8005_assn.Server.Descriptors.{
  Descriptors, IsSame, IsSame-refl, IsTable, IsWatching, IsRemoved, IsClosed,
}
use c8005_assn.Server.Descriptors.Kept.{log_msg-IsSame, serve_loop-IsSame}
use c8005_assn.Server.Epoll.{
  Epoll, num_epoll_events, keep, drop_client, log_and_drop, settle, handle_request,
}
use c8005_assn.Server.Epoll.Invariant.{IsValid, IsValid-moved, keep-IsValid, drop_client-IsValid}

-- The books are right for the registered sockets `live`; these are open; the kernel watches none but
-- them and the acceptor, which is open and not a client; and no more clients are counted than were
-- accepted.
pub record IsServing {os : Os} (d : Descriptors os) (acceptor : ℕ) (live : ℕ → Bool) (e : Epoll os)
    : Type 0 where
  pub valid : IsValid os live e
  pub opened : (i : ℕ) → live i ≡ true → d.opened e.world i ≡ true
  pub watched : (i : ℕ) → d.watched e.world i ≡ true → (i ≡ acceptor) ⊎ (live i ≡ true)
  pub accepted : e.total_served ≤ d.accepts e.world
  pub listening : d.opened e.world acceptor ≡ true
  pub apart : live acceptor ≡ false

-- The books are right for some set of sockets, in which those of `live` are but for `sock`.
abbrev pub StillServing : {os : Os} → Descriptors os → ℕ → (ℕ → Bool) → ℕ → Epoll os → Type 0
StillServing d acceptor live sock e =
    (live' : ℕ → Bool) × IsServing d acceptor live' e
    × ((i : ℕ) → i ≢ sock → live i ≡ true → live' i ≡ true)

module _ (os : Os) (d : Descriptors os) (acceptor : ℕ) where
  open os use {World, gettimeofday, format_csv, close, epoll_ctl_del}

  -- What leaves the table leaves the state.
  pub IsServing-moved :
      {live : ℕ → Bool} {e : Epoll os} (w : World) (f : Flags)
      → IsSame d e.world w
      → IsServing d acceptor live e
      → IsServing d acceptor live (record e { world = w; flags = f })
  IsServing-moved {live} {e} w f same v = record {
    valid = IsValid-moved w f v.valid;
    opened = λ i h. ap (λ t. t i) same.opened ∙ v.opened i h;
    watched = λ i h. v.watched i (sym (ap (λ t. t i) same.watched) ∙ h);
    accepted = subst (λ n. e.total_served ≤ n) (sym same.accepts) v.accepted;
    listening = ap (λ t. t acceptor) same.opened ∙ v.listening;
    apart = v.apart;
  }

module _ (os : Os) (d : Descriptors os) (table : IsTable d) (watching : IsWatching d) (acceptor : ℕ)
    (live : ℕ → Bool) (sock : ℕ) (is_live : live sock ≡ true) where
  open os use {World, gettimeofday, format_csv, close, epoll_ctl_del}

  keep-StillServing :
      (start : Timeval) (r : Request) (e : Epoll os)
      → IsServing d acceptor live e
      → StillServing d acceptor live sock (keep os sock start r e)
  unfolding keep
  keep-StillServing start r e v =
      let v' =
        IsServing-moved os d acceptor (gettimeofday e.world).1 e.flags (table.on_time e.world) v in
      (
        live,
        record {
          valid = keep-IsValid os live sock is_live start r e v.valid;
          opened = v'.opened;
          watched = v'.watched;
          accepted = v'.accepted;
          listening = v'.listening;
          apart = v.apart;
        },
        λ i ne h. h,
      )

  -- `w` is what the line for the log leaves.
  drop_client-StillServing :
      (w : World) (e : Epoll os)
      → sock < num_epoll_events
      → IsSame d e.world w
      → IsServing d acceptor live e
      → StillServing d acceptor live sock (drop_client os sock w e)
  unfolding drop_client
  drop_client-StillServing w e inside same v =
      let v' = IsServing-moved os d acceptor w e.flags same v in
      (
        update live sock false,
        record {
          valid = (drop_client-IsValid os live sock is_live w e inside v.valid).0;
          opened = λ i h.
              ap (λ t. t i) closed.opened
              ∙ ground (arith, ap (λ t. t i) removed.opened, v'.opened i);
          watched = λ i h.
              ground (
                arith,
                ap (λ t. t i) closed.watched,
                ap (λ t. t i) removed.watched,
                v'.watched i,
                h,
              );
          accepted = omega (arith, closed.accepts, removed.accepts, v'.accepted);
          listening =
              ap (λ t. t acceptor) closed.opened
              ∙ ground (arith, ap (λ t. t acceptor) removed.opened, v'.listening, v.apart, is_live);
          apart = ground (arith, v.apart);
        },
        λ i ne h. ground (arith),
      )
    where
      removed : IsRemoved d sock w (epoll_ctl_del e.epfd sock w)
      removed = watching.on_remove e.epfd sock w

      closed :
          IsClosed d sock (epoll_ctl_del e.epfd sock w) (close sock (epoll_ctl_del e.epfd sock w))
      closed = table.on_close sock (epoll_ctl_del e.epfd sock w)

  log_and_drop-StillServing :
      (fuel : ℕ) (start : Timeval) (r : Request) (e : Epoll os)
      → sock < num_epoll_events
      → IsServing d acceptor live e
      → Ensures (StillServing d acceptor live sock) (log_and_drop os fuel sock start r e)
  unfolding log_and_drop
  log_and_drop-StillServing fuel start r e inside v =
      let (end, w) = gettimeofday e.world in
      let line =
        format_csv (add_time r.transfer_time start end) r.transferred
          (e.clients sock).client.peer in
      Ensures-bind (λ p. IsSame d e.world p.1) (StillServing d acceptor live sock)
        (log_msg os fuel e.log_fd line w) (λ p. ok (drop_client os sock p.1 e))
        (log_msg-IsSame os d table e.world fuel e.log_fd line w (table.on_time e.world))
        (λ p same. drop_client-StillServing p.1 e inside same v)

  settle-StillServing :
      (fuel : ℕ) (start : Timeval) (s : Served os) (e : Epoll os)
      → sock < num_epoll_events
      → IsServing d acceptor live e
      → Ensures (λ r. StillServing d acceptor live sock r.1) (settle os fuel sock start s e)
  unfolding settle
  settle-StillServing fuel start s e inside v = go s.next
    where
      go :
          (n : Next)
          → Ensures
              (λ r. StillServing d acceptor live sock r.1)
              (settle os fuel sock start (record s { next = n }) e)
      go again = keep-StillServing start s.request e v
      go blocked = keep-StillServing start s.request e v
      go finished =
          Ensures-bind (StillServing d acceptor live sock)
            (λ r. StillServing d acceptor live sock r.1)
            (log_and_drop os fuel sock start s.request e) (λ e'. ok (true, e'))
            (log_and_drop-StillServing fuel start s.request e inside v) (λ _ h. h)
      go failed = drop_client-StillServing e.world e inside (IsSame-refl d e.world) v

  pub handle_request-StillServing :
      (fuel spins : ℕ) (e : Epoll os)
      → IsServing d acceptor live e
      → Ensures (λ r. StillServing d acceptor live sock r.1) (handle_request os fuel spins sock e)
  unfolding handle_request
  handle_request-StillServing fuel spins e v = elim (Bool-cases (ltb sock num_epoll_events)) [
    | inr outside ↦ rw (outside, handle_request) tt
    | inl inside ↦
        rw (inside, handle_request)
          (Ensures-bind (λ s. IsSame d e.world s.world) (λ r. StillServing d acceptor live sock r.1)
            (serve_loop os fuel spins sock (e.clients sock).request e.flags
              (gettimeofday e.world).1)
            (λ s. settle os fuel sock (gettimeofday e.world).0 s (moved s))
            (serve_loop-IsSame os d table e.world sock fuel spins (e.clients sock).request e.flags
              (gettimeofday e.world).1 (table.on_time e.world))
            (λ s same.
              settle-StillServing fuel (gettimeofday e.world).0 s (moved s)
                (ltb→lt sock num_epoll_events inside)
                (IsServing-moved os d acceptor s.world s.flags same v)))
  ]
    where
      moved : Served os → Epoll os
      moved s = record e { world = s.world; flags = s.flags }
