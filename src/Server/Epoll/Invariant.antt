-- ===== src/Server/Epoll/Invariant.antt =====
-- The bookkeeping of server/epoll_server.c: how the counters and the slots of the clients follow the
-- set of sockets that are registered.
use c8005_assn.Base.{
  lt→ltb, Returns, sym, ◌∙◌, Ensures-after, add_size, sub_size, ℕ, ◌+◌, ◌≡◌, refl, ◌≤◌, ◌<◌, ◌⊎◌,
  inl, inr, Bool, true, false, arith, ltb, some, size_mod, count, count-update, update, ok, Ensures,
  Ensures-bind, Bool-cases, ltb→lt,
}
use c8005_assn.Os.{Os, Timeval}
use c8005_assn.Server.Acceptor.{Accepted}
use c8005_assn.Server.Request.{Request, Next, again, blocked, finished, failed, Served, serve_loop}
use c8005_assn.Util.Log.{log_msg}
use c8005_assn.Server.Epoll.{
  Flags, add_time, Epoll, no_request, num_epoll_events, keep, drop_client, log_and_drop, settle,
  handle_request, enter, add_client,
}

-- `live i` says that socket `i` is registered.
pub record IsValid (os : Os) (live : ℕ → Bool) (e : Epoll os) : Type 0 where
  pub counted : count (λ b. b) num_epoll_events live ≡ e.connected_count
  pub peak : e.connected_count ≤ e.max_concurrent
  pub total : e.max_concurrent ≤ e.total_served
  pub small : e.total_served < size_mod
  pub owned : (i : ℕ) → live i ≡ true → (e.clients i).client.sock ≡ some i
  pub idle : (i : ℕ) → live i ≡ false → (e.clients i).request ≡ no_request

-- The world and the flags are not in the books.
pub IsValid-moved :
    {os : Os} {live : ℕ → Bool} {e : Epoll os} (w : os.World) (f : Flags)
    → IsValid os live e
    → IsValid os live (record e { world = w; flags = f })
IsValid-moved w f v = record {
  counted = v.counted;
  peak = v.peak;
  total = v.total;
  small = v.small;
  owned = v.owned;
  idle = v.idle;
}

-- After a request the client stays, or it is gone from the books.
abbrev pub Follows : (os : Os) → (ℕ → Bool) → ℕ → Epoll os → Bool × Epoll os → Type 0
Follows os live sock e r =
    (r.1.total_served ≡ e.total_served)
    × (r.1.max_concurrent ≡ e.max_concurrent)
    × ((IsValid os live r.1 × (r.0 ≡ true) × (r.1.connected_count ≡ e.connected_count))
        ⊎ (IsValid os (update live sock false) r.1 × (r.1.connected_count + 1 ≡ e.connected_count)))

module _ (os : Os) (live : ℕ → Bool) (sock : ℕ) (is_live : live sock ≡ true) where
  open os use {World, gettimeofday, format_csv}

  pub keep-IsValid :
      (start : Timeval) (r : Request) (e : Epoll os)
      → IsValid os live e
      → IsValid os live (keep os sock start r e)
  unfolding keep
  keep-IsValid start r e v = record {
    counted = v.counted;
    peak = v.peak;
    total = v.total;
    small = v.small;
    owned = λ i h. ground (arith, v.owned i h);
    idle = λ i h. ground (arith, v.idle i h, is_live);
  }

  pub drop_client-IsValid :
      (w : World) (e : Epoll os)
      → sock < num_epoll_events
      → IsValid os live e
      → IsValid os (update live sock false) (drop_client os sock w e)
        × ((drop_client os sock w e).connected_count + 1 ≡ e.connected_count)
  unfolding drop_client
  drop_client-IsValid w e inside v = (
    record {
      counted = omega (arith, less, pred);
      peak = omega (arith, pred, v.peak);
      total = v.total;
      small = v.small;
      owned = λ i h. ground (arith, v.owned i);
      idle = λ i h. ground (arith, v.idle i);
    },
    pred,
  )
    where
      less : count (λ b. b) num_epoll_events (update live sock false) + 1 ≡ e.connected_count
      less =
          ground (
            arith,
            count-update (λ b. b) num_epoll_events live sock false inside,
            v.counted,
            is_live,
          )

      pred : sub_size e.connected_count 1 + 1 ≡ e.connected_count
      pred = omega (arith, less, v.peak, v.total, v.small)

  drop_client-Follows :
      (b : Bool) (w : World) (e : Epoll os)
      → sock < num_epoll_events
      → IsValid os live e
      → Follows os live sock e (b, drop_client os sock w e)
  unfolding drop_client
  drop_client-Follows b w e inside v = (refl, refl, inr (drop_client-IsValid w e inside v))

  keep-Follows :
      (start : Timeval) (r : Request) (e : Epoll os)
      → IsValid os live e
      → Follows os live sock e (true, keep os sock start r e)
  unfolding keep
  keep-Follows start r e v = (refl, refl, inl (keep-IsValid start r e v, refl, refl))

  log_and_drop-Follows :
      (fuel : ℕ) (start : Timeval) (r : Request) (e : Epoll os)
      → sock < num_epoll_events
      → IsValid os live e
      → Ensures (λ e'. Follows os live sock e (true, e')) (log_and_drop os fuel sock start r e)
  unfolding log_and_drop
  log_and_drop-Follows fuel start r e inside v =
      let (end, w) = gettimeofday e.world in
      let line =
        format_csv (add_time r.transfer_time start end) r.transferred
          (e.clients sock).client.peer in
      Ensures-after (λ e'. Follows os live sock e (true, e')) (log_msg os fuel e.log_fd line w)
        (λ p. ok (drop_client os sock p.1 e)) (λ p. drop_client-Follows true p.1 e inside v)

  settle-Follows :
      (fuel : ℕ) (start : Timeval) (s : Served os) (e : Epoll os)
      → sock < num_epoll_events
      → IsValid os live e
      → Ensures (Follows os live sock e) (settle os fuel sock start s e)
  unfolding settle
  settle-Follows fuel start s e inside v = go s.next
    where
      go :
          (n : Next)
          → Ensures (Follows os live sock e) (settle os fuel sock start (record s { next = n }) e)
      go again = keep-Follows start s.request e v
      go blocked = keep-Follows start s.request e v
      go finished =
          Ensures-bind (λ e'. Follows os live sock e (true, e')) (Follows os live sock e)
            (log_and_drop os fuel sock start s.request e) (λ e'. ok (true, e'))
            (log_and_drop-Follows fuel start s.request e inside v) (λ _ h. h)
      go failed = drop_client-Follows false e.world e inside v

  -- Each `handle_request` for a registered socket that returns, whatever the peer and the kernel do,
  -- keeps the books: `total_served` and
  -- `max_concurrent` stay, and either the client stays registered, the result is 0 and the count of
  -- connections stays, or the client is gone, the count is one less without wrapping, and its slot
  -- is reset; the books are right again in both cases.
  pub handle_request-Follows :
      (fuel spins : ℕ) (e : Epoll os)
      → IsValid os live e
      → Ensures (Follows os live sock e) (handle_request os fuel spins sock e)
  unfolding handle_request
  handle_request-Follows fuel spins e v = elim (Bool-cases (ltb sock num_epoll_events)) [
    | inl inside ↦
        rw (inside, handle_request)
          (Ensures-after (Follows os live sock e)
            (serve_loop os fuel spins sock (e.clients sock).request e.flags
              (gettimeofday e.world).1)
            (λ s. settle os fuel sock (gettimeofday e.world).0 s (moved s))
            (λ s.
              settle-Follows fuel (gettimeofday e.world).0 s (moved s)
                (ltb→lt sock num_epoll_events inside) (IsValid-moved s.world s.flags v)))
    | inr outside ↦ rw (outside, handle_request) tt
  ]
    where
      moved : Served os → Epoll os
      moved s = record e { world = s.world; flags = s.flags }

pub enter-IsValid :
    (os : Os) (live : ℕ → Bool) (a : Accepted) (e : Epoll os)
    → a.sock < num_epoll_events
    → live a.sock ≡ false
    → e.total_served + 1 < size_mod
    → IsValid os live e
    → IsValid os (update live a.sock true) (enter os a e)
      × ((enter os a e).total_served ≡ e.total_served + 1)
      × ((enter os a e).connected_count ≡ e.connected_count + 1)
unfolding enter
enter-IsValid os live a e inside new room v = (
  record {
    counted = more ∙ sym connected;
    peak = ground arith;
    total = ground (arith, v.peak, v.total);
    small = omega (arith, total);
    owned = λ i h. ground (arith, v.owned i);
    idle = λ i h. ground (arith, v.idle i);
  },
  total,
  connected,
)
  where
    total : add_size e.total_served 1 ≡ e.total_served + 1
    total = omega arith

    connected : add_size e.connected_count 1 ≡ e.connected_count + 1
    connected = omega (arith, v.peak, v.total, v.small)

    more : count (λ b. b) num_epoll_events (update live a.sock true) ≡ e.connected_count + 1
    more =
        ground
          (arith, count-update (λ b. b) num_epoll_events live a.sock true inside, v.counted, new)

-- `add_client` always returns for a socket inside the array. A new client on a socket that was not
-- registered is entered in the books, unless `total_served` is about to wrap; on failure the books
-- stay as they are.
pub add_client-IsValid :
    (os : Os) (live : ℕ → Bool) (a : Accepted) (e : Epoll os)
    → a.sock < num_epoll_events
    → live a.sock ≡ false
    → e.total_served + 1 < size_mod
    → IsValid os live e
    → Returns
        (λ r.
          ((r.0 ≡ true)
            × IsValid os (update live a.sock true) r.1
            × (r.1.total_served ≡ e.total_served + 1)
            × (r.1.connected_count ≡ e.connected_count + 1))
          ⊎ ((r.0 ≡ false) × IsValid os live r.1 × (r.1.total_served ≡ e.total_served)))
        (add_client os a e)
unfolding add_client
add_client-IsValid os live a e inside new room v =
    elim (Bool-cases (os.set_nonblocking a.sock e.world).0) [
      | inr refused ↦ rw (refused, add_client) (inr (refl, IsValid-moved w e.flags v, refl))
      | inl unblocked ↦
          rw (unblocked, add_client)
            (elim (Bool-cases (os.epoll_ctl_add e.epfd a.sock w).0) [
              | inr refused ↦
                  rw (refused, add_client) (inr (refl, IsValid-moved w' e.flags v, refl))
              | inl added ↦
                  rw (added, add_client)
                    (rw (lt→ltb a.sock num_epoll_events inside, add_client)
                      (let (valid, total, connected) =
                          enter-IsValid os live a (record e { world = w' }) inside new room
                            (IsValid-moved w' e.flags v) in
                        inl (refl, valid, total, connected)))
            ])
    ]
  where
    w : os.World
    w = (os.set_nonblocking a.sock e.world).1

    w' : os.World
    w' = (os.epoll_ctl_add e.epfd a.sock w).1
