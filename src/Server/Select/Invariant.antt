-- ===== src/Server/Select/Invariant.antt =====
-- The bookkeeping of server/select_server.c: the counters, the two arrays and `max_fd`.
use c8005_assn.Base.{
  count-some, Ensures-after, sub_size, ℕ, ◌+◌, ◌≡◌, ◌≢◌, refl, ◌≤◌, ◌<◌, ◌⊎◌, inl, inr, Bool, true,
  false, arith, ltb, none, some, size_mod, count, count-update, one_if, update, ok, Ensures,
  Ensures-bind, Bool-cases, ltb→lt,
}
use c8005_assn.Os.{Os, Timeval}
use c8005_assn.Server.Signals.{Flags}
use c8005_assn.Server.Acceptor.{Client}
use c8005_assn.Server.Timing.{add_time}
use c8005_assn.Server.Request.{Request, Next, again, blocked, finished, failed, Served, serve_loop}
use c8005_assn.Server.Epoll.{no_request}
use c8005_assn.Util.Log.{log_msg}
use c8005_assn.Server.Select.{
  Select, fd_setsize, keep, drop_client, log_and_drop, settle, handle_request,
}

-- Whether a slot holds a socket.
abbrev pub is_live : Client → Bool
is_live c = elim c.sock [ none ↦ false | some fd ↦ true ]

-- The acceptor's slot holds the acceptor's socket, and every other slot with a socket is a client's.
pub record IsValid (os : Os) (acceptor : ℕ) (e : Select os) : Type 0 where
  pub counted : count is_live fd_setsize e.clients ≡ e.connected_count + 1
  pub accepting : (e.clients acceptor).sock ≡ some acceptor
  pub owned : (i fd : ℕ) → (e.clients i).sock ≡ some fd → fd ≡ i
  pub reset : (i : ℕ) → (e.clients i).sock ≡ none → e.requests i ≡ no_request
  pub below : (i : ℕ) → (e.clients i).sock ≢ none → i ≤ e.max_fd
  pub peak : e.connected_count ≤ e.max_concurrent
  pub total : e.max_concurrent ≤ e.total_served
  pub small : e.total_served < size_mod

-- The world, the flags and the set are not in the books.
pub IsValid-moved :
    {os : Os} {acceptor : ℕ} {e : Select os} (w : os.World) (f : Flags)
    → IsValid os acceptor e
    → IsValid os acceptor (record e { world = w; flags = f })
IsValid-moved w f v = record {
  counted = v.counted;
  accepting = v.accepting;
  owned = v.owned;
  reset = v.reset;
  below = v.below;
  peak = v.peak;
  total = v.total;
  small = v.small;
}

-- After a request the client stays, or its slot is empty; the other slots are as they were.
abbrev pub Follows : (os : Os) → ℕ → ℕ → Select os → Bool × Select os → Type 0
Follows os acceptor sock e r =
    IsValid os acceptor r.1
    × (r.1.total_served ≡ e.total_served)
    × (r.1.max_concurrent ≡ e.max_concurrent)
    × ((i : ℕ) → i ≢ sock → (r.1.clients i ≡ e.clients i) × (r.1.requests i ≡ e.requests i))
    × (((r.0 ≡ true)
          × (r.1.connected_count ≡ e.connected_count)
          × (r.1.clients sock ≡ e.clients sock))
        ⊎ ((r.1.connected_count + 1 ≡ e.connected_count) × ((r.1.clients sock).sock ≡ none)))

module _ (os : Os) (acceptor sock : ℕ) (client : sock ≢ acceptor) where
  open os use {World, gettimeofday, format_csv}

  pub keep-Follows :
      (start : Timeval) (r : Request) (e : Select os)
      → (e.clients sock).sock ≡ some sock
      → IsValid os acceptor e
      → Follows os acceptor sock e (true, keep os sock start r e)
  unfolding keep
  keep-Follows start r e live v = (
    record {
      counted = v.counted;
      accepting = v.accepting;
      owned = v.owned;
      reset = λ i h. ground (arith, v.reset i h, live);
      below = v.below;
      peak = v.peak;
      total = v.total;
      small = v.small;
    },
    refl,
    refl,
    λ i h. (refl, ground (arith, h)),
    inl (refl, refl, refl),
  )

  pub drop_client-Follows :
      (b : Bool) (w : World) (e : Select os)
      → (e.clients sock).sock ≡ some sock
      → sock < fd_setsize
      → acceptor < fd_setsize
      → IsValid os acceptor e
      → Follows os acceptor sock e (b, drop_client os sock w e)
  unfolding drop_client
  drop_client-Follows b w e live inside room v = (
    record {
      counted = omega (arith, less, pred);
      accepting = ground (arith, v.accepting, client);
      owned = λ i fd h. ground (arith, v.owned i fd);
      reset = λ i h. ground (arith, v.reset i);
      below = λ i h. ground (arith, v.below i);
      peak = omega (arith, pred, v.peak);
      total = v.total;
      small = v.small;
    },
    refl,
    refl,
    λ i h. (ground (arith, h), ground (arith, h)),
    inr (pred, ground arith),
  )
    where
      gone : ℕ → Client
      gone = update e.clients sock (record (e.clients sock) { sock = none })

      was_live : one_if (is_live (e.clients sock)) ≡ 1
      was_live = rw live

      less : count is_live fd_setsize gone ≡ e.connected_count
      less = omega (
        arith,
        count-update is_live fd_setsize e.clients sock (record (e.clients sock) { sock = none })
            inside,
        v.counted,
        was_live,
      )

      accepts : is_live (gone acceptor) ≡ true
      accepts = ground (arith, v.accepting, client)

      pred : sub_size e.connected_count 1 + 1 ≡ e.connected_count
      pred = omega (
        arith,
        less,
        count-some is_live fd_setsize gone acceptor room accepts,
        v.peak,
        v.total,
        v.small,
      )

  log_and_drop-Follows :
      (fuel : ℕ) (start : Timeval) (r : Request) (e : Select os)
      → (e.clients sock).sock ≡ some sock
      → sock < fd_setsize
      → acceptor < fd_setsize
      → IsValid os acceptor e
      → Ensures (λ e'. Follows os acceptor sock e (true, e')) (log_and_drop os fuel sock start r e)
  unfolding log_and_drop
  log_and_drop-Follows fuel start r e live inside room v =
      let (end, w) = gettimeofday e.world in
      let line =
        format_csv (add_time r.transfer_time start end) r.transferred (e.clients sock).peer in
      Ensures-after (λ e'. Follows os acceptor sock e (true, e')) (log_msg os fuel e.log_fd line w)
        (λ p. ok (drop_client os sock p.1 e))
        (λ p. drop_client-Follows true p.1 e live inside room v)

  settle-Follows :
      (fuel : ℕ) (start : Timeval) (s : Served os) (e : Select os)
      → (e.clients sock).sock ≡ some sock
      → sock < fd_setsize
      → acceptor < fd_setsize
      → IsValid os acceptor e
      → Ensures (Follows os acceptor sock e) (settle os fuel sock start s e)
  unfolding settle
  settle-Follows fuel start s e live inside room v = go s.next
    where
      go :
          (n : Next)
          → Ensures
              (Follows os acceptor sock e)
              (settle os fuel sock start (record s { next = n }) e)
      go again = keep-Follows start s.request e live v
      go blocked = keep-Follows start s.request e live v
      go finished =
          Ensures-bind (λ e'. Follows os acceptor sock e (true, e')) (Follows os acceptor sock e)
            (log_and_drop os fuel sock start s.request e) (λ e'. ok (true, e'))
            (log_and_drop-Follows fuel start s.request e live inside room v) (λ _ h. h)
      go failed = drop_client-Follows false e.world e live inside room v

  -- `handle_request` of the `select` server for a client's socket, if it returns and whatever the peer and the kernel
  -- do: the invariant of the books holds after it, `total_served`, `max_concurrent` and the other
  -- slots, their clients and their requests, stay, and either the client stays with the result 0, or its slot is empty and the count of
  -- connections is one less without wrapping.
  pub select_request-Follows :
      (fuel spins : ℕ) (e : Select os)
      → (e.clients sock).sock ≡ some sock
      → acceptor < fd_setsize
      → IsValid os acceptor e
      → Ensures (Follows os acceptor sock e) (handle_request os fuel spins sock e)
  unfolding handle_request
  select_request-Follows fuel spins e live room v = elim (Bool-cases (ltb sock fd_setsize)) [
    | inl inside ↦
        rw (inside, handle_request)
          (Ensures-after (Follows os acceptor sock e)
            (serve_loop os fuel spins sock (e.requests sock) e.flags (gettimeofday e.world).1)
            (λ s. settle os fuel sock (gettimeofday e.world).0 s (moved s)) (λ s. follows s inside))
    | inr outside ↦ rw (outside, handle_request) tt
  ]
    where
      moved : Served os → Select os
      moved s = record e { world = s.world; flags = s.flags }

      follows :
          (s : Served os)
          → ltb sock fd_setsize ≡ true
          → Ensures
              (Follows os acceptor sock e)
              (settle os fuel sock (gettimeofday e.world).0 s (moved s))
      follows s inside =
          settle-Follows fuel (gettimeofday e.world).0 s (moved s) live
            (ltb→lt sock fd_setsize inside) room (IsValid-moved s.world s.flags v)
