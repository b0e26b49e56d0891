-- ===== src/Tests/Sim.antt =====
-- A kernel with one connection, whose peer has sent all its bytes and reads all that it is sent.
use c8005_assn.Base.{
  ◌∙◌, sym, ℕ, zero, suc, ◌≡◌, ◌≢◌, ◌≤◌, ◌<◌, refl, ap, true, false, Option, none, some, List, [],
  ◌∷◌, ◌++◌, arith, length, take, drop, replicate, take-append-drop, length-take, length-replicate,
  take_all,
}
use mathlib.Core.Option.{some-injective}
use c8005_assn.Os.{Os, ewouldblock}
use c8005_assn.Os.Stream.{Connection, Arrived, Writable, Heap}

pub record Wire : Type 0 where
  pub inbox : List ℕ
  pub outbox : List ℕ
  pub code : ℕ

abbrev pub receive : ℕ → Wire → List ℕ → Option (List ℕ) × Wire
receive n w [] = (none, record w { code = ewouldblock })
receive n w (b ∷ bs) = (some (take n (b ∷ bs)), record w { inbox = drop n (b ∷ bs) })

-- A kernel in which nothing comes and every call succeeds; `block` sets `errno` where there is nothing.
abbrev pub idle_os : (World : Type 0) → (World → ℕ) → (World → World) → Os
idle_os World errno block = record {
  World = World;
  errno = errno;
  recv = λ sock n w. (none, block w);
  send = λ sock bs w. (some (length bs), w);
  close = λ sock w. w;
  malloc = λ n w. (some (replicate n 0), w);
  gettimeofday = λ w. (record { tv_sec = 1; tv_usec = 5 }, w);
  signalled = λ w. (false, w);
  accept = λ sock w. (none, block w);
  set_nonblocking = λ sock w. (true, w);
  shutdown = λ sock w. w;
  freeaddrinfo = λ w. w;
  malloc_struct = λ w. (true, w);
  epoll_create = λ w. (some 3, w);
  epoll_ctl_add = λ epfd sock w. (true, w);
  epoll_ctl_del = λ epfd sock w. w;
  epoll_wait = λ epfd w. (some [], w);
  select = λ n set w. (some (0, λ _. false), w);
  getaddrinfo = λ port w. (true, w);
  socket = λ w. (some 5, w);
  set_reuse = λ sock w. (true, w);
  bind = λ sock w. (true, w);
  listen = λ sock w. (true, w);
  open_log = λ name w. (some 2, w);
  fsync = λ fd w. (true, w);
  setrlimit = λ n w. (true, w);
  mutex_init = λ w. (some 0, w);
  thread_create = λ w. (some 0, w);
  thread_detach = λ w. (some 0, w);
  thread_join = λ w. w;
  resolve = λ w. (some (1 ∷ []), w);
  connect = λ sock address w. (false, w);
  rand = λ w. (63, w);
  usleep = λ w. w;
  format_result = λ count time received. [];
  format_csv = λ time transferred peer. [];
  aio_write = λ fd line w. (true, w);
  aio_error = λ w. (0, w);
}

abbrev pub sim : Os
sim = record (idle_os Wire (λ w. w.code) (λ w. record w { code = ewouldblock })) {
  recv = λ sock n w. receive n w w.inbox;
  send = λ sock bs w. (some (length bs), record w { outbox = w.outbox ++ bs });
}

abbrev pub outbox_of : Wire → List ℕ
outbox_of w = w.outbox

pub receive-some :
    (n : ℕ) (w : Wire) (inbox bs : List ℕ)
    → (receive n w inbox).0 ≡ some bs
    → (length bs ≤ n)
      × (inbox ≡ bs ++ (receive n w inbox).1.inbox)
      × ((receive n w inbox).1.outbox ≡ w.outbox)
receive-some n w [] bs e = cc
receive-some n w (x ∷ xs) bs e =
    let q : take n (x ∷ xs) ≡ bs = some-injective _ _ e in
    (
      omega (arith, length-take n (x ∷ xs), ap length q),
      sym (take-append-drop n (x ∷ xs)) ∙ ap (λ t. t ++ drop n (x ∷ xs)) q,
      refl,
    )

pub receive-none :
    (n : ℕ) (w : Wire) (inbox : List ℕ)
    → w.inbox ≡ inbox
    → (receive n w inbox).0 ≡ none
    → ((receive n w inbox).1.inbox ≡ w.inbox) × ((receive n w inbox).1.outbox ≡ w.outbox)
receive-none n w [] q e = (refl, refl)
receive-none n w (x ∷ xs) q e = cc

pub send_all :
    (bs out : List ℕ) (k : ℕ)
    → some (length bs) ≡ some k
    → (k ≤ length bs) × (bs ≢ [] → 0 < k) × (out ++ bs ≡ out ++ take k bs)
send_all bs out k e =
    let q : length bs ≡ k = some-injective _ _ e in
    (omega arith, not_empty bs k q, ap (λ t. out ++ t) (sym (take_all bs k (omega arith))))
  where
    not_empty : (bs : List ℕ) (k : ℕ) → length bs ≡ k → bs ≢ [] → 0 < k
    not_empty [] k q h = absurd (h refl)
    not_empty (b ∷ bs) k q h = omega arith

pub some-ne-none : (k : ℕ) → some k ≢ none
some-ne-none k e = cc

abbrev pub wire : Connection sim 7
wire = record {
  stream = λ w. w.inbox;
  delivered = λ w. w.outbox;
  recv_some = λ n w bs e. receive-some n w w.inbox bs e;
  recv_none = λ n w e. receive-none n w w.inbox refl e;
  send_some = λ bs w k e. let (fits, pos, out) = send_all bs w.outbox k e in (fits, pos, refl, out);
  send_none = λ bs w e. absurd (some-ne-none (length bs) e);
  malloc_apart = λ n w. (refl, refl);
  signalled_apart = λ w. (refl, refl);
  time_apart = λ w. (refl, refl);
}

pub receive_ready :
    (n : ℕ) (w : Wire) (inbox : List ℕ)
    → 0 < n
    → inbox ≢ []
    → (b : ℕ) × (bs : List ℕ) × ((receive n w inbox).0 ≡ some (b ∷ bs))
receive_ready n w [] p h = absurd (h refl)
receive_ready zero w (x ∷ xs) p h = elim p [ ]
receive_ready (suc n) w (x ∷ xs) p h = (x, take n xs, refl)

pub wire_arrived : Arrived sim 7 wire
wire_arrived = record {
  ready = λ n w p h. receive_ready n w w.inbox p h;
  dry = λ n w p h. rw (h, receive) (refl, refl);
}

pub wire_writable : Writable sim 7
wire_writable = record { takes = λ bs w h. (length bs, refl) }

pub sim_heap : Heap sim
sim_heap = record {
  malloc_length = λ n w bs e. ap length (sym (some-injective _ _ e)) ∙ length-replicate n 0;
}

abbrev pub wire_with : List ℕ → Wire
wire_with bs = record { inbox = bs; outbox = []; code = 0 }
