-- ===== src/Server/Epoll/Round.antt =====
-- A round of the loop of server/epoll_server.c in which the sessions of several clients have arrived.
pub mod Loop
use c8005_assn.Base.{
  ℕ, suc, ◌+◌, ◌*◌, ◌^◌, ◌<◌, ◌≤◌, ◌≡◌, ◌≢◌, ◌∙◌, refl, sym, ap, subst, arith, Bool, true, false,
  some, none, List, [], ◌∷◌, ◌++◌, length, ne→==, Run, ok, Ensures-ok, ◌>>=◌, update,
}
use c8005_assn.Os.{Os}
use c8005_assn.Os.Stream.{Connection, Arrived, Writable, Heap}
use c8005_assn.Server.Signals.{load_done, load_done-quiet, load_done-world}
use c8005_assn.Util.Log.Laws.{IsKept, EndsWithin}
use c8005_assn.Server.Descriptors.{All, All-both, IsDistinct}
use c8005_assn.Server.Request.Untouched.{IsUntouched}
use c8005_assn.Server.Request.Session.{frames, concat, AllLength, IsReady, IsCalm}
use c8005_assn.Server.Epoll.{
  Epoll, no_request, num_epoll_events, handle_request, run_events, event_round,
}
use c8005_assn.Server.Epoll.Invariant.{IsValid, IsValid-moved}
use c8005_assn.Server.Epoll.Service.{IsApart, IsServed, handle_request-session}
use c8005_assn.Server.Epoll.Untouched.{handle_request-Ensures}

module _ (os : Os) (c : (i : ℕ) → Connection os i) where
  open os use {World, recv, send, close, epoll_ctl_del, epoll_wait, aio_write, aio_error}

  -- Nothing has been received or sent at socket `j`.
  abbrev pub SameAt : ℕ → World → World → Type 0
  SameAt j w v = ((c j).stream v ≡ (c j).stream w) × ((c j).delivered v ≡ (c j).delivered w)

  -- Connections that do not disturb each other, nor does the log.
  pub record IsAlone (log_fd epfd n : ℕ) : Type 0 where
    pub on_recv : (i j k : ℕ) (w : World) → i ≢ j → SameAt j w (recv i k w).1
    pub on_send : (i j : ℕ) (bs : List ℕ) (w : World) → i ≢ j → SameAt j w (send i bs w).1
    pub on_drop : (i j : ℕ) (w : World) → i ≢ j → SameAt j w (close i (epoll_ctl_del epfd i w))
    pub on_end :
        (i : ℕ) (w : World) → (c i).delivered (close i (epoll_ctl_del epfd i w)) ≡ (c i).delivered w
    pub on_wait : (j : ℕ) (w : World) → SameAt j w (epoll_wait epfd w).1
    pub on_close : (j : ℕ) (w : World) → SameAt j w (close log_fd w)
    pub on_write : (j : ℕ) (line : List ℕ) (w : World) → SameAt j w (aio_write log_fd line w).1
    pub on_error : (j : ℕ) (w : World) → SameAt j w (aio_error w).1
    pub ends : (w : World) → EndsWithin os log_fd n w

  pub SameAt-trans : (j : ℕ) (u v w : World) → SameAt j u v → SameAt j v w → SameAt j u w
  SameAt-trans j u v w (s, d) (s', d') = (s' ∙ s, d' ∙ d)

  -- A client whose session has arrived: its messages, of `m` bytes each, and the size 0.
  pub record IsWaiting (live : ℕ → Bool) (acceptor n : ℕ) (m : ℕ → ℕ) (bodies : ℕ → List (List ℕ))
      (e : Epoll os) (i : ℕ) : Type 0 where
    pub is_live : live i ≡ true
    pub inside : i < num_epoll_events
    pub client : i ≢ acceptor
    pub ready : IsReady (m i) (e.clients i).request
    pub sizes : AllLength (m i) (bodies i)
    pub positive : 0 < m i
    pub small : m i < 2 ^ 32
    pub arrived : (c i).stream e.world ≡ frames (bodies i)
    pub enough : 2 * length (bodies i) ≤ n

  -- A client that has been served.
  pub record IsAnswered (bodies : ℕ → List (List ℕ)) (e e' : Epoll os) (i : ℕ) : Type 0 where
    pub echoed : (c i).delivered e'.world ≡ (c i).delivered e.world ++ concat (bodies i)
    pub reset : (e'.clients i).request ≡ no_request
    pub closed : (e'.clients i).client.sock ≡ none

  -- The registered sockets without some of them.
  abbrev pub without : List ℕ → (ℕ → Bool) → ℕ → Bool
  without [] live = live
  without (i ∷ is) live = without is (update live i false)

  -- What serving the clients `fds` leaves.
  pub record AllServed (live : ℕ → Bool) (bodies : ℕ → List (List ℕ)) (fds : List ℕ)
      (e e' : Epoll os) : Type 0 where
    pub answered : All (IsAnswered bodies e e') fds
    pub others :
        (j : ℕ) → All (λ i. i ≢ j) fds → SameAt j e.world e'.world × (e'.clients j ≡ e.clients j)
    pub valid : IsValid os (without fds live) e'
    pub connected : e'.connected_count + length fds ≡ e.connected_count

module _ (os : Os) (c : (i : ℕ) → Connection os i) (a : (i : ℕ) → Arrived os i (c i))
    (o : (i : ℕ) → Writable os i) (heap : Heap os) (calm : IsCalm os) (log_fd epfd n : ℕ)
    (alone : IsAlone os c log_fd epfd n) where
  open os use {World, epoll_wait}

  kept : (i j : ℕ) (w : World) → i ≢ j → IsUntouched os i (SameAt os c j w)
  kept i j w ne = record {
    quiet = record {
      on_recv = λ k v p. SameAt-trans os c j w v _ p (alone.on_recv i j k v ne);
      on_send = λ bs v p. SameAt-trans os c j w v _ p (alone.on_send i j bs v ne);
    };
    on_malloc = λ k v p. SameAt-trans os c j w v _ p ((c j).malloc_apart k v);
    on_signal = λ v p. SameAt-trans os c j w v _ p ((c j).signalled_apart v);
    on_time = λ v p. SameAt-trans os c j w v _ p ((c j).time_apart v);
  }

  kept_log : (j : ℕ) (w : World) → IsKept os log_fd (SameAt os c j w)
  kept_log j w = record {
    kept_close = λ v p. SameAt-trans os c j w v _ p (alone.on_close j v);
    kept_write = λ line v p. SameAt-trans os c j w v _ p (alone.on_write j line v);
    kept_error = λ v p. SameAt-trans os c j w v _ p (alone.on_error j v);
  }

  apart :
      (i : ℕ) (e : Epoll os)
      → e.log_fd ≡ log_fd
      → e.epfd ≡ epfd
      → IsApart os i (c i) n e.log_fd e.epfd
  apart i e same_log same =
      subst (λ l. IsApart os i (c i) n l e.epfd) (sym same_log)
        (subst (IsApart os i (c i) n log_fd) (sym same) (record {
          log = λ d. record {
            kept_close = λ w h. (alone.on_close i w).1 ∙ h;
            kept_write = λ line w h. (alone.on_write i line w).1 ∙ h;
            kept_error = λ w h. (alone.on_error i w).1 ∙ h;
          };
          drop = alone.on_end i;
          ends = alone.ends;
        }))

  -- One client is served, and the others are not touched.
  pub serve-one :
      (live : ℕ → Bool) (acceptor spins : ℕ) (m : ℕ → ℕ) (bodies : ℕ → List (List ℕ)) (fd : ℕ)
      (e : Epoll os)
      → IsValid os live e
      → e.flags.done ≡ false
      → e.log_fd ≡ log_fd
      → e.epfd ≡ epfd
      → IsWaiting os c live acceptor n m bodies e fd
      → (e' : Epoll os) × (handle_request os (suc n) (suc spins) fd e ≡ ok (true, e'))
        × IsServed os fd (c fd) live e e' (concat (bodies fd))
        × ((j : ℕ) → fd ≢ j → SameAt os c j e.world e'.world)
  serve-one live acceptor spins m bodies fd e v d same_log same x =
      let (e', q, served) =
        handle_request-session os fd (c fd) (a fd) (o fd) heap calm live (m fd) n spins e
          (bodies fd) v x.is_live x.inside x.ready d (apart fd e same_log same) x.sizes x.positive
          x.small x.arrived x.enough in
      (
        e',
        q,
        served,
        λ j ne.
            Ensures-ok (λ r. SameAt os c j e.world r.1.world)
              (handle_request os (suc n) (suc spins) fd e) (true, e')
              (handle_request-Ensures os fd n log_fd epfd (SameAt os c j e.world)
                (kept fd j e.world ne) (kept_log j e.world) alone.ends
                (λ w p. SameAt-trans os c j e.world w _ p (alone.on_drop fd j w ne)) (suc spins) e
                same_log same (refl, refl))
              q,
      )

  -- Where only the world has moved and nothing has come or gone, a client waits on.
  pub IsWaiting-moved :
      (live live' : ℕ → Bool) (acceptor : ℕ) (m : ℕ → ℕ) (bodies : ℕ → List (List ℕ))
      (e e' : Epoll os) (i : ℕ)
      → live' i ≡ live i
      → e'.clients i ≡ e.clients i
      → (c i).stream e'.world ≡ (c i).stream e.world
      → IsWaiting os c live acceptor n m bodies e i
      → IsWaiting os c live' acceptor n m bodies e' i
  IsWaiting-moved live live' acceptor m bodies e e' i still slot stream x = record {
    is_live = still ∙ x.is_live;
    inside = x.inside;
    client = x.client;
    ready = subst (λ s. IsReady (m i) s.request) (sym slot) x.ready;
    sizes = x.sizes;
    positive = x.positive;
    small = x.small;
    arrived = stream ∙ x.arrived;
    enough = x.enough;
  }

  -- What two parts of the `for` leave together: `fd` is served, and then `fds` are.
  pub AllServed-cons :
      (live : ℕ → Bool) (bodies : ℕ → List (List ℕ)) (fd : ℕ) (fds : List ℕ) (e e1 e2 e' : Epoll os)
      → All (λ other. other ≢ fd) fds
      → ((j : ℕ) → SameAt os c j e.world e1.world)
      → e1.clients ≡ e.clients
      → e1.connected_count ≡ e.connected_count
      → IsServed os fd (c fd) live e1 e2 (concat (bodies fd))
      → ((j : ℕ) → fd ≢ j → SameAt os c j e1.world e2.world)
      → AllServed os c (update live fd false) bodies fds e2 e'
      → AllServed os c live bodies (fd ∷ fds) e e'
  AllServed-cons live bodies fd fds e e1 e2 e' distinct looked slots count served apart rest =
      let (after, slot) = rest.others fd distinct in
      record {
        answered = (
          record {
            echoed = after.1 ∙ served.echoed ∙ ap (λ t. t ++ concat (bodies fd)) (looked fd).1;
            reset = ap (λ s. s.request) slot ∙ served.reset;
            closed = ap (λ s. s.client.sock) slot ∙ served.closed;
          },
          All-both fds
              (λ i x ne. record {
                echoed =
                    x.echoed
                    ∙ ap (λ t. t ++ concat (bodies i))
                        ((apart i (λ q. ne (sym q))).1 ∙ (looked i).1);
                reset = x.reset;
                closed = x.closed;
              })
              rest.answered distinct,
        );
        others = λ j (ne, nes).
            let (same, slot') = rest.others j nes in
            (
              SameAt-trans os c j e.world e1.world e'.world (looked j)
                  (SameAt-trans os c j e1.world e2.world e'.world (apart j ne) same),
              slot' ∙ served.others j (λ q. ne (sym q)) ∙ ap (λ t. t j) slots,
            );
        valid = rest.valid;
        connected = omega (arith, rest.connected, served.connected, count);
      }
