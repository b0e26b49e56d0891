-- ===== src/Tests/Tables.antt =====
-- A kernel with a table of descriptors: one client comes to socket 4 and gets socket 7.
use c8005_assn.Base.{
  ap, subst, ℕ, ◌≡◌, refl, Bool, true, false, Option, some, none, List, [], ◌∷◌, take, arith,
  update, if◌then◌else◌, ◌&&◌, not, inl, inr, Bool-cases,
}
use mathlib.Core.Option.{some-injective}
use c8005_assn.Os.{Os, Peer, ewouldblock}
use c8005_assn.Server.Descriptors.{
  Descriptors, IsSame, IsAccepted, IsOpened, IsCreated, IsTable, IsWatching, IsListening,
  IsSelecting, All, IsDistinct,
}
use c8005_assn.Tests.Sim.{idle_os}
use c8005_assn.Tests.Epolls.{no_peer}

pub record Kernel : Type 0 where
  pub opened : ℕ → Bool
  pub watched : ℕ → Bool
  -- A client is waiting to be accepted.
  pub waiting : Bool
  pub code : ℕ

abbrev ready_now : Bool → Bool → List ℕ
ready_now true true = 4 ∷ 7 ∷ []
ready_now true false = 4 ∷ []
ready_now false true = 7 ∷ []
ready_now false false = []

abbrev accept_when : Kernel → Bool → Option (ℕ × Peer) × Kernel
accept_when w true =
    (some (7, no_peer), record w { opened = update w.opened 7 true; waiting = false })
accept_when w false = (none, record w { code = ewouldblock })

abbrev socket_when : Kernel → Bool → Option ℕ × Kernel
socket_when w true = (none, w)
socket_when w false = (some 4, record w { opened = update w.opened 4 true })

-- Each client sends the size 0 at once.
abbrev pub table_os : Os
table_os = record (idle_os Kernel (λ w. w.code) (λ w. record w { code = ewouldblock })) {
  recv = λ sock n w. (some (take n (0 ∷ 0 ∷ 0 ∷ 0 ∷ [])), w);
  close = λ sock w. record w {
    opened = update w.opened sock false;
    watched = update w.watched sock false;
  };
  accept = λ acceptor w. accept_when w (w.waiting && not (w.opened 7));
  socket = λ w. socket_when w (w.opened 4);
  epoll_create = λ w. (some 3, record w { opened = update w.opened 3 true; watched = λ _. false });
  epoll_ctl_add = λ epfd sock w. (true, record w { watched = update w.watched sock true });
  epoll_ctl_del = λ epfd sock w. record w { watched = update w.watched sock false };
  select = λ n set w. (some (1, set), w);
  epoll_wait = λ epfd w. (some (ready_now (w.watched 4) (w.watched 7)), w);
}

abbrev pub table : Descriptors table_os
table = record {
  opened = λ w. w.opened;
  watched = λ w. w.watched;
  accepts = λ w. if w.waiting then 0 else 1;
  few =
      λ w. elim (Bool-cases w.waiting) [ inl b ↦ rw b (omega arith) | inr b ↦ rw b (omega arith) ];
}

same :
    (w w' : Kernel)
    → w'.opened ≡ w.opened
    → w'.watched ≡ w.watched
    → w'.waiting ≡ w.waiting
    → IsSame table w w'
same w w' a b c = record { opened = a; watched = b; accepts = rw c refl }

-- Whether `accept` gives a client: `waiting`, and whether descriptor 7 is open.
accept_refused :
    (w : Kernel) (g o : Bool)
    → w.waiting ≡ g
    → w.opened 7 ≡ o
    → (accept_when w (g && not o)).0 ≡ none
    → IsSame table w (accept_when w (g && not o)).1
accept_refused w true true a b h = same w _ refl refl refl
accept_refused w true false a b h = cc
accept_refused w false o a b h = same w _ refl refl refl

accept_given :
    (w : Kernel) (sock : ℕ) (peer : Peer) (g o : Bool)
    → w.waiting ≡ g
    → w.opened 7 ≡ o
    → (accept_when w (g && not o)).0 ≡ some (sock, peer)
    → IsAccepted table sock w (accept_when w (g && not o)).1
accept_given w sock peer true true a b h = cc
accept_given w sock peer true false a b h =
    let is_seven : 7 ≡ sock = ap (λ r. r.0) (some-injective _ _ h) in
    subst (λ s. IsAccepted table s w (accept_when w true).1) is_seven
      (record { fresh = b; opened = refl; watched = refl; accepts = rw a refl })
accept_given w sock peer false o a b h = cc

ready_now_lem :
    (watched : ℕ → Bool) (acceptor client : Bool)
    → watched 4 ≡ acceptor
    → watched 7 ≡ client
    → IsDistinct (ready_now acceptor client)
      × All (λ fd. watched fd ≡ true) (ready_now acceptor client)
ready_now_lem watched true true a b = ((((λ e. omega arith), tt), (tt, tt)), (a, (b, tt)))
ready_now_lem watched true false a b = ((tt, tt), (a, tt))
ready_now_lem watched false true a b = ((tt, tt), (b, tt))
ready_now_lem watched false false a b = (tt, tt)

pub table-IsTable : IsTable table
table-IsTable = record {
  on_recv = λ sock n w. same w w refl refl refl;
  on_send = λ sock bs w. same w w refl refl refl;
  on_malloc = λ n w. same w w refl refl refl;
  on_time = λ w. same w w refl refl refl;
  on_signal = λ w. same w w refl refl refl;
  on_nonblocking = λ sock w. same w w refl refl refl;
  on_write = λ fd line w. same w w refl refl refl;
  on_error = λ w. same w w refl refl refl;
  writes = λ fd line w. refl;
  settles = λ w. inl refl;
  on_struct = λ w. same w w refl refl refl;
  on_close = λ sock w. record { opened = refl; watched = refl; accepts = refl };
  on_refuse = λ acceptor w h. accept_refused w w.waiting (w.opened 7) refl refl h;
  on_accept = λ acceptor w sock peer h. accept_given w sock peer w.waiting (w.opened 7) refl refl h;
}

pub table-IsWatching : IsWatching table
table-IsWatching = record {
  on_wait = λ epfd w. same w w refl refl refl;
  ready = λ epfd w fds h.
      subst (λ l. IsDistinct l × All (λ fd. w.watched fd ≡ true) l) (some-injective _ _ h)
        (ready_now_lem w.watched (w.watched 4) (w.watched 7) refl refl);
  on_create = λ epfd w h.
      let is_three : 3 ≡ epfd = some-injective _ _ h in
      subst (λ k. IsCreated table k w (table_os.epoll_create w).1) is_three
        (record { opened = refl; watched = λ i. refl; accepts = refl });
  on_add = λ epfd sock w h. record { opened = refl; watched = refl; accepts = refl };
  on_add_refused = λ epfd sock w h. cc;
  on_remove = λ epfd sock w. record { opened = refl; watched = refl; accepts = refl };
}

pub table-IsSelecting : IsSelecting table
table-IsSelecting = record { on_select = λ n set w. same w w refl refl refl }

socket_given :
    (w : Kernel) (sock : ℕ) (o : Bool)
    → w.opened 4 ≡ o
    → (socket_when w o).0 ≡ some sock
    → IsOpened table sock w (socket_when w o).1
socket_given w sock true a h = cc
socket_given w sock false a h =
    subst (λ s. IsOpened table s w (socket_when w false).1) (some-injective _ _ h)
      (record { fresh = a; opened = refl; watched = refl; accepts = refl })

socket_refused :
    (w : Kernel) (o : Bool) → (socket_when w o).0 ≡ none → IsSame table w (socket_when w o).1
socket_refused w true h = same w w refl refl refl
socket_refused w false h = cc

pub table-IsListening : IsListening table
table-IsListening = record {
  on_getaddrinfo = λ port w. same w w refl refl refl;
  on_socket = λ sock w h. socket_given w sock (w.opened 4) refl h;
  on_no_socket = λ w h. socket_refused w (w.opened 4) h;
  on_reuse = λ sock w. same w w refl refl refl;
  on_bind = λ sock w. same w w refl refl refl;
  on_listen = λ sock w. same w w refl refl refl;
  on_shutdown = λ sock w. same w w refl refl refl;
  on_freeaddrinfo = λ w. same w w refl refl refl;
}
