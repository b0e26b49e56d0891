-- ===== src/Tests/Pairs.antt =====
-- A kernel with a connection at each socket, of which 7 and 9 have something to read.
use c8005_assn.Base.{
  ◌==◌, if◌then◌else◌, ℕ, ◌≡◌, ◌≢◌, refl, ap, sym, ◌∙◌, Bool, true, false, Option, some, List, [],
  ◌∷◌, ◌++◌, length, length-replicate, arith, update, eq→==, ne→==, count-none, count-update, inl,
  ok,
}
use mathlib.Core.Option.{some-injective}
use c8005_assn.Os.{Os, ewouldblock}
use c8005_assn.Os.Stream.{Connection, Arrived, Writable, Heap}
use c8005_assn.Server.Request.Session.{frames, IsCalm}
use c8005_assn.Server.Epoll.{Epoll, no_request, num_epoll_events, event_round}
use c8005_assn.Server.Epoll.Invariant.{IsValid}
use c8005_assn.Server.Epoll.Round.Loop.{event_round-AllServed}
use c8005_assn.Server.Epoll.Round.{IsAlone, IsWaiting, AllServed}
use c8005_assn.Tests.Sim.{
  Wire, idle_os, receive, receive-some, receive-none, receive_ready, send_all, some-ne-none,
}
use c8005_assn.Tests.Epolls.{no_peer, messages, no_request-IsReady}

record Wires : Type 0 where
  lines : ℕ → Wire
  code : ℕ

abbrev at_line : Wires → ℕ → Wire → Wires
at_line w i x = record { lines = update w.lines i x; code = x.code }

abbrev received : ℕ → ℕ → Wires → Option (List ℕ) × Wires
received i n w = let (bs, x) = receive n (w.lines i) (w.lines i).inbox in (bs, at_line w i x)

abbrev sent : ℕ → List ℕ → Wires → Wires
sent i bs w = at_line w i (record (w.lines i) { outbox = (w.lines i).outbox ++ bs })

abbrev pair_os : Os
pair_os = record (idle_os Wires (λ w. w.code) (λ w. record w { code = ewouldblock })) {
  recv = λ i n w. received i n w;
  send = λ i bs w. (some (length bs), sent i bs w);
  epoll_wait = λ epfd w. (some (7 ∷ 9 ∷ []), w);
}

same_line : (w : Wires) (i : ℕ) (x : Wire) → (at_line w i x).lines i ≡ x
same_line w i x = rw (eq→== i i refl) refl

other_line : (w : Wires) (i j : ℕ) (x : Wire) → i ≢ j → (at_line w i x).lines j ≡ w.lines j
other_line w i j x ne = rw (ne→== i j ne) refl

abbrev line : (i : ℕ) → Connection pair_os i
line i = record {
  stream = λ w. (w.lines i).inbox;
  delivered = λ w. (w.lines i).outbox;
  recv_some = λ n w bs e.
      let (fits, order, out) = receive-some n (w.lines i) (w.lines i).inbox bs e in
      let same = same_line w i (receive n (w.lines i) (w.lines i).inbox).1 in
      (fits, order ∙ ap (λ x. bs ++ x.inbox) (sym same), ap (λ x. x.outbox) same ∙ out);
  recv_none = λ n w e.
      let (in_same, out) = receive-none n (w.lines i) (w.lines i).inbox refl e in
      let same = same_line w i (receive n (w.lines i) (w.lines i).inbox).1 in
      (ap (λ x. x.inbox) same ∙ in_same, ap (λ x. x.outbox) same ∙ out);
  send_some = λ bs w k e.
      let (fits, pos, out) = send_all bs (w.lines i).outbox k e in
      let same = same_line w i (record (w.lines i) { outbox = (w.lines i).outbox ++ bs }) in
      (fits, pos, ap (λ x. x.inbox) same, ap (λ x. x.outbox) same ∙ out);
  send_none = λ bs w e. absurd (some-ne-none (length bs) e);
  malloc_apart = λ n w. (refl, refl);
  signalled_apart = λ w. (refl, refl);
  time_apart = λ w. (refl, refl);
}

line_arrived : (i : ℕ) → Arrived pair_os i (line i)
line_arrived i = record {
  ready = λ n w p h. receive_ready n (w.lines i) (w.lines i).inbox p h;
  dry = λ n w p h. rw (h, receive) (refl, refl);
}

line_writable : (i : ℕ) → Writable pair_os i
line_writable i = record { takes = λ bs w h. (length bs, refl) }

pair_heap : Heap pair_os
pair_heap = record {
  malloc_length = λ n w bs e. ap length (sym (some-injective _ _ e)) ∙ length-replicate n 0;
}

pair-IsCalm : IsCalm pair_os
pair-IsCalm = record { quiet = λ w. refl; roomy = λ n w. (_, refl) }

pair-IsAlone : IsAlone pair_os line 2 3 4
pair-IsAlone = record {
  on_recv = λ i j k w ne.
      let same = other_line w i j (receive k (w.lines i) (w.lines i).inbox).1 ne in
      (ap (λ x. x.inbox) same, ap (λ x. x.outbox) same);
  on_send = λ i j bs w ne.
      let same = other_line w i j (record (w.lines i) { outbox = (w.lines i).outbox ++ bs }) ne in
      (ap (λ x. x.inbox) same, ap (λ x. x.outbox) same);
  on_drop = λ i j w ne. (refl, refl);
  on_end = λ i w. refl;
  on_wait = λ j w. (refl, refl);
  on_close = λ j w. (refl, refl);
  on_write = λ j text w. (refl, refl);
  on_error = λ j w. (refl, refl);
  ends = λ w. inl (λ e. omega (arith, e));
}

-- What the two clients have sent: two messages of three bytes, and one of one.
abbrev sessions : ℕ → List (List ℕ)
sessions i = if i == 7 then messages else (8 ∷ []) ∷ []

abbrev two_clients : Epoll pair_os
two_clients = record {
  world = record {
    lines = λ i. record { inbox = frames (sessions i); outbox = []; code = 0 };
    code = 0;
  };
  flags = record { done = false; handled = false };
  log_fd = 2;
  max_concurrent = 2;
  total_served = 2;
  epfd = 3;
  clients = λ i. record { client = record { peer = no_peer; sock = some i }; request = no_request };
  connected_count = 2;
}

abbrev both : ℕ → Bool
both = update (update (λ _. false) 7 true) 9 true

two_clients-IsValid : IsValid pair_os both two_clients
two_clients-IsValid = record {
  counted = omega (
    arith,
    count-update (λ b. b) num_epoll_events (update (λ _. false) 7 true) 9 true (omega arith),
    count-update (λ b. b) num_epoll_events (λ _. false) 7 true (omega arith),
    count-none (λ (b : Bool). b) num_epoll_events (λ _. false) (λ i. refl),
  );
  peak = omega arith;
  total = omega arith;
  small = omega arith;
  owned = λ i h. refl;
  idle = λ i h. refl;
}

abbrev sizes : ℕ → ℕ
sizes i = if i == 7 then 3 else 1

seven_waits : IsWaiting pair_os line both 4 4 sizes sessions two_clients 7
seven_waits = record {
  is_live = refl;
  inside = omega arith;
  client = λ e. omega (arith, e);
  ready = no_request-IsReady;
  sizes = (refl, (refl, tt));
  positive = omega arith;
  small = omega arith;
  arrived = refl;
  enough = omega arith;
}

nine_waits : IsWaiting pair_os line both 4 4 sizes sessions two_clients 9
nine_waits = record {
  is_live = refl;
  inside = omega arith;
  client = λ e. omega (arith, e);
  ready = record { aligned = refl; aligned_next = refl; size_bytes = refl; buffer = inl refl };
  sizes = (refl, tt);
  positive = omega arith;
  small = omega arith;
  arrived = refl;
  enough = omega arith;
}

event_round-AllServed_example :
    (e' : Epoll pair_os) × (event_round pair_os 5 1 4 two_clients ≡ ok (true, e'))
    × AllServed pair_os line both sessions (7 ∷ 9 ∷ []) two_clients e'
event_round-AllServed_example =
    event_round-AllServed pair_os line line_arrived line_writable pair_heap pair-IsCalm 2 3 4
      pair-IsAlone both 4 0 sizes sessions (7 ∷ 9 ∷ []) two_clients refl
      (((λ e. omega (arith, e)), tt), (tt, tt)) (seven_waits, (nine_waits, tt)) two_clients-IsValid
      refl refl refl
