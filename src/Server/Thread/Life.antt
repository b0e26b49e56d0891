-- ===== src/Server/Thread/Life.antt =====
-- All that a worker of the thread server does for one client.
use c8005_assn.Base.{
  ℕ, suc, ◌<◌, ◌≤◌, ◌≡◌, ◌∙◌, ◌^◌, refl, ap, arith, some, List, ◌∷◌, ◌++◌, length, length-append,
  take, drop, take-length-append, drop-length-append, encode, decode, decode-encode, write_at,
  write_at_whole, Returns, Returns-bind, length-encode, subst,
}
use c8005_assn.Os.{Os}
use c8005_assn.Os.Stream.{Connection, Ready, Writable, Heap}
use c8005_assn.Protocol.Read.{read_data-Ready}
use c8005_assn.Util.Log.{log_msg}
use c8005_assn.Util.Log.Laws.{EndsWithin, IsKept, log_msg-Returns}
use c8005_assn.Server.Acceptor.{Accepted}
use c8005_assn.Server.Timing.{time_diff}
use c8005_assn.Server.Request.Session.{frames, concat, AllLength, IsCalm}
use c8005_assn.Server.Thread.{
  Request, Leave, served, finish_client, serve_rest, prepare, serve_client,
}
use c8005_assn.Server.Thread.Session.{serve_messages-echo}

-- What the kernel promises of the client's socket and of the log.
pub record IsServing {os : Os} {sock : ℕ} (c : Connection os sock) (log_fd spins : ℕ) : Type 0 where
  pub ready : Ready os sock c
  pub writable : Writable os sock
  pub heap : Heap os
  pub calm : IsCalm os
  pub kept : (d : List ℕ) → IsKept os log_fd (λ w. c.delivered w ≡ d)
  pub ends : (w : os.World) → EndsWithin os log_fd spins w
  pub closes : (w : os.World) → c.delivered (os.close sock w) ≡ c.delivered w

module _ (os : Os) (client : Accepted) (c : Connection os client.sock) (log_fd spins : ℕ)
    (k : IsServing c log_fd spins) where
  open os use {World, gettimeofday, format_csv, close}

  finish_client-Returns :
      (start : _) (r : Request) (w : World) (d : List ℕ)
      → c.delivered w ≡ d
      → Returns (λ w'. c.delivered w' ≡ d) (finish_client os (suc spins) log_fd client start r w)
  unfolding finish_client
  finish_client-Returns start r w d out =
      let (end, w') = gettimeofday (close client.sock w) in
      let line = format_csv (time_diff start end) r.transferred client.peer in
      Returns-bind (λ x. c.delivered x.1 ≡ d) (λ v. c.delivered v ≡ d)
        (log_msg os (suc spins) log_fd line w') _
        (log_msg-Returns os log_fd (λ v. c.delivered v ≡ d) (k.kept d) spins line w'
          (k.ends (os.aio_write log_fd line w').1)
          ((c.time_apart (close client.sock w)).1 ∙ k.closes w ∙ out))
        (λ x h. h)

  abbrev IsDone : List ℕ → Leave × World → Type 0
  IsDone d r = (r.0 ≡ served) × (c.delivered r.1 ≡ d)

  serve_rest-IsDone :
      (m : ℕ) (start : _) (r : Request) (block body : List ℕ) (bodies : List (List ℕ)) (w : World)
      → r.msg ≡ some block
      → length block ≡ m
      → r.msg_size ≡ encode 4 m
      → AllLength m (body ∷ bodies)
      → 0 < m
      → m < 2 ^ 32
      → c.stream w ≡ body ++ frames bodies
      → length bodies ≤ spins
      → Returns
          (IsDone (c.delivered w ++ concat (body ∷ bodies)))
          (serve_rest os (suc spins) log_fd client start r w)
  unfolding serve_rest
  serve_rest-IsDone m start r block body bodies w msg len raw all pos small arrived enough =
      let (r', w', e, out, left, counted) =
        serve_messages-echo os client.sock c k.ready k.writable m (suc spins) r block body bodies w
          msg len raw all pos small arrived (omega (arith, enough)) in
      rw (e, Returns)
        (Returns-bind (λ v. c.delivered v ≡ c.delivered w ++ concat (body ∷ bodies))
          (IsDone (c.delivered w ++ concat (body ∷ bodies)))
          (finish_client os (suc spins) log_fd client start r' w') _
          (finish_client-Returns start r' w' (c.delivered w ++ concat (body ∷ bodies)) out)
          (λ v h. (refl, h)))

  -- On a socket that takes bytes and gives what is to come, with memory and a log that ends its writes:
  -- a client sends at least one message of one size `m` other than 0, each with its size in front, and
  -- then the size 0. Whatever `msg_size` holds at first, the worker ends its service of the client
  -- without an error, and has sent each message back once, in order, and nothing else. As many rounds
  -- as messages are enough, and as the log needs.
  pub serve_client-session :
      (m : ℕ) (junk body : List ℕ) (bodies : List (List ℕ)) (w : World)
      → length junk ≡ 4
      → AllLength m (body ∷ bodies)
      → 0 < m
      → m < 2 ^ 32
      → c.stream w ≡ frames (body ∷ bodies)
      → length bodies ≤ spins
      → Returns
          (IsDone (c.delivered w ++ concat (body ∷ bodies)))
          (serve_client os (suc spins) log_fd client junk w)
  unfolding serve_client prepare
  serve_client-session m junk body bodies w four all pos small arrived enough =
      let (start, w1) = gettimeofday w in
      let arrived1 : c.stream w1 ≡ encode 4 (length body) ++ (body ++ frames bodies) =
        (c.time_apart w).0 ∙ arrived in
      let (t, e, p) = read_data-Ready os client.sock c k.ready 4 w1 (
        omega (
          arith,
          ap length arrived1,
          length-append (encode 4 (length body)) (body ++ frames bodies),
          length-encode 4 (length body),
        )) in
      let raw : write_at junk 0 t.bytes ≡ encode 4 m =
        write_at_whole junk t.bytes (omega (arith, p.length_stored, four))
        ∙ p.stored
        ∙ ap (take 4) arrived1
        ∙ take-length-append (encode 4 (length body)) (body ++ frames bodies)
        ∙ ap (encode 4) all.0 in
      let (block, got) = k.calm.roomy (decode (write_at junk 0 t.bytes)) t.world in
      let w2 = (os.malloc (decode (write_at junk 0 t.bytes)) t.world).1 in
      let apart = c.malloc_apart (decode (write_at junk 0 t.bytes)) t.world in
      let left : c.stream w2 ≡ body ++ frames bodies =
        apart.0
        ∙ p.rest
        ∙ ap (drop 4) arrived1
        ∙ drop-length-append (encode 4 (length body)) (body ++ frames bodies) in
      let before : c.delivered w2 ≡ c.delivered w = apart.1 ∙ p.silent ∙ (c.time_apart w).1 in
      let len : length block ≡ m =
        k.heap.malloc_length (decode (write_at junk 0 t.bytes)) t.world block got
        ∙ ap decode raw
        ∙ decode-encode m small in
      rw (e, Returns)
        (rw (p.whole, Returns)
          (rw (got, Returns)
            (subst
              (λ d. Returns (IsDone (d ++ concat (body ∷ bodies))) (
                serve_rest os (suc spins) log_fd client start
                  (record { transferred = 4; msg_size = write_at junk 0 t.bytes; msg = some block })
                  w2))
              before
              (serve_rest-IsDone m start
                (record { transferred = 4; msg_size = write_at junk 0 t.bytes; msg = some block })
                block body bodies w2 refl len raw all pos small left enough))))
