-- ===== src/Server/Request/Session.antt =====
-- A whole session: messages of one size, then the size 0, as client/main.c sends them.
use c8005_assn.Base.{
  ℕ, zero, suc, ◌+◌, ◌*◌, ◌%◌, ◌^◌, ◌<◌, ◌≡◌, refl, ap, ◌∙◌, ◌⊎◌, inl, inr, false, none, some, List,
  [], ◌∷◌, ◌++◌, append_assoc, append-nil, arith, length, take, length-append, encode, decode,
  decode-encode, mod-add_below, mod-add_wrap, ok,
}
use c8005_assn.Os.{Os}
use c8005_assn.Os.Stream.{Connection, Arrived, Writable, Heap}
use c8005_assn.Server.Signals.{Flags, load_done-quiet}
use c8005_assn.Server.Request.{
  Request, Served, again, finished, header_done, allocate, round, serve_loop,
}
use c8005_assn.Server.Request.Rounds.{round-message, round-header}

-- What a client sends for its messages: each with its size in front, and at the end a size of 0.
abbrev pub frames : List (List ℕ) → List ℕ
frames [] = encode 4 0
frames (body ∷ bodies) = encode 4 (length body) ++ (body ++ frames bodies)

abbrev pub concat : List (List ℕ) → List ℕ
concat [] = []
concat (body ∷ bodies) = body ++ concat bodies

abbrev pub AllLength : ℕ → List (List ℕ) → Type 0
AllLength m [] = Unit
AllLength m (body ∷ bodies) = (length body ≡ m) × AllLength m bodies

-- A request between two messages of `m` bytes, or before the first.
pub record IsReady (m : ℕ) (r : Request) : Type 0 where
  pub aligned : r.transferred % (r.msg_size + 4) ≡ 0
  pub aligned_next : r.transferred % (m + 4) ≡ 0
  pub size_bytes : length r.partial_msg_size ≡ 4
  pub buffer : (r.msg ≡ none) ⊎ ((block : List ℕ) × (r.msg ≡ some block) × (length block ≡ m))

into_frame : (t m : ℕ) → 0 < m → t % (m + 4) ≡ 0 → (t + 4) % (m + 4) ≡ 4
into_frame t m pos h = mod-add_below t 4 (m + 4) (omega arith) ∙ omega arith

out_of_frame : (t m k : ℕ) → k ≡ m → t % (m + 4) ≡ 4 → (t + k) % (m + 4) ≡ 0
out_of_frame t m k e h = mod-add_wrap t k (m + 4) (omega arith) (omega arith)

-- No signal comes, and memory does not run out.
pub record IsCalm (os : Os) : Type 0 where
  pub quiet : (w : os.World) → (os.signalled w).0 ≡ false
  pub roomy : (n : ℕ) (w : os.World) → (block : List ℕ) × ((os.malloc n w).0 ≡ some block)

module _ (os : Os) (sock : ℕ) (c : Connection os sock) (a : Arrived os sock c)
    (o : Writable os sock) (heap : Heap os) (calm : IsCalm os) where
  open os use {World, signalled, malloc}

  -- A size that is not 0 leaves a block of that size.
  header_done_more :
      (m : ℕ) (r : Request) (w : World)
      → decode r.partial_msg_size ≡ m
      → 0 < m
      → (r.msg ≡ none) ⊎ ((block : List ℕ) × (r.msg ≡ some block) × (length block ≡ m))
      → (block : List ℕ) × (w' : World) × (header_done os r w ≡ record {
        next = again;
        request = record r { msg_size = m; msg = some block };
        world = w';
      })
        × (length block ≡ m)
        × (c.stream w' ≡ c.stream w)
        × (c.delivered w' ≡ c.delivered w)
  unfolding header_done allocate
  header_done_more m r w e pos (inl q) =
      let (block, got) = calm.roomy m w in
      let apart = c.malloc_apart m w in
      (block, (malloc m w).1, ground arith, heap.malloc_length m w block got, apart.0, apart.1)
  header_done_more m r w e pos (inr (block, q, size)) = (block, w, ground arith, size, refl, refl)

  -- A round after which the loop goes on.
  serve_loop-again :
      (fuel spins : ℕ) (r r' : Request) (f : Flags) (w w' : World)
      → f.done ≡ false
      → round os spins sock r w ≡ ok (record { next = again; request = r'; world = w' })
      → serve_loop os (suc fuel) spins sock r f w
        ≡ serve_loop os fuel spins sock r' f (signalled w').1
  unfolding serve_loop
  serve_loop-again fuel spins r r' f w w' d e =
      ground (arith, e, load_done-quiet os f w' (calm.quiet w'), d)

  -- A round after which the client is done.
  serve_loop-finished :
      (fuel spins : ℕ) (r r' : Request) (f : Flags) (w w' : World)
      → round os spins sock r w ≡ ok (record { next = finished; request = r'; world = w' })
      → serve_loop os (suc fuel) spins sock r f w
        ≡ ok (record { next = finished; request = r'; flags = f; world = w' })
  unfolding serve_loop
  serve_loop-finished fuel spins r r' f w w' e = ground (arith, e)

  -- What two rounds of the loop leave of a message of `m` bytes.
  record IsEchoed (m fuel spins : ℕ) (r : Request) (f : Flags) (w : World) (body rest : List ℕ)
      (r' : Request) (w' : World) : Type 0 where
    goes_on :
        serve_loop os (suc (suc fuel)) (suc spins) sock r f w
        ≡ serve_loop os fuel (suc spins) sock r' f w'
    ready : IsReady m r'
    counted : r'.transferred ≡ r.transferred + (4 + m)
    timed : r'.transfer_time ≡ r.transfer_time
    left : c.stream w' ≡ rest
    out : c.delivered w' ≡ c.delivered w ++ body

  serve_loop-message :
      (m fuel spins : ℕ) (r : Request) (f : Flags) (w : World) (body rest : List ℕ)
      → IsReady m r
      → f.done ≡ false
      → length body ≡ m
      → 0 < m
      → m < 2 ^ 32
      → c.stream w ≡ encode 4 m ++ (body ++ rest)
      → (r' : Request) × (w' : World) × IsEchoed m fuel spins r f w body rest r' w'
  serve_loop-message m fuel spins r f w body rest ready d size pos small arrived =
      let r1 = record r {
        partial_msg_size = take 4 (c.stream w);
        transferred = r.transferred + 4;
      } in
      let (w1, e1, left1, out1) =
        round-header os sock c a (suc spins) r w ready.aligned ready.size_bytes
          (rw arrived (omega arith)) in
      let (block, w2, e2, len, left2, out2) =
        header_done_more m r1 w1 (rw arrived (decode-encode m small)) pos ready.buffer in
      let r2 = record r1 { msg_size = m; msg = some block } in
      let inside : (r.transferred + 4) % (m + 4) ≡ 4 =
        into_frame r.transferred m pos ready.aligned_next in
      let over : (r.transferred + 4 + length body) % (m + 4) ≡ 0 =
        out_of_frame (r.transferred + 4) m (length body) size inside in
      let s2 = c.signalled_apart w2 in
      let w3 = (signalled w2).1 in
      let (w4, e4, left4, out4) =
        round-message os sock c a o spins r2 block body rest w3 inside refl len size
          (s2.0 ∙ left2 ∙ left1 ∙ rw arrived) in
      let r4 = record r2 { msg = some body; transferred = r2.transferred + length body } in
      let s4 = c.signalled_apart w4 in
      (
        r4,
        (signalled w4).1,
        record {
          goes_on =
              serve_loop-again (suc fuel) (suc spins) r r2 f w w2 d (e1 ∙ ap ok e2)
              ∙ serve_loop-again fuel (suc spins) r2 r4 f w3 w4 d e4;
          ready = record {
            aligned = over;
            aligned_next = over;
            size_bytes = rw arrived;
            buffer = inr (body, refl, size);
          };
          counted = omega arith;
          timed = refl;
          left = s4.0 ∙ left4;
          out = s4.1 ∙ out4 ∙ ap (λ t. t ++ body) (s2.1 ∙ out2 ∙ out1);
        },
      )

  -- The size 0 ends the loop.
  serve_loop-goodbye :
      (m fuel spins : ℕ) (r : Request) (f : Flags) (w : World)
      → IsReady m r
      → c.stream w ≡ encode 4 0
      → (r' : Request) × (w' : World) × (serve_loop os (suc fuel) spins sock r f w
          ≡ ok (record { next = finished; request = r'; flags = f; world = w' }))
        × (r'.transferred ≡ r.transferred + 4)
        × (r'.transfer_time ≡ r.transfer_time)
        × (c.stream w' ≡ [])
        × (c.delivered w' ≡ c.delivered w)
  unfolding header_done
  serve_loop-goodbye m fuel spins r f w ready arrived =
      let (w', e, left, out) =
        round-header os sock c a spins r w ready.aligned ready.size_bytes
          (rw arrived (omega arith)) in
      let r1 = record r {
        partial_msg_size = take 4 (c.stream w);
        transferred = r.transferred + 4;
        msg_size = 0;
      } in
      (
        r1,
        w',
        serve_loop-finished fuel spins r r1 f w w' (e ∙ rw (arrived, header_done)),
        refl,
        refl,
        left ∙ rw arrived,
        out,
      )

  pub record IsSession (r : Request) (f : Flags) (w : World) (bodies : List (List ℕ))
      (s : Served os) : Type 0 where
    pub ended : s.next ≡ finished
    pub counted : s.request.transferred ≡ r.transferred + length (frames bodies)
    pub timed : s.request.transfer_time ≡ r.transfer_time
    pub flags : s.flags ≡ f
    pub left : c.stream s.world ≡ []
    pub echoed : c.delivered s.world ≡ c.delivered w ++ concat bodies

  -- No signal comes, memory does not run out, the socket takes bytes and all has arrived. Messages of
  -- one size `m` other than 0, each sent with its size and all of them followed by the size 0: the
  -- loop of `handle_request` sends each message back once, in order, counts all the bytes, and ends
  -- as a client that is done. Two rounds for each message and one more are enough.
  pub serve_loop-IsSession :
      (m fuel spins : ℕ) (r : Request) (f : Flags) (w : World) (bodies : List (List ℕ))
      → IsReady m r
      → f.done ≡ false
      → AllLength m bodies
      → 0 < m
      → m < 2 ^ 32
      → c.stream w ≡ frames bodies
      → 2 * length bodies < fuel
      → (s : Served os) × (serve_loop os fuel (suc spins) sock r f w ≡ ok s)
        × IsSession r f w bodies s
  serve_loop-IsSession m zero spins r f w bodies ready d all pos small arrived enough =
      elim enough [ ]
  serve_loop-IsSession m (suc fuel) spins r f w [] ready d all pos small arrived enough =
      let (r', w', e, counted, timed, left, out) =
        serve_loop-goodbye m fuel (suc spins) r f w ready arrived in
      (
        record { next = finished; request = r'; flags = f; world = w' },
        e,
        record {
          ended = refl;
          counted = counted;
          timed = timed;
          flags = refl;
          left = left;
          echoed = rw append-nil out;
        },
      )
  serve_loop-IsSession m (suc zero) spins r f w (body ∷ bodies) ready d all pos small arrived
        enough =
      absurd (omega arith)
  serve_loop-IsSession m (suc (suc fuel)) spins r f w (body ∷ bodies) ready d all pos small arrived
        enough =
      let (r', w', p) =
        serve_loop-message m fuel spins r f w body (frames bodies) ready d all.0 pos small
          (rw arrived (rw (all.0))) in
      let (s, e, q) =
        serve_loop-IsSession m fuel spins r' f w' bodies p.ready d all.1 pos small p.left
          (omega arith) in
      (
        s,
        p.goes_on ∙ e,
        record {
          ended = q.ended;
          counted = omega (arith, q.counted, p.counted, all.0, length-append body (frames bodies));
          timed = q.timed ∙ p.timed;
          flags = q.flags;
          left = q.left;
          echoed = q.echoed ∙ rw (p.out, append_assoc);
        },
      )
