-- ===== src/Server/Thread/Session.antt =====
-- A client of the thread server that sends messages of one size, and then the size 0.
use c8005_assn.Base.{
  ℕ, zero, suc, ◌+◌, ◌^◌, ◌<◌, ◌≡◌, refl, sym, ap, ◌∙◌, some, List, [], ◌∷◌, ◌++◌, append_assoc,
  append-nil, arith, length, take, drop, length-append, length-encode, encode, decode,
  decode-encode, ok, le→leb, ne→==, write_at, write_at_whole, take-length-append,
  drop-length-append, take_all, drop_all,
}
use c8005_assn.Os.{Os}
use c8005_assn.Os.Stream.{Connection, Ready, Writable}
use c8005_assn.Protocol.{Received, read_data}
use c8005_assn.Protocol.Read.{read_data-Ready}
use c8005_assn.Protocol.Write.{send_data-Writable}
use c8005_assn.Server.Request.{store}
use c8005_assn.Server.Request.Rounds.{store_lem}
use c8005_assn.Server.Request.Session.{frames, concat, AllLength}
use c8005_assn.Server.Thread.{Request, send_back, serve_message, serve_messages}

module _ (os : Os) (sock : ℕ) (c : Connection os sock) (a : Ready os sock c)
    (o : Writable os sock) where
  open os use {World}

  send_back_whole :
      (r : Request) (block : List ℕ) (w : World)
      → r.msg ≡ some block
      → 0 < decode r.msg_size
      → length block ≡ decode r.msg_size
      → (w' : World) × (send_back os sock r w ≡ ok w')
        × (c.delivered w' ≡ c.delivered w ++ block)
        × (c.stream w' ≡ c.stream w)
  unfolding send_back
  send_back_whole r block w m pos len =
      let (s, e, full, out, unread) = send_data-Writable os sock c block o w in
      (
        s.world,
        rw (ne→== (decode r.msg_size) 0 (omega arith), send_back)
            (rw (m, send_back)
              (rw (le→leb (decode r.msg_size) (length block) (omega arith), send_back)
                (rw (take_all block (decode r.msg_size) (omega arith)) (rw e)))),
        out,
        unread,
      )

  -- What a message of `m` bytes and the four bytes behind it leave.
  record IsEchoed (r : Request) (w : World) (body size rest : List ℕ) (r' : Request) (w' : World)
      : Type 0 where
    ran : serve_message os sock r w ≡ ok (r', w')
    raw : r'.msg_size ≡ size
    msg : r'.msg ≡ some body
    counted : r'.transferred ≡ r.transferred + 4 + decode size
    left : c.stream w' ≡ rest
    out : c.delivered w' ≡ c.delivered w ++ body

  serve_message-IsEchoed :
      (r : Request) (block body size rest : List ℕ) (w : World)
      → r.msg ≡ some block
      → length block ≡ decode r.msg_size
      → length body ≡ decode r.msg_size
      → length r.msg_size ≡ 4
      → length size ≡ 4
      → 0 < decode r.msg_size
      → c.stream w ≡ body ++ (size ++ rest)
      → (r' : Request) × (w' : World) × IsEchoed r w body size rest r' w'
  unfolding serve_message
  serve_message-IsEchoed r block body size rest w m len same four four' pos arrived =
      let n = decode r.msg_size in
      let (t, e, p) =
        read_data-Ready os sock c a n w
          (omega (arith, ap length arrived, length-append body (size ++ rest))) in
      let got : t.bytes ≡ body = p.stored ∙ ap (take n) arrived ∙ rw (← same, take-length-append) in
      let st : store r.msg t.bytes ≡ ok (some body) =
        ap (λ b. store b t.bytes) m
        ∙ ap (store (some block)) got
        ∙ store_lem block body (omega arith)
        ∙ ap (λ d. ok (some (body ++ d))) (drop_all block (length body) (omega arith))
        ∙ ap (λ d. ok (some d)) (append-nil body) in
      let (w1, e1, out1, unread1) =
        send_back_whole (record r { msg = some body }) body t.world refl pos same in
      let left1 : c.stream w1 ≡ size ++ rest =
        unread1 ∙ p.rest ∙ ap (drop n) arrived ∙ rw (← same, drop-length-append) in
      let (t2, e2, p2) =
        read_data-Ready os sock c a 4 w1
          (omega (arith, ap length left1, length-append size rest)) in
      let got2 : write_at r.msg_size 0 t2.bytes ≡ size =
        write_at_whole r.msg_size t2.bytes (omega (arith, p2.length_stored))
        ∙ p2.stored
        ∙ ap (take 4) left1
        ∙ rw (← four', take-length-append) in
      (
        record { transferred = r.transferred + 4 + decode size; msg_size = size; msg = some body },
        t2.world,
        record {
          ran = run t w1 t2 e st e1 e2 got2;
          raw = refl;
          msg = refl;
          counted = refl;
          left = p2.rest ∙ ap (drop 4) left1 ∙ rw (← four', drop-length-append);
          out = p2.silent ∙ out1 ∙ ap (λ d. d ++ body) p.silent;
        },
      )
    where
      run :
          (t : Received os) (w1 : World) (t2 : Received os)
          → read_data os sock (decode r.msg_size) w ≡ ok t
          → store r.msg t.bytes ≡ ok (some body)
          → send_back os sock (record r { msg = some body }) t.world ≡ ok w1
          → read_data os sock 4 w1 ≡ ok t2
          → write_at r.msg_size 0 t2.bytes ≡ size
          → serve_message os sock r w
            ≡ ok (
              record {
                transferred = r.transferred + 4 + decode size;
                msg_size = size;
                msg = some body;
              },
              t2.world,
            )
      run t w1 t2 e st e1 e2 got2 = rw e (rw st (rw e1 (rw e2 (rw got2))))

  -- A message after which the size 0 comes, and one after which another size comes.
  serve_messages-last :
      (fuel : ℕ) (r r' : Request) (w w' : World)
      → serve_message os sock r w ≡ ok (r', w')
      → decode r'.msg_size ≡ 0
      → serve_messages os (suc fuel) sock r w ≡ ok (r', w')
  unfolding serve_messages
  serve_messages-last fuel r r' w w' e z = ground (arith, e, z)

  serve_messages-more :
      (fuel : ℕ) (r r' : Request) (w w' : World)
      → serve_message os sock r w ≡ ok (r', w')
      → 0 < decode r'.msg_size
      → serve_messages os (suc fuel) sock r w ≡ serve_messages os fuel sock r' w'
  unfolding serve_messages
  serve_messages-more fuel r r' w w' e z = ground (arith, e, z)

  -- On a socket that takes bytes and gives what is to come: behind the first size, which is read, the
  -- messages of one size `m` other than 0 come, each but the first with its size in front, and then
  -- the size 0. The inner loop sends every message back once, in order, reads all, and ends; one round
  -- for each message is enough. It counts all bytes that it has read but those of the first message.
  pub serve_messages-echo :
      (m fuel : ℕ) (r : Request) (block body : List ℕ) (bodies : List (List ℕ)) (w : World)
      → r.msg ≡ some block
      → length block ≡ m
      → r.msg_size ≡ encode 4 m
      → AllLength m (body ∷ bodies)
      → 0 < m
      → m < 2 ^ 32
      → c.stream w ≡ body ++ frames bodies
      → length bodies < fuel
      → (r' : Request) × (w' : World) × (serve_messages os fuel sock r w ≡ ok (r', w'))
        × (c.delivered w' ≡ c.delivered w ++ concat (body ∷ bodies))
        × (c.stream w' ≡ [])
        × (r'.transferred + m ≡ r.transferred + length (body ++ frames bodies))
  serve_messages-echo m zero r block body bodies w b len raw all pos small arrived enough =
      elim enough [ ]
  serve_messages-echo m (suc fuel) r block body [] w b len raw all pos small arrived enough =
      let d : decode r.msg_size ≡ m = ap decode raw ∙ decode-encode m small in
      let (r', w', p) =
        serve_message-IsEchoed r block body (encode 4 0) [] w b (len ∙ sym d) (all.0 ∙ sym d)
          (ap length raw) refl (omega arith)
          (arrived ∙ ap (λ t. body ++ t) (sym (append-nil (encode 4 0)))) in
      (
        r',
        w',
        serve_messages-last fuel r r' w w' p.ran (ap decode p.raw),
        p.out ∙ ap (λ t. c.delivered w ++ t) (sym (append-nil body)),
        p.left,
        omega (arith, p.counted, length-append body (encode 4 0), all.0),
      )
  serve_messages-echo m (suc fuel) r block body (next ∷ rest) w b len raw all pos small arrived
        enough =
      let d : decode r.msg_size ≡ m = ap decode raw ∙ decode-encode m small in
      let (r', w', p) =
        serve_message-IsEchoed r block body (encode 4 m) (next ++ frames rest) w b (len ∙ sym d)
          (all.0 ∙ sym d) (ap length raw) refl (omega arith)
          (arrived ∙ ap (λ k. body ++ (encode 4 k ++ (next ++ frames rest))) all.1.0) in
      let next_size : decode r'.msg_size ≡ m = ap decode p.raw ∙ decode-encode m small in
      let (r2, w2, e2, out2, left2, count2) =
        serve_messages-echo m fuel r' body next rest w' p.msg all.0 p.raw all.1 pos small p.left
          (omega arith) in
      (
        r2,
        w2,
        serve_messages-more fuel r r' w w' p.ran (omega (arith, pos, next_size)) ∙ e2,
        out2
            ∙ ap (λ t. t ++ concat (next ∷ rest)) p.out
            ∙ append_assoc (c.delivered w) body (concat (next ∷ rest)),
        left2,
        omega (
          arith,
          count2,
          p.counted,
          decode-encode m small,
          all.0,
          length-append body (frames (next ∷ rest)),
          length-append (encode 4 (length next)) (next ++ frames rest),
          length-encode 4 (length next),
        ),
      )
