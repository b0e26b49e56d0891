-- ===== src/Server/Request/Rounds.antt =====
-- One round of the loop of `handle_request`, where all the bytes that it asks for have arrived.
use c8005_assn.Base.{
  Option, drop-length-append, append-nil, drop_all, Run, take-length-append, ℕ, suc, ◌+◌, ◌-◌, ◌%◌,
  ◌≤◌, ◌<◌, ◌≡◌, refl, sym, ap, ◌∙◌, true, some, List, [], ◌∷◌, ◌++◌, arith, length, drop, take,
  write_at, take_all, le→leb, lt→leb, le→ltb, length-append, write_at_whole, write_at-zero, ok,
  fault, length-drop,
}
use c8005_assn.Os.{Os}
use c8005_assn.Os.Stream.{Connection, Arrived, Writable}
use c8005_assn.Protocol.{Received, Sent, read_data, send_data}
use c8005_assn.Protocol.Read.{read_data-IsExact}
use c8005_assn.Protocol.Write.{send_data-Writable}
use c8005_assn.Server.Request.{
  Round, Request, again, store, header_done, header_read, read_header, echo, echo_message,
  body_read, read_body, round,
}

-- What stands in the block of the message after `n` more of its bytes have arrived: they go to the
-- start of the block, whatever has arrived before.
abbrev pub refilled : ℕ → List ℕ → List ℕ → List ℕ
refilled n bytes block = take n bytes ++ drop n block

-- Bytes that fit are stored at the start.
pub store_lem :
    (block bs : List ℕ)
    → length bs ≤ length block
    → store (some block) bs ≡ ok (some (bs ++ drop (length bs) block))
unfolding store
store_lem block [] h = refl
store_lem block (b ∷ bs) h =
    rw (le→leb (length (b ∷ bs)) (length block) h, write_at-zero block (b ∷ bs) h)

-- No bytes need no block.
pub store_none : (m : Option (List ℕ)) → store m [] ≡ ok m
unfolding store
store_none m = refl

-- Bytes that do not fit overrun the block.
pub store_overrun : (block bs : List ℕ) → length block < length bs → store (some block) bs ≡ fault
unfolding store
store_overrun block [] h = elim h [ ]
store_overrun block (b ∷ bs) h = rw (lt→leb (length block) (length (b ∷ bs)) h)

module _ (os : Os) (sock : ℕ) (c : Connection os sock) (a : Arrived os sock c) where
  open os use {World}

  -- At the start of a frame a round stores the next four bytes as the size.
  pub round-header :
      (spins : ℕ) (r : Request) (w : World)
      → r.transferred % (r.msg_size + 4) ≡ 0
      → length r.partial_msg_size ≡ 4
      → 4 ≤ length (c.stream w)
      → (w' : World) × (round os spins sock r w
          ≡ ok (
              header_done os
                (record r {
                  partial_msg_size = take 4 (c.stream w);
                  transferred = r.transferred + 4;
                })
                w'))
        × (c.stream w' ≡ drop 4 (c.stream w))
        × (c.delivered w' ≡ c.delivered w)
  unfolding round read_header header_read
  round-header spins r w h len enough =
      let (t, e, p) = read_data-IsExact os sock c a 4 w enough in
      let bytes : write_at r.partial_msg_size 0 t.bytes ≡ take 4 (c.stream w) =
        write_at_whole r.partial_msg_size t.bytes (p.length_stored ∙ sym len) ∙ p.stored in
      (t.world, rw (h, round) (rw e (rw (p.whole, header_read) (rw bytes))), p.rest, p.silent)

  -- A message of the block's size is sent whole.
  echo_whole :
      (o : Writable os sock) (spins size : ℕ) (block : List ℕ) (w : World)
      → length block ≡ size
      → (w' : World) × (echo os (suc spins) sock block size size w ≡ ok (true, w'))
        × (c.delivered w' ≡ c.delivered w ++ block)
        × (c.stream w' ≡ c.stream w)
  unfolding echo
  echo_whole o spins size block w len =
      let (s, e, count, out, unread) = send_data-Writable os sock c block o w in
      (s.world, step s e (count ∙ ap some len), out, unread)
    where
      all : take size (drop (size - size) block) ≡ block
      all = let none : size - size ≡ 0 = omega arith in rw none (take_all block size (omega arith))

      step :
          (s : Sent os)
          → send_data os sock block w ≡ ok s
          → s.count ≡ some size
          → echo os (suc spins) sock block size size w ≡ ok (true, s.world)
      step s e count = rw (all, echo) (rw e (ground arith))

  echo_message_whole :
      (o : Writable os sock) (spins : ℕ) (r : Request) (block : List ℕ) (w : World)
      → r.msg ≡ some block
      → length block ≡ r.msg_size
      → (w' : World) × (echo_message os (suc spins) sock r w
          ≡ ok (record { next = again; request = r; world = w' }))
        × (c.delivered w' ≡ c.delivered w ++ block)
        × (c.stream w' ≡ c.stream w)
  unfolding echo_message
  echo_message_whole o spins r block w m len =
      let (w', e, out, unread) = echo_whole o spins r.msg_size block w len in
      (w', step w' e, out, unread)
    where
      step :
          (w' : World)
          → echo os (suc spins) sock block r.msg_size r.msg_size w ≡ ok (true, w')
          → echo_message os (suc spins) sock r w
            ≡ ok (record { next = again; request = r; world = w' })
      step w' e = ground (arith, m, len, e)

  -- The bytes that were missing are there.
  body_read_whole :
      (o : Writable os sock) (spins left : ℕ) (r : Request) (block : List ℕ) (t : Received os)
      → r.msg ≡ some block
      → length block ≡ r.msg_size
      → left ≤ r.msg_size
      → t.count ≡ some left
      → length t.bytes ≡ left
      → let sent = t.bytes ++ drop left block in
        (w' : World) × (body_read os (suc spins) sock left r t
          ≡ ok (record {
            next = again;
            request = record r { msg = some sent; transferred = r.transferred + left };
            world = w';
          }))
        × (c.delivered w' ≡ c.delivered t.world ++ sent)
        × (c.stream w' ≡ c.stream t.world)
  unfolding body_read
  body_read_whole o spins left r block t m len le count size =
      let sent = t.bytes ++ drop left block in
      let r' = record r { msg = some sent; transferred = r.transferred + left } in
      let (w', e, out, unread) =
        echo_message_whole o spins r' sent t.world refl
          (omega (arith, length-append t.bytes (drop left block), length-drop left block)) in
      let st : store r.msg t.bytes ≡ ok (some sent) =
        rw m (rw (store_lem block t.bytes (omega arith)) (rw size)) in
      (w', rw st (rw (count, body_read) (rw (le→ltb left left (omega arith)) e)), out, unread)

  -- Inside a frame, with `k` bytes of the message there and the others arrived, on a socket that takes
  -- bytes, a round stores the rest of it at the start
  -- of the block and sends the block.
  pub round-body :
      (o : Writable os sock) (spins : ℕ) (r : Request) (block : List ℕ) (k : ℕ) (w : World)
      → r.transferred % (r.msg_size + 4) ≡ 4 + k
      → r.msg ≡ some block
      → length block ≡ r.msg_size
      → r.msg_size - k ≤ length (c.stream w)
      → let n = r.msg_size - k in
        (w' : World) × (round os (suc spins) sock r w
          ≡ ok (record {
            next = again;
            request = record r {
              msg = some (refilled n (c.stream w) block);
              transferred = r.transferred + n;
            };
            world = w';
          }))
        × (c.stream w' ≡ drop n (c.stream w))
        × (c.delivered w' ≡ c.delivered w ++ refilled n (c.stream w) block)
  unfolding round read_body
  round-body o spins r block k w h m len enough =
      let (t, e, p) = read_data-IsExact os sock c a (r.msg_size - k) w enough in
      let (w', e', out, unread) =
        body_read_whole o spins (r.msg_size - k) r block t m len (omega arith) p.whole
          p.length_stored in
      (
        w',
        rw (← p.stored) (to_body t e ∙ e'),
        unread ∙ p.rest,
        rw (← p.stored) (out ∙ ap (λ d. d ++ (t.bytes ++ drop (r.msg_size - k) block)) p.silent),
      )
    where
      to_body :
          (t : Received os)
          → read_data os sock (r.msg_size - k) w ≡ ok t
          → round os (suc spins) sock r w ≡ body_read os (suc spins) sock (r.msg_size - k) r t
      to_body t e =
          let short : r.msg_size - (4 + k - 4) ≡ r.msg_size - k = omega arith in
          rw (h, round) (rw (le→ltb (4 + k) 4 (omega arith)) (rw short (rw e)))

  refilled-whole :
      (n : ℕ) (body rest block : List ℕ)
      → length body ≡ n
      → length block ≡ n
      → refilled n (body ++ rest) block ≡ body
  refilled-whole n body rest block h k =
      rw (← h, take-length-append, drop_all block (length body) (omega arith), append-nil)

  -- A message that has arrived whole is stored and sent back.
  pub round-message :
      (o : Writable os sock) (spins : ℕ) (r : Request) (block body rest : List ℕ) (w : World)
      → r.transferred % (r.msg_size + 4) ≡ 4
      → r.msg ≡ some block
      → length block ≡ r.msg_size
      → length body ≡ r.msg_size
      → c.stream w ≡ body ++ rest
      → (w' : World) × (round os (suc spins) sock r w
          ≡ ok (record {
            next = again;
            request = record r { msg = some body; transferred = r.transferred + length body };
            world = w';
          }))
        × (c.stream w' ≡ rest)
        × (c.delivered w' ≡ c.delivered w ++ body)
  round-message o spins r block body rest w h m len size arrived =
      let (w', e, left, out) =
        round-body o spins r block 0 w (rw h) m len
          (omega (arith, ap length arrived, length-append body rest)) in
      (w', tidy e, rw (left, n, arrived, drop-length-append), rw (out, full))
    where
      n : r.msg_size - 0 ≡ length body
      n = omega arith

      full : refilled (r.msg_size - 0) (c.stream w) block ≡ body
      full =
          rw arrived (refilled-whole (r.msg_size - 0) body rest block (omega arith) (omega arith))

      tidy :
          {x : Run (Round os)} {w' : World}
          → x
            ≡ ok (record {
              next = again;
              request = record r {
                msg = some (refilled (r.msg_size - 0) (c.stream w) block);
                transferred = r.transferred + (r.msg_size - 0);
              };
              world = w';
            })
          → x
            ≡ ok (record {
              next = again;
              request = record r { msg = some body; transferred = r.transferred + length body };
              world = w';
            })
      tidy e = rw (e, full, n)
