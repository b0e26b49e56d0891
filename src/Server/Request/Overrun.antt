-- ===== src/Server/Request/Overrun.antt =====
-- A message that is longer than the block for it.
use c8005_assn.Base.{
  ap, ℕ, ◌+◌, ◌-◌, ◌%◌, ◌≡◌, ◌≤◌, ◌<◌, ◌∙◌, arith, List, none, some, length, fault, decode, ne→==,
  ◌≢◌,
}
use c8005_assn.Os.{Os}
use c8005_assn.Os.Stream.{Connection, Arrived}
use c8005_assn.Protocol.Read.{read_data-IsExact}
use c8005_assn.Server.Request.{
  Request, again, Round, store, allocate, header_done, round, read_body, body_read,
}
use c8005_assn.Server.Request.Rounds.{store_overrun}

module _ (os : Os) (sock : ℕ) (c : Connection os sock) (a : Arrived os sock c) where
  -- A size other than 0 arrives when there is a block that is shorter than the message: then only
  -- `msg_size` is set and the block is kept as it is. If the bytes counted so far put the loop at the
  -- start of that message, and the message has arrived, the next round writes past the end of the block.
  pub round-overrun :
      (spins : ℕ) (r : Request) (block : List ℕ) (w : os.World)
      → r.msg ≡ some block
      → decode r.partial_msg_size ≢ 0
      → length block < decode r.partial_msg_size
      → r.transferred % (decode r.partial_msg_size + 4) ≡ 4
      → decode r.partial_msg_size ≤ length (c.stream w)
      → (header_done os r w ≡ record {
        next = again;
        request = record r { msg_size = decode r.partial_msg_size };
        world = w;
      })
        × (round os spins sock (record r { msg_size = decode r.partial_msg_size }) w ≡ fault)
  unfolding header_done round read_body body_read
  round-overrun spins r block w has more short h arrived =
      let size = decode r.partial_msg_size in
      let r' : Request = record r { msg_size = size } in
      let (t, e, p) = read_data-IsExact os sock c a size w arrived in
      let whole : size - 0 ≡ size = omega arith in
      let stored : store r.msg t.bytes ≡ fault =
        ap (λ m. store m t.bytes) has
        ∙ store_overrun block t.bytes (omega (arith, p.length_stored, short)) in
      (
        rw (ne→== _ _ more, header_done)
            (ap
              (λ m. elim m as (λ _. Round os) [
                | none ↦ allocate os r' w
                | some b ↦ record { next = again; request = r'; world = w }
              ])
              has),
        rw (h, round) (rw (whole, round) (rw (e, round) (rw (stored, round)))),
      )
