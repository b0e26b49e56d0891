-- ===== src/Server/Request/Typed.antt =====
-- The C types of a request, and what its count of bytes counts.
pub mod Loop
use c8005_assn.Base.{
  ℕ, zero, suc, ◌+◌, ◌-◌, ◌%◌, ◌^◌, ◌<◌, ◌≡◌, ◌≢◌, refl, ap, sym, subst, ◌∙◌, arith, true, false,
  some, List, length, length-append, length-write_at, take, drop, ltb, leb, ◌==◌, inl, inr,
  Bool-cases, Option-cases, Run, ok, Returns-ok, Ensures, Ensures-bind, Ensures-after, decode,
  IsBytes, IsBytes-append, IsBytes-write_at, decode-IsBytes,
}
use c8005_assn.Os.{Os}
use c8005_assn.Os.Stream.{Connection}
use c8005_assn.Protocol.{Received, read_data, send_data}
use c8005_assn.Protocol.Read.{IsRead, read_data-IsRead}
use c8005_assn.Protocol.Write.{IsSent, send_data-IsSent}
use c8005_assn.Server.Signals.{Flags, load_done, load_done-world}
use c8005_assn.Server.Request.{
  Request, Next, again, blocked, finished, failed, Round, Served, store, allocate, header_done,
  header_read, read_header, echo, echo_message, body_read, read_body, round, serve_loop,
}

-- `partial_msg_size` is an array of four bytes, and `msg_size` has 32 bits.
pub record IsTyped (r : Request) : Type 0 where
  pub four : length r.partial_msg_size ≡ 4
  pub bytes : IsBytes r.partial_msg_size
  pub small : r.msg_size < 2 ^ 32

module _ (os : Os) (sock : ℕ) (c : Connection os sock) where
  open os use {World, malloc}

  -- After a part of the loop: `n` bytes had been counted or were to come.
  abbrev pub Kept : ℕ → Next → Request → World → Type 0
  Kept n next r w =
      IsTyped r × IsBytes (c.stream w) × (next ≢ failed → r.transferred + length (c.stream w) ≡ n)

  abbrev pub KeptRound : ℕ → Round os → Type 0
  KeptRound n t = Kept n t.next t.request t.world

  allocate-Kept :
      (n : ℕ) (r : Request) (w : World) → Kept n again r w → KeptRound n (allocate os r w)
  unfolding allocate
  allocate-Kept n r w (typed, bytes, count) =
      let same = (c.malloc_apart r.msg_size w).0 in
      elim (Option-cases (malloc r.msg_size w).0) [
        | inl refused ↦
            rw (refused, allocate) (typed, subst IsBytes (sym same) bytes, λ ne. absurd (ne refl))
        | inr (block, e) ↦
            rw (e, allocate)
              (
                record { four = typed.four; bytes = typed.bytes; small = typed.small },
                subst IsBytes (sym same) bytes,
                λ ne. omega (arith, ap length same, count (λ e. cc)),
              )
      ]

  header_done-Kept :
      (n : ℕ) (r : Request) (w : World) → Kept n again r w → KeptRound n (header_done os r w)
  unfolding header_done
  header_done-Kept n r w (typed, bytes, count) =
      let typed' : IsTyped (record r { msg_size = decode r.partial_msg_size }) = record {
        four = typed.four;
        bytes = typed.bytes;
        small = decode-IsBytes r.partial_msg_size typed.four typed.bytes;
      } in
      elim (Bool-cases (decode r.partial_msg_size == 0)) [
        | inl last ↦ rw (last, header_done) (typed', bytes, λ ne. count (λ e. cc))
        | inr more ↦
            rw (more, header_done)
              (elim (Option-cases r.msg) [
                | inr (block, e) ↦ rw (e, header_done) (typed', bytes, count)
                | inl fresh ↦ rw (fresh, header_done) (allocate-Kept n _ w (typed', bytes, count))
              ])
      ]

  -- What a read leaves to come.
  read-bytes :
      (left : ℕ) (w : World) (t : Received os)
      → IsRead os sock c w left t
      → IsBytes (c.stream w)
      → IsBytes t.bytes × IsBytes (c.stream t.world)
  read-bytes left w t p bytes =
      IsBytes-append t.bytes (c.stream t.world) (subst IsBytes p.order bytes)

  read-count :
      (left : ℕ) (w : World) (t : Received os) (k total : ℕ)
      → IsRead os sock c w left t
      → t.count ≡ some k
      → total + k + length (c.stream t.world) ≡ total + length (c.stream w)
  read-count left w t k total p e =
      omega (arith, ap length p.order, length-append t.bytes (c.stream t.world), p.counted k e)

  pub header_read-Kept :
      (offset left : ℕ) (r : Request) (w : World) (t : Received os)
      → IsTyped r
      → IsBytes (c.stream w)
      → IsRead os sock c w left t
      → KeptRound (r.transferred + length (c.stream w)) (header_read os offset left r t)
  unfolding header_read
  header_read-Kept offset left r w t typed bytes p =
      let (got, to_come) = read-bytes left w t p bytes in
      let four = length-write_at r.partial_msg_size offset t.bytes ∙ typed.four in
      let bytes' = IsBytes-write_at r.partial_msg_size offset t.bytes typed.bytes got in
      elim (Option-cases t.count) [
        | inl lost ↦
            rw (lost, header_read)
              (
                record { four = four; bytes = bytes'; small = typed.small },
                to_come,
                λ ne. absurd (ne refl),
              )
        | inr (k, e) ↦
            let count = read-count left w t k r.transferred p e in
            elim (Bool-cases (ltb k left)) [
              | inl short ↦
                  rw (e, header_read)
                    (rw (short, header_read)
                      (
                        record { four = four; bytes = bytes'; small = typed.small },
                        to_come,
                        λ ne. count,
                      ))
              | inr whole ↦
                  rw (e, header_read)
                    (rw (whole, header_read)
                      (header_done-Kept _ _ t.world (
                        record { four = four; bytes = bytes'; small = typed.small },
                        to_come,
                        λ ne. count,
                      )))
            ]
      ]

  echo-stream :
      (fuel : ℕ) (block : List ℕ) (size left : ℕ) (w : World)
      → Ensures (λ r. c.stream r.1 ≡ c.stream w) (echo os fuel sock block size left w)
  unfolding echo
  echo-stream zero block size left w = tt
  echo-stream (suc fuel) block size left w =
      let buf = take left (drop (size - left) block) in
      let (s, q, sent) =
        Returns-ok (IsSent os sock c buf w) (send_data os sock buf w)
          (send_data-IsSent os sock c buf w) in
      rw (q, Ensures)
        (elim (Option-cases s.count) [
          | inl lost ↦ rw (lost, Ensures) sent.unread
          | inr (k, e) ↦ elim (Bool-cases (left - k == 0)) [
            | inl whole ↦ rw (e, Ensures) (rw (whole, Ensures) sent.unread)
            | inr more ↦
                rw (e, Ensures)
                  (rw (more, Ensures)
                    (subst
                      (λ v.
                        Ensures (λ r. c.stream r.1 ≡ v)
                          (echo os fuel sock block size (left - k) s.world))
                      sent.unread (echo-stream fuel block size (left - k) s.world)))
          ]
        ])

  echo_message-Kept :
      (spins n : ℕ) (r : Request) (w : World)
      → Kept n again r w
      → Ensures (KeptRound n) (echo_message os spins sock r w)
  unfolding echo_message
  echo_message-Kept spins n r w (typed, bytes, count) = elim (Option-cases r.msg) [
    | inl missing ↦ rw (missing, echo_message) tt
    | inr (block, e) ↦ elim (Bool-cases (leb r.msg_size (length block))) [
      | inr small ↦ rw (e, echo_message) (rw (small, echo_message) tt)
      | inl fit ↦
          rw (e, echo_message)
            (rw (fit, echo_message)
              (Ensures-bind (λ x. c.stream x.1 ≡ c.stream w) (KeptRound n)
                (echo os spins sock block r.msg_size r.msg_size w) _
                (echo-stream spins block r.msg_size r.msg_size w)
                (λ x same. (
                  typed,
                  subst IsBytes (sym same) bytes,
                  λ ne. omega (arith, ap length same, count (λ e. cc)),
                ))))
    ]
  ]

  pub body_read-Kept :
      (spins left : ℕ) (r : Request) (w : World) (t : Received os)
      → IsTyped r
      → IsBytes (c.stream w)
      → IsRead os sock c w left t
      → Ensures (KeptRound (r.transferred + length (c.stream w))) (body_read os spins sock left r t)
  unfolding body_read
  body_read-Kept spins left r w t typed bytes p =
      let (_, to_come) = read-bytes left w t p bytes in
      Ensures-after (KeptRound (r.transferred + length (c.stream w))) (store r.msg t.bytes) _ (λ m.
        elim (Option-cases t.count) [
          | inl lost ↦
              rw (lost, Ensures)
                (
                  record { four = typed.four; bytes = typed.bytes; small = typed.small },
                  to_come,
                  λ ne. absurd (ne refl),
                )
          | inr (k, e) ↦
              let count = read-count left w t k r.transferred p e in
              elim (Bool-cases (ltb k left)) [
                | inl short ↦
                    rw (e, Ensures)
                      (rw (short, Ensures)
                        (
                          record { four = typed.four; bytes = typed.bytes; small = typed.small },
                          to_come,
                          λ ne. count,
                        ))
                | inr whole ↦
                    rw (e, Ensures)
                      (rw (whole, Ensures)
                        (echo_message-Kept spins _ _ t.world (
                          record { four = typed.four; bytes = typed.bytes; small = typed.small },
                          to_come,
                          λ ne. count,
                        )))
              ]
        ])
