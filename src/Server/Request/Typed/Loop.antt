-- ===== src/Server/Request/Typed/Loop.antt =====
-- The C types of a request over the whole loop of `handle_request`.
use c8005_assn.Base.{
  ℕ, zero, suc, ◌+◌, ◌-◌, ◌%◌, ◌≡◌, ap, sym, subst, ◌∙◌, arith, true, false, length, ltb, inl, inr,
  Bool-cases, Run, ok, Returns-ok, Ensures, Ensures-bind, IsBytes,
}
use c8005_assn.Os.{Os}
use c8005_assn.Os.Stream.{Connection}
use c8005_assn.Protocol.{read_data}
use c8005_assn.Protocol.Read.{IsRead, read_data-IsRead}
use c8005_assn.Server.Signals.{Flags, load_done, load_done-world}
use c8005_assn.Server.Request.{
  Request, Next, again, blocked, finished, failed, Round, Served, read_header, read_body, round,
  serve_loop,
}
use c8005_assn.Server.Request.Typed.{IsTyped, Kept, KeptRound, header_read-Kept, body_read-Kept}

module _ (os : Os) (sock : ℕ) (c : Connection os sock) where
  open os use {World}

  round-Kept :
      (spins : ℕ) (r : Request) (w : World)
      → IsTyped r
      → IsBytes (c.stream w)
      → Ensures
          (KeptRound os sock c (r.transferred + length (c.stream w)))
          (round os spins sock r w)
  unfolding round read_header read_body
  round-Kept spins r w typed bytes =
      let offset = r.transferred % (r.msg_size + 4) in
      elim (Bool-cases (ltb offset 4)) [
        | inl size ↦
            let left = 4 - offset in
            let (t, e, p) =
              Returns-ok (IsRead os sock c w left) (read_data os sock left w)
                (read_data-IsRead os sock c left w) in
            rw (size, Ensures)
              (rw (e, Ensures) (header_read-Kept os sock c offset left r w t typed bytes p))
        | inr body ↦
            let left = r.msg_size - (offset - 4) in
            let (t, e, p) =
              Returns-ok (IsRead os sock c w left) (read_data os sock left w)
                (read_data-IsRead os sock c left w) in
            rw (body, Ensures)
              (rw (e, Ensures) (body_read-Kept os sock c spins left r w t typed bytes p))
      ]

  -- The loop of `handle_request`, whenever it returns and however its last round ends, the peer having
  -- sent bytes: a request with the four bytes of a size and a size of 32 bits stays one, and unless the
  -- result is -1 `transferred` has grown by the number of bytes that were taken from the connection.
  pub serve_loop-IsTyped :
      (fuel spins : ℕ) (r : Request) (f : Flags) (w : World)
      → IsTyped r
      → IsBytes (c.stream w)
      → Ensures
          (λ s. Kept os sock c (r.transferred + length (c.stream w)) s.next s.request s.world)
          (serve_loop os fuel spins sock r f w)
  unfolding serve_loop
  serve_loop-IsTyped zero spins r f w typed bytes = tt
  serve_loop-IsTyped (suc fuel) spins r f w typed bytes =
      Ensures-bind (KeptRound os sock c n) (λ s. Kept os sock c n s.next s.request s.world)
        (round os spins sock r w) _ (round-Kept spins r w typed bytes)
        (λ t h. decide t t.next h (λ f' w' typed' bytes' same.
          subst
            (λ m.
              Ensures (λ s. Kept os sock c m s.next s.request s.world)
                (serve_loop os fuel spins sock t.request f' w'))
            same (serve_loop-IsTyped fuel spins t.request f' w' typed' bytes')))
    where
      n : ℕ
      n = r.transferred + length (c.stream w)

      decide :
          (t : Round os) (x : Next)
          → Kept os sock c n x t.request t.world
          → ((f' : Flags) (w' : World)
              → IsTyped t.request
              → IsBytes (c.stream w')
              → t.request.transferred + length (c.stream w') ≡ n
              → Ensures
                  (λ s. Kept os sock c n s.next s.request s.world)
                  (serve_loop os fuel spins sock t.request f' w'))
          → Ensures
              (λ s. Kept os sock c n s.next s.request s.world)
              (elim x as (λ _. Run (Served os)) [
                | again ↦
                    let (done, f', w') = load_done os f t.world in
                    elim done [
                      | true ↦
                          ok
                            (record { next = blocked; request = t.request; flags = f'; world = w' })
                      | false ↦ serve_loop os fuel spins sock t.request f' w'
                    ]
                | other ↦
                    ok (record { next = other; request = t.request; flags = f; world = t.world })
              ])
      decide t blocked h rest = h
      decide t finished h rest = h
      decide t failed h rest = h
      decide t again (typed', bytes', count) rest =
          let w' = (load_done os f t.world).2 in
          let same : c.stream w' ≡ c.stream t.world =
            ap c.stream (load_done-world os f t.world) ∙ (c.signalled_apart t.world).0 in
          let to_come = subst IsBytes (sym same) bytes' in
          let counted : t.request.transferred + length (c.stream w') ≡ n =
            omega (arith, ap length same, count (λ e. cc)) in
          elim (Bool-cases (load_done os f t.world).0) [
            | inl done ↦ rw (done, Ensures) (typed', to_come, λ ne. counted)
            | inr on ↦ rw (on, Ensures) (rest (load_done os f t.world).1 w' typed' to_come counted)
          ]
