-- ===== src/Server/Request/Untouched.antt =====
-- What the loop of `handle_request` leaves alone outside its socket.
use c8005_assn.Base.{
  ℕ, zero, suc, ◌+◌, ◌-◌, ◌%◌, true, false, List, length, drop, take, ltb, leb, ◌==◌, decode, Run,
  ok, Ensures, Ensures-bind, Ensures-after, Bool-cases, Option-cases, inl, inr, sym, subst,
}
use c8005_assn.Os.{Os}
use c8005_assn.Protocol.{Received, read_data, send_data}
use c8005_assn.Protocol.Untouched.{IsQuiet, read_data-Ensures, send_data-Ensures}
use c8005_assn.Server.Signals.{Flags, load_done, load_done-world}
use c8005_assn.Server.Request.{
  Request, Next, again, blocked, finished, failed, Round, Served, store, allocate, header_done,
  header_read, read_header, echo, echo_message, body_read, read_body, round, serve_loop,
}

-- The calls of a request keep `P`.
pub record IsUntouched (os : Os) (sock : ℕ) (P : os.World → Type 0) : Type 0 where
  pub quiet : IsQuiet os sock P
  pub on_malloc : (n : ℕ) (w : os.World) → P w → P (os.malloc n w).1
  pub on_signal : (w : os.World) → P w → P (os.signalled w).1
  pub on_time : (w : os.World) → P w → P (os.gettimeofday w).1

module _ (os : Os) (sock : ℕ) (P : os.World → Type 0) (u : IsUntouched os sock P) where
  open os use {World, malloc}

  allocate-keeps : (r : Request) (w : World) → P w → P (allocate os r w).world
  unfolding allocate
  allocate-keeps r w p = elim (Option-cases (malloc r.msg_size w).0) [
    | inl refused ↦ rw (refused, allocate) (u.on_malloc r.msg_size w p)
    | inr (block, e) ↦ rw (e, allocate) (u.on_malloc r.msg_size w p)
  ]

  header_done-keeps : (r : Request) (w : World) → P w → P (header_done os r w).world
  unfolding header_done
  header_done-keeps r w p = elim (Bool-cases (decode r.partial_msg_size == 0)) [
    | inl last ↦ rw (last, header_done) p
    | inr more ↦
        rw (more, header_done)
          (elim (Option-cases r.msg) [
            | inr (block, e) ↦ rw (e, header_done) p
            | inl fresh ↦ rw (fresh, header_done) (allocate-keeps _ w p)
          ])
  ]

  header_read-keeps :
      (offset left : ℕ) (r : Request) (t : Received os)
      → P t.world
      → P (header_read os offset left r t).world
  unfolding header_read
  header_read-keeps offset left r t p = elim (Option-cases t.count) [
    | inl lost ↦ rw (lost, header_read) p
    | inr (k, e) ↦ elim (Bool-cases (ltb k left)) [
      | inl short ↦ rw (e, header_read) (rw (short, header_read) p)
      | inr whole ↦ rw (e, header_read) (rw (whole, header_read) (header_done-keeps _ t.world p))
    ]
  ]

  echo-Ensures :
      (fuel : ℕ) (block : List ℕ) (size left : ℕ) (w : World)
      → P w
      → Ensures (λ r. P r.1) (echo os fuel sock block size left w)
  unfolding echo
  echo-Ensures zero block size left w p = tt
  echo-Ensures (suc fuel) block size left w p =
      Ensures-bind (λ s. P s.world) (λ r. P r.1)
        (send_data os sock (take left (drop (size - left) block)) w) _
        (send_data-Ensures os sock P u.quiet (take left (drop (size - left) block)) w p)
        (λ s q. elim (Option-cases s.count) [
          | inl lost ↦ rw (lost, Ensures) q
          | inr (k, e) ↦ elim (Bool-cases (left - k == 0)) [
            | inl whole ↦ rw (e, Ensures) (rw (whole, Ensures) q)
            | inr more ↦
                rw (e, Ensures)
                  (rw (more, Ensures) (echo-Ensures fuel block size (left - k) s.world q))
          ]
        ])

  echo_message-Ensures :
      (spins : ℕ) (r : Request) (w : World)
      → P w
      → Ensures (λ t. P t.world) (echo_message os spins sock r w)
  unfolding echo_message
  echo_message-Ensures spins r w p = elim (Option-cases r.msg) [
    | inl missing ↦ rw (missing, echo_message) tt
    | inr (block, e) ↦ elim (Bool-cases (leb r.msg_size (length block))) [
      | inr small ↦ rw (e, echo_message) (rw (small, echo_message) tt)
      | inl fit ↦
          rw (e, echo_message)
            (rw (fit, echo_message)
              (Ensures-bind (λ x. P x.1) (λ t. P t.world)
                (echo os spins sock block r.msg_size r.msg_size w) _
                (echo-Ensures spins block r.msg_size r.msg_size w p) (λ x h. h)))
    ]
  ]

  body_read-Ensures :
      (spins left : ℕ) (r : Request) (t : Received os)
      → P t.world
      → Ensures (λ t. P t.world) (body_read os spins sock left r t)
  unfolding body_read
  body_read-Ensures spins left r t p =
      Ensures-after (λ t. P t.world) (store r.msg t.bytes) _
        (λ m. elim (Option-cases t.count) [
          | inl lost ↦ rw (lost, Ensures) p
          | inr (k, e) ↦ elim (Bool-cases (ltb k left)) [
            | inl short ↦ rw (e, Ensures) (rw (short, Ensures) p)
            | inr whole ↦
                rw (e, Ensures) (rw (whole, Ensures) (echo_message-Ensures spins _ t.world p))
          ]
        ])

  round-Ensures :
      (spins : ℕ) (r : Request) (w : World)
      → P w
      → Ensures (λ t. P t.world) (round os spins sock r w)
  unfolding round read_header read_body
  round-Ensures spins r w p =
      let offset = r.transferred % (r.msg_size + 4) in
      elim (Bool-cases (ltb offset 4)) [
        | inl size ↦
            rw (size, Ensures)
              (Ensures-bind (λ t. P t.world) (λ t. P t.world) (read_data os sock (4 - offset) w) _
                (read_data-Ensures os sock P u.quiet (4 - offset) w p)
                (λ t q. header_read-keeps offset (4 - offset) r t q))
        | inr body ↦
            rw (body, Ensures)
              (Ensures-bind (λ t. P t.world) (λ t. P t.world)
                (read_data os sock (r.msg_size - (offset - 4)) w) _
                (read_data-Ensures os sock P u.quiet (r.msg_size - (offset - 4)) w p)
                (λ t q. body_read-Ensures spins (r.msg_size - (offset - 4)) r t q))
      ]

  pub serve_loop-Ensures :
      (fuel spins : ℕ) (r : Request) (f : Flags) (w : World)
      → P w
      → Ensures (λ s. P s.world) (serve_loop os fuel spins sock r f w)
  unfolding serve_loop
  serve_loop-Ensures zero spins r f w p = tt
  serve_loop-Ensures (suc fuel) spins r f w p =
      Ensures-bind (λ t. P t.world) (λ s. P s.world) (round os spins sock r w) _
        (round-Ensures spins r w p)
        (λ t q. decide t q t.next (λ r' f' w' q'. serve_loop-Ensures fuel spins r' f' w' q'))
    where
      decide :
          (t : Round os)
          → P t.world
          → (x : Next)
          → ((r' : Request) (f' : Flags) (w' : World)
              → P w'
              → Ensures (λ s. P s.world) (serve_loop os fuel spins sock r' f' w'))
          → Ensures
              (λ s. P s.world)
              (elim x as (λ _. Run (Served os)) [
                | again ↦
                    let (done, f', w') = load_done os f t.world in
                    elim done [
                      | true ↦
                          ok
                            (record { next = blocked; request = t.request; flags = f'; world = w' })
                      | false ↦ serve_loop os fuel spins sock t.request f' w'
                    ]
                | other ↦
                    ok (record { next = other; request = t.request; flags = f; world = t.world })
              ])
      decide t q blocked rest = q
      decide t q finished rest = q
      decide t q failed rest = q
      decide t q again rest =
          let q' : P (load_done os f t.world).2 =
            subst P (sym (load_done-world os f t.world)) (u.on_signal t.world q) in
          elim (Bool-cases (load_done os f t.world).0) [
            | inl done ↦ rw (done, Ensures) q'
            | inr on ↦
                rw (on, Ensures)
                  (rest t.request (load_done os f t.world).1 (load_done os f t.world).2 q')
          ]
