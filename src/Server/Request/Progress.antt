-- ===== src/Server/Request/Progress.antt =====
-- The loop of `handle_request` comes to an end, whatever a client sends.
use c8005_assn.Base.{
  ltb→ge, length-drop, ℕ, zero, suc, ◌+◌, ◌-◌, ◌%◌, ◌<◌, ◌≤◌, ◌≡◌, refl, ap, arith, true, false,
  Option, none, some, List, [], ◌∷◌, length, length-append, take, drop, length-take, ltb, leb, ◌==◌,
  eq→==, ltb→lt, inl, inr, Bool-cases, Option-cases, Run, ok, Returns-ok, Stops, Stops-bind,
  Stops-weaken, decode,
}
use native.Mathlib.Nat.{mod-lt}
use c8005_assn.Os.{Os}
use c8005_assn.Os.Stream.{Connection, Writable}
use c8005_assn.Protocol.{Received, read_data}
use c8005_assn.Protocol.Read.{IsRead, read_data-IsRead}
use c8005_assn.Protocol.Write.{send_data-Writable}
use c8005_assn.Server.Signals.{Flags, load_done, load_done-world}
use c8005_assn.Server.Request.{
  Request, Next, again, blocked, finished, failed, Round, Served, store, allocate, header_done,
  header_read, read_header, echo, echo_message, body_read, read_body, round, serve_loop,
}

module _ (os : Os) (sock : ℕ) (c : Connection os sock) (o : Writable os sock) where
  open os use {World, malloc}

  -- A round that goes on has read something.
  abbrev Progress : World → Round os → Type 0
  Progress w t = t.next ≡ again → length (c.stream t.world) < length (c.stream w)

  allocate-stream : (r : Request) (w : World) → c.stream (allocate os r w).world ≡ c.stream w
  unfolding allocate
  allocate-stream r w = elim (Option-cases (malloc r.msg_size w).0) [
    | inl refused ↦ rw (refused, allocate) (c.malloc_apart r.msg_size w).0
    | inr (block, e) ↦ rw (e, allocate) (c.malloc_apart r.msg_size w).0
  ]

  header_done-stream : (r : Request) (w : World) → c.stream (header_done os r w).world ≡ c.stream w
  unfolding header_done
  header_done-stream r w = elim (Bool-cases (decode r.partial_msg_size == 0)) [
    | inl last ↦ rw (last, header_done) refl
    | inr more ↦
        rw (more, header_done)
          (elim (Option-cases r.msg) [
            | inr (block, e) ↦ rw (e, header_done) refl
            | inl fresh ↦ rw (fresh, header_done) (allocate-stream _ w)
          ])
  ]

  shorter :
      (n : ℕ) (w : World) (t : Received os) (k : ℕ)
      → IsRead os sock c w n t
      → t.count ≡ some k
      → 0 < k
      → length (c.stream t.world) < length (c.stream w)
  shorter n w t k p e pos =
      omega (arith, ap length p.order, length-append t.bytes (c.stream t.world), p.counted k e)

  header_read-Progress :
      (offset left : ℕ) (r : Request) (w : World) (t : Received os)
      → 0 < left
      → IsRead os sock c w left t
      → Progress w (header_read os offset left r t)
  unfolding header_read
  header_read-Progress offset left r w t pos p = elim (Option-cases t.count) [
    | inl lost ↦ rw (lost, header_read) (λ e. cc)
    | inr (k, e) ↦ elim (Bool-cases (ltb k left)) [
      | inl short ↦ rw (e, header_read) (rw (short, header_read) (λ e. cc))
      | inr whole ↦
          rw (e, header_read)
            (rw (whole, header_read)
              (λ h.
                rw (header_done-stream _ t.world)
                  (shorter left w t k p e (omega (arith, pos, ltb→ge k left whole)))))
    ]
  ]

  echo-stream :
      (n : ℕ) (block : List ℕ) (size : ℕ) (w : World)
      → size ≤ length block
      → Stops (λ r. c.stream r.1 ≡ c.stream w) (echo os (suc n) sock block size size w)
  unfolding echo
  echo-stream n block size w fit =
      let buf = take size (drop (size - size) block) in
      let (s, e, full, out, unread) = send_data-Writable os sock c buf o w in
      let whole : length buf ≡ size = omega (
        arith,
        length-take size (drop (size - size) block),
        length-drop (size - size) block,
        fit,
      ) in
      rw (e, Stops)
        (rw (full, Stops) (rw (eq→== (size - length buf) 0 (omega (arith, whole)), Stops) unread))

  echo_message-stream :
      (n : ℕ) (r : Request) (w : World)
      → Stops (λ t. c.stream t.world ≡ c.stream w) (echo_message os (suc n) sock r w)
  unfolding echo_message
  echo_message-stream n r w = elim (Option-cases r.msg) [
    | inl missing ↦ rw (missing, echo_message) tt
    | inr (block, e) ↦ elim (Bool-cases (leb r.msg_size (length block))) [
      | inr small ↦ rw (e, echo_message) (rw (small, echo_message) tt)
      | inl fit ↦
          rw (e, echo_message)
            (rw (fit, echo_message)
              (Stops-bind (λ x. c.stream x.1 ≡ c.stream w) (λ t. c.stream t.world ≡ c.stream w)
                (echo os (suc n) sock block r.msg_size r.msg_size w) _
                (echo-stream n block r.msg_size w (ground (arith, fit))) (λ x h. h)))
    ]
  ]

  store-Stops : (m : Option (List ℕ)) (bs : List ℕ) → Stops (λ _. Unit) (store m bs)
  unfolding store
  store-Stops m [] = tt
  store-Stops none (b ∷ bs) = tt
  store-Stops (some block) (b ∷ bs) = elim (Bool-cases (leb (length (b ∷ bs)) (length block))) [
    | inl fit ↦ rw (fit, store) tt
    | inr over ↦ rw (over, store) tt
  ]

  body_read-Progress :
      (n left : ℕ) (r : Request) (w : World) (t : Received os)
      → 0 < left
      → IsRead os sock c w left t
      → Stops (Progress w) (body_read os (suc n) sock left r t)
  unfolding body_read
  body_read-Progress n left r w t pos p =
      Stops-bind (λ _. Unit) (Progress w) (store r.msg t.bytes) _ (store-Stops r.msg t.bytes)
        (λ m _. elim (Option-cases t.count) [
          | inl lost ↦ rw (lost, Stops) (λ e. cc)
          | inr (k, e) ↦ elim (Bool-cases (ltb k left)) [
            | inl short ↦ rw (e, Stops) (rw (short, Stops) (λ h. cc))
            | inr whole ↦
                rw (e, Stops)
                  (rw (whole, Stops)
                    (Stops-weaken (λ v. c.stream v.world ≡ c.stream t.world) (Progress w)
                      (echo_message os (suc n) sock
                        (record r { transferred = r.transferred + k; msg = m }) t.world)
                      (echo_message-stream n (record r { transferred = r.transferred + k; msg = m })
                        t.world)
                      (λ v same _.
                        rw same
                          (shorter left w t k p e (omega (arith, pos, ltb→ge k left whole))))))
          ]
        ])

  round-Progress :
      (n : ℕ) (r : Request) (w : World) → Stops (Progress w) (round os (suc n) sock r w)
  unfolding round read_header read_body
  round-Progress n r w =
      let offset = r.transferred % (r.msg_size + 4) in
      let inside : offset < r.msg_size + 4 = mod-lt r.transferred (omega arith) in
      elim (Bool-cases (ltb offset 4)) [
        | inl size ↦
            let left = 4 - offset in
            let (t, e, p) =
              Returns-ok (IsRead os sock c w left) (read_data os sock left w)
                (read_data-IsRead os sock c left w) in
            rw (size, Stops)
              (rw (e, Stops)
                (header_read-Progress offset left r w t (omega (arith, ltb→lt offset 4 size)) p))
        | inr body ↦
            let left = r.msg_size - (offset - 4) in
            let (t, e, p) =
              Returns-ok (IsRead os sock c w left) (read_data os sock left w)
                (read_data-IsRead os sock c left w) in
            rw (body, Stops)
              (rw (e, Stops)
                (body_read-Progress n left r w t (omega (arith, inside, ltb→ge offset 4 body)) p))
      ]

  -- On a socket that takes bytes, and whatever the peer has sent and the request holds, the loop of
  -- `handle_request` never uses up a fuel of more rounds than there are bytes to come, with one call
  -- of `send_data` for each message: it ends with a result, or with an access outside a block.
  pub serve_loop-Stops :
      (fuel n : ℕ) (r : Request) (f : Flags) (w : World)
      → length (c.stream w) < fuel
      → Stops (λ _. Unit) (serve_loop os fuel (suc n) sock r f w)
  unfolding serve_loop
  serve_loop-Stops zero n r f w enough = absurd (omega (arith, enough))
  serve_loop-Stops (suc fuel) n r f w enough =
      Stops-bind (Progress w) (λ _. Unit) (round os (suc n) sock r w) _ (round-Progress n r w)
        (λ t h. decide t t.next h (λ f' w' less. serve_loop-Stops fuel n t.request f' w' less))
    where
      decide :
          (t : Round os) (x : Next)
          → (x ≡ again → length (c.stream t.world) < length (c.stream w))
          → ((f' : Flags) (w' : World)
              → length (c.stream w') < fuel
              → Stops (λ _. Unit) (serve_loop os fuel (suc n) sock t.request f' w'))
          → Stops
              (λ _. Unit)
              (elim x as (λ _. Run (Served os)) [
                | again ↦
                    let (done, f', w') = load_done os f t.world in
                    elim done [
                      | true ↦
                          ok
                            (record { next = blocked; request = t.request; flags = f'; world = w' })
                      | false ↦ serve_loop os fuel (suc n) sock t.request f' w'
                    ]
                | other ↦
                    ok (record { next = other; request = t.request; flags = f; world = t.world })
              ])
      decide t blocked h rest = tt
      decide t finished h rest = tt
      decide t failed h rest = tt
      decide t again h rest = elim (Bool-cases (load_done os f t.world).0) [
        | inl done ↦ rw (done, Stops) tt
        | inr on ↦
            rw (on, Stops)
              (rest (load_done os f t.world).1 (load_done os f t.world).2 (
                omega (
                  arith,
                  h refl,
                  enough,
                  ap (λ v. length (c.stream v)) (load_done-world os f t.world),
                  ap length (c.signalled_apart t.world).0,
                )))
      ]
