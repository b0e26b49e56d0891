-- ===== src/Client/Frames.antt =====
-- What a client thread sends, and the string that it sends.
use c8005_assn.Base.{
  ◌⊎◌, inr, inl, ok, none, true, ltb, ℕ, zero, suc, ◌+◌, ◌≡◌, refl, ap, sym, ◌∙◌, ◌≤◌, arith, List,
  [], ◌++◌, append_assoc, append-nil, encode, u32, length, Returns, Returns-ok, Option-cases,
}
use c8005_assn.Os.{Os}
use c8005_assn.Os.Stream.{Connection, Writable}
use c8005_assn.Protocol.{Received, read_data}
use c8005_assn.Protocol.Read.{IsRead, read_data-IsRead}
use c8005_assn.Protocol.Write.{send_data-Writable}
use c8005_assn.Client.{int_max, add_time, Session, send_requests}

-- A message with its size in front.
abbrev pub frame : List ℕ → List ℕ
frame msg = encode 4 (u32 (length msg)) ++ msg

abbrev pub repeat_frame : ℕ → List ℕ → List ℕ
repeat_frame zero msg = []
repeat_frame (suc k) msg = frame msg ++ repeat_frame k msg

-- A call of `read_data` for the reply to `msg` has failed and left the world `w`.
abbrev pub IsLost : (os : Os) → ℕ → List ℕ → os.World → Type 0
IsLost os sock msg w =
    (v : os.World) × (r : Received os) × (read_data os sock (length msg) v ≡ ok r)
    × (r.count ≡ none)
    × (r.world ≡ w)

-- With `k` of `n` messages sent: all have been answered and counted, or all but the last, whose reply was
-- lost.
abbrev pub IsCounted : (os : Os) → ℕ → List ℕ → ℕ → ℕ → ℕ → Session os → Type 0
IsCounted os sock msg n k count t =
    ((k ≡ n) × (t.client_count ≡ count + n))
    ⊎ ((1 ≤ k) × (k ≤ n) × (t.client_count + 1 ≡ count + k) × IsLost os sock msg t.world)

-- What is known after the loop over `n` requests.
abbrev pub IsSending :
    {os : Os} {sock : ℕ} → Connection os sock → List ℕ → ℕ → Session os → Session os → Type 0
IsSending {os} {sock} c msg n s t =
    (k : ℕ) × (c.delivered t.world ≡ c.delivered s.world ++ repeat_frame k msg)
    × IsCounted os sock msg n k s.client_count t

module _ (os : Os) (sock : ℕ) (c : Connection os sock) (o : Writable os sock) (msg : List ℕ)
    (calm : (w : os.World) → c.delivered (os.usleep w) ≡ c.delivered w) where
  extend :
      (n : ℕ) (s s' t : Session os)
      → c.delivered s'.world ≡ c.delivered s.world ++ frame msg
      → s'.client_count ≡ s.client_count + 1
      → IsSending c msg n s' t
      → IsSending c msg (suc n) s t
  extend n s s' t sent one (k, out, counted) = (
    suc k,
    out
        ∙ ap (λ d. d ++ repeat_frame k msg) sent
        ∙ append_assoc (c.delivered s.world) (frame msg) (repeat_frame k msg),
    elim counted [
      | inl (all, count) ↦ inl (ap suc all, omega (arith, count, one))
      | inr (some_sent, le, count, lost) ↦
          inr (omega arith, omega (arith, le), omega (arith, count, one), lost)
    ],
  )

  -- On a socket that takes bytes, if `usleep` sends nothing and `client_count` can grow by `n`, the loop
  -- over `n` requests returns, and what it has sent is a whole number of frames: `n` of them, and
  -- `client_count` has grown by `n`; or at least one and at most `n`, where `read_data` failed at the
  -- last one's reply, and `client_count` has grown by one less.
  pub send_requests_lem :
      (n : ℕ) (s : Session os)
      → s.client_count + n ≤ int_max
      → Returns (IsSending c msg n s) (send_requests os n sock msg s)
  unfolding send_requests
  send_requests_lem zero s small = (0, sym (append-nil _), inl (refl, omega arith))
  send_requests_lem (suc n) s small =
      let w = (os.gettimeofday s.world).1 in
      let (size, q, full, out, left) =
        send_data-Writable os sock c (encode 4 (u32 (length msg))) o w in
      let (body, q', full', out', left') = send_data-Writable os sock c msg o size.world in
      let (reply, q'', r) =
        Returns-ok (IsRead os sock c body.world (length msg))
          (read_data os sock (length msg) body.world)
          (read_data-IsRead os sock c (length msg) body.world) in
      let sent : c.delivered reply.world ≡ c.delivered s.world ++ frame msg =
        r.silent
        ∙ out'
        ∙ ap (λ d. d ++ msg)
            (out ∙ ap (λ d. d ++ encode 4 (u32 (length msg))) (c.time_apart s.world).1)
        ∙ append_assoc (c.delivered s.world) (encode 4 (u32 (length msg))) msg in
      rw (q, Returns)
        (rw (full, Returns)
          (rw (q', Returns)
            (rw (full', Returns)
              (rw (q'', Returns)
                (elim (Option-cases reply.count) [
                  | inl lost ↦
                      rw (lost, Returns)
                        (
                          1,
                          sent ∙ ap (λ d. c.delivered s.world ++ d) (sym (append-nil (frame msg))),
                          inr (
                            omega arith,
                            omega arith,
                            refl,
                            (body.world, reply, q'', lost, refl),
                          ),
                        )
                  | inr (k, answered) ↦
                      rw (answered, Returns)
                        (let s' : Session os = record {
                          client_count = s.client_count + 1;
                          request_time = u32 (
                              add_time s.request_time (os.gettimeofday s.world).0
                                (os.gettimeofday reply.world).0);
                          data_received = u32 (s.data_received + k);
                          world = os.usleep (os.gettimeofday reply.world).1;
                        } in
                          let sent' =
                            calm (os.gettimeofday reply.world).1
                            ∙ (c.time_apart reply.world).1
                            ∙ sent in
                          let (t, e, h) =
                            Returns-ok (IsSending c msg n s') (send_requests os n sock msg s')
                              (send_requests_lem n s' (omega (arith, small))) in
                          let more : ltb s.client_count int_max ≡ true = ground (arith, small) in
                          rw (more, Returns) (rw (e, Returns) (extend n s s' t sent' refl h)))
                ])))))
