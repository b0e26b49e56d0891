-- ===== src/Protocol/Write.antt =====
-- `send_data` of common/protocol.c.
use c8005_assn.Base.{
  ℕ, zero, suc, ◌+◌, ◌≤◌, ◌<◌, ◌≡◌, ◌≢◌, refl, sym, ap, ◌∙◌, inl, inr, none, some, List, [], ◌++◌,
  append_assoc, arith, ltb, ◌==◌, if◌then◌else◌, length, length-drop, take, drop, take-add,
  drop-add, append-nil, Bool-cases, Option-cases, Returns, Returns-ok, ok, ltb→lt, take_all, le→ltb,
}
use c8005_assn.Os.{Os, ewouldblock}
use c8005_assn.Os.Stream.{Connection, Writable}
use c8005_assn.Protocol.{Sent, send_loop, send_data}

module _ (os : Os) (sock : ℕ) (c : Connection os sock) (buf : List ℕ) where
  open os use {World, errno, send}

  -- What is known of the sending of `buf`: a prefix of it went out, the whole of it if the call
  -- did not stop short, and as many bytes as the count says if there is one.
  pub record IsSent (start : World) (r : Sent os) : Type 0 where
    pub prefix :
        (k : ℕ) × (k ≤ length buf) × (c.delivered r.world ≡ c.delivered start ++ take k buf)
    pub unread : c.stream r.world ≡ c.stream start
    pub counted :
        (k : ℕ)
        → r.count ≡ some k
        → (k ≤ length buf) × (c.delivered r.world ≡ c.delivered start ++ take k buf)
    pub failed : r.count ≡ none → errno r.world ≢ ewouldblock

  record IsPart (start : World) (total : ℕ) (left : List ℕ) (w : World) : Type 0 where
    fits : total ≤ length buf
    rest : left ≡ drop total buf
    out : c.delivered w ≡ c.delivered start ++ take total buf
    unread : c.stream w ≡ c.stream start

  finish :
      (start : World) (total : ℕ) (left : List ℕ) (w : World)
      → IsPart start total left w
      → IsSent start (record { count = some total; world = w })
  finish start total left w p = record {
    prefix = (total, p.fits, p.out);
    unread = p.unread;
    counted = λ k e. ground arith;
    failed = λ e. cc;
  }

  fail :
      (start : World) (total : ℕ) (left : List ℕ) (w : World)
      → (send sock left w).0 ≡ none
      → IsPart start total left w
      → IsSent start (record {
        count = if errno (send sock left w).1 == ewouldblock then some total else none;
        world = (send sock left w).1;
      })
  fail start total left w e p = record {
    prefix = (total, p.fits, out);
    unread = (c.send_none left w e).0 ∙ p.unread;
    counted = λ k q. ground (arith, p.fits, out);
    failed = λ q. ground arith;
  }
    where
      out : c.delivered (send sock left w).1 ≡ c.delivered start ++ take total buf
      out = (c.send_none left w e).1 ∙ p.out

  IsPart-step :
      (start : World) (total : ℕ) (left : List ℕ) (w : World) (k : ℕ)
      → (send sock left w).0 ≡ some k
      → IsPart start total left w
      → IsPart start (total + k) (drop k left) (send sock left w).1
  IsPart-step start total left w k e p = record {
    fits = omega (arith, law.0, ap length p.rest, length-drop total buf, p.fits);
    rest = rw (p.rest, drop-add total k (total + k) buf refl);
    out = law.3 ∙ rw (p.out, p.rest, append_assoc, take-add total k (total + k) buf refl);
    unread = law.2 ∙ p.unread;
  }
    where
      law :
          (k ≤ length left)
          × (left ≢ [] → 0 < k)
          × (c.stream (send sock left w).1 ≡ c.stream w)
          × (c.delivered (send sock left w).1 ≡ c.delivered w ++ take k left)
      law = c.send_some left w k e

  left-ne-nil :
      (start : World) (total : ℕ) (left : List ℕ) (w : World)
      → IsPart start total left w
      → total < length buf
      → left ≢ []
  left-ne-nil start total left w p lt e =
      omega (arith, ap length (sym p.rest ∙ e), length-drop total buf)

  send_loop-IsSent :
      (fuel : ℕ) (start : World) (total : ℕ) (left : List ℕ) (w : World)
      → length buf ≤ total + fuel
      → IsPart start total left w
      → Returns (IsSent start) (send_loop os fuel sock (length buf) total left w)
  unfolding send_loop
  send_loop-IsSent zero start total left w f p =
      rw (le→ltb total (length buf) (omega arith), send_loop) (finish start total left w p)
  send_loop-IsSent (suc fuel) start total left w f p = elim (Bool-cases (ltb total (length buf))) [
    | inl more ↦
        rw (more, send_loop)
          (elim (Option-cases (send sock left w).0) [
            | inl e ↦ rw (e, send_loop) (fail start total left w e p)
            | inr (k, e) ↦
                let pos =
                  (c.send_some left w k e).1
                    (left-ne-nil start total left w p (ltb→lt total (length buf) more)) in
                rw (e, send_loop)
                  (send_loop-IsSent fuel start (total + k) (drop k left) (send sock left w).1
                    (omega arith) (IsPart-step start total left w k e p))
          ])
    | inr done ↦ rw (done, send_loop) (finish start total left w p)
  ]

  -- `send_data` ends. What went out is a prefix of the buffer, as long as the count says if there
  -- is one; nothing is received, and -1 is no EWOULDBLOCK.
  pub send_data-IsSent : (w : World) → Returns (IsSent w) (send_data os sock buf w)
  unfolding send_data
  send_data-IsSent w =
      send_loop-IsSent (length buf) w 0 buf w (omega arith)
        (record { fits = omega arith; rest = refl; out = rw append-nil; unread = refl })

  send_loop-Writable :
      (a : Writable os sock) (fuel : ℕ) (start : World) (total : ℕ) (left : List ℕ) (w : World)
      → length buf ≤ total + fuel
      → IsPart start total left w
      → Returns
          (λ r. r.count ≡ some (length buf))
          (send_loop os fuel sock (length buf) total left w)
  unfolding send_loop
  send_loop-Writable a zero start total left w f p =
      rw (le→ltb total (length buf) (omega arith), send_loop) (ap some (omega (arith, p.fits)))
  send_loop-Writable a (suc fuel) start total left w f p =
      elim (Bool-cases (ltb total (length buf))) [
        | inl more ↦
            let lt = ltb→lt total (length buf) more in
            let some_left = left-ne-nil start total left w p lt in
            let (k, e) = a.takes left w some_left in
            let pos = (c.send_some left w k e).1 some_left in
            rw (more, send_loop)
              (rw (e, send_loop)
                (send_loop-Writable a fuel start (total + k) (drop k left) (send sock left w).1
                  (omega arith) (IsPart-step start total left w k e p)))
        | inr done ↦ rw (done, send_loop) (ap some (ground (arith, p.fits)))
      ]

  send_data-full :
      (a : Writable os sock) (w : World)
      → Returns (λ r. r.count ≡ some (length buf)) (send_data os sock buf w)
  unfolding send_data
  send_data-full a w =
      send_loop-Writable a (length buf) w 0 buf w (omega arith)
        (record { fits = omega arith; rest = refl; out = rw append-nil; unread = refl })

  -- On a socket that takes bytes `send_data` sends the whole buffer, in order.
  pub send_data-Writable :
      (a : Writable os sock) (w : World)
      → (r : Sent os) × (send_data os sock buf w ≡ ok r)
        × (r.count ≡ some (length buf))
        × (c.delivered r.world ≡ c.delivered w ++ buf)
        × (c.stream r.world ≡ c.stream w)
  send_data-Writable a w =
      let (r, e, p) = Returns-ok (IsSent w) (send_data os sock buf w) (send_data-IsSent w) in
      let full : r.count ≡ some (length buf) = rw e at (send_data-full a w) in
      (r, e, full, whole r p full, p.unread)
    where
      whole :
          (r : Sent os)
          → IsSent w r
          → r.count ≡ some (length buf)
          → c.delivered r.world ≡ c.delivered w ++ buf
      whole r p full =
          (p.counted (length buf) full).1
          ∙ ap (λ t. c.delivered w ++ t) (take_all buf (length buf) (omega arith))
