-- ===== src/Protocol/Read.antt =====
-- `read_data` of common/protocol.c.
use mathlib.Core.Logic.{◌≢◌}
use c8005_assn.Base.{
  lt→ltb, sym, ℕ, zero, suc, ◌+◌, ◌-◌, ◌≤◌, ◌<◌, ◌≡◌, refl, ap, subst, ◌∙◌, inl, inr, none, some,
  List, [], ◌∷◌, ◌++◌, append_assoc, arith, ltb, length, length-append, take, drop,
  take-length-append, drop-length-append, Returns-ok, ok, Bool-cases, List-cases, min, Option-cases,
  Returns, ltb→lt,
}
use c8005_assn.Os.{Os, ewouldblock}
use c8005_assn.Os.Stream.{Connection, Arrived, Ready}
use c8005_assn.Protocol.{Received, read_loop, read_data}

-- At the end of the stream `read_data` gives 0 and stores nothing.
pub read_data_closed :
    (os : Os) (sock n : ℕ) (w : os.World)
    → ((k : ℕ) (w : os.World) → (os.recv sock k w).0 ≡ some [])
    → (w' : os.World) × (read_data os sock n w
        ≡ ok (record { count = some 0; bytes = []; world = w' }))
unfolding read_data read_loop
read_data_closed os sock zero w ended = (w, refl)
read_data_closed os sock (suc n) w ended = (
  (os.recv sock (suc n - 0) w).1,
  rw (lt→ltb 0 (suc n) (omega arith), read_loop) (rw (ended (suc n - 0) w, read_loop)),
)

module _ (os : Os) (sock : ℕ) (c : Connection os sock) where
  open os use {World, errno, recv}

  -- What is known of a read that began at `w₀` and asked for `n` bytes.
  pub record IsRead (start : World) (n : ℕ) (r : Received os) : Type 0 where
    pub fits : length r.bytes ≤ n
    pub order : c.stream start ≡ r.bytes ++ c.stream r.world
    pub silent : c.delivered r.world ≡ c.delivered start
    pub counted : (k : ℕ) → r.count ≡ some k → k ≡ length r.bytes
    pub failed : r.count ≡ none → errno r.world ≢ ewouldblock

  -- What holds before each round.
  record IsPart (start : World) (n total : ℕ) (got : List ℕ) (w : World) : Type 0 where
    count : total ≡ length got
    fits : total ≤ n
    order : c.stream start ≡ got ++ c.stream w
    silent : c.delivered w ≡ c.delivered start

  IsPart-step :
      (start : World) (n total : ℕ) (got : List ℕ) (w : World) (b : ℕ) (bs : List ℕ)
      → total < n
      → (recv sock (n - total) w).0 ≡ some (b ∷ bs)
      → IsPart start n total got w
      → IsPart start n (total + length (b ∷ bs)) (got ++ b ∷ bs) (recv sock (n - total) w).1
  IsPart-step start n total got w b bs lt e p = record {
    count = omega (arith, length-append got (b ∷ bs), p.count);
    fits = omega (arith, (c.recv_some (n - total) w (b ∷ bs) e).0);
    order = rw (p.order, (c.recv_some (n - total) w (b ∷ bs) e).1, append_assoc);
    silent = (c.recv_some (n - total) w (b ∷ bs) e).2 ∙ p.silent;
  }

  read_loop-IsRead :
      (fuel : ℕ) (start : World) (n total : ℕ) (got : List ℕ) (w : World)
      → n ≤ total + fuel
      → IsPart start n total got w
      → Returns (IsRead start n) (read_loop os fuel sock n total got w)
  unfolding read_loop
  read_loop-IsRead zero start n total got w f p = ground arith
  read_loop-IsRead (suc fuel) start n total got w f p = elim (Bool-cases (ltb total n)) [
    | inl more ↦
        rw (more, read_loop)
          (elim (Option-cases (recv sock (n - total) w).0) [
            | inl e ↦ rw (e, read_loop) (ground (arith, c.recv_none (n - total) w e))
            | inr ([], e) ↦ rw (e, read_loop) (ground (arith, c.recv_some (n - total) w [] e))
            | inr (b ∷ bs, e) ↦
                rw (e, read_loop)
                  (read_loop-IsRead fuel start n (total + length (b ∷ bs)) (got ++ b ∷ bs)
                    (recv sock (n - total) w).1 (omega arith)
                    (IsPart-step start n total got w b bs (ltb→lt total n more) e p))
          ])
    | inr done ↦ rw (done, read_loop) (ground arith)
  ]

  -- `read_data` ends. The buffer holds at most the bytes asked for, the next ones of the stream in
  -- order, the count is their number, nothing is sent, and -1 is no EWOULDBLOCK.
  pub read_data-IsRead : (n : ℕ) (w : World) → Returns (IsRead w n) (read_data os sock n w)
  unfolding read_data
  read_data-IsRead n w =
      read_loop-IsRead n w n 0 [] w (omega arith)
        (record { count = refl; fits = omega arith; order = refl; silent = refl })

  read_loop-Arrived :
      (a : Arrived os sock c) (fuel n total : ℕ) (got : List ℕ) (w : World)
      → n ≤ total + fuel
      → total ≤ n
      → Returns
          (λ r. r.count ≡ some (total + min (n - total) (length (c.stream w))))
          (read_loop os fuel sock n total got w)
  unfolding read_loop
  read_loop-Arrived a zero n total got w f le = ground arith
  read_loop-Arrived a (suc fuel) n total got w f le = elim (Bool-cases (ltb total n)) [
    | inl more ↦
        rw (more, read_loop)
          (elim (List-cases (c.stream w)) [
            | inl e ↦
                let d = a.dry (n - total) w (omega (arith, ltb→lt total n more)) e in
                rw (d.0, read_loop) (ground (arith, d.1, e))
            | inr (x, xs, e) ↦
                let (b, bs, d) =
                  a.ready (n - total) w (omega (arith, ltb→lt total n more)) (rw e (cc)) in
                let law = c.recv_some (n - total) w (b ∷ bs) d in
                rw (d, read_loop)
                  (subst
                    (λ v.
                      Returns (λ r. r.count ≡ some v)
                        (read_loop os fuel sock n (total + length (b ∷ bs)) (got ++ b ∷ bs)
                          (recv sock (n - total) w).1))
                    (omega (
                      arith,
                      law.0,
                      ap length law.1,
                      length-append (b ∷ bs) (c.stream (recv sock (n - total) w).1),
                      ltb→lt total n more,
                    ))
                    (read_loop-Arrived a fuel n (total + length (b ∷ bs)) (got ++ b ∷ bs)
                      (recv sock (n - total) w).1 (omega arith)
                      (omega (arith, law.0, ltb→lt total n more))))
          ])
    | inr done ↦ rw (done, read_loop) (ground arith)
  ]

  -- Where all the peer's bytes have arrived, `read_data` ends with the bytes asked for, or with all
  -- that are left if these are fewer.
  pub read_data-Arrived :
      (a : Arrived os sock c) (n : ℕ) (w : World)
      → Returns (λ r. r.count ≡ some (min n (length (c.stream w)))) (read_data os sock n w)
  unfolding read_data
  read_data-Arrived a n w =
      subst (λ v. Returns (λ r. r.count ≡ some v) (read_loop os n sock n 0 [] w)) (omega arith)
        (read_loop-Arrived a n n 0 [] w (omega arith) (omega arith))

  -- A read of bytes that have all arrived stores exactly those.
  pub record IsExact (n : ℕ) (start : World) (r : Received os) : Type 0 where
    pub whole : r.count ≡ some n
    pub stored : r.bytes ≡ take n (c.stream start)
    pub length_stored : length r.bytes ≡ n
    pub rest : c.stream r.world ≡ drop n (c.stream start)
    pub silent : c.delivered r.world ≡ c.delivered start

  exact :
      (n : ℕ) (w : World) (r : Received os)
      → n ≤ length (c.stream w)
      → IsRead w n r
      → r.count ≡ some (min n (length (c.stream w)))
      → IsExact n w r
  exact n w r h p e = record {
    whole = rw e (ap some (omega arith));
    stored = rw (p.order, ← size, take-length-append);
    length_stored = size;
    rest = rw (p.order, ← size, drop-length-append);
    silent = p.silent;
  }
    where
      size : length r.bytes ≡ n
      size = omega (arith, p.counted (min n (length (c.stream w))) e)

  -- Where all that the peer sends has arrived, and that is `n` bytes or more, `read_data` stores the next `n` bytes of the stream, in order,
  -- gives `n`, and leaves the rest of the stream.
  pub read_data-IsExact :
      (a : Arrived os sock c) (n : ℕ) (w : World)
      → n ≤ length (c.stream w)
      → (r : Received os) × (read_data os sock n w ≡ ok r) × IsExact n w r
  read_data-IsExact a n w h =
      let (r, e, p) = Returns-ok _ _ (read_data-IsRead n w) in
      (r, e, exact n w r h p (rw e at (read_data-Arrived a n w)))

  -- The loop does not stop before it has the bytes asked for.
  read_loop-Ready :
      (a : Ready os sock c) (fuel n total : ℕ) (got : List ℕ) (w : World)
      → n ≤ total + fuel
      → total ≤ n
      → n ≤ total + length (c.stream w)
      → Returns (λ r. r.count ≡ some n) (read_loop os fuel sock n total got w)
  unfolding read_loop
  read_loop-Ready a zero n total got w f le enough = ground arith
  read_loop-Ready a (suc fuel) n total got w f le enough = elim (Bool-cases (ltb total n)) [
    | inr done ↦ rw (done, read_loop) (ground arith)
    | inl more ↦
        let lt = ltb→lt total n more in
        let (b, bs, d) =
          a.gives (n - total) w (omega (arith, lt)) (λ e. omega (arith, enough, lt, ap length e)) in
        let law = c.recv_some (n - total) w (b ∷ bs) d in
        let w' = (recv sock (n - total) w).1 in
        rw (more, read_loop)
          (rw (d, read_loop)
            (read_loop-Ready a fuel n (total + length (b ∷ bs)) (got ++ b ∷ bs) w' (omega arith)
              (omega (arith, law.0, lt))
              (omega (arith, enough, ap length law.1, length-append (b ∷ bs) (c.stream w')))))
  ]

  -- Where `n` bytes or more are to come, and `recv` gives bytes whenever some are to come, `read_data`
  -- stores the next `n` bytes of the stream, in order, gives `n`, and leaves the rest.
  pub read_data-Ready :
      (a : Ready os sock c) (n : ℕ) (w : World)
      → n ≤ length (c.stream w)
      → (r : Received os) × (read_data os sock n w ≡ ok r) × IsExact n w r
  unfolding read_data
  read_data-Ready a n w h =
      let (r, e, p) = Returns-ok (IsRead w n) (read_data os sock n w) (read_data-IsRead n w) in
      let min_all : min n (length (c.stream w)) ≡ n = omega arith in
      (
        r,
        e,
        exact n w r h p (
            rw e at (read_loop-Ready a n n 0 [] w (omega arith) (omega arith) (omega arith))
            ∙ ap some (sym min_all)),
      )
