-- ===== src/Server/Select/Slots.antt =====
-- The loop over the slots of the `select` server that are ready.
use c8005_assn.Base.{
  ◌≢◌, Ensures-weaken, sym, ℕ, zero, suc, ◌≡◌, ◌<◌, inl, inr, arith, some, Ensures, Ensures-bind,
  Bool-cases, Option-cases, subst,
}
use c8005_assn.Os.{Os}
use c8005_assn.Server.Signals.{load_done}
use c8005_assn.Server.Select.{Select, fd_setsize, handle_request, is_selected, serve_clients}
use c8005_assn.Server.Select.Invariant.{IsValid, IsValid-moved, Follows, select_request-Follows}

-- After a look at `done`.
abbrev pub looked : (os : Os) → Select os → Select os
looked os e = record e {
  flags = (load_done os e.flags e.world).1;
  world = (load_done os e.flags e.world).2;
}

-- A slot that is served holds the socket that is served.
is_selected-sock :
    (os : Os) (i fd : ℕ) (e : Select os)
    → is_selected os i e ≡ some fd
    → (e.clients i).sock ≡ some fd
unfolding is_selected
is_selected-sock os i fd e h = elim (Option-cases ((e.clients i).sock)) [
  | inl q ↦ ground (arith, h, q)
  | inr (s, q) ↦ elim (Bool-cases (e.set s)) [
    | inl b ↦ ground (arith, h, q, b)
    | inr b ↦ ground (arith, h, q, b)
  ]
]

-- The loop over the slots keeps what the look at `done` and the requests of clients keep.
module _ (os : Os) (acceptor fuel spins : ℕ) (P : Select os → Type 0)
    (books : (e : Select os) → P e → IsValid os acceptor e)
    (on_done : (e : Select os) → P e → P (looked os e))
    (on_request : (fd : ℕ) (e : Select os)
      → fd ≢ acceptor
      → (e.clients fd).sock ≡ some fd
      → P e
      → Ensures (λ r. P r.1) (handle_request os fuel spins fd e)) where
  pub serve_clients-Ensures :
      (n i : ℕ) (e : Select os)
      → acceptor < i
      → P e
      → Ensures (λ r. P r.1) (serve_clients os fuel spins n i e)
  unfolding serve_clients is_selected
  serve_clients-Ensures zero i e past p = p
  serve_clients-Ensures (suc n) i e past p =
      let e' = looked os e in
      let p' = on_done e p in
      elim (Bool-cases (load_done os e.flags e.world).0) [
        | inl done ↦ rw (done, serve_clients) p'
        | inr go ↦
            rw (go, serve_clients)
              (elim (Option-cases (is_selected os i e')) [
                | inl skip ↦
                    rw (skip, serve_clients) (serve_clients-Ensures n (suc i) e' (omega arith) p')
                | inr (fd, q) ↦
                    let at_i : (e'.clients i).sock ≡ some fd = is_selected-sock os i fd e' q in
                    let own : fd ≡ i = (books e' p').owned i fd at_i in
                    let live : (e'.clients fd).sock ≡ some fd =
                      subst (λ k. (e'.clients k).sock ≡ some fd) (sym own) at_i in
                    rw (q, serve_clients)
                      (Ensures-bind (λ r. P r.1) (λ r. P r.1) (handle_request os fuel spins fd e') _
                        (on_request fd e' (λ same. omega (arith, past, own, same)) live p')
                        (λ (served, t) h. elim (Bool-cases served) [
                          | inr lost ↦ rw (lost, Ensures) h
                          | inl fine ↦
                              rw (fine, Ensures) (serve_clients-Ensures n (suc i) t (omega arith) h)
                        ]))
              ])
      ]

-- From a slot `i` after the acceptor's, with the books right, the loop over the slots leaves them right
-- when it returns, whatever the requests do, the failing ones included.
pub serve_clients-IsValid :
    (os : Os) (acceptor fuel spins n i : ℕ) (e : Select os)
    → acceptor < i
    → acceptor < fd_setsize
    → IsValid os acceptor e
    → Ensures (λ r. IsValid os acceptor r.1) (serve_clients os fuel spins n i e)
serve_clients-IsValid os acceptor fuel spins n i e past room v =
    serve_clients-Ensures os acceptor fuel spins (IsValid os acceptor) (λ e h. h)
      (λ e h. IsValid-moved (load_done os e.flags e.world).2 (load_done os e.flags e.world).1 h)
      (λ fd e client live h.
        Ensures-weaken (Follows os acceptor fd e) (λ r. IsValid os acceptor r.1)
          (handle_request os fuel spins fd e)
          (select_request-Follows os acceptor fd client fuel spins e live room h) (λ r f. f.0))
      n i e past v
