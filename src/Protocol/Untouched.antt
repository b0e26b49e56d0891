-- ===== src/Protocol/Untouched.antt =====
-- What `read_data` and `send_data` leave alone outside their socket.
use c8005_assn.Base.{
  ℕ, zero, suc, ◌+◌, ◌-◌, List, [], ◌∷◌, ◌++◌, length, drop, ltb, Ensures, Bool-cases, Option-cases,
  inl, inr,
}
use c8005_assn.Os.{Os}
use c8005_assn.Protocol.{read_loop, read_data, send_loop, send_data}

-- Sending and receiving on a socket keep `P`.
pub record IsQuiet (os : Os) (sock : ℕ) (P : os.World → Type 0) : Type 0 where
  pub on_recv : (n : ℕ) (w : os.World) → P w → P (os.recv sock n w).1
  pub on_send : (bs : List ℕ) (w : os.World) → P w → P (os.send sock bs w).1

module _ (os : Os) (sock : ℕ) (P : os.World → Type 0) (quiet : IsQuiet os sock P) where
  open os use {World, recv, send}

  read_loop-Ensures :
      (fuel n total : ℕ) (got : List ℕ) (w : World)
      → P w
      → Ensures (λ r. P r.world) (read_loop os fuel sock n total got w)
  unfolding read_loop
  read_loop-Ensures zero n total got w p = elim (Bool-cases (ltb total n)) [
    | inl more ↦ rw (more, read_loop) tt
    | inr whole ↦ rw (whole, read_loop) p
  ]
  read_loop-Ensures (suc fuel) n total got w p =
      let p' = quiet.on_recv (n - total) w p in
      elim (Bool-cases (ltb total n)) [
        | inr whole ↦ rw (whole, read_loop) p
        | inl more ↦
            rw (more, read_loop)
              (elim (Option-cases (recv sock (n - total) w).0) [
                | inl refused ↦ rw (refused, read_loop) p'
                | inr ([], e) ↦ rw (e, read_loop) p'
                | inr (b ∷ bs, e) ↦
                    rw (e, read_loop)
                      (read_loop-Ensures fuel n (total + length (b ∷ bs)) (got ++ b ∷ bs)
                        (recv sock (n - total) w).1 p')
              ])
      ]

  pub read_data-Ensures :
      (n : ℕ) (w : World) → P w → Ensures (λ r. P r.world) (read_data os sock n w)
  unfolding read_data
  read_data-Ensures n w p = read_loop-Ensures n n 0 [] w p

  send_loop-Ensures :
      (fuel n total : ℕ) (left : List ℕ) (w : World)
      → P w
      → Ensures (λ r. P r.world) (send_loop os fuel sock n total left w)
  unfolding send_loop
  send_loop-Ensures zero n total left w p = elim (Bool-cases (ltb total n)) [
    | inl more ↦ rw (more, send_loop) tt
    | inr whole ↦ rw (whole, send_loop) p
  ]
  send_loop-Ensures (suc fuel) n total left w p =
      let p' = quiet.on_send left w p in
      elim (Bool-cases (ltb total n)) [
        | inr whole ↦ rw (whole, send_loop) p
        | inl more ↦
            rw (more, send_loop)
              (elim (Option-cases (send sock left w).0) [
                | inl refused ↦ rw (refused, send_loop) p'
                | inr (k, e) ↦
                    rw (e, send_loop)
                      (send_loop-Ensures fuel n (total + k) (drop k left) (send sock left w).1 p')
              ])
      ]

  pub send_data-Ensures :
      (bs : List ℕ) (w : World) → P w → Ensures (λ r. P r.world) (send_data os sock bs w)
  unfolding send_data
  send_data-Ensures bs w p = send_loop-Ensures (length bs) (length bs) 0 bs w p
