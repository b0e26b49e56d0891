-- ===== src/Util/Log/Laws.antt =====
-- `log_msg` of util/log.c: that it ends, what it reports and what it leaves alone.
use c8005_assn.Base.{
  ==→ne, true, ◌≡◌, Ensures, Ensures-bind, Returns-ok, Stops, ne→==, Returns-bind, inr, inl, ◌⊎◌, ℕ,
  zero, suc, ◌≢◌, List, ◌==◌, ok, Returns, Bool-cases,
}
use c8005_assn.Os.{Os, einprogress}
use c8005_assn.Util.Log.{await, settle, log_msg, log_close}

module _ (os : Os) (log_fd : ℕ) where
  open os use {World, close, aio_write, aio_error}

  -- The kernel is done with a write after at most `n` further looks.
  abbrev pub EndsWithin : ℕ → World → Type 0
  EndsWithin zero w = (aio_error w).0 ≢ einprogress
  EndsWithin (suc n) w = ((aio_error w).0 ≢ einprogress) ⊎ EndsWithin n (aio_error w).1

  -- What the calls that a log makes leave alone.
  pub record IsKept (P : World → Type 0) : Type 0 where
    pub kept_close : (w : World) → P w → P (close log_fd w)
    pub kept_write : (line : List ℕ) (w : World) → P w → P (aio_write log_fd line w).1
    pub kept_error : (w : World) → P w → P (aio_error w).1

  await-Returns :
      (P : World → Type 0) (kept : IsKept P) (n : ℕ) (w : World)
      → EndsWithin n w
      → P w
      → Returns (λ r. P r.1) (await os (suc n) w)
  unfolding await
  await-Returns P kept zero w e p =
      rw (ne→== (aio_error w).0 einprogress e, await) (kept.kept_error w p)
  await-Returns P kept (suc n) w (inl e) p =
      rw (ne→== (aio_error w).0 einprogress e, await) (kept.kept_error w p)
  await-Returns P kept (suc n) w (inr e) p = elim (Bool-cases ((aio_error w).0 == einprogress)) [
    | inl busy ↦ rw (busy, await) (await-Returns P kept n (aio_error w).1 e (kept.kept_error w p))
    | inr ended ↦ rw (ended, await) (kept.kept_error w p)
  ]

  -- `log_msg` ends if the kernel finishes the write, and keeps what its calls keep.
  pub log_msg-Returns :
      (P : World → Type 0) (kept : IsKept P) (n : ℕ) (line : List ℕ) (w : World)
      → EndsWithin n (aio_write log_fd line w).1
      → P w
      → Returns (λ r. P r.1) (log_msg os (suc n) log_fd line w)
  unfolding log_msg settle log_close
  log_msg-Returns P kept n line w e p = elim (Bool-cases (aio_write log_fd line w).0) [
    | inr refused ↦ rw (refused, log_msg) (kept.kept_close w' p')
    | inl queued ↦
        rw (queued, log_msg)
          (Returns-bind (λ r. P r.1) (λ r. P r.1) (await os (suc n) w')
            (λ r. ok (settle os log_fd r)) (await-Returns P kept n w' e p') settled)
  ]
    where
      w' : World
      w' = (aio_write log_fd line w).1

      p' : P w'
      p' = kept.kept_write line w p

      settled : (r : ℕ × World) → P r.1 → P (settle os log_fd r).1
      settled (error, v) q = elim (Bool-cases (error == 0)) [
        | inl fine ↦ rw (fine, settle) q
        | inr bad ↦ rw (bad, settle) (kept.kept_close v q)
      ]

  pub log_msg-Stops :
      (n : ℕ) (line : List ℕ) (w : World)
      → EndsWithin n (aio_write log_fd line w).1
      → Stops (λ _. Unit) (log_msg os (suc n) log_fd line w)
  log_msg-Stops n line w e =
      let any : IsKept (λ _. Unit) = record {
        kept_close = λ w h. tt;
        kept_write = λ line w h. tt;
        kept_error = λ w h. tt;
      } in
      let (r, q, _) =
        Returns-ok (λ _. Unit) (log_msg os (suc n) log_fd line w)
          (log_msg-Returns (λ _. Unit) any n line w e tt) in
      rw (q, Stops) tt

  -- A log whose writes are all queued and carried out.
  pub record IsReliable : Type 0 where
    pub writes : (line : List ℕ) (w : World) → (aio_write log_fd line w).0 ≡ true
    pub settles : (w : World) → ((aio_error w).0 ≡ 0) ⊎ ((aio_error w).0 ≡ einprogress)

  -- On it `log_msg` closes nothing: what its writes and looks keep is kept.
  module _ (P : World → Type 0) (reliable : IsReliable)
      (on_write : (line : List ℕ) (w : World) → P w → P (aio_write log_fd line w).1)
      (on_error : (w : World) → P w → P (aio_error w).1) where
    await-Reliable :
        (fuel : ℕ) (w : World) → P w → Ensures (λ r. (r.0 ≡ 0) × P r.1) (await os fuel w)
    unfolding await
    await-Reliable zero w p = tt
    await-Reliable (suc fuel) w p = elim (Bool-cases ((aio_error w).0 == einprogress)) [
      | inl busy ↦ rw (busy, await) (await-Reliable fuel (aio_error w).1 (on_error w p))
      | inr ended ↦ rw (ended, await) (done (reliable.settles w) (==→ne _ _ ended), on_error w p)
    ]
      where
        done :
            ((aio_error w).0 ≡ 0) ⊎ ((aio_error w).0 ≡ einprogress)
            → (aio_error w).0 ≢ einprogress
            → (aio_error w).0 ≡ 0
        done (inl z) n = z
        done (inr busy) n = absurd (n busy)

    pub log_msg-Reliable :
        (fuel : ℕ) (line : List ℕ) (w : World)
        → P w
        → Ensures (λ r. P r.1) (log_msg os fuel log_fd line w)
    unfolding log_msg settle
    log_msg-Reliable fuel line w p =
        rw (reliable.writes line w, log_msg)
          (Ensures-bind (λ r. (r.0 ≡ 0) × P r.1) (λ r. P r.1)
            (await os fuel (aio_write log_fd line w).1) (λ r. ok (settle os log_fd r))
            (await-Reliable fuel (aio_write log_fd line w).1 (on_write line w p))
            (λ r (fine, k). rw (fine, settle) k))
