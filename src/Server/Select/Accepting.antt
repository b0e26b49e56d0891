-- ===== src/Server/Select/Accepting.antt =====
-- `select_server_add_client` and the `accept_client` loop of server/select_server.c, and the kernel's
-- table of descriptors.
use c8005_assn.Base.{
  ltb→lt, ℕ, zero, suc, ◌+◌, ◌≤◌, ◌<◌, ◌≡◌, ◌∙◌, inl, inr, sym, ap, subst, arith, Bool, true, false,
  ltb, ltb→lt, Ensures, Ensures-bind, Bool-cases, Option-cases, none,
}
use c8005_assn.Os.{Os}
use c8005_assn.Server.Signals.{Flags}
use c8005_assn.Server.Acceptor.{Accepted, accept_client}
use c8005_assn.Server.Descriptors.{Descriptors, IsAccepted, IsTable, IsSelecting}
use c8005_assn.Server.Descriptors.Kept.{accept_client-cases}
use c8005_assn.Server.Select.{Select, fd_setsize, enter, add_client, accept_all}
use c8005_assn.Server.Select.Invariant.{IsValid-moved}
use c8005_assn.Server.Select.Sets.{enter-IsValid}
use c8005_assn.Server.Select.Table.{IsServing, IsServing-moved}

open_and_not : {b : Bool} → b ≡ true → b ≡ false → ⊥
open_and_not h k = cc

module _ (os : Os) (d : Descriptors os) (table : IsTable d) (selecting : IsSelecting d)
    (acceptor : ℕ) (room : acceptor < fd_setsize) where
  open os use {World, accept, set_nonblocking, select, signalled}

  -- What `accept` promises of a client's socket, the client not being in the books yet.
  record IsNew (sock : ℕ) (e : Select os) : Type 0 where
    absent : (e.clients sock).sock ≡ none
    open_now : d.opened e.world sock ≡ true
    counted : e.total_served + 1 ≤ d.accepts e.world

  enter-IsServing :
      (a : Accepted) (e : Select os)
      → a.sock < fd_setsize
      → IsNew a.sock e
      → IsServing d acceptor e
      → IsServing d acceptor (enter os a e)
  unfolding enter
  enter-IsServing a e inside n v =
      let (valid, total, _) =
        enter-IsValid os acceptor a e inside n.absent (omega (arith, n.counted, d.few e.world))
          v.valid in
      record {
        valid = valid;
        opened = λ i h. ground (arith, v.opened i, h, n.open_now);
        accepted = omega (arith, total, n.counted);
      }

  add_client-IsServing :
      (a : Accepted) (e : Select os)
      → IsNew a.sock e
      → IsServing d acceptor e
      → Ensures (λ r. IsServing d acceptor r.1) (add_client os a e)
  unfolding add_client
  add_client-IsServing a e n v =
      let w = (set_nonblocking a.sock e.world).1 in
      let same = table.on_nonblocking a.sock e.world in
      let v' = IsServing-moved os d acceptor w e.flags e.set same v in
      elim (Bool-cases (set_nonblocking a.sock e.world).0) [
        | inr refused ↦ rw (refused, add_client) v'
        | inl unblocked ↦
            rw (unblocked, add_client)
              (elim (Bool-cases (ltb a.sock fd_setsize)) [
                | inr outside ↦ rw (outside, add_client) tt
                | inl inside ↦
                    rw (inside, add_client)
                      (enter-IsServing a (record e { world = w }) (ltb→lt a.sock fd_setsize inside)
                        (record {
                          absent = n.absent;
                          open_now = ap (λ t. t a.sock) same.opened ∙ n.open_now;
                          counted =
                              subst (λ k. e.total_served + 1 ≤ k) (sym same.accepts) n.counted;
                        })
                        v')
              ])
      ]

  -- After an `accept` that gives a client.
  accepted-IsNew :
      (sock : ℕ) (e : Select os) (w : World) (f : Flags)
      → IsAccepted d sock e.world w
      → IsServing d acceptor e
      → IsNew sock (record e { world = w; flags = f })
        × IsServing d acceptor (record e { world = w; flags = f })
  accepted-IsNew sock e w f a v = (
    record {
      absent = elim (Option-cases (e.clients sock).sock) [
        | inl q ↦ q
        | inr (fd, q) ↦ absurd (open_and_not (v.opened sock (λ n. cc)) a.fresh)
      ];
      open_now = ground (arith, ap (λ t. t sock) a.opened);
      counted = omega (arith, a.accepts, v.accepted);
    },
    record {
      valid = IsValid-moved w f v.valid;
      opened = λ i h. ground (arith, ap (λ t. t i) a.opened, v.opened i h);
      accepted = omega (arith, a.accepts, v.accepted);
    },
  )

  pub accept_all-IsServing :
      (fuel : ℕ) (e : Select os)
      → IsServing d acceptor e
      → Ensures (IsServing d acceptor) (accept_all os fuel acceptor e)
  unfolding accept_all
  accept_all-IsServing zero e v = tt
  accept_all-IsServing (suc fuel) e v =
      let (_, f, w) = accept_client os acceptor e.flags e.world in
      elim (accept_client-cases os d table acceptor e.flags e.world) [
        | inl (refused, same) ↦
            rw (refused, accept_all) (IsServing-moved os d acceptor w f e.set same v)
        | inr (a, given, taken) ↦
            let (n, v') = accepted-IsNew a.sock e w f taken v in
            rw (given, accept_all)
              (Ensures-bind (λ r. IsServing d acceptor r.1) (IsServing d acceptor)
                (add_client os a (record e { flags = f; world = w })) _
                (add_client-IsServing a (record e { flags = f; world = w }) n v')
                (λ (added, e'') v''. elim (Bool-cases added) [
                  | inr refused ↦ rw (refused, Ensures) v''
                  | inl entered ↦ rw (entered, Ensures) (accept_all-IsServing fuel e'' v'')
                ]))
      ]
