-- ===== src/Server/Select/Sets.antt =====
-- `register_fds` and `select_server_add_client` of server/select_server.c.
use c8005_assn.Base.{
  Returns-ok, ==→eq, ℕ, zero, suc, ◌+◌, ◌≡◌, refl, sym, ◌≤◌, ◌<◌, ◌⊎◌, inl, inr, Bool, true, false,
  arith, ltb, ◌==◌, if◌then◌else◌, none, some, size_mod, count, count-update, update, ok, Run,
  Returns, Returns-bind, Bool-cases, Option-cases, lt→ltb, add_size, subst,
}
use c8005_assn.Os.{Os}
use c8005_assn.Server.Acceptor.{Client, Accepted}
use c8005_assn.Server.Select.{
  Select, fd_setsize, ext_fd_setsize, fd_set, register_clients, register_fds, enter, add_client,
}
use c8005_assn.Server.Select.Invariant.{IsValid, IsValid-moved, is_live}

-- The set after some of the slots: the acceptor and the sockets of the first `n` slots.
abbrev IsRegistered : ℕ → ℕ → (ℕ → Client) → (ℕ → Bool) → Type 0
IsRegistered acceptor n clients set =
    (fd : ℕ)
    → set fd ≡ (if fd == acceptor then true else (if ltb fd n then is_live (clients fd) else false))

registered :
    (os : Os) (acceptor n : ℕ) (e : Select os) (set : ℕ → Bool)
    → suc n ≤ ext_fd_setsize
    → IsValid os acceptor e
    → IsRegistered acceptor n e.clients set
    → Returns
        (IsRegistered acceptor (suc n) e.clients)
        (elim ((e.clients n).sock) as (λ _. Run (ℕ → Bool)) [
          | none ↦ ok set
          | some fd ↦ fd_set fd set
        ])
unfolding fd_set
registered os acceptor n e set room v h = elim (Option-cases ((e.clients n).sock)) [
  | inl q ↦ rw q (λ fd. skipped fd q)
  | inr (s, q) ↦
      let same : s ≡ n = v.owned n s q in
      rw (q, lt→ltb s ext_fd_setsize (omega (arith, room, same))) (λ fd. added fd s q same)
]
  where
    skipped :
        (fd : ℕ)
        → (e.clients n).sock ≡ none
        → set fd ≡ (
            if fd == acceptor
            then true
            else (if ltb fd (suc n) then is_live (e.clients fd) else false))
    skipped fd q = elim (Bool-cases (fd == n)) [
      | inl b ↦
          let dead : is_live (e.clients fd) ≡ false =
            subst (λ k. is_live (e.clients k) ≡ false) (sym (==→eq fd n b)) (rw q) in
          ground (arith, h fd, dead)
      | inr b ↦ ground (arith, h fd)
    ]

    added :
        (fd s : ℕ)
        → (e.clients n).sock ≡ some s
        → s ≡ n
        → update set s true fd ≡ (
            if fd == acceptor
            then true
            else (if ltb fd (suc n) then is_live (e.clients fd) else false))
    added fd s q same = elim (Bool-cases (fd == n)) [
      | inl b ↦
          let live : is_live (e.clients fd) ≡ true =
            subst (λ k. is_live (e.clients k) ≡ true) (sym (==→eq fd n b)) (rw q) in
          ground (arith, live)
      | inr b ↦ ground (arith, h fd)
    ]

register_clients-IsRegistered :
    (os : Os) (acceptor n : ℕ) (e : Select os) (set : ℕ → Bool)
    → n ≤ ext_fd_setsize
    → IsValid os acceptor e
    → IsRegistered acceptor 0 e.clients set
    → Returns (IsRegistered acceptor n e.clients) (register_clients n e.clients set)
unfolding register_clients
register_clients-IsRegistered os acceptor zero e set room v h = h
register_clients-IsRegistered os acceptor (suc n) e set room v h =
    Returns-bind (IsRegistered acceptor n e.clients) (IsRegistered acceptor (suc n) e.clients)
      (register_clients n e.clients set) _
      (register_clients-IsRegistered os acceptor n e set (omega arith) v h)
      (λ set' h'. registered os acceptor n e set' room v h')

-- With the books right, `register_fds` always returns. Below FD_SETSIZE the set that `select` is asked about then holds the
-- descriptors in whose slot a socket stands, the acceptor's among them, and no other.
pub register_fds_lem :
    (os : Os) (acceptor : ℕ) (e : Select os)
    → acceptor < fd_setsize
    → IsValid os acceptor e
    → Returns
        (λ set. (fd : ℕ) → fd < fd_setsize → set fd ≡ is_live (e.clients fd))
        (register_fds acceptor e.clients)
unfolding register_fds fd_set
register_fds_lem os acceptor e room v =
    let first = update {A = Bool} (λ _. false) acceptor true in
    let (set, q, h) =
      Returns-ok (IsRegistered acceptor fd_setsize e.clients)
        (register_clients fd_setsize e.clients first)
        (register_clients-IsRegistered os acceptor fd_setsize e first (omega arith) v
          (λ fd. ground arith)) in
    let live : is_live (e.clients acceptor) ≡ true = rw v.accepting in
    rw (lt→ltb acceptor ext_fd_setsize (omega arith), register_fds)
      (rw q (λ fd k.
        at_slot acceptor fd (is_live (e.clients fd)) (set fd) k
          (λ same. subst (λ j. is_live (e.clients j) ≡ true) (sym same) live) (h fd)))
  where
    at_slot :
        (acceptor fd : ℕ) (live there : Bool)
        → fd < fd_setsize
        → (fd ≡ acceptor → live ≡ true)
        → there ≡ (if fd == acceptor then true else (if ltb fd fd_setsize then live else false))
        → there ≡ live
    at_slot acceptor fd live there k accepts h = elim (Bool-cases (fd == acceptor)) [
      | inl b ↦ ground (arith, h, accepts (==→eq fd acceptor b))
      | inr b ↦ ground (arith, h)
    ]

pub enter-IsValid :
    (os : Os) (acceptor : ℕ) (a : Accepted) (e : Select os)
    → a.sock < fd_setsize
    → (e.clients a.sock).sock ≡ none
    → e.total_served + 1 < size_mod
    → IsValid os acceptor e
    → IsValid os acceptor (enter os a e)
      × ((enter os a e).total_served ≡ e.total_served + 1)
      × ((enter os a e).connected_count ≡ e.connected_count + 1)
unfolding enter
enter-IsValid os acceptor a e inside new room v = (
  record {
    counted = omega (arith, more, connected);
    accepting = ground (arith, v.accepting, new);
    owned = λ i fd h. ground (arith, v.owned i fd, h);
    reset = λ i h. ground (arith, v.reset i);
    below = λ i h. ground (arith, v.below i);
    peak = ground arith;
    total = ground (arith, v.peak, v.total);
    small = omega (arith, total);
  },
  total,
  connected,
)
  where
    total : add_size e.total_served 1 ≡ e.total_served + 1
    total = omega arith

    connected : add_size e.connected_count 1 ≡ e.connected_count + 1
    connected = omega (arith, v.peak, v.total, v.small)

    client : Client
    client = record { peer = a.peer; sock = some a.sock }

    more : count is_live fd_setsize (update e.clients a.sock client) ≡ e.connected_count + 1 + 1
    more =
        let was : is_live (e.clients a.sock) ≡ false = rw new in
        ground
          (arith, count-update is_live fd_setsize e.clients a.sock client inside, v.counted, was)

-- `select_server_add_client` for a descriptor inside the arrays whose slot is empty always returns. It
-- enters the client, unless `total_served` is about to wrap, or fails and leaves the books as they
-- are; either way the invariant holds.
pub select_add-IsValid :
    (os : Os) (acceptor : ℕ) (a : Accepted) (e : Select os)
    → a.sock < fd_setsize
    → (e.clients a.sock).sock ≡ none
    → e.total_served + 1 < size_mod
    → IsValid os acceptor e
    → Returns
        (λ r.
          IsValid os acceptor r.1
          × (((r.0 ≡ true)
                × (r.1.total_served ≡ e.total_served + 1)
                × (r.1.connected_count ≡ e.connected_count + 1))
              ⊎ ((r.0 ≡ false) × (r.1.clients ≡ e.clients) × (r.1.total_served ≡ e.total_served))))
        (add_client os a e)
unfolding add_client
select_add-IsValid os acceptor a e inside new room v =
    let w = (os.set_nonblocking a.sock e.world).1 in
    elim (Bool-cases (os.set_nonblocking a.sock e.world).0) [
      | inr refused ↦ rw (refused, add_client) (IsValid-moved w e.flags v, inr (refl, refl, refl))
      | inl unblocked ↦
          let (valid, total, connected) =
            enter-IsValid os acceptor a (record e { world = w }) inside new room
              (IsValid-moved w e.flags v) in
          rw (unblocked, add_client)
            (rw (lt→ltb a.sock fd_setsize inside, add_client) (valid, inl (refl, total, connected)))
    ]
