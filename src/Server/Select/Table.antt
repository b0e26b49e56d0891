-- ===== src/Server/Select/Table.antt =====
-- `handle_request` of server/select_server.c and the kernel's table of descriptors.
use c8005_assn.Base.{
  ℕ, ◌≤◌, ◌<◌, ◌≡◌, ◌≢◌, ◌∙◌, inl, inr, sym, ap, subst, arith, Bool, true, ltb, ltb→lt, ok, Ensures,
  Ensures-bind, Bool-cases, some, none,
}
use c8005_assn.Os.{Os, Timeval}
use c8005_assn.Server.Signals.{Flags}
use c8005_assn.Server.Timing.{add_time}
use c8005_assn.Server.Request.{Request, Next, again, blocked, finished, failed, Served, serve_loop}
use c8005_assn.Util.Log.{log_msg}
use c8005_assn.Server.Descriptors.{Descriptors, IsSame, IsSame-refl, IsTable, IsClosed}
use c8005_assn.Server.Descriptors.Kept.{log_msg-IsSame, serve_loop-IsSame}
use c8005_assn.Server.Select.{
  Select, fd_setsize, keep, drop_client, log_and_drop, settle, handle_request,
}
use c8005_assn.Server.Select.Invariant.{IsValid, IsValid-moved, keep-Follows, drop_client-Follows}

-- The books are right, every socket that stands in a slot is open, and no more clients are counted
-- than were accepted.
pub record IsServing {os : Os} (d : Descriptors os) (acceptor : ℕ) (e : Select os) : Type 0 where
  pub valid : IsValid os acceptor e
  pub opened : (i : ℕ) → (e.clients i).sock ≢ none → d.opened e.world i ≡ true
  pub accepted : e.total_served ≤ d.accepts e.world

-- What leaves the table leaves the state; the set is not in the books.
pub IsServing-moved :
    (os : Os) (d : Descriptors os) (acceptor : ℕ) {e : Select os} (w : os.World) (f : Flags)
    (set : ℕ → Bool)
    → IsSame d e.world w
    → IsServing d acceptor e
    → IsServing d acceptor (record e { world = w; flags = f; set = set })
IsServing-moved os d acceptor {e} w f set same v =
    let v' = IsValid-moved w f v.valid in
    record {
      valid = record {
        counted = v'.counted;
        accepting = v'.accepting;
        owned = v'.owned;
        reset = v'.reset;
        below = v'.below;
        peak = v'.peak;
        total = v'.total;
        small = v'.small;
      };
      opened = λ i h. ap (λ t. t i) same.opened ∙ v.opened i h;
      accepted = subst (λ n. e.total_served ≤ n) (sym same.accepts) v.accepted;
    }

module _ (os : Os) (d : Descriptors os) (table : IsTable d) (acceptor sock : ℕ)
    (client : sock ≢ acceptor) (room : acceptor < fd_setsize) where
  open os use {World, gettimeofday, format_csv, close}

  keep-IsServing :
      (start : Timeval) (r : Request) (e : Select os)
      → (e.clients sock).sock ≡ some sock
      → IsServing d acceptor e
      → IsServing d acceptor (keep os sock start r e)
  unfolding keep
  keep-IsServing start r e live v =
      let v' =
        IsServing-moved os d acceptor (gettimeofday e.world).1 e.flags e.set (table.on_time e.world)
          v in
      record {
        valid = (keep-Follows os acceptor sock client start r e live v.valid).0;
        opened = v'.opened;
        accepted = v'.accepted;
      }

  -- `w` is what the line for the log leaves.
  drop_client-IsServing :
      (w : World) (e : Select os)
      → (e.clients sock).sock ≡ some sock
      → sock < fd_setsize
      → IsSame d e.world w
      → IsServing d acceptor e
      → IsServing d acceptor (drop_client os sock w e)
  unfolding drop_client
  drop_client-IsServing w e live inside same v =
      let v' = IsServing-moved os d acceptor w e.flags e.set same v in
      let closed : IsClosed d sock w (close sock w) = table.on_close sock w in
      record {
        valid = (drop_client-Follows os acceptor sock client true w e live inside room v.valid).0;
        opened = λ i h. ground (arith, ap (λ t. t i) closed.opened, v'.opened i, h);
        accepted = omega (arith, closed.accepts, v'.accepted);
      }

  log_and_drop-IsServing :
      (fuel : ℕ) (start : Timeval) (r : Request) (e : Select os)
      → (e.clients sock).sock ≡ some sock
      → sock < fd_setsize
      → IsServing d acceptor e
      → Ensures (IsServing d acceptor) (log_and_drop os fuel sock start r e)
  unfolding log_and_drop
  log_and_drop-IsServing fuel start r e live inside v =
      let (end, w) = gettimeofday e.world in
      let line =
        format_csv (add_time r.transfer_time start end) r.transferred (e.clients sock).peer in
      Ensures-bind (λ p. IsSame d e.world p.1) (IsServing d acceptor)
        (log_msg os fuel e.log_fd line w) (λ p. ok (drop_client os sock p.1 e))
        (log_msg-IsSame os d table e.world fuel e.log_fd line w (table.on_time e.world))
        (λ p same. drop_client-IsServing p.1 e live inside same v)

  settle-IsServing :
      (fuel : ℕ) (start : Timeval) (s : Served os) (e : Select os)
      → (e.clients sock).sock ≡ some sock
      → sock < fd_setsize
      → IsServing d acceptor e
      → Ensures (λ r. IsServing d acceptor r.1) (settle os fuel sock start s e)
  unfolding settle
  settle-IsServing fuel start s e live inside v = go s.next
    where
      go :
          (n : Next)
          → Ensures
              (λ r. IsServing d acceptor r.1)
              (settle os fuel sock start (record s { next = n }) e)
      go again = keep-IsServing start s.request e live v
      go blocked = keep-IsServing start s.request e live v
      go finished =
          Ensures-bind (IsServing d acceptor) (λ r. IsServing d acceptor r.1)
            (log_and_drop os fuel sock start s.request e) (λ e'. ok (true, e'))
            (log_and_drop-IsServing fuel start s.request e live inside v) (λ _ h. h)
      go failed = drop_client-IsServing e.world e live inside (IsSame-refl d e.world) v

  pub handle_request-IsServing :
      (fuel spins : ℕ) (e : Select os)
      → (e.clients sock).sock ≡ some sock
      → IsServing d acceptor e
      → Ensures (λ r. IsServing d acceptor r.1) (handle_request os fuel spins sock e)
  unfolding handle_request
  handle_request-IsServing fuel spins e live v = elim (Bool-cases (ltb sock fd_setsize)) [
    | inr outside ↦ rw (outside, handle_request) tt
    | inl inside ↦
        rw (inside, handle_request)
          (Ensures-bind (λ s. IsSame d e.world s.world) (λ r. IsServing d acceptor r.1)
            (serve_loop os fuel spins sock (e.requests sock) e.flags (gettimeofday e.world).1)
            (λ s. settle os fuel sock (gettimeofday e.world).0 s (moved s))
            (serve_loop-IsSame os d table e.world sock fuel spins (e.requests sock) e.flags
              (gettimeofday e.world).1 (table.on_time e.world))
            (λ s same.
              settle-IsServing fuel (gettimeofday e.world).0 s (moved s) live
                (ltb→lt sock fd_setsize inside)
                (IsServing-moved os d acceptor s.world s.flags e.set same v)))
  ]
    where
      moved : Served os → Select os
      moved s = record e { world = s.world; flags = s.flags }
