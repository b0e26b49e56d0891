-- ===== src/Server/Signals.antt =====
-- The two flags of server/server.c that the signal handler sets.
use c8005_assn.Base.{refl, arith, Bool, true, false, if◌then◌else◌, ◌≡◌}
use c8005_assn.Os.{Os}

pub record Flags : Type 0 where
  pub done : Bool
  pub handled : Bool

unfoldable pub nonfatal_sighandler : Flags → Flags
nonfatal_sighandler f = record { done = true; handled = true }

module _ (os : Os) where
  open os use {World, signalled}

  -- `atomic_load(&done)`: the handler may have run since the last load.
  unfoldable pub load_done : Flags → World → Bool × Flags × World
  unfolding nonfatal_sighandler
  load_done f w =
      let (s, w') = signalled w in
      let f' = if s then nonfatal_sighandler f else f in (f'.done, f', w')

  pub load_done-world : (f : Flags) (w : World) → (load_done f w).2 ≡ (signalled w).1
  unfolding load_done
  load_done-world f w = refl

  -- Where no signal comes, the flags stay and `done` is what it was.
  pub load_done-quiet :
      (f : Flags) (w : World)
      → (signalled w).0 ≡ false
      → load_done f w ≡ (f.done, f, (signalled w).1)
  unfolding load_done
  load_done-quiet f w q = rw q

  -- Once `done` is set it stays set.
  pub load_done-done :
      (f : Flags) (w : World)
      → f.done ≡ true
      → ((load_done f w).0 ≡ true) × ((load_done f w).1.done ≡ true)
  unfolding load_done nonfatal_sighandler
  load_done-done f w d = ground arith
