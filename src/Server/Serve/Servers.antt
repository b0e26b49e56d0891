-- ===== src/Server/Serve/Servers.antt =====
-- The three servers as `serve` sees them: `epoll_server_impl`, `select_server_impl` and
-- `thread_server_impl`. Each accepts by itself.
use c8005_assn.Base.{refl, ℕ, true, ok, ◌>>=◌}
use c8005_assn.Os.{Os}
use c8005_assn.Util.Vector.{Allocator}
use c8005_assn.Server.Epoll
use c8005_assn.Server.Epoll.{Epoll, Slot}
use c8005_assn.Server.Select
use c8005_assn.Server.Select.{Select}
use c8005_assn.Server.Thread.Pool
use c8005_assn.Server.Thread.Pool.{Pool}
use c8005_assn.Server.Serve.{Server}
use c8005_assn.Server.Serve.Opening.{IsLawful}

-- `first` is what the array of clients holds when it is allocated.
pub epoll_server : (os : Os) → ℕ → ℕ → (ℕ → Slot) → Server os
epoll_server os fuel spins first = record {
  State = Epoll os;
  world = λ e. e.world;
  flags = λ e. e.flags;
  put = λ f w e. record e { flags = f; world = w };
  reset = λ e. record e { total_served = 0; max_concurrent = 0 };
  start = λ acceptor e. do
    (started, e') ← Epoll.start os fuel spins acceptor first e
    ok (started, true, e');
  add_client = λ a e. Epoll.add_client os a e;
  cleanup = λ e. record e { world = Epoll.cleanup os e };
}

unfoldable pub select_server : (os : Os) → ℕ → ℕ → Server os
select_server os fuel spins = record {
  State = Select os;
  world = λ e. e.world;
  flags = λ e. e.flags;
  put = λ f w e. record e { flags = f; world = w };
  reset = λ e. record e { total_served = 0; max_concurrent = 0 };
  start = λ acceptor e. do
    (started, e') ← Select.start os fuel spins acceptor e
    ok (started, true, e');
  add_client = λ a e. Select.add_client os a e;
  cleanup = λ e. record e { world = Select.cleanup os e };
}

pub thread_server : (os : Os) (alloc : Allocator ℕ) → (ℕ → ℕ) → ℕ → Server os
thread_server os alloc grow fuel = record {
  State = Pool os alloc;
  world = λ p. p.world;
  flags = λ p. p.flags;
  put = λ f w p. record p { flags = f; world = w };
  reset = λ p. record p { total_served = 0; max_concurrent = 0 };
  start = λ acceptor p. do
    (started, p') ← Pool.start os alloc grow fuel acceptor p
    ok (started, true, p');
  add_client = λ a p. Pool.add_client os alloc grow a p;
  cleanup = λ p. Pool.cleanup os alloc grow p;
}

-- The record of each server has the laws that `serve` relies on.
pub epoll_server-IsLawful :
    (os : Os) (fuel spins : ℕ) (first : ℕ → Slot) → IsLawful (epoll_server os fuel spins first)
unfolding epoll_server
epoll_server-IsLawful os fuel spins first = record {
  world-put = λ f w s. refl;
  flags-put = λ f w s. refl;
  put-put = λ f g w v s. refl;
  world-reset = λ s. refl;
}

pub select_server-IsLawful : (os : Os) (fuel spins : ℕ) → IsLawful (select_server os fuel spins)
unfolding select_server
select_server-IsLawful os fuel spins = record {
  world-put = λ f w s. refl;
  flags-put = λ f w s. refl;
  put-put = λ f g w v s. refl;
  world-reset = λ s. refl;
}

pub thread_server-IsLawful :
    (os : Os) (alloc : Allocator ℕ) (grow : ℕ → ℕ) (fuel : ℕ)
    → IsLawful (thread_server os alloc grow fuel)
unfolding thread_server
thread_server-IsLawful os alloc grow fuel = record {
  world-put = λ f w s. refl;
  flags-put = λ f w s. refl;
  put-put = λ f g w v s. refl;
  world-reset = λ s. refl;
}
