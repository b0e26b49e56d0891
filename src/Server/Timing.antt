-- ===== src/Server/Timing.antt =====
-- `TIME_DIFF` of include/assn2/util/timing.h and the sums made with it, as 64-bit patterns.
use c8005_assn.Base.{ℕ, ◌+◌, ◌*◌, add_size, sub_size}
use c8005_assn.Os.{Timeval}

pub micros : Timeval → ℕ
micros t = t.tv_sec * 1_000_000 + t.tv_usec

pub time_diff : Timeval → Timeval → ℕ
unfolding micros
time_diff start end = sub_size (micros end) (micros start)

-- `transfer_time += TIME_DIFF(start, end)`.
pub add_time : ℕ → Timeval → Timeval → ℕ
add_time total start end = add_size total (time_diff start end)
