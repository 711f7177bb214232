-- ===== src/Scheduler/Clock.antt =====
-- gettimestamp of util/util.h; the parts of the time are what gettimeofday gives.
use libproxc.Base.{ℕ, ◌+◌, ◌*◌, ◌/◌, ◌%◌, ◌^◌, ◌<◌, ◌≡◌, arith}
use libproxc.Scheduler.Sleep.{u64}

abbrev pub gettimestamp : (tv_sec tv_usec : ℕ) → ℕ
gettimestamp tv_sec tv_usec = u64 (u64 (tv_sec * 1000000) + tv_usec)

-- A time whose microseconds are below a million, and that is below 2^64 in microseconds, is not lost
-- in its stamp.
timestamp-parts :
    (tv_sec tv_usec : ℕ)
    → tv_usec < 1000000
    → tv_sec * 1000000 + tv_usec < 2 ^ 64
    → (gettimestamp tv_sec tv_usec / 1000000 ≡ tv_sec)
      × (gettimestamp tv_sec tv_usec % 1000000 ≡ tv_usec)
timestamp-parts tv_sec tv_usec small room = (omega arith, omega arith)
