-- ===== src/Clock.antt =====
-- `elapsed_microseconds` of src/handlers.c. The differences are of type int64_t, kept here modulo 2^64.
use nerv_fs.Base.{ℕ, ◌+◌, ◌-◌, ◌*◌, ◌/◌, ◌%◌, ◌^◌, ◌≤◌, ◌<◌, ◌≡◌, arith, ltb, if◌then◌else◌}
use nerv_fs.Os.{Timespec}

abbrev u64 : ℕ → ℕ
u64 n = n % 2 ^ 64

-- The difference of two values of type time_t, below 2^64 each as bit patterns.
abbrev sub64 : ℕ → ℕ → ℕ
sub64 a b = u64 (a + 2 ^ 64 - b)

unfoldable pub elapsed_microseconds : Timespec → Timespec → ℕ
elapsed_microseconds start end =
    if ltb end.nsec start.nsec
    then u64
        (sub64 (sub64 end.sec start.sec) 1 * 1000000 + (end.nsec + 1000000000 - start.nsec) / 1000)
    else u64 (sub64 end.sec start.sec * 1000000 + (end.nsec - start.nsec) / 1000)

-- A reading of the clock: the nanoseconds are below a second, and the seconds are below 2^40.
pub record IsReading (t : Timespec) : Type 0 where
  pub nsec_lt : t.nsec < 1000000000
  pub sec_lt : t.sec < 2 ^ 40

abbrev pub nanoseconds : Timespec → ℕ
nanoseconds t = t.sec * 1000000000 + t.nsec

-- Between two readings in order, with nanoseconds below a second and seconds below 2^40, the result
-- is the whole number of microseconds that have passed.
pub elapsed_microseconds_lem :
    (start end : Timespec)
    → IsReading start
    → IsReading end
    → nanoseconds start ≤ nanoseconds end
    → elapsed_microseconds start end ≡ (nanoseconds end - nanoseconds start) / 1000
unfolding elapsed_microseconds
elapsed_microseconds_lem start end s e le = ground arith

-- The result is of type uint64_t.
pub elapsed_microseconds-lt : (start end : Timespec) → elapsed_microseconds start end < 2 ^ 64
unfolding elapsed_microseconds
elapsed_microseconds-lt start end = ground arith
