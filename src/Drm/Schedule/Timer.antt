-- ===== src/Drm/Schedule/Timer.antt =====
-- The time that the idle timer is set to (timespecAddNs of src/backend/Backend.cpp).

use aquamarine.Common.{ℕ, ◌+◌, ◌*◌, ◌<◌, ◌≡◌, arith}
use aquamarine.Drm.Schedule.{Timespec, timespec_add_ns, second}

-- `timespecAddNs` on a time whose nanoseconds are fewer than a second gives one of that kind, and
-- later by exactly as many nanoseconds as were to be added.
pub timespec_add_ns_lem :
    (t : Timespec) (delta : ℕ)
    → t.nsec < second
    → let t' = timespec_add_ns t delta in
      (t'.nsec < second) × (t'.sec * second + t'.nsec ≡ t.sec * second + t.nsec + delta)
unfolding timespec_add_ns
timespec_add_ns_lem t delta h = ground arith
