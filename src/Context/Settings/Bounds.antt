-- ===== src/Context/Settings/Bounds.antt =====
-- The settings stay within their bounds.
use ghost_source_code_readin.Base.{arith}
use ghost_source_code_readin.Base.Int.{ℤ, pos, ◌≤ℤ◌}
use ghost_source_code_readin.Context.Settings.{
  Settings, set_heartbeat_interval_milliseconds, set_max_lag_milliseconds_throttle_threshold,
  set_chunk_size, set_dml_batch_size, set_default_num_retries, set_cut_over_lock_timeout_seconds,
  set_exponential_backoff_max_interval, at_least, at_most,
}

abbrev Between : ℤ → ℤ → ℤ → Type 0
Between lo hi n = (lo ≤ℤ n) × (n ≤ℤ hi)

at_least_lo : (lo n : ℤ) → lo ≤ℤ at_least lo n
at_least_lo lo n = ground arith

clamp-Between : (lo hi n : ℤ) → lo ≤ℤ hi → Between lo hi (at_most hi (at_least lo n))
clamp-Between lo hi n h = (ground arith, ground arith)

-- What the rest of the program relies on: the ticker's interval is positive, a chunk and a batch have
-- rows, there is an attempt, and the lock is held for a few seconds.
abbrev pub IsBounded : Settings → Type 0
IsBounded c =
    Between (pos 100) (pos 1000) c.heartbeat_interval_milliseconds
    × Between (pos 100) (pos 100000) c.chunk_size
    × Between (pos 1) (pos 1000) c.dml_batch_size
    × (pos 100 ≤ℤ c.max_lag_milliseconds_throttle_threshold)
    × (pos 1 ≤ℤ c.default_num_retries)
    × Between (pos 1) (pos 10) c.cut_over_lock_timeout_seconds
    × (pos 2 ≤ℤ c.exponential_backoff_max_interval)

-- Every setter keeps all the settings within the bounds of the code, at every value that it is given, as
-- do the two that report an error: the heartbeat from 100 to 1000 milliseconds, a chunk from 100 to
-- 100000 rows, a batch from 1 to 1000 events, a lag of at least 100 milliseconds, at least one retry, the
-- lock from 1 to 10 seconds, and a backoff of at least 2 seconds.
pub setters-IsBounded :
    (c : Settings) (n : ℤ)
    → IsBounded c
    → IsBounded (set_heartbeat_interval_milliseconds n c)
      × IsBounded (set_max_lag_milliseconds_throttle_threshold n c)
      × IsBounded (set_chunk_size n c)
      × IsBounded (set_dml_batch_size n c)
      × IsBounded (set_default_num_retries n c)
      × IsBounded (set_cut_over_lock_timeout_seconds n c).1
      × IsBounded (set_exponential_backoff_max_interval n c).1
unfolding set_heartbeat_interval_milliseconds set_max_lag_milliseconds_throttle_threshold
    set_chunk_size set_dml_batch_size set_default_num_retries set_cut_over_lock_timeout_seconds
    set_exponential_backoff_max_interval
setters-IsBounded c n (h, k, b, l, r, t, e) = (
  (clamp-Between (pos 100) (pos 1000) n (omega arith), k, b, l, r, t, e),
  (h, k, b, at_least_lo (pos 100) n, r, t, e),
  (h, clamp-Between (pos 100) (pos 100000) n (omega arith), b, l, r, t, e),
  (h, k, clamp-Between (pos 1) (pos 1000) n (omega arith), l, r, t, e),
  ground arith,
  ground arith,
  ground arith,
)
