-- ===== src/Context/Settings.antt =====
-- go/base/context.go: the numeric settings, which are read from flags and changed while the
-- migration runs. The numbers are `int64`.
pub mod Bounds
use ghost_source_code_readin.Base.{Bool, true, false, if◌then◌else◌, ◌||◌}
use ghost_source_code_readin.Base.Int.{ℤ, pos, ltb_ℤ}
use ghost_source_code_readin.Text.{Text, txt, to_lower, text_eq}

pub record Settings : Type 0 where
  pub heartbeat_interval_milliseconds : ℤ
  pub default_num_retries : ℤ
  pub chunk_size : ℤ
  pub max_lag_milliseconds_throttle_threshold : ℤ
  pub cut_over_lock_timeout_seconds : ℤ
  pub exponential_backoff_max_interval : ℤ
  pub dml_batch_size : ℤ

abbrev pub at_least : ℤ → ℤ → ℤ
at_least lo n = if ltb_ℤ n lo then lo else n

abbrev pub at_most : ℤ → ℤ → ℤ
at_most hi n = if ltb_ℤ hi n then hi else n

abbrev pub max_events_batch_size : ℤ
max_events_batch_size = pos 1000

-- `SetHeartbeatIntervalMilliseconds`
unfoldable pub set_heartbeat_interval_milliseconds : ℤ → Settings → Settings
set_heartbeat_interval_milliseconds n c = record c {
  heartbeat_interval_milliseconds = at_most (pos 1000) (at_least (pos 100) n);
}

-- `SetMaxLagMillisecondsThrottleThreshold`
unfoldable pub set_max_lag_milliseconds_throttle_threshold : ℤ → Settings → Settings
set_max_lag_milliseconds_throttle_threshold n c = record c {
  max_lag_milliseconds_throttle_threshold = at_least (pos 100) n;
}

-- `SetChunkSize`
unfoldable pub set_chunk_size : ℤ → Settings → Settings
set_chunk_size n c = record c { chunk_size = at_most (pos 100000) (at_least (pos 100) n) }

-- `SetDMLBatchSize`
unfoldable pub set_dml_batch_size : ℤ → Settings → Settings
set_dml_batch_size n c = record c {
  dml_batch_size = at_most max_events_batch_size (at_least (pos 1) n);
}

-- `SetDefaultNumRetries`
unfoldable pub set_default_num_retries : ℤ → Settings → Settings
set_default_num_retries n c = if ltb_ℤ (pos 0) n then record c { default_num_retries = n } else c

-- `SetCutOverLockTimeoutSeconds`: whether there is an error, and the settings.
unfoldable pub set_cut_over_lock_timeout_seconds : ℤ → Settings → Bool × Settings
set_cut_over_lock_timeout_seconds n c =
    if ltb_ℤ n (pos 1)
    then (true, c)
    else if ltb_ℤ (pos 10) n
    then (true, c)
    else (false, record c { cut_over_lock_timeout_seconds = n })

-- `SetExponentialBackoffMaxInterval`
unfoldable pub set_exponential_backoff_max_interval : ℤ → Settings → Bool × Settings
set_exponential_backoff_max_interval n c =
    if ltb_ℤ n (pos 2)
    then (true, c)
    else (false, record c { exponential_backoff_max_interval = n })

-- `IsTransactionalTable`, on the table's engine.
unfoldable pub is_transactional_table : Text → Bool
is_transactional_table engine =
    text_eq (to_lower engine) (txt "innodb") || text_eq (to_lower engine) (txt "tokudb")
