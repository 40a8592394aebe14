-- ===== src/Tests/Running.antt =====
-- Runs of go/logic at concrete inputs.
use ghost_source_code_readin.Base.{
  ℕ, zero, suc, ◌<◌, ◌≡◌, ◌≢◌, ◌↔◌, refl, true, false, List, [], ◌∷◌, ◌++◌, none, some, ok, arith,
  ltb, if◌then◌else◌,
}
use ghost_source_code_readin.Base.Int.{pos}
use ghost_source_code_readin.Base.Dict.{is_some}
use ghost_source_code_readin.Text.{Text}
use ghost_source_code_readin.Context.Throttling.{
  ThrottleConfig, ThrottleState, LagResult, no_throttle,
}
use ghost_source_code_readin.Logic.Throttler.{World, should_throttle_now}
use ghost_source_code_readin.Logic.Throttler.Decision.{IsClear, should_throttle_now-IsClear}
use ghost_source_code_readin.Logic.Throttler.General.{
  check_load, below, collect_general_throttle_metrics,
}
use ghost_source_code_readin.Logic.Throttler.General.Clear.{
  IsQuiet, collect_general_throttle_metrics-IsQuiet,
}
use ghost_source_code_readin.Logic.Throttler.Replicas.{
  IsLargest, read_control_replicas_lag, read_control_replicas_lag-IsLargest,
}
use ghost_source_code_readin.Logic.Migrator.{
  Operation, retry_operation, ApplyEvent, dml_event, write_func, drain_events,
}
use ghost_source_code_readin.Logic.Migrator.Retry.{
  state_after, error_of, retry_operation-first_success,
}
use ghost_source_code_readin.Logic.Migrator.Queue.{
  effects, record_events, record_call, drain_events-in_order,
}

-- A world in which every status variable is 30.
abbrev world : World
world = record {
  now = pos 0;
  file_exists = λ f. false;
  show_status_variable = λ v. ok (pos 30);
  execute_throttle_query = ok (pos 0);
  time_text = λ t. [];
  seconds_text = λ t. [];
  key_text = λ r. [];
}

abbrev config : ThrottleConfig
config = record {
  throttle_flag_file = [];
  throttle_additional_flag_file = [];
  panic_flag_file = [];
  throttle_query = [];
  throttle_http = [];
  ignore_http_errors = false;
  max_load = (97 ∷ [], pos 25) ∷ [];
  critical_load = (97 ∷ [], pos 100) ∷ [];
  critical_load_interval_milliseconds = pos 0;
  critical_load_hibernate_seconds = pos 0;
  max_lag_milliseconds = pos 1500;
  throttle_control_replica_keys = [];
  test_on_replica = false;
  migrate_on_replica = false;
}

abbrev replica : LagResult
replica = record {
  lag_key = record { hostname = 97 ∷ []; port = pos 3306 };
  lag = pos 2000000000;
  lag_error = none;
}

abbrev running : ThrottleState
running = record {
  config = config;
  throttle_commanded_by_user = pos 0;
  hibernate_until = pos 0;
  throttle_http_status_code = pos 0;
  current_lag = pos 0;
  control_replicas_lag_result = replica;
  general_check_result = no_throttle;
  throttled = no_throttle;
  in_cut_over_critical_section_flag = pos 0;
  all_events_up_to_lock_processed_flag = pos 0;
  cleanup_imminent_flag = pos 0;
}

should_throttle_now-IsClear_example :
    ((should_throttle_now world running).should_throttle ≡ false) ↔ IsClear running
should_throttle_now-IsClear_example = should_throttle_now-IsClear world running

collect_general_throttle_metrics-IsQuiet_example :
    ((collect_general_throttle_metrics world running).0.general_check_result.should_throttle
      ≡ false)
    ↔ IsQuiet world running
collect_general_throttle_metrics-IsQuiet_example =
    collect_general_throttle_metrics-IsQuiet world running (omega arith) (refl, tt)

-- The same with a critical load that is met.
abbrev critical : ThrottleState
critical = record running { config = record config { critical_load = (97 ∷ [], pos 20) ∷ [] } }

critical_met : check_load world critical.config.critical_load ≢ below
unfolding check_load
critical_met = λ e. cc

read_control_replicas_lag-IsLargest_example :
    IsLargest
      (replica ∷ record replica { lag = pos 7 } ∷ [])
      (read_control_replicas_lag (replica ∷ record replica { lag = pos 7 } ∷ []))
read_control_replicas_lag-IsLargest_example =
    read_control_replicas_lag-IsLargest replica (record replica { lag = pos 7 } ∷ [])
      (refl, (refl, tt))

-- An operation that fails until its third call.
abbrev third_time : Operation Text ℕ
third_time n = (if ltb n 2 then some [] else none, suc n)

fails_before : (i : ℕ) → i < 2 → is_some (error_of third_time i 0) ≡ true
unfolding state_after
fails_before zero h = refl
fails_before (suc zero) h = refl
fails_before (suc (suc i)) h = absurd (omega arith)

retry_operation-first_success_example :
    retry_operation (pos 5) third_time false 0
    ≡ record { result = none; state = state_after third_time 3 0; panic_abort = none }
unfolding state_after
retry_operation-first_success_example =
    retry_operation-first_success third_time 2 5 false 0 (omega arith) fails_before refl

-- Two events, a function, and another event.
abbrev queue : List (ApplyEvent ℕ ℕ)
queue = dml_event 1 ∷ dml_event 2 ∷ write_func (some 3) ∷ dml_event 4 ∷ []

drain_events-in_order_example :
    drain_events (record_events {E = Text}) record_call 4 (pos 2) queue []
    ≡ (none, [] ++ effects queue, [])
drain_events-in_order_example = drain_events-in_order 4 (pos 2) queue [] (omega arith)
