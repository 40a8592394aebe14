-- ===== src/Context/Throttling.antt =====
-- go/base/context.go: the part of the migration's context that throttling reads and writes. Times and
-- lags are in nanoseconds.
use ghost_source_code_readin.Base.{
  Bool, false, Option, none, some, [], if◌then◌else◌, Result, ok, err,
}
use ghost_source_code_readin.Base.Int.{ℤ, pos, ltb_ℤ}
use ghost_source_code_readin.Text.{Text, txt}
use ghost_source_code_readin.Mysql.InstanceKey.{InstanceKey, KeyError}
use ghost_source_code_readin.Mysql.InstanceKey.KeyMap.{
  InstanceKeyMap, add_key, read_comma_delimited_list,
}
use ghost_source_code_readin.Context.LoadMap.{LoadMap, LoadError, parse_load_map}

pub data ThrottleReasonHint : Type 0 where
  no_throttle_reason_hint user_command_hint leaving_hibernation_hint : ThrottleReasonHint

pub record ThrottleCheckResult : Type 0 where
  pub should_throttle : Bool
  pub reason : Text
  pub reason_hint : ThrottleReasonHint

-- `mysql.ReplicationLagResult`; an error is its text.
pub record LagResult : Type 0 where
  pub lag_key : InstanceKey
  pub lag : ℤ
  pub lag_error : Option Text

abbrev pub no_throttle : ThrottleCheckResult
no_throttle = record { should_throttle = false; reason = []; reason_hint = no_throttle_reason_hint }

-- What throttling is told by flags and by users.
pub record ThrottleConfig : Type 0 where
  pub throttle_flag_file : Text
  pub throttle_additional_flag_file : Text
  pub panic_flag_file : Text
  pub throttle_query : Text
  pub throttle_http : Text
  pub ignore_http_errors : Bool
  pub max_load : LoadMap
  pub critical_load : LoadMap
  pub critical_load_interval_milliseconds : ℤ
  pub critical_load_hibernate_seconds : ℤ
  pub max_lag_milliseconds : ℤ
  pub throttle_control_replica_keys : InstanceKeyMap
  pub test_on_replica : Bool
  pub migrate_on_replica : Bool

-- What is measured and decided; the flags are counters that are set to 1.
pub record ThrottleState : Type 0 where
  pub config : ThrottleConfig
  pub throttle_commanded_by_user : ℤ
  pub hibernate_until : ℤ
  pub throttle_http_status_code : ℤ
  pub current_lag : ℤ
  pub control_replicas_lag_result : LagResult
  pub general_check_result : ThrottleCheckResult
  pub throttled : ThrottleCheckResult
  pub in_cut_over_critical_section_flag : ℤ
  pub all_events_up_to_lock_processed_flag : ℤ
  pub cleanup_imminent_flag : ℤ

-- An atomic load that is compared with 0.
abbrev pub is_set : ℤ → Bool
is_set n = ltb_ℤ (pos 0) n

-- `SetThrottleGeneralCheckResult`
unfoldable pub set_throttle_general_check_result :
    ThrottleCheckResult → ThrottleState → ThrottleState
set_throttle_general_check_result r c = record c { general_check_result = r }

-- `SetThrottled`
unfoldable pub set_throttled : ThrottleCheckResult → ThrottleState → ThrottleState
set_throttled r c = record c { throttled = r }

-- `IsThrottled`: nothing throttles the critical section of the cut-over.
unfoldable pub is_throttled : ThrottleState → ThrottleCheckResult
is_throttled c =
    if is_set c.in_cut_over_critical_section_flag
    then record no_throttle { reason = txt "critical section" }
    else c.throttled

-- `SetControlReplicasLagResult`; `none` is the nil pointer.
unfoldable pub set_control_replicas_lag_result : Option LagResult → ThrottleState → ThrottleState
set_control_replicas_lag_result none c = record c {
  control_replicas_lag_result = record {
    lag_key = record { hostname = []; port = pos 0 };
    lag = pos 0;
    lag_error = none;
  };
}
set_control_replicas_lag_result (some r) c = record c { control_replicas_lag_result = r }

abbrev with_max_load : ThrottleConfig → Result LoadError LoadMap → Result LoadError ThrottleConfig
with_max_load c (err e) = err e
with_max_load c (ok m) = ok (record c { max_load = m })

-- `ReadMaxLoad`: on an error the loads stay as they are.
unfoldable pub read_max_load : Text → ThrottleConfig → Result LoadError ThrottleConfig
read_max_load s c = with_max_load c (parse_load_map s)

abbrev with_critical_load :
    ThrottleConfig → Result LoadError LoadMap → Result LoadError ThrottleConfig
with_critical_load c (err e) = err e
with_critical_load c (ok m) = ok (record c { critical_load = m })

-- `ReadCriticalLoad`
unfoldable pub read_critical_load : Text → ThrottleConfig → Result LoadError ThrottleConfig
read_critical_load s c = with_critical_load c (parse_load_map s)

abbrev with_keys :
    ThrottleConfig → InstanceKeyMap × Result KeyError (Unit {0}) → Result KeyError ThrottleConfig
with_keys c (keys, err e) = err e
with_keys c (keys, ok _) = ok (record c { throttle_control_replica_keys = keys })

-- `ReadThrottleControlReplicaKeys`
unfoldable pub read_throttle_control_replica_keys :
    Text → ThrottleConfig → Result KeyError ThrottleConfig
read_throttle_control_replica_keys s c = with_keys c (read_comma_delimited_list s [])

-- `AddThrottleControlReplicaKey`
unfoldable pub add_throttle_control_replica_key : InstanceKey → ThrottleConfig → ThrottleConfig
add_throttle_control_replica_key k c = record c {
  throttle_control_replica_keys = add_key k c.throttle_control_replica_keys;
}
