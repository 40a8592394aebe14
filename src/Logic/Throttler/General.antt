-- ===== src/Logic/Throttler/General.antt =====
-- go/logic/throttler.go, `collectGeneralThrottleMetrics`: the checks of once a second.
pub mod Clear
use ghost_source_code_readin.Base.{
  ◌≡◌, ◌↔◌, refl, Bool, true, false, not, ◌&&◌, Option, none, some, List, [], ◌∷◌, ◌++◌,
  if◌then◌else◌, arith, Result, ok, err, ◌⊎◌, inl, inr,
}
use ghost_source_code_readin.Base.Int.{ℤ, pos, ltb_ℤ, ◌≤ℤ◌, ◌+ℤ◌, ◌*ℤ◌, wrap64}
use ghost_source_code_readin.Text.{Text, txt, is_empty}
use ghost_source_code_readin.Text.Decimal.{itoa_int}
use ghost_source_code_readin.Mysql.Coordinates.{int_eq}
use ghost_source_code_readin.Context.LoadMap.{LoadMap}
use ghost_source_code_readin.Context.Throttling.{
  ThrottleState, ThrottleCheckResult, no_throttle, is_set, no_throttle_reason_hint,
  user_command_hint, leaving_hibernation_hint, set_throttle_general_check_result,
}
use ghost_source_code_readin.Logic.Throttler.{World, because, nanoseconds_per_second}

-- What a loop over the loads finds: none is met, one is met, or one cannot be read.
pub data LoadCheck : Type 0 where
  below : LoadCheck
  met : Text → ℤ → ℤ → LoadCheck
  unreadable : Text → Text → LoadCheck

-- What the check starts besides its result: `PanicAbort` is sent an error, the hibernation ends after
-- a time in nanoseconds, or the critical load is checked again after one in milliseconds.
pub data Event : Type 0 where
  panic_abort : Text → Event
  wake_after : ℤ → Event
  check_again_after : ℤ → Event

abbrev threshold_text : Text → ℤ → ℤ → Text
threshold_text variable value threshold =
    variable ++ (txt "=" ++ (itoa_int value ++ (txt ", >=" ++ itoa_int threshold)))

module _ (w : World) where
  abbrev compare_load : Text → ℤ → LoadCheck → Result Text ℤ → LoadCheck
  compare_load variable threshold rest (err e) = unreadable variable e
  compare_load variable threshold rest (ok value) =
      if ltb_ℤ value threshold then rest else met variable value threshold

  -- `criticalLoadIsMet`, and the loop over the maximal loads.
  unfoldable pub check_load : LoadMap → LoadCheck
  check_load [] = below
  check_load ((variable, threshold) ∷ m) =
      compare_load variable threshold (check_load m) (w.show_status_variable variable)

  abbrev is_flagged : Text → Bool
  is_flagged file = not (is_empty file) && w.file_exists file

  -- The panic file's message.
  unfoldable pub panic_file_events : ThrottleState → List Event
  panic_file_events c =
      if is_flagged c.config.panic_flag_file
      then panic_abort (
          txt "Found panic-file " ++ (c.config.panic_flag_file ++ txt ". Aborting without cleanup"))
        ∷ []
      else []

  abbrev query_positive : Result Text ℤ → Bool
  query_positive (err e) = false
  query_positive (ok n) = ltb_ℤ (pos 0) n

  abbrev throttle_query_check : ThrottleState → ThrottleCheckResult
  throttle_query_check c =
      if not (is_empty c.config.throttle_query) && query_positive w.execute_throttle_query
      then because (txt "throttle-query")
      else no_throttle

  abbrev max_load_check : ThrottleState → LoadCheck → ThrottleCheckResult
  max_load_check c (unreadable variable e) = because (variable ++ (txt " " ++ e))
  max_load_check c (met variable value threshold) = because (
      txt "max-load "
      ++ (variable ++ (txt "=" ++ (itoa_int value ++ (txt " >= " ++ itoa_int threshold)))))
  max_load_check c below = throttle_query_check c

  -- From "Back to throttle considerations" on.
  unfoldable pub throttle_considerations : ThrottleState → ThrottleCheckResult
  unfolding check_load
  throttle_considerations c =
      if is_set c.throttle_commanded_by_user
      then record {
        should_throttle = true;
        reason = txt "commanded by user";
        reason_hint = user_command_hint;
      }
      else if is_flagged c.config.throttle_flag_file
      then because (txt "flag-file")
      else if is_flagged c.config.throttle_additional_flag_file
      then because (txt "flag-file")
      else max_load_check c (check_load c.config.max_load)

  abbrev considered : ThrottleState → List Event → ThrottleState × List Event
  considered c events = (set_throttle_general_check_result (throttle_considerations c) c, events)

  -- The hibernation starts.
  unfoldable pub hibernate : ThrottleState → ThrottleState × List Event
  hibernate c =
      let duration = wrap64 (c.config.critical_load_hibernate_seconds *ℤ nanoseconds_per_second) in
      (record c { hibernate_until = wrap64 (w.now +ℤ duration) }, wake_after duration ∷ [])

  abbrev after_critical : ThrottleState → LoadCheck → ThrottleState × List Event
  after_critical c (unreadable variable e) =
      (set_throttle_general_check_result (because (variable ++ (txt " " ++ e))) c, [])
  after_critical c (met variable value threshold) =
      if ltb_ℤ (pos 0) c.config.critical_load_hibernate_seconds
      then hibernate c
      else if int_eq c.config.critical_load_interval_milliseconds (pos 0)
      then considered c
          (panic_abort (txt "critical-load met: " ++ threshold_text variable value threshold) ∷ [])
      else if ltb_ℤ (pos 0) c.config.critical_load_interval_milliseconds
      then considered c (check_again_after c.config.critical_load_interval_milliseconds ∷ [])
      else considered c []
  after_critical c below = considered c []

  -- `collectGeneralThrottleMetrics`
  unfoldable pub collect_general_throttle_metrics : ThrottleState → ThrottleState × List Event
  unfolding panic_file_events throttle_considerations check_load hibernate
  collect_general_throttle_metrics c =
      if is_set c.hibernate_until
      then (c, [])
      else let (d, events) = after_critical c (check_load c.config.critical_load) in
        (d, panic_file_events c ++ events)

  abbrev abort_again : ℤ → LoadCheck → List Event
  abort_again ms (met variable value threshold) =
      panic_abort (
        txt "critical-load met again after "
        ++ (itoa_int ms ++ (txt " millis: " ++ threshold_text variable value threshold)))
      ∷ []
  abort_again ms _ = []

  -- The check that follows a critical load after an interval.
  unfoldable pub check_critical_again : ThrottleState → List Event
  unfolding check_load
  check_critical_again c =
      abort_again c.config.critical_load_interval_milliseconds (check_load c.config.critical_load)

-- The end of the hibernation.
unfoldable pub leave_hibernation : ThrottleState → ThrottleState
leave_hibernation c = record c {
  general_check_result = record {
    should_throttle = true;
    reason = txt "leaving hibernation";
    reason_hint = leaving_hibernation_hint;
  };
  hibernate_until = pos 0;
}
