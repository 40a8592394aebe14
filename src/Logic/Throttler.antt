-- ===== src/Logic/Throttler.antt =====
-- go/logic/throttler.go: the checks that decide on throttling. What they ask of the world is a
-- parameter: the clock, files, status variables, queries, and the texts that `fmt` and `time` make.
pub mod Decision
pub mod General
pub mod Replicas
use ghost_source_code_readin.Base.{
  ℕ, Bool, true, false, not, ◌&&◌, ◌||◌, Option, none, some, List, [], ◌∷◌, ◌++◌, ◌^◌,
  if◌then◌else◌, Result, ok, err,
}
use ghost_source_code_readin.Base.Int.{ℤ, pos, negsuc, ltb_ℤ, ◌+ℤ◌, ◌*ℤ◌, wrap64}
use ghost_source_code_readin.Text.{Text, txt, text_eq, is_empty, contains}
use ghost_source_code_readin.Text.Decimal.{itoa_int}
use ghost_source_code_readin.Mysql.Coordinates.{int_eq}
use ghost_source_code_readin.Context.LoadMap.{LoadMap}
use ghost_source_code_readin.Context.Throttling.{
  ThrottleState, ThrottleCheckResult, LagResult, no_throttle, is_set, is_throttled,
  no_throttle_reason_hint, user_command_hint, leaving_hibernation_hint,
  set_throttle_general_check_result, set_throttled,
}

-- What the throttler asks of the world. Errors are texts.
pub record World : Type 0 where
  pub now : ℤ
  pub file_exists : Text → Bool
  pub show_status_variable : Text → Result Text ℤ
  pub execute_throttle_query : Result Text ℤ
  pub time_text : ℤ → Text
  pub seconds_text : ℤ → Text
  pub key_text : LagResult → Text

abbrev pub nanoseconds_per_millisecond : ℤ
nanoseconds_per_millisecond = pos 1000000

abbrev pub nanoseconds_per_second : ℤ
nanoseconds_per_second = pos 1000000000

-- `time.Duration(ms) * time.Millisecond`
unfoldable pub lag_threshold : ThrottleState → ℤ
lag_threshold c = wrap64 (c.config.max_lag_milliseconds *ℤ nanoseconds_per_millisecond)

abbrev pub because : Text → ThrottleCheckResult
because r = record { should_throttle = true; reason = r; reason_hint = no_throttle_reason_hint }

-- A status, its message, and the message of a service of the kind `freno`.
abbrev pub http_status_messages : List (ℤ × Text × Text)
http_status_messages =
    (pos 200, txt "OK", txt "OK")
    ∷ (pos 404, txt "Not found", txt "freno: unknown metric")
    ∷ (pos 417, txt "Expectation failed", txt "freno: access forbidden")
    ∷ (pos 429, txt "Too many requests", txt "freno: threshold exceeded")
    ∷ (pos 500, txt "Internal server error", txt "freno: internal error")
    ∷ (negsuc 0, txt "Connection error", txt "freno: connection error")
    ∷ []

abbrev find_message : Bool → ℤ → List (ℤ × Text × Text) → Option Text
find_message freno n [] = none
find_message freno n ((code, plain, special) ∷ table) =
    if int_eq code n then some (if freno then special else plain) else find_message freno n table

abbrev http_text : Option Text → ℤ → Text
http_text none n = txt "http=" ++ itoa_int n
http_text (some m) n = m ++ (txt " (http=" ++ (itoa_int n ++ txt ")"))

-- `throttleHttpMessage`
unfoldable pub throttle_http_message : ThrottleState → ℤ → Text
throttle_http_message c n =
    let freno = contains c.config.throttle_http (txt "freno") in
    http_text (find_message freno n http_status_messages) n

-- Events from the replica are not waited for any more.
abbrev pub replicas_exempt : ThrottleState → Bool
replicas_exempt c =
    (c.config.test_on_replica || c.config.migrate_on_replica)
    && is_set c.all_events_up_to_lock_processed_flag

module _ (w : World) where
  abbrev error_or_lag : ThrottleState → LagResult → Option Text → ThrottleCheckResult
  error_or_lag c r (some e) = because (w.key_text r ++ (txt " " ++ e))
  error_or_lag c r none =
      if ltb_ℤ (lag_threshold c) r.lag
      then because (w.key_text r ++ (txt " replica-lag=" ++ (w.seconds_text r.lag ++ txt "s")))
      else no_throttle

  -- The lag of the control replicas.
  unfoldable pub check_control_replicas : ThrottleState → ThrottleCheckResult
  check_control_replicas c =
      if replicas_exempt c
      then no_throttle
      else error_or_lag c c.control_replicas_lag_result c.control_replicas_lag_result.lag_error

  -- `shouldThrottle`
  unfoldable pub should_throttle_now : ThrottleState → ThrottleCheckResult
  unfolding check_control_replicas
  should_throttle_now c =
      if is_set c.hibernate_until
      then because (txt "critical-load-hibernate until " ++ w.time_text c.hibernate_until)
      else if c.general_check_result.should_throttle
      then c.general_check_result
      else if not (int_eq c.throttle_http_status_code (pos 0))
          && not (int_eq c.throttle_http_status_code (pos 200))
      then because (throttle_http_message c c.throttle_http_status_code)
      else if ltb_ℤ (lag_threshold c) c.current_lag
      then because (txt "lag=" ++ (w.seconds_text c.current_lag ++ txt "s"))
      else check_control_replicas c

  -- The ticker's function: the message written to the changelog, and the new state.
  unfoldable pub throttler_function : ThrottleState → Option Text × ThrottleState
  unfolding should_throttle_now
  throttler_function c =
      let before = is_throttled c in
      let now = should_throttle_now c in
      let message =
        (if now.should_throttle && not before.should_throttle
          then some now.reason
          else if now.should_throttle
              && (before.should_throttle && not (text_eq before.reason now.reason))
          then some now.reason
          else if before.should_throttle && not now.should_throttle
          then some (txt "done throttling")
          else none) in
      (message, set_throttled now c)
