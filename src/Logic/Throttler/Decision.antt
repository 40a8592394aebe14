-- ===== src/Logic/Throttler/Decision.antt =====
-- When the throttler decides to throttle.
use ghost_source_code_readin.Base.{◌≡◌, ◌↔◌, refl, true, false, Option, none, some, arith, ◌⊎◌}
use ghost_source_code_readin.Base.Int.{pos, ◌≤ℤ◌}
use ghost_source_code_readin.Text.{Text, text_eq}
use ghost_source_code_readin.Mysql.Coordinates.{int_eq}
use ghost_source_code_readin.Context.Throttling.{
  ThrottleState, LagResult, is_throttled, set_throttled,
}
use ghost_source_code_readin.Logic.Throttler.{
  World, lag_threshold, replicas_exempt, check_control_replicas, error_or_lag, should_throttle_now,
  throttler_function,
}

-- The control replicas were read without an error, and none of them lags.
unfoldable pub ReplicasKeepUp : ThrottleState → Type 0
ReplicasKeepUp c =
    (c.control_replicas_lag_result.lag_error ≡ none)
    × (c.control_replicas_lag_result.lag ≤ℤ lag_threshold c)

-- No metric asks for throttling.
abbrev pub IsClear : ThrottleState → Type 0
IsClear c =
    (c.hibernate_until ≤ℤ pos 0)
    × (c.general_check_result.should_throttle ≡ false)
    × ((int_eq c.throttle_http_status_code (pos 0) ≡ true)
        ⊎ (int_eq c.throttle_http_status_code (pos 200) ≡ true))
    × (c.current_lag ≤ℤ lag_threshold c)
    × ((replicas_exempt c ≡ true) ⊎ ReplicasKeepUp c)

error_or_lag-clear :
    (w : World) (c : ThrottleState) (r : LagResult) (e : Option Text)
    → ((error_or_lag w c r e).should_throttle ≡ false) ↔ (e ≡ none) × (r.lag ≤ℤ lag_threshold c)
error_or_lag-clear w c r none = (λ h. (refl, ground arith), λ (_, k). ground arith)
error_or_lag-clear w c r (some e) = (λ h. cc, λ (h, _). cc)

-- The throttler decides not to throttle exactly when no metric asks for it: no hibernation, a general
-- check that passed, a web service that was not asked or said 200, the lag within the threshold, and
-- the control replicas readable and within the threshold, unless a replica's own migration no longer
-- Waits for them.
pub should_throttle_now-IsClear :
    (w : World) (c : ThrottleState)
    → ((should_throttle_now w c).should_throttle ≡ false) ↔ IsClear c
unfolding should_throttle_now check_control_replicas ReplicasKeepUp
should_throttle_now-IsClear w c = ground (
  arith,
  error_or_lag-clear w c c.control_replicas_lag_result c.control_replicas_lag_result.lag_error,
)

-- Outside the cut-over's critical section, after a tick the state says what the tick decided. A message
-- is written exactly when the decision changes or, while throttling goes on, the reason does.
throttler_function-follows :
    (w : World) (c : ThrottleState)
    → c.in_cut_over_critical_section_flag ≤ℤ pos 0
    → (is_throttled (throttler_function w c).1 ≡ should_throttle_now w c)
      × (((throttler_function w c).0 ≡ none)
          ↔ (((should_throttle_now w c).should_throttle ≡ false)
              × ((is_throttled c).should_throttle ≡ false))
            ⊎ (((should_throttle_now w c).should_throttle ≡ true)
                × ((is_throttled c).should_throttle ≡ true)
                × (text_eq (is_throttled c).reason (should_throttle_now w c).reason ≡ true)))
unfolding throttler_function is_throttled set_throttled
throttler_function-follows w c outside = (ground arith, ground arith)
