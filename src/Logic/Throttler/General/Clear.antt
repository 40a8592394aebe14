-- ===== src/Logic/Throttler/General/Clear.antt =====
-- What the checks of once a second find.
use ghost_source_code_readin.Base.{
  ◌≡◌, ◌≢◌, ◌↔◌, refl, true, false, List, [], ◌∷◌, ◌++◌, arith, All, Result, ok, err, ◌⊎◌, inl, inr,
}
use ghost_source_code_readin.Base.Int.{ℤ, pos, negsuc, ltb_ℤ, ◌≤ℤ◌}
use ghost_source_code_readin.Text.{Text, is_empty}
use ghost_source_code_readin.Mysql.Coordinates.{int_eq}
use ghost_source_code_readin.Context.LoadMap.{LoadMap}
use ghost_source_code_readin.Context.Throttling.{
  ThrottleState, set_throttle_general_check_result, is_set,
}
use ghost_source_code_readin.Logic.Throttler.{World}
use ghost_source_code_readin.Logic.Throttler.General.{
  LoadCheck, below, met, unreadable, Event, check_load, compare_load, is_flagged, query_positive,
  throttle_considerations, max_load_check, after_critical, hibernate, panic_file_events,
  collect_general_throttle_metrics,
}

-- The variable can be read, and is below its threshold.
abbrev IsBelow : ℤ → Result Text ℤ → Type 0
IsBelow threshold (err e) = ⊥
IsBelow threshold (ok value) = ltb_ℤ value threshold ≡ true

abbrev pub AllBelow : World → LoadMap → Type 0
AllBelow w = All (λ c. IsBelow c.1 (w.show_status_variable c.0))

compare_load-below :
    (w : World) (v : Text) (t : ℤ) (rest : LoadCheck) (r : Result Text ℤ)
    → (compare_load w v t rest r ≡ below) ↔ IsBelow t r × (rest ≡ below)
compare_load-below w v t rest (err e) = (λ h. cc, λ h. absurd h.0)
compare_load-below w v t rest (ok n) = (λ h. ground arith, λ (h, k). ground arith)

pub check_load-below : (w : World) (m : LoadMap) → (check_load w m ≡ below) ↔ AllBelow w m
unfolding check_load
check_load-below w [] = (λ h. tt, λ h. refl)
check_load-below w ((v, t) ∷ m) =
    let first = compare_load-below w v t (check_load w m) (w.show_status_variable v) in
    let rest = check_load-below w m in
    (λ h. let (b, k) = first.0 h in (b, rest.0 k), λ (b, k). first.1 (b, rest.1 k))

-- No user, no file, no load and no query asks for throttling.
abbrev pub IsQuiet : World → ThrottleState → Type 0
IsQuiet w c =
    (c.throttle_commanded_by_user ≤ℤ pos 0)
    × (is_flagged w c.config.throttle_flag_file ≡ false)
    × (is_flagged w c.config.throttle_additional_flag_file ≡ false)
    × AllBelow w c.config.max_load
    × ((is_empty c.config.throttle_query ≡ true)
        ⊎ (query_positive w w.execute_throttle_query ≡ false))

max_load_check-quiet :
    (w : World) (c : ThrottleState) (l : LoadCheck)
    → ((max_load_check w c l).should_throttle ≡ false)
      ↔ (l ≡ below)
        × ((is_empty c.config.throttle_query ≡ true)
            ⊎ (query_positive w w.execute_throttle_query ≡ false))
max_load_check-quiet w c below = (λ h. (refl, ground arith), λ (_, h). ground arith)
max_load_check-quiet w c (met v n t) = (λ h. cc, λ h. cc)
max_load_check-quiet w c (unreadable v e) = (λ h. cc, λ h. cc)

throttle_considerations-IsQuiet :
    (w : World) (c : ThrottleState)
    → ((throttle_considerations w c).should_throttle ≡ false) ↔ IsQuiet w c
unfolding throttle_considerations
throttle_considerations-IsQuiet w c = ground (
  arith,
  max_load_check-quiet w c (check_load w c.config.max_load),
  check_load-below w c.config.max_load,
)

not_hibernating :
    (c : ThrottleState) → c.hibernate_until ≤ℤ pos 0 → is_set c.hibernate_until ≡ false
not_hibernating c h = ground arith

-- Outside a hibernation and with all critical loads readable and below their thresholds, the check
-- asks for throttling unless no user commands it, no flag file exists, all loads are readable and below
-- their thresholds, and the throttle query does not give a positive number.
pub collect_general_throttle_metrics-IsQuiet :
    (w : World) (c : ThrottleState)
    → c.hibernate_until ≤ℤ pos 0
    → AllBelow w c.config.critical_load
    → ((collect_general_throttle_metrics w c).0.general_check_result.should_throttle ≡ false)
      ↔ IsQuiet w c
unfolding collect_general_throttle_metrics set_throttle_general_check_result
collect_general_throttle_metrics-IsQuiet w c awake calm =
    rw (not_hibernating c awake, (check_load-below w c.config.critical_load).1 calm)
      (throttle_considerations-IsQuiet w c)

interval_cases : (n : ℤ) → pos 0 ≤ℤ n → (int_eq n (pos 0) ≡ true) ⊎ (ltb_ℤ (pos 0) n ≡ true)
interval_cases (pos n) h = ground arith
interval_cases (negsuc n) h = absurd (omega arith)

after_critical-notices :
    (w : World) (c : ThrottleState) (l : LoadCheck)
    → pos 0 ≤ℤ c.config.critical_load_interval_milliseconds
    → l ≢ below
    → ((after_critical w c l).0.general_check_result.should_throttle ≡ true)
      ⊎ ((after_critical w c l).1 ≢ [])
unfolding set_throttle_general_check_result hibernate
after_critical-notices w c below h bad = absurd (bad refl)
after_critical-notices w c (unreadable v e) h bad = inl refl
after_critical-notices w c (met v n t) h bad =
    ground (arith, interval_cases c.config.critical_load_interval_milliseconds)

append-ne-nil : (xs ys : List Event) → ys ≢ [] → xs ++ ys ≢ []
append-ne-nil [] ys h = h
append-ne-nil (x ∷ xs) ys h = λ e. cc

-- Outside a hibernation, a critical load that is met or cannot be read never goes unnoticed: the check
-- asks for throttling, or it starts something: a panic, a hibernation, or a second check.
collect_general_throttle_metrics-notices :
    (w : World) (c : ThrottleState)
    → c.hibernate_until ≤ℤ pos 0
    → pos 0 ≤ℤ c.config.critical_load_interval_milliseconds
    → check_load w c.config.critical_load ≢ below
    → ((collect_general_throttle_metrics w c).0.general_check_result.should_throttle ≡ true)
      ⊎ ((collect_general_throttle_metrics w c).1 ≢ [])
unfolding collect_general_throttle_metrics
collect_general_throttle_metrics-notices w c awake nonneg bad =
    rw (not_hibernating c awake)
      (elim (after_critical-notices w c (check_load w c.config.critical_load) nonneg bad) [
        | inl h ↦ inl h
        | inr h ↦ inr (append-ne-nil (panic_file_events w c) _ h)
      ])
