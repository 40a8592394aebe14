-- ===== src/Logic/Throttler/Replicas.antt =====
-- go/logic/throttler.go, `readControlReplicasLag`: of the lags of the control replicas, in the order in
-- which their answers come in, one is kept.
use ghost_source_code_readin.Base.{
  ◌≡◌, refl, Option, none, some, List, [], ◌∷◌, if◌then◌else◌, arith, All, Bool-cases, inl, inr,
}
use mathlib.Core.List.{Memᴰ}
use ghost_source_code_readin.Base.Int.{◌≤ℤ◌, ltb_ℤ}
use ghost_source_code_readin.Base.Dict.{is_some}
use ghost_source_code_readin.Context.Throttling.{
  ThrottleState, LagResult, set_control_replicas_lag_result,
}
use ghost_source_code_readin.Logic.Throttler.{replicas_exempt}

-- The body of the loop over the answers.
unfoldable pub keep_lag : Option LagResult → LagResult → Option LagResult
keep_lag none r = some r
keep_lag (some kept) r =
    if is_some r.lag_error then some r else if ltb_ℤ kept.lag r.lag then some r else some kept

unfoldable pub read_lags : Option LagResult → List LagResult → Option LagResult
unfolding keep_lag
read_lags kept [] = kept
read_lags kept (r ∷ rs) = read_lags (keep_lag kept r) rs

-- `readControlReplicasLag`, on the answers in the order of arrival.
unfoldable pub read_control_replicas_lag : List LagResult → Option LagResult
unfolding read_lags
read_control_replicas_lag rs = read_lags none rs

-- `checkControlReplicasLag`
unfoldable pub check_control_replicas_lag : List LagResult → ThrottleState → ThrottleState
unfolding read_control_replicas_lag
check_control_replicas_lag rs c =
    if replicas_exempt c
    then c
    else set_control_replicas_lag_result (read_control_replicas_lag rs) c

-- One of the answers, without an error, that lags by at least every one of them.
abbrev pub IsLargest : List LagResult → Option LagResult → Type 0
IsLargest rs none = ⊥
IsLargest rs (some s) = (s.lag_error ≡ none) × Memᴰ s rs × All (λ r. r.lag ≤ℤ s.lag) rs

skip_second : {s a b : LagResult} {rs : List LagResult} → Memᴰ s (a ∷ rs) → Memᴰ s (a ∷ b ∷ rs)
skip_second (Memᴰ.head same) = Memᴰ.head same
skip_second (Memᴰ.tail m) = Memᴰ.tail (Memᴰ.tail m)

-- An answer that lags by less than the next one, or by more.
overtaken-IsLargest :
    (kept r : LagResult) (rs : List LagResult) (o : Option LagResult)
    → kept.lag ≤ℤ r.lag
    → IsLargest (r ∷ rs) o
    → IsLargest (kept ∷ r ∷ rs) o
overtaken-IsLargest kept r rs none less h = h
overtaken-IsLargest kept r rs (some s) less (e, m, (at_most_s, all)) =
    (e, Memᴰ.tail m, (omega arith, (at_most_s, all)))

kept-IsLargest :
    (kept r : LagResult) (rs : List LagResult) (o : Option LagResult)
    → r.lag ≤ℤ kept.lag
    → IsLargest (kept ∷ rs) o
    → IsLargest (kept ∷ r ∷ rs) o
kept-IsLargest kept r rs none less h = h
kept-IsLargest kept r rs (some s) less (e, m, (at_most_s, all)) =
    (e, skip_second m, (at_most_s, (omega arith, all)))

read_lags-IsLargest :
    (kept : LagResult) (rs : List LagResult)
    → kept.lag_error ≡ none
    → All (λ r. r.lag_error ≡ none) rs
    → IsLargest (kept ∷ rs) (read_lags (some kept) rs)
unfolding read_lags keep_lag
read_lags-IsLargest kept [] h hs = (h, Memᴰ.head refl, (omega arith, tt))
read_lags-IsLargest kept (r ∷ rs) h (e, es) = elim (Bool-cases (ltb_ℤ kept.lag r.lag)) [
  | inl more ↦
      simp (e, more)
        (overtaken-IsLargest kept r rs _ (ground arith) (read_lags-IsLargest r rs e es))
  | inr less ↦
      simp (e, less) (kept-IsLargest kept r rs _ (ground arith) (read_lags-IsLargest kept rs h es))
]

-- When every replica answers without an error, and there is at least one, the result is one of their
-- answers, without an error, and no replica lags by more.
pub read_control_replicas_lag-IsLargest :
    (r : LagResult) (rs : List LagResult)
    → All (λ s. s.lag_error ≡ none) (r ∷ rs)
    → IsLargest (r ∷ rs) (read_control_replicas_lag (r ∷ rs))
unfolding read_control_replicas_lag keep_lag read_lags
read_control_replicas_lag-IsLargest r rs (h, hs) = read_lags-IsLargest r rs h hs
