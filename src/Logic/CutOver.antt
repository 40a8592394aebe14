-- ===== src/Logic/CutOver.antt =====
-- go/logic/migrator.go: the cut-over, which swaps the tables. What the applier, the hooks and the
-- throttler do is an interface; `Applier.Tables` and `CutOver.Await` have their parts of it.
pub mod Await
pub mod Atomic
pub mod TwoStep
pub mod Postpone
pub mod Challenge
use ghost_source_code_readin.Base.{
  ℕ, Bool, true, false, not, Option, none, some, List, [], ◌∷◌, ◌++◌, if◌then◌else◌,
}
use ghost_source_code_readin.Base.Int.{ℤ}
use ghost_source_code_readin.Text.{Text, is_empty}
use ghost_source_code_readin.Logic.Migrator.{Operation, Retried, retry_operation}
use ghost_source_code_readin.Logic.Operations.{ignoring, modify, only_if, succeed, ◌>>>◌}

pub data CutOverType : Type 0 where
  cut_over_atomic cut_over_two_step_type : CutOverType
  unknown_cut_over_type : ℤ → CutOverType

pub record CutOverPlan : Type 0 where
  pub max_retries : ℤ
  pub noop : Bool
  pub test_on_replica : Bool
  pub test_on_replica_skip_replica_stop : Bool
  pub postpone_cut_over_flag_file : Text
  pub cut_over_type : CutOverType

-- The flags of the context, what is sent to `PanicAbort`, and the rest of the world.
pub record CutOverState {ℓ κ} (E : Type ℓ) (Db : Type κ) : Type (ℓ ⊔ κ) where
  pub db : Db
  pub in_cut_over_critical_section : Bool
  pub all_events_up_to_lock_injected : Bool
  pub is_postponing_cut_over : Bool
  pub user_commanded_unpostpone : Bool
  pub panics : List (Option E)

-- What the cut-over calls.
pub record CutOverOps {ℓ κ} (E : Type ℓ) (Db : Type κ) : Type (ℓ ⊔ κ) where
  pub lock_original : Operation E (CutOverState E Db)
  pub wait_for_events : Operation E (CutOverState E Db)
  pub swap_tables : Operation E (CutOverState E Db)
  pub unlock_original : Operation E (CutOverState E Db)
  pub rename_back : Operation E (CutOverState E Db)
  pub stop_replicating : Operation E (CutOverState E Db)
  pub start_replicating : Operation E (CutOverState E Db)
  pub on_stop_replication : Operation E (CutOverState E Db)
  pub on_start_replication : Operation E (CutOverState E Db)
  pub on_begin_postponed : Operation E (CutOverState E Db)
  pub throttle : Operation E (CutOverState E Db)
  pub atomic_cut_over : Operation E (CutOverState E Db)

-- Where a function that may wait is after some rounds: it still waits, or it has returned.
pub data Waited {ℓ κ} (E : Type ℓ) (Db : Type κ) : Type (ℓ ⊔ κ) where
  still_waiting : CutOverState E Db → Waited E Db
  has_returned : Option E → CutOverState E Db → Waited E Db

module _ {ℓ κ} {E : Type ℓ} {Db : Type κ} where
  abbrev pub set_critical : Bool → CutOverState E Db → CutOverState E Db
  set_critical b s = record s { in_cut_over_critical_section = b }

  abbrev pub set_postponing : Bool → CutOverState E Db → CutOverState E Db
  set_postponing b s = record s { is_postponing_cut_over = b }

  abbrev send_panic : Option (Option E) → CutOverState E Db → CutOverState E Db
  send_panic none s = s
  send_panic (some e) s = record s { panics = s.panics ++ e ∷ [] }

  abbrev pub return_retried : Retried E (CutOverState E Db) → Option E × CutOverState E Db
  return_retried r = (r.result, send_panic r.panic_abort r.state)

  -- `retryOperation(op)`
  unfoldable pub retried_op : ℤ → Operation E (CutOverState E Db) → Operation E (CutOverState E Db)
  retried_op max_retries op s = return_retried (retry_operation max_retries op false s)

  abbrev pub enter_critical : CutOverState E Db → CutOverState E Db
  enter_critical s = record s {
    in_cut_over_critical_section = true;
    all_events_up_to_lock_injected = false;
  }

  abbrev pub leave_critical : Option E × CutOverState E Db → Option E × CutOverState E Db
  leave_critical (e, s) = (e, set_critical false s)

  -- `cutOverTwoStep`
  unfoldable pub cut_over_two_step : ℤ → CutOverOps E Db → Operation E (CutOverState E Db)
  unfolding retried_op
  cut_over_two_step n ops s = leave_critical (
      (retried_op n ops.lock_original
          >>> retried_op n ops.wait_for_events
          >>> retried_op n ops.swap_tables
          >>> retried_op n ops.unlock_original)
        (enter_critical s))

  abbrev only_on_error :
      Option E → Operation E (CutOverState E Db) → Operation E (CutOverState E Db)
  only_on_error none op = succeed
  only_on_error (some e) op = op

  -- `handleCutOverResult`
  unfoldable pub handle_cut_over_result :
      CutOverPlan → CutOverOps E Db → Option E → Operation E (CutOverState E Db)
  unfolding retried_op
  handle_cut_over_result p ops cut_over_error =
      only_if p.test_on_replica (ignoring ops.rename_back)
      >>> only_on_error cut_over_error (
          only_if p.test_on_replica (
            ops.on_start_replication
            >>> only_if (not p.test_on_replica_skip_replica_stop)
                (retried_op p.max_retries ops.start_replicating)))

  abbrev pub begin_postponed : Option E × CutOverState E Db → (Bool × Option E) × CutOverState E Db
  begin_postponed (some e, s) = ((true, some e), s)
  begin_postponed (none, s) = ((true, none), set_postponing true s)

  -- A round of the check for postponement, at whether the flag file exists: whether to wait, and an
  -- error.
  unfoldable pub postpone_round :
      CutOverPlan
      → CutOverOps E Db
      → Bool
      → CutOverState E Db
      → (Bool × Option E) × CutOverState E Db
  postpone_round p ops file_exists s =
      if is_empty p.postpone_cut_over_flag_file
      then ((false, none), s)
      else if s.user_commanded_unpostpone
      then ((false, none), record s { user_commanded_unpostpone = false })
      else if not file_exists
      then ((false, none), s)
      else if s.is_postponing_cut_over
      then ((true, none), set_postponing true s)
      else begin_postponed (ops.on_begin_postponed s)

  abbrev pub as_returned : Option E × CutOverState E Db → Waited E Db
  as_returned (e, s) = has_returned e s

  abbrev pub go_on_sleeping :
      (Bool × Option E) × CutOverState E Db → (CutOverState E Db → Waited E Db) → Waited E Db
  go_on_sleeping ((b, some e), s) rest = has_returned (some e) s
  go_on_sleeping ((false, none), s) rest = has_returned none s
  go_on_sleeping ((true, none), s) rest = rest s

  -- `sleepWhileTrue`, with whether the flag file exists in each round.
  unfoldable pub sleep_while_postponed :
      CutOverPlan → CutOverOps E Db → List Bool → CutOverState E Db → Waited E Db
  unfolding postpone_round
  sleep_while_postponed p ops [] s = still_waiting s
  sleep_while_postponed p ops (file_exists ∷ later) s =
      go_on_sleeping (postpone_round p ops file_exists s) (λ t. sleep_while_postponed p ops later t)

  abbrev then_handle :
      CutOverPlan → CutOverOps E Db → Option E × CutOverState E Db → Option E × CutOverState E Db
  then_handle p ops (e, s) = (e, (handle_cut_over_result p ops e s).1)

  -- The calls of `cutOver` by its type; a type that is unknown ends the process.
  unfoldable pub swap_by_type :
      CutOverPlan → CutOverOps E Db → E → CutOverType → Operation E (CutOverState E Db)
  unfolding cut_over_two_step handle_cut_over_result
  swap_by_type p ops unknown cut_over_atomic s = then_handle p ops (ops.atomic_cut_over s)
  swap_by_type p ops unknown cut_over_two_step_type s =
      then_handle p ops (cut_over_two_step p.max_retries ops s)
  swap_by_type p ops unknown (unknown_cut_over_type t) s = (some unknown, s)

  -- `cutOver` from where the postponement is over.
  unfoldable pub cut_over_unpostponed :
      CutOverPlan → CutOverOps E Db → E → Operation E (CutOverState E Db)
  unfolding swap_by_type retried_op
  cut_over_unpostponed p ops unknown =
      modify (set_postponing false)
      >>> only_if p.test_on_replica (
          ops.on_stop_replication
          >>> only_if (not p.test_on_replica_skip_replica_stop)
              (retried_op p.max_retries ops.stop_replicating))
      >>> swap_by_type p ops unknown p.cut_over_type

  abbrev pub when_woken : Waited E Db → Operation E (CutOverState E Db) → Waited E Db
  when_woken (still_waiting s) next = still_waiting s
  when_woken (has_returned e s) next = as_returned (next s)

  -- `cutOver`, which waits while it is postponed. What `throttle` and `sleepWhileTrue` return is not
  -- looked at.
  unfoldable pub cut_over :
      CutOverPlan → CutOverOps E Db → E → List Bool → CutOverState E Db → Waited E Db
  unfolding sleep_while_postponed cut_over_unpostponed
  cut_over p ops unknown rounds s =
      if p.noop
      then has_returned none s
      else when_woken (sleep_while_postponed p ops rounds (ops.throttle s).1)
          (cut_over_unpostponed p ops unknown)
