-- ===== src/Tests/CuttingOver.antt =====
-- A cut-over of go/logic/migrator.go that succeeds, and one whose rename cannot begin.
use ghost_source_code_readin.Base.{
  Option, [], arith, false, if◌then◌else◌, none, refl, some, true, ℕ, ◌+◌, ◌==◌, ◌↔◌, ◌∷◌, ◌≡◌,
}
use ghost_source_code_readin.Base.Int.{pos}
use ghost_source_code_readin.Text.{Text, text_eq, txt}
use ghost_source_code_readin.Text.Decimal.{itoa_int}
use ghost_source_code_readin.Logic.CutOver.Await.{
  challenge, state_processed, wait_for_events_up_to_lock,
}
use ghost_source_code_readin.Logic.Migrator.{attempts, retry_operation}
use ghost_source_code_readin.Logic.Operations.{fail_with, succeed}
use ghost_source_code_readin.Logic.CutOver.{
  still_waiting, as_returned, CutOverOps, CutOverPlan, CutOverState, cut_over, cut_over_two_step,
  cut_over_two_step_type, cut_over_unpostponed, enter_critical, retried_op, set_critical,
}
use ghost_source_code_readin.Logic.CutOver.TwoStep.{IsSwapped, cut_over_two_step-IsSwapped}
use ghost_source_code_readin.Logic.CutOver.Postpone.{
  begun, Undisturbed, cut_over-failed_hook, cut_over-postponed, rounds_of,
}
use ghost_source_code_readin.Logic.CutOver.Challenge.{
  IsAnswered, wait_for_events_up_to_lock-IsAnswered,
}
use ghost_source_code_readin.Logic.CutOver.Atomic.State.{
  Shared, System, await_ok, awaiting_rename_session, defer_lock_session, rename_done,
  rename_rollback, returned, send_table_unlocked,
}
use ghost_source_code_readin.Logic.CutOver.Atomic.MagicLock.{
  connection_id_read, lock_begun, lock_call, lock_granted, lock_session_sent, lock_timeout_set,
  ok_received, sentry_created, sentry_dropped, table_locked_sent, table_unlocked_sent,
  tables_locked, tables_unlocked,
}
use ghost_source_code_readin.Logic.CutOver.Atomic.Rename.{
  known_to_have_failed, ok_given, rename_begun, rename_call, rename_connection_id_read,
  rename_session_sent, rename_timeout_set, tables_renamed_sent, were_renamed,
}
use ghost_source_code_readin.Logic.CutOver.Atomic.Main.{
  flag_cleared, last_ok_sent, lock_session_received, lock_spawned, locked_received, main_call,
  ok_sent, process_found, process_not_found, rename_session_received, rename_spawned,
  renamed_received, sentry_looked_for, unlocked_received, used_lock_found,
}
use ghost_source_code_readin.Logic.CutOver.Atomic.Steps.{
  Reach, Step, Steps, after, lock_moves, main_moves, rename_moves, stay,
}
use ghost_source_code_readin.Logic.CutOver.Atomic.Knowledge.{IsComplete, IsPrepared}
use ghost_source_code_readin.Logic.CutOver.Atomic.Safety.{
  atomic_cut_over-IsComplete, in_critical_section-running, is_running, renamed-IsPrepared,
}
use ghost_source_code_readin.Logic.CutOver.Atomic.Blocked.{
  awaits_rename_session, begin_failure-blocks, begins, has_failed,
}
use ghost_source_code_readin.Logic.CutOver.Atomic.Room.{
  LockHasRoom, MainHasRoom, RenameHasRoom, sends-HasRoom,
}

infixl 5 ◌▸◌
-- A step more.
abbrev ◌▸◌ : {n : ℕ} {s t u : System} → Steps n s t → Step n t u → Steps n s u
r ▸ st = after r st

-- The lock is taken, and the challenge comes back after the state of an earlier attempt.
abbrev started : Shared
started = record {
  ok_to_unlock_table = 0;
  lock_original_session_ids = [];
  table_locked = [];
  table_unlocked = [];
  rename_session_ids = [];
  tables_renamed = [];
  in_cut_over_critical_section = true;
  all_events_up_to_lock_injected = true;
  table_rename_known_to_have_failed = false;
  lock_started = true;
  rename_started = true;
  facts = record { locked = true; events_processed = true; unlocked = false; renamed = false };
}

challenge_comes :
    wait_for_events_up_to_lock
      (pos 5)
      (λ t. none)
      (state_processed [] ∷ state_processed (challenge (pos 5)) ∷ [])
      false
    ≡ (some none, true)
unfolding wait_for_events_up_to_lock text_eq txt itoa_int
challenge_comes = refl

started-Reach : Reach 60 false (begins started (awaiting_rename_session (pos 7)) await_ok)
started-Reach =
    stay
    ▸ main_moves lock_spawned
    ▸ lock_moves (lock_begun refl)
    ▸ lock_moves (lock_call (connection_id_read (pos 7)))
    ▸ lock_moves (lock_session_sent (pos 7) (omega arith))
    ▸ lock_moves (lock_call (lock_granted (pos 7)))
    ▸ lock_moves (lock_call lock_timeout_set)
    ▸ lock_moves (lock_call sentry_created)
    ▸ lock_moves tables_locked
    ▸ lock_moves (table_locked_sent (omega arith))
    ▸ main_moves (locked_received [] refl)
    ▸ main_moves (lock_session_received (pos 7) [] refl)
    ▸ main_moves (
        rename_spawned (pos 7) (pos 5) (λ t. none)
          (state_processed [] ∷ state_processed (challenge (pos 5)) ∷ []) true challenge_comes)

-- The rename Waits, the lock is released, and the tables are renamed.
abbrev finished : System
finished = record {
  shared = record started {
    ok_to_unlock_table = 1;
    in_cut_over_critical_section = false;
    facts = record { locked = true; events_processed = true; unlocked = true; renamed = true };
  };
  main = returned none;
  lock = defer_lock_session none;
  rename = rename_rollback none;
}

finished-Reach : Reach 60 false finished
finished-Reach =
    started-Reach
    ▸ rename_moves (rename_begun refl)
    ▸ rename_moves (rename_call (rename_connection_id_read (pos 8)))
    ▸ rename_moves (rename_session_sent (pos 8) (omega arith))
    ▸ main_moves (rename_session_received (pos 7) (pos 8) [] refl)
    ▸ main_moves (main_call (process_not_found (pos 7) (pos 8) 59 none [] refl))
    ▸ rename_moves (rename_call rename_timeout_set)
    ▸ main_moves (main_call (process_found (pos 7) (pos 8) 58 (some []) refl))
    ▸ main_moves (main_call (used_lock_found (pos 7)))
    ▸ main_moves (ok_sent (omega arith))
    ▸ lock_moves (ok_received 0 refl)
    ▸ lock_moves (lock_call (sentry_dropped none))
    ▸ lock_moves tables_unlocked
    ▸ rename_moves were_renamed
    ▸ rename_moves (tables_renamed_sent none (omega arith))
    ▸ lock_moves (table_unlocked_sent none (omega arith))
    ▸ main_moves (unlocked_received none [] refl)
    ▸ main_moves (renamed_received none [] refl)
    ▸ main_moves (last_ok_sent none (omega arith))
    ▸ main_moves (main_call (sentry_looked_for none))
    ▸ main_moves (flag_cleared none)

atomic_cut_over-IsComplete_example : IsComplete finished.shared.facts
atomic_cut_over-IsComplete_example = atomic_cut_over-IsComplete finished-Reach refl

renamed-IsPrepared_example : IsPrepared finished.shared.facts
renamed-IsPrepared_example = renamed-IsPrepared finished-Reach refl

in_critical_section-running_example :
    finished.shared.in_cut_over_critical_section ≡ is_running finished.main
in_critical_section-running_example = in_critical_section-running finished-Reach

sends-HasRoom_example :
    MainHasRoom finished.main finished.shared
    × LockHasRoom finished.lock finished.shared
    × RenameHasRoom finished.rename finished.shared
sends-HasRoom_example = sends-HasRoom finished-Reach

-- The goroutine of the rename has given up, the tables are unlocked.
abbrev given_up : System
given_up = record {
  shared = record started {
    table_rename_known_to_have_failed = true;
    facts = record { locked = true; events_processed = true; unlocked = true; renamed = false };
  };
  main = awaiting_rename_session (pos 7);
  lock = send_table_unlocked none;
  rename = rename_done;
}

abbrev no_begin : Text
no_begin = []

gives_up :
    Steps 60 (has_failed no_begin started (awaiting_rename_session (pos 7)) await_ok) given_up
gives_up =
    stay
    ▸ rename_moves (known_to_have_failed no_begin)
    ▸ rename_moves (ok_given (omega arith))
    ▸ lock_moves (ok_received 0 refl)
    ▸ lock_moves (lock_call (sentry_dropped none))
    ▸ lock_moves tables_unlocked

begin_failure-blocks_example :
    (awaits_rename_session given_up.main ≡ true)
    × (given_up.shared.in_cut_over_critical_section ≡ true)
begin_failure-blocks_example =
    begin_failure-blocks started (awaiting_rename_session (pos 7)) await_ok no_begin started-Reach
      refl gives_up

wait_for_events_up_to_lock-IsAnswered_example :
    (wait_for_events_up_to_lock
        (pos 5)
        (λ t. none)
        (state_processed [] ∷ state_processed (challenge (pos 5)) ∷ [])
        false
      ≡ (some none, true))
    ↔ IsAnswered (challenge (pos 5)) (state_processed [] ∷ state_processed (challenge (pos 5)) ∷ [])
wait_for_events_up_to_lock-IsAnswered_example =
    wait_for_events_up_to_lock-IsAnswered (pos 5) (λ t. none)
      (state_processed [] ∷ state_processed (challenge (pos 5)) ∷ []) false refl

-- A world that counts the attempts to lock, of which the first fails, and the swaps.
abbrev World : Type 0
World = CutOverState Text (ℕ × ℕ)

abbrev world : World
world = record {
  db = (0, 0);
  in_cut_over_critical_section = false;
  all_events_up_to_lock_injected = true;
  is_postponing_cut_over = false;
  user_commanded_unpostpone = false;
  panics = [];
}

abbrev lock_second : World → Option Text × World
lock_second s = (if s.db.0 == 0 then some [] else none, record s { db = (s.db.0 + 1, s.db.1) })

abbrev swap_once : World → Option Text × World
swap_once s = (none, record s { db = (s.db.0, s.db.1 + 1) })

abbrev cut_ops : CutOverOps Text (ℕ × ℕ)
cut_ops = record {
  lock_original = lock_second;
  wait_for_events = succeed;
  swap_tables = swap_once;
  unlock_original = succeed;
  rename_back = succeed;
  stop_replicating = succeed;
  start_replicating = succeed;
  on_stop_replication = succeed;
  on_start_replication = succeed;
  on_begin_postponed = succeed;
  throttle = succeed;
  atomic_cut_over = succeed;
}

abbrev cut_plan : CutOverPlan
cut_plan = record {
  max_retries = pos 3;
  noop = false;
  test_on_replica = false;
  test_on_replica_skip_replica_stop = false;
  postpone_cut_over_flag_file = 47 ∷ [];
  cut_over_type = cut_over_two_step_type;
}

abbrev swapped_world : World
swapped_world = record world { db = (2, 1); all_events_up_to_lock_injected = false }

swaps : cut_over_two_step (pos 3) cut_ops world ≡ (none, swapped_world)
unfolding cut_over_two_step retried_op retry_operation attempts
swaps = refl

cut_over_two_step-IsSwapped_example :
    (u : World) × IsSwapped 3 cut_ops (enter_critical world) u
    × (set_critical false u ≡ swapped_world)
cut_over_two_step-IsSwapped_example =
    cut_over_two_step-IsSwapped 2 cut_ops world swapped_world swaps

undisturbed : Undisturbed cut_plan cut_ops world
undisturbed = record { no_command_yet = refl; hook_succeeds = refl; no_command = refl }

cut_over-postponed_example :
    cut_over cut_plan cut_ops [] (rounds_of 9) world ≡ still_waiting (begun cut_plan cut_ops world)
cut_over-postponed_example = cut_over-postponed cut_plan cut_ops [] 8 world refl refl undisturbed

abbrev failing_hook : CutOverOps Text (ℕ × ℕ)
failing_hook = record cut_ops { on_begin_postponed = fail_with (33 ∷ []) }

cut_over-failed_hook_example :
    cut_over cut_plan failing_hook [] (true ∷ true ∷ []) world
    ≡ as_returned (cut_over_unpostponed cut_plan failing_hook [] world)
cut_over-failed_hook_example =
    cut_over-failed_hook cut_plan failing_hook [] (33 ∷ []) (true ∷ []) world refl refl refl refl
      refl
