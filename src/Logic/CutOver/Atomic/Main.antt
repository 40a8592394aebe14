-- ===== src/Logic/CutOver/Atomic/Main.antt =====
-- go/logic/migrator.go, `atomicCutOver`: the moves of the goroutine that starts the other two.
use ghost_source_code_readin.Base.{
  ℕ, suc, ◌+◌, ◌<◌, ◌≡◌, Bool, true, false, Option, none, some, List, ◌∷◌,
}
use ghost_source_code_readin.Base.Int.{ℤ}
use ghost_source_code_readin.Text.{Text}
use ghost_source_code_readin.Logic.CutOver.Await.{Arrival, wait_for_events_up_to_lock}
use ghost_source_code_readin.Logic.CutOver.Atomic.State.{
  Shared, MainPc, starting, awaiting_table_locked, awaiting_lock_session, awaiting_events,
  awaiting_rename_session, expecting_process, expecting_used_lock, sending_ok, awaiting_unlocked,
  awaiting_renamed, aborting, leaving, dropping_sentry, clearing_flag, returned, no_session_lock,
}

-- What follows the receipt from `tableUnlocked`.
abbrev pub after_unlocked : Option Text → MainPc
after_unlocked (some e) = leaving (some e)
after_unlocked none = awaiting_renamed

-- A step of `atomicCutOver` that leaves what the goroutines share as it is. The attempts to find the
-- process are those of `retryOperation`.
pub data MainCall (s : Shared) : MainPc → MainPc → Type 0 where
  known_failure :
      (i j : ℤ) (n : ℕ) (last : Option Text)
      → s.table_rename_known_to_have_failed ≡ true
      → MainCall s (expecting_process i j (suc n) last) (expecting_used_lock i)
  process_found :
      (i j : ℤ) (n : ℕ) (last : Option Text)
      → s.table_rename_known_to_have_failed ≡ false
      → MainCall s (expecting_process i j (suc n) last) (expecting_used_lock i)
  process_not_found :
      (i j : ℤ) (n : ℕ) (last : Option Text) (e : Text)
      → s.table_rename_known_to_have_failed ≡ false
      → MainCall s (expecting_process i j (suc n) last) (expecting_process i j n (some e))
  no_attempt_left :
      (i j : ℤ) (e : Text) → MainCall s (expecting_process i j 0 (some e)) (aborting e)
  no_attempt_made : (i j : ℤ) → MainCall s (expecting_process i j 0 none) (expecting_used_lock i)
  used_lock_found : (i : ℤ) → MainCall s (expecting_used_lock i) sending_ok
  used_lock_not_found :
      (i : ℤ) → MainCall s (expecting_used_lock i) (leaving (some (no_session_lock i)))
  -- What `DropAtomicCutOverSentryTableIfExists` returns is not looked at.
  sentry_looked_for : (r : Option Text) → MainCall s (dropping_sentry r) (clearing_flag r)

-- `atomicCutOver`, for the number of attempts.
pub data MainMove (max_retries : ℕ) (s : Shared) : MainPc → Shared → MainPc → Type 0 where
  main_call : {p q : MainPc} → MainCall s p q → MainMove max_retries s p s q
  lock_spawned :
      MainMove max_retries s starting
        (record s {
          in_cut_over_critical_section = true;
          all_events_up_to_lock_injected = false;
          lock_started = true;
        })
        awaiting_table_locked
  lock_error_received :
      (e : Text) (rest : List (Option Text))
      → s.table_locked ≡ some e ∷ rest
      → MainMove max_retries s awaiting_table_locked
          (record s { table_locked = rest })
          (leaving (some e))
  locked_received :
      (rest : List (Option Text))
      → s.table_locked ≡ none ∷ rest
      → MainMove max_retries s awaiting_table_locked
          (record s { table_locked = rest })
          awaiting_lock_session
  lock_session_received :
      (id : ℤ) (rest : List ℤ)
      → s.lock_original_session_ids ≡ id ∷ rest
      → MainMove max_retries s awaiting_lock_session
          (record s { lock_original_session_ids = rest })
          (awaiting_events id)
  events_failed :
      (i now : ℤ) (write : Text → Option Text) (arrivals : List Arrival) (e : Text)
      (injected : Bool)
      → wait_for_events_up_to_lock now write arrivals s.all_events_up_to_lock_injected
        ≡ (some (some e), injected)
      → MainMove max_retries s
          (awaiting_events i)
          (record s { all_events_up_to_lock_injected = injected })
          (leaving (some e))
  rename_spawned :
      (i now : ℤ) (write : Text → Option Text) (arrivals : List Arrival) (injected : Bool)
      → wait_for_events_up_to_lock now write arrivals s.all_events_up_to_lock_injected
        ≡ (some none, injected)
      → MainMove max_retries s
          (awaiting_events i)
          (record s {
            all_events_up_to_lock_injected = injected;
            table_rename_known_to_have_failed = false;
            rename_started = true;
            facts = record s.facts { events_processed = true };
          })
          (awaiting_rename_session i)
  rename_session_received :
      (i j : ℤ) (rest : List ℤ)
      → s.rename_session_ids ≡ j ∷ rest
      → MainMove max_retries s
          (awaiting_rename_session i)
          (record s { rename_session_ids = rest })
          (expecting_process i j max_retries none)
  ok_sent :
      s.ok_to_unlock_table < 4
      → MainMove max_retries s sending_ok
          (record s { ok_to_unlock_table = s.ok_to_unlock_table + 1 })
          awaiting_unlocked
  unlocked_received :
      (r : Option Text) (rest : List (Option Text))
      → s.table_unlocked ≡ r ∷ rest
      → MainMove max_retries s awaiting_unlocked
          (record s { table_unlocked = rest })
          (after_unlocked r)
  renamed_received :
      (r : Option Text) (rest : List (Option Text))
      → s.tables_renamed ≡ r ∷ rest
      → MainMove max_retries s awaiting_renamed (record s { tables_renamed = rest }) (leaving r)
  abort_sent :
      (e : Text)
      → s.ok_to_unlock_table < 4
      → MainMove max_retries s
          (aborting e)
          (record s { ok_to_unlock_table = s.ok_to_unlock_table + 1 })
          (leaving (some e))
  last_ok_sent :
      (r : Option Text)
      → s.ok_to_unlock_table < 4
      → MainMove max_retries s
          (leaving r)
          (record s { ok_to_unlock_table = s.ok_to_unlock_table + 1 })
          (dropping_sentry r)
  flag_cleared :
      (r : Option Text)
      → MainMove max_retries s
          (clearing_flag r)
          (record s { in_cut_over_critical_section = false })
          (returned r)
