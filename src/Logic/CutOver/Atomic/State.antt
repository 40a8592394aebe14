-- ===== src/Logic/CutOver/Atomic/State.antt =====
-- go/logic/migrator.go, `atomicCutOver`, and go/logic/applier.go, `AtomicCutOverMagicLock` and
-- `AtomicCutoverRename`: where each of the three goroutines is, and the state that they share, which is
-- the channels, the flags, and what the server has been made to do.
use ghost_source_code_readin.Base.{ℕ, Bool, false, Option, List, [], ◌++◌}
use ghost_source_code_readin.Base.Int.{ℤ}
use ghost_source_code_readin.Text.{Text, txt}
use ghost_source_code_readin.Text.Decimal.{itoa_int}

-- What has been done at the server: these facts are the history of the run, no variables of the source.
pub record Facts : Type 0 where
  pub locked : Bool
  pub events_processed : Bool
  pub unlocked : Bool
  pub renamed : Bool

-- The channels, with the oldest message first; an error that is nil is `none`. All messages of
-- `okToUnlockTable` are `true`, so it is their number. `lock_started` and `rename_started` stand for the
-- `go` statements.
pub record Shared : Type 0 where
  pub ok_to_unlock_table : ℕ
  pub lock_original_session_ids : List ℤ
  pub table_locked : List (Option Text)
  pub table_unlocked : List (Option Text)
  pub rename_session_ids : List ℤ
  pub tables_renamed : List (Option Text)
  pub in_cut_over_critical_section : Bool
  pub all_events_up_to_lock_injected : Bool
  pub table_rename_known_to_have_failed : Bool
  pub lock_started : Bool
  pub rename_started : Bool
  pub facts : Facts

-- `atomicCutOver`: the statement that is next. `expecting_process` has the attempts that are left and the
-- error of the last one.
pub data MainPc : Type 0 where
  starting awaiting_table_locked awaiting_lock_session : MainPc
  awaiting_events awaiting_rename_session : (lock_session : ℤ) → MainPc
  expecting_process : (lock_session rename_session : ℤ) → ℕ → Option Text → MainPc
  expecting_used_lock : (lock_session : ℤ) → MainPc
  sending_ok awaiting_unlocked awaiting_renamed : MainPc
  aborting : Text → MainPc
  leaving dropping_sentry clearing_flag returned : Option Text → MainPc

-- `AtomicCutOverMagicLock`
pub data LockPc : Type 0 where
  lock_begin lock_connection_id : LockPc
  send_lock_session get_lock : (session : ℤ) → LockPc
  set_lock_timeout create_sentry lock_tables send_table_locked await_ok drop_sentry unlock_tables :
      LockPc
  send_table_unlocked : Option Text → LockPc
  send_begin_error send_lock_error : Text → LockPc
  defer_lock_session defer_table_locked defer_table_unlocked lock_rollback : Option Text → LockPc
  lock_returned : Option Text → LockPc

-- `AtomicCutoverRename`, and what its goroutine does when it fails.
pub data RenamePc : Type 0 where
  rename_begin rename_connection_id : RenamePc
  send_rename_session : (session : ℤ) → RenamePc
  set_rename_timeout rename_tables : RenamePc
  send_tables_renamed rename_rollback defer_rename_session defer_tables_renamed :
      Option Text → RenamePc
  rename_returned : Option Text → RenamePc
  rename_gives_ok rename_done : RenamePc

pub record System : Type 0 where
  pub shared : Shared
  pub main : MainPc
  pub lock : LockPc
  pub rename : RenamePc

abbrev no_facts : Facts
no_facts = record { locked = false; events_processed = false; unlocked = false; renamed = false }

-- `atomicCutOver` is called; the flag of the events is as an earlier attempt left it.
abbrev pub init : Bool → System
init injected = record {
  shared = record {
    ok_to_unlock_table = 0;
    lock_original_session_ids = [];
    table_locked = [];
    table_unlocked = [];
    rename_session_ids = [];
    tables_renamed = [];
    in_cut_over_critical_section = false;
    all_events_up_to_lock_injected = injected;
    table_rename_known_to_have_failed = false;
    lock_started = false;
    rename_started = false;
    facts = no_facts;
  };
  main = starting;
  lock = lock_begin;
  rename = rename_begin;
}

-- `GetSessionLockName`
abbrev pub get_session_lock_name : ℤ → Text
get_session_lock_name session = txt "gh-ost." ++ (itoa_int session ++ txt ".lock")

-- What the deferred functions send.
abbrev pub unexpected_in_lock : Text
unexpected_in_lock =
    txt "Unexpected error in AtomicCutOverMagicLock(), injected to release blocking channel reads"

abbrev pub unexpected_in_rename : Text
unexpected_in_rename =
    txt "Unexpected error in AtomicCutoverRename(), injected to release blocking channel reads"

abbrev pub cannot_find_process : Text
cannot_find_process = txt "Cannot find process. Hints: metadata lock, rename"

abbrev pub no_session_lock : ℤ → Text
no_session_lock session =
    txt "Session lock " ++ (get_session_lock_name session ++ txt " expected to be found but wasn't")
