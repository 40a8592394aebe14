-- ===== src/Logic/Applier/Tables.antt =====
-- go/logic/applier.go: the tables that a migration makes, drops, locks and renames. What executes a
-- statement and what shows a table's status are parameters; a status is the table's comment.
pub mod Statements
pub mod Rollback
use ghost_source_code_readin.Base.{
  ℕ, Bool, true, false, not, Option, none, some, List, [], ◌∷◌, ◌++◌, length, ltb, if◌then◌else◌,
}
use ghost_source_code_readin.Base.Int.{ℤ, pos}
use ghost_source_code_readin.Base.Dict.{is_some}
use ghost_source_code_readin.Text.{Text, txt, text_eq}
use ghost_source_code_readin.Sql.Value.{Value, str, int}
use ghost_source_code_readin.Sql.Compare.{escape_name}
use ghost_source_code_readin.Context.Names.{max_table_name_length}
use ghost_source_code_readin.Logic.Migrator.{Operation}
use ghost_source_code_readin.Logic.Operations.{fail_with, ignoring, only_if, succeed, ◌>>>◌}
use ghost_source_code_readin.Logic.Applier.Tables.Statements.{
  TablePlan, alter_ghost_statement, alter_rename_statement, atomic_cut_over_magic_hint,
  create_changelog_statement, create_ghost_statement, create_sentry_statement, drop_statement,
  lock_statement, rename_both_statement, rename_statement, table_status_query,
  write_changelog_statement,
}

-- The errors of statements, those of this file, and `log.Fatalf`, which ends the process.
pub data TableError : Type 0 where
  statement_failed : Text → TableError
  ghost_table_exists old_table_exists : TableError
  old_table_name_too_long : TableError
  no_magic_comment : Text → TableError

module _ {ℓ} {Db : Type ℓ} (exec : Text → List Value → Operation Text Db)
    (table_comment : Text → Db → Option Text) (p : TablePlan) where
  abbrev pub exec_answer : Option Text × Db → Option TableError × Db
  exec_answer (none, s) = (none, s)
  exec_answer (some e, s) = (some (statement_failed e), s)

  -- `sqlutils.ExecNoPrepare(db, query)`
  abbrev pub execute : Text → Operation TableError Db
  execute query s = exec_answer (exec query [] s)

  -- `showTableStatus`: the comment of the table, if there is a row of it.
  unfoldable pub show_table_status : Text → Db → Option Text
  show_table_status table s = table_comment (table_status_query p table) s

  -- `tableExists`
  unfoldable pub table_exists : Text → Db → Bool
  unfolding show_table_status
  table_exists table s = is_some (show_table_status table s)

  -- `dropTable`
  unfoldable pub drop_table : Text → Operation TableError Db
  drop_table table = execute (drop_statement p table)

  abbrev fails_if_exists : TableError → Text → Operation TableError Db
  fails_if_exists e table s = (if table_exists table s then some e else none, s)

  -- `ValidateOrDropExistingTables`
  unfoldable pub validate_or_drop_existing_tables : Operation TableError Db
  unfolding drop_table table_exists
  validate_or_drop_existing_tables =
      only_if p.initially_drop_ghost_table (drop_table p.ghost_table_name)
      >>> fails_if_exists ghost_table_exists p.ghost_table_name
      >>> only_if p.initially_drop_old_table (drop_table p.old_table_name)
      >>> (if ltb max_table_name_length (length p.old_table_name)
          then fail_with old_table_name_too_long
          else fails_if_exists old_table_exists p.old_table_name)

  -- `CreateGhostTable`
  unfoldable pub create_ghost_table : Operation TableError Db
  create_ghost_table = execute (create_ghost_statement p)

  -- `AlterGhost`
  unfoldable pub alter_ghost : Operation TableError Db
  alter_ghost = execute (alter_ghost_statement p)

  -- `CreateChangelogTable`
  unfoldable pub create_changelog_table : Operation TableError Db
  unfolding drop_table
  create_changelog_table =
      drop_table p.changelog_table_name >>> execute (create_changelog_statement p)

  abbrev explicit_id : Text → ℤ
  explicit_id hint =
      if text_eq hint (txt "heartbeat")
      then pos 1
      else if text_eq hint (txt "state")
      then pos 2
      else if text_eq hint (txt "throttle")
      then pos 3
      else pos 0

  -- `WriteChangelog`, its error.
  unfoldable pub write_changelog : (hint value : Text) → Operation TableError Db
  write_changelog hint value s =
      exec_answer
        (exec (write_changelog_statement p) (int (explicit_id hint) ∷ str hint ∷ str value ∷ []) s)

  -- `WriteAndLogChangelog`, at the text of the time; the first write's error is not looked at.
  unfoldable pub write_and_log_changelog : (hint value now : Text) → Operation TableError Db
  unfolding write_changelog
  write_and_log_changelog hint value now =
      ignoring (write_changelog hint value) >>> write_changelog (hint ++ (txt " at " ++ now)) value

  -- `WriteChangelogState`
  unfoldable pub write_changelog_state : (value now : Text) → Operation TableError Db
  unfolding write_and_log_changelog
  write_changelog_state value now = write_and_log_changelog (txt "state") value now

  -- `LockOriginalTable`
  unfoldable pub lock_original_table : Operation TableError Db
  lock_original_table = execute (lock_statement p)

  -- `UnlockTables`
  unfoldable pub unlock_original_table : Operation TableError Db
  unlock_original_table = execute (txt "unlock /* gh-ost */ tables")

  -- `SwapTablesQuickAndBumpy`
  unfoldable pub swap_tables_quick_and_bumpy : Operation TableError Db
  swap_tables_quick_and_bumpy =
      execute (alter_rename_statement p p.original_table_name p.old_table_name)
      >>> execute (alter_rename_statement p p.ghost_table_name p.original_table_name)

  -- The error of the later statement counts.
  abbrev last_error : Option TableError → Option TableError → Option TableError
  last_error before none = before
  last_error before (some e) = some e

  abbrev pub keep_error : Option TableError → Option TableError × Db → Option TableError × Db
  keep_error before (e, s) = (last_error before e, s)

  abbrev pub and_then_too :
      Option TableError × Db → Operation TableError Db → Option TableError × Db
  and_then_too (e, s) next = keep_error e (next s)

  abbrev pub rename_one_by_one : Option TableError × Db → Option TableError × Db
  rename_one_by_one (none, s) = (none, s)
  rename_one_by_one (some e, s) =
      and_then_too (execute (rename_statement p p.original_table_name p.ghost_table_name) s)
        (execute (rename_statement p p.old_table_name p.original_table_name))

  -- `RenameTablesRollback`
  unfoldable pub rename_tables_rollback : Operation TableError Db
  rename_tables_rollback s = rename_one_by_one (
      execute
        (rename_both_statement p p.original_table_name p.ghost_table_name p.old_table_name
          p.original_table_name)
        s)

  -- `StopSlaveIOThread`, `StartSlaveIOThread`, `StopSlaveSQLThread` and `StartSlaveSQLThread`
  unfoldable pub stop_slave_io_thread : Operation TableError Db
  stop_slave_io_thread = execute (txt "stop /* gh-ost */ slave io_thread")

  unfoldable pub start_slave_io_thread : Operation TableError Db
  start_slave_io_thread = execute (txt "start /* gh-ost */ slave io_thread")

  unfoldable pub stop_slave_sql_thread : Operation TableError Db
  stop_slave_sql_thread = execute (txt "stop /* gh-ost */ slave sql_thread")

  unfoldable pub start_slave_sql_thread : Operation TableError Db
  start_slave_sql_thread = execute (txt "start /* gh-ost */ slave sql_thread")

  -- `StopReplication`; the reading of the coordinates, which are only logged, is a parameter.
  unfoldable pub stop_replication : Operation TableError Db → Operation TableError Db
  unfolding stop_slave_io_thread stop_slave_sql_thread
  stop_replication read_coordinates =
      stop_slave_io_thread >>> stop_slave_sql_thread >>> read_coordinates

  -- `StartReplication`
  unfoldable pub start_replication : Operation TableError Db
  unfolding start_slave_io_thread start_slave_sql_thread
  start_replication = start_slave_io_thread >>> start_slave_sql_thread

  abbrev drop_if_magic : Option Text → Operation TableError Db
  drop_if_magic none = succeed
  drop_if_magic (some comment) =
      if text_eq comment atomic_cut_over_magic_hint
      then drop_table p.old_table_name
      else fail_with (no_magic_comment p.old_table_name)

  -- `DropAtomicCutOverSentryTableIfExists`
  unfoldable pub drop_sentry_table_if_exists : Operation TableError Db
  unfolding drop_table show_table_status
  drop_sentry_table_if_exists s = drop_if_magic (show_table_status p.old_table_name s) s

  -- `CreateAtomicCutOverSentryTable`
  unfoldable pub create_sentry_table : Operation TableError Db
  unfolding drop_sentry_table_if_exists
  create_sentry_table = drop_sentry_table_if_exists >>> execute (create_sentry_statement p)
