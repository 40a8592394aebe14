-- ===== src/Logic/Migration.antt =====
-- go/logic/migrator.go, `Migrate`: the order of a migration, and what is done at its ends. Its parts are
-- an interface; the modules beside this one have several of them.
pub mod Outcome
use ghost_source_code_readin.Base.{
  Bool, List, Option, [], false, if◌then◌else◌, none, not, some, true, ◌&&◌,
}
use ghost_source_code_readin.Base.Int.{ℤ}
use ghost_source_code_readin.Base.Dict.{Dict}
use ghost_source_code_readin.Text.{Text, is_empty}
use ghost_source_code_readin.Logic.Migrator.{Operation, retried}
use ghost_source_code_readin.Logic.Operations.{ignoring, modify, only_if, succeed, ◌>>>◌}

-- The options that these functions read, and what the parser found in the statement.
pub record MigratePlan : Type 0 where
  pub noop : Bool
  pub test_on_replica : Bool
  pub ok_to_drop_table : Bool
  pub count_rows : Bool
  pub concurrent_count_table_rows : Bool
  pub postpone_cut_over_flag_file : Text
  pub is_rename_table : Bool
  pub non_trivial_renames : Dict Text
  pub dropped_columns : List Text
  pub skip_renamed_columns : Bool
  pub approve_renamed_columns : Bool

pub data StatementError : Type 0 where
  renames_table : StatementError
  renames_columns : Dict Text → StatementError

abbrev pub has_renames : Dict Text → Bool
has_renames [] = false
has_renames _ = true

-- What `validateStatement` writes into the context: the renames of columns and the dropped columns.
pub record StatementColumns : Type 0 where
  pub column_renames : Option (Dict Text)
  pub dropped : Option (List Text)

abbrev approved_renames : MigratePlan → Option StatementError × StatementColumns
approved_renames p =
    if p.approve_renamed_columns
    then (
      none,
      record { column_renames = some p.non_trivial_renames; dropped = some p.dropped_columns },
    )
    else (
      some (renames_columns p.non_trivial_renames),
      record { column_renames = some p.non_trivial_renames; dropped = none },
    )

-- `validateStatement`
unfoldable pub validate_statement : MigratePlan → Option StatementError × StatementColumns
validate_statement p =
    if p.is_rename_table
    then (some renames_table, record { column_renames = none; dropped = none })
    else if has_renames p.non_trivial_renames && not p.skip_renamed_columns
    then approved_renames p
    else (none, record { column_renames = none; dropped = some p.dropped_columns })

-- The parts of `Migrate`; each is one call of the source. `cut_over_tries` is `retrier(this.cutOver)`, and
-- `start_copy` stands for the three `go` statements and the start time.
pub record MigrateOps {ℓ κ} (E : Type ℓ) (S : Type κ) : Type (ℓ ⊔ κ) where
  pub read_hostname : Operation E S
  pub initiate_hooks_executor : Operation E S
  pub on_startup : Operation E S
  pub parse_alter_statement : Operation E S
  pub check_statement : Operation E S
  pub initiate_inspector : Operation E S
  pub initiate_streaming : Operation E S
  pub initiate_applier : Operation E S
  pub create_flag_files : Operation E S
  pub wait_ghost_table_migrated : Operation E S
  pub inspect_original_and_ghost_tables : Operation E S
  pub on_validated : Operation E S
  pub initiate_server : Operation E S
  pub count_table_rows : Operation E S
  pub add_dml_events_listener : Operation E S
  pub read_migration_range_values : Operation E S
  pub initiate_throttler : Operation E S
  pub on_before_row_copy : Operation E S
  pub start_copy : Operation E S
  pub consume_row_copy_complete : Operation E S
  pub on_row_copy_complete : Operation E S
  pub print_status : Operation E S
  pub on_before_cut_over : Operation E S
  pub cut_over_tries : Operation E S
  pub final_cleanup_ops : Operation E S
  pub on_success : Operation E S
  pub teardown : Operation E S
  pub remove_socket_file : Operation E S
  pub mark_cut_over_complete : S → S

module _ {ℓ κ} {E : Type ℓ} {S : Type κ} where
  abbrev pub run_deferred : Operation E S → Option E × S → Option E × S
  run_deferred op (e, s) = (e, (op s).1)

  -- `defer op()`, and then the rest.
  abbrev pub deferring : Operation E S → Operation E S → Operation E S
  deferring op rest s = run_deferred op (rest s)

  abbrev pub unless_failed : Option E × S → Operation E S → Option E × S
  unless_failed (some e, s) next = (none, s)
  unless_failed (none, s) next = next s

  -- The end of `Migrate`: where `finalCleanup` fails, it returns nil.
  unfoldable pub finish_migration : MigrateOps E S → Operation E S
  finish_migration ops s = unless_failed (ops.final_cleanup_ops s) ops.on_success

  -- From the row copy on.
  unfoldable pub copy_and_cut_over : MigrateOps E S → Operation E S
  unfolding finish_migration
  copy_and_cut_over ops =
      ops.start_copy
      >>> ops.consume_row_copy_complete
      >>> ops.on_row_copy_complete
      >>> ops.print_status
      >>> ops.on_before_cut_over
      >>> ops.cut_over_tries
      >>> modify ops.mark_cut_over_complete
      >>> finish_migration ops

  -- From where the server listens on.
  unfoldable pub migrate_served : MigrateOps E S → Operation E S
  unfolding copy_and_cut_over
  migrate_served ops =
      ops.count_table_rows
      >>> ops.add_dml_events_listener
      >>> ops.read_migration_range_values
      >>> ops.initiate_throttler
      >>> ops.on_before_row_copy
      >>> copy_and_cut_over ops

  -- From where there is something to tear down on.
  unfoldable pub migrate_started : MigrateOps E S → Operation E S
  unfolding migrate_served
  migrate_started ops =
      ops.initiate_inspector
      >>> ops.initiate_streaming
      >>> ops.initiate_applier
      >>> ops.create_flag_files
      >>> ops.wait_ghost_table_migrated
      >>> ops.inspect_original_and_ghost_tables
      >>> ops.on_validated
      >>> ops.initiate_server
      >>> deferring ops.remove_socket_file (migrate_served ops)

  -- `Migrate`
  unfoldable pub migrate : MigrateOps E S → Operation E S
  unfolding migrate_started
  migrate ops =
      ops.read_hostname
      >>> ops.initiate_hooks_executor
      >>> ops.on_startup
      >>> ops.parse_alter_statement
      >>> ops.check_statement
      >>> deferring ops.teardown (migrate_started ops)

  -- `countTableRows`: its error; in the background, none.
  unfoldable pub count_table_rows :
      MigratePlan → (count on_complete : Operation E S) → Operation E S
  count_table_rows p count on_complete =
      if not p.count_rows
      then succeed
      else if p.noop
      then succeed
      else if p.concurrent_count_table_rows
      then ignoring (count >>> on_complete)
      else count >>> on_complete

  -- `createFlagFiles`, for whether the file exists, and what touches it.
  unfoldable pub create_flag_files : MigratePlan → (S → Bool) → Operation E S → Operation E S
  create_flag_files p file_exists touch s =
      if is_empty p.postpone_cut_over_flag_file
      then (none, s)
      else if file_exists s
      then (none, s)
      else touch s

  -- `finalCleanup`; `retried` is `retryOperation`. Showing the new table and closing the streamer are only
  -- logged when they fail.
  unfoldable pub final_cleanup :
      MigratePlan
      → (retried : Operation E S → Operation E S) → (mark_imminent : S → S)
      → (show_ghost close_streamer drop_changelog drop_old drop_ghost : Operation E S)
      → Operation E S
  final_cleanup p retried mark_imminent show_ghost close_streamer drop_changelog drop_old
        drop_ghost =
      modify mark_imminent
      >>> only_if p.noop (ignoring show_ghost)
      >>> ignoring close_streamer
      >>> retried drop_changelog
      >>> only_if (p.ok_to_drop_table && not p.test_on_replica) (retried drop_old)
      >>> only_if p.noop (retried drop_ghost)
