-- ===== src/Tests/Migrating.antt =====
-- A migration of go/logic/migrator.go whose cleanup fails.
use ghost_source_code_readin.Base.{
  if◌then◌else◌, not, ◌&&◌, Option, [], false, none, refl, some, true, ℕ, ◌+◌, ◌≡◌,
}
use ghost_source_code_readin.Base.Int.{pos}
use ghost_source_code_readin.Text.{Text, txt}
use ghost_source_code_readin.Logic.Operations.{succeed}
use ghost_source_code_readin.Logic.CutOver.Await.{challenge}
use ghost_source_code_readin.Logic.Migration.{
  MigrateOps, MigratePlan, copy_and_cut_over, final_cleanup, finish_migration, migrate,
  migrate_served, migrate_started,
}
use ghost_source_code_readin.Logic.Migration.Outcome.{
  IsMigrated, final_cleanup-leaves, migrate-IsMigrated,
}
use ghost_source_code_readin.Logic.Changelog.{
  enqueue_processed, on_changelog_state_event, on_changelog_state_event-challenge,
}

abbrev migration : MigrateOps Text ℕ
migration = record {
  read_hostname = succeed;
  initiate_hooks_executor = succeed;
  on_startup = succeed;
  parse_alter_statement = succeed;
  check_statement = succeed;
  initiate_inspector = succeed;
  initiate_streaming = succeed;
  initiate_applier = succeed;
  create_flag_files = succeed;
  wait_ghost_table_migrated = succeed;
  inspect_original_and_ghost_tables = succeed;
  on_validated = succeed;
  initiate_server = succeed;
  count_table_rows = succeed;
  add_dml_events_listener = succeed;
  read_migration_range_values = succeed;
  initiate_throttler = succeed;
  on_before_row_copy = succeed;
  start_copy = succeed;
  consume_row_copy_complete = succeed;
  on_row_copy_complete = succeed;
  print_status = succeed;
  on_before_cut_over = succeed;
  cut_over_tries = λ s. (none, s + 1);
  final_cleanup_ops = λ s. (some [], s);
  on_success = succeed;
  teardown = λ s. (none, s + 1);
  remove_socket_file = succeed;
  mark_cut_over_complete = λ s. s;
}

returns_nil : (migrate migration 0).0 ≡ none
unfolding migrate migrate_started migrate_served copy_and_cut_over finish_migration
returns_nil = refl

migrate-IsMigrated_example : IsMigrated migration
migrate-IsMigrated_example = migrate-IsMigrated migration 0 returns_nil

abbrev migrate_plan : MigratePlan
migrate_plan = record {
  noop = false;
  test_on_replica = true;
  ok_to_drop_table = true;
  count_rows = false;
  concurrent_count_table_rows = false;
  postpone_cut_over_flag_file = [];
  is_rename_table = false;
  non_trivial_renames = [];
  dropped_columns = [];
  skip_renamed_columns = false;
  approve_renamed_columns = false;
}

abbrev drops : ℕ → Option Text × ℕ
drops s = (none, s + 1)

final_cleanup-leaves_example :
    final_cleanup migrate_plan (λ op. op) (λ s. s) succeed succeed drops drops drops
    ≡ final_cleanup migrate_plan
        (λ op. op)
        (λ s. s)
        succeed
        succeed
        drops
        (if migrate_plan.ok_to_drop_table && not migrate_plan.test_on_replica
          then drops
          else succeed)
        (if migrate_plan.noop then drops else succeed)
final_cleanup-leaves_example =
    final_cleanup-leaves migrate_plan (λ op. op) (λ s. s) succeed succeed drops drops succeed drops
      succeed

on_changelog_state_event-challenge_example :
    on_changelog_state_event (txt "state") (challenge (pos 5))
    ≡ enqueue_processed (challenge (pos 5))
on_changelog_state_event-challenge_example = on_changelog_state_event-challenge (pos 5)
