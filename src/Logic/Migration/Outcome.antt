-- ===== src/Logic/Migration/Outcome.antt =====
-- What a migration of go/logic/migrator.go has done when it returns, and what it leaves alone.
use ghost_source_code_readin.Base.{
  Bool, Option, if◌then◌else◌, false, inl, inr, none, not, refl, some, true, ◌&&◌, ◌≡◌, ◌⊎◌,
}
use mathlib.Core.Path.{ap₂}
use ghost_source_code_readin.Base.Dict.{is_some}
use ghost_source_code_readin.Logic.Migrator.{Operation}
use ghost_source_code_readin.Logic.Operations.{continue_with, ignoring, modify, only_if, ◌>>>◌}
use ghost_source_code_readin.Logic.Migration.{
  MigrateOps, MigratePlan, copy_and_cut_over, final_cleanup, finish_migration, migrate,
  migrate_served, migrate_started, unless_failed,
}

module _ {ℓ κ} {E : Type ℓ} {S : Type κ} (ops : MigrateOps E S) where
  -- The tables were swapped. Then either the cleanup and the last hook succeeded, or the cleanup failed.
  pub record IsMigrated : Type (ℓ ⊔ κ) where
    pub before : S
    pub swapped : S
    pub cut_over_succeeds : ops.cut_over_tries before ≡ (none, swapped)
    pub ends :
        is_some (ops.final_cleanup_ops (ops.mark_cut_over_complete swapped)).0 ≡ true
        ⊎ (ops.on_success (ops.final_cleanup_ops (ops.mark_cut_over_complete swapped)).1).0 ≡ none

  -- What comes after an operation that returned nil.
  skip {μ} :
      {X : Type μ} (r : Option E × S) (rest : Operation E S)
      → ((u : S) → (rest u).0 ≡ none → X)
      → (continue_with r rest).0 ≡ none
      → X
  skip (some e, u) rest k h = absurd cc
  skip (none, u) rest k h = k u h

  finish_migration-ends :
      (r : Option E × S)
      → (unless_failed r ops.on_success).0 ≡ none
      → is_some r.0 ≡ true ⊎ (ops.on_success r.1).0 ≡ none
  finish_migration-ends (some e, u) h = inl refl
  finish_migration-ends (none, u) h = inr h

  cut_over-IsMigrated :
      (a : S) (r : Option E × S)
      → ops.cut_over_tries a ≡ r
      → (continue_with r (modify ops.mark_cut_over_complete >>> finish_migration ops)).0 ≡ none
      → IsMigrated
  unfolding finish_migration
  cut_over-IsMigrated a (some e, u) same h = absurd cc
  cut_over-IsMigrated a (none, u) same h = record {
    before = a;
    swapped = u;
    cut_over_succeeds = same;
    ends = finish_migration-ends (ops.final_cleanup_ops (ops.mark_cut_over_complete u)) h;
  }

  copy_and_cut_over-IsMigrated : (s : S) → (copy_and_cut_over ops s).0 ≡ none → IsMigrated
  unfolding copy_and_cut_over
  copy_and_cut_over-IsMigrated s h =
      skip (ops.start_copy s) _
        (λ a. skip (ops.consume_row_copy_complete a) _ (λ b.
          skip (ops.on_row_copy_complete b) _ (λ c. skip (ops.print_status c) _ (λ d.
            skip (ops.on_before_cut_over d) _
              (λ e. cut_over-IsMigrated e (ops.cut_over_tries e) refl)))))
        h

  migrate_served-IsMigrated : (s : S) → (migrate_served ops s).0 ≡ none → IsMigrated
  unfolding migrate_served
  migrate_served-IsMigrated s h =
      skip (ops.count_table_rows s) _
        (λ a. skip (ops.add_dml_events_listener a) _ (λ b.
          skip (ops.read_migration_range_values b) _ (λ c.
            skip (ops.initiate_throttler c) _
              (λ d. skip (ops.on_before_row_copy d) _ copy_and_cut_over-IsMigrated))))
        h

  migrate_started-IsMigrated : (s : S) → (migrate_started ops s).0 ≡ none → IsMigrated
  unfolding migrate_started
  migrate_started-IsMigrated s h =
      skip (ops.initiate_inspector s) _
        (λ a. skip (ops.initiate_streaming a) _ (λ b. skip (ops.initiate_applier b) _ (λ c.
          skip (ops.create_flag_files c) _ (λ d. skip (ops.wait_ghost_table_migrated d) _ (λ e.
            skip (ops.inspect_original_and_ghost_tables e) _ (λ f.
              skip (ops.on_validated f) _
                (λ g. skip (ops.initiate_server g) _ migrate_served-IsMigrated)))))))
        h

  -- `Migrate` returns nil only if the cut-over returned nil, and then either `finalCleanup` failed, or it
  -- returned nil and so did the hook that follows it.
  pub migrate-IsMigrated : (s : S) → (migrate ops s).0 ≡ none → IsMigrated
  unfolding migrate
  migrate-IsMigrated s h =
      skip (ops.read_hostname s) _
        (λ a. skip (ops.initiate_hooks_executor a) _ (λ b. skip (ops.on_startup b) _ (λ c.
          skip (ops.parse_alter_statement c) _
            (λ d. skip (ops.check_statement d) _ migrate_started-IsMigrated))))
        h

only_if-same {ℓ κ} :
    {E : Type ℓ} {S : Type κ} (retried : Operation E S → Operation E S) (b : Bool)
    (op other : Operation E S)
    → only_if b (retried op) ≡ only_if b (retried (if b then op else other))
only_if-same retried true op other = refl
only_if-same retried false op other = refl

module _ {ℓ κ} {E : Type ℓ} {S : Type κ} (p : MigratePlan) (retried : Operation E S → Operation E S)
    (mark : S → S) (show close drop_changelog : Operation E S) where
  -- The old table is dropped only where it was asked for and the migration is no test on a replica, and
  -- the ghost table only where nothing is migrated: where it is not so, `finalCleanup` does the same
  -- whatever dropping that table would do, at all other options.
  pub final_cleanup-leaves :
      (drop_old drop_old_too drop_ghost drop_ghost_too : Operation E S)
      → final_cleanup p retried mark show close drop_changelog drop_old drop_ghost
        ≡ final_cleanup p retried mark show close drop_changelog
            (if p.ok_to_drop_table && not p.test_on_replica then drop_old else drop_old_too)
            (if p.noop then drop_ghost else drop_ghost_too)
  unfolding final_cleanup
  final_cleanup-leaves drop_old drop_old_too drop_ghost drop_ghost_too =
      ap₂
        (λ old ghost.
          modify mark
          >>> only_if p.noop (ignoring show)
          >>> ignoring close
          >>> retried drop_changelog
          >>> old
          >>> ghost)
        (only_if-same retried (p.ok_to_drop_table && not p.test_on_replica) drop_old drop_old_too)
        (only_if-same retried p.noop drop_ghost drop_ghost_too)
