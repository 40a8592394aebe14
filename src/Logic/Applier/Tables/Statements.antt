-- ===== src/Logic/Applier/Tables/Statements.antt =====
-- go/logic/applier.go: the statements on the tables of a migration.
use ghost_source_code_readin.Base.{Bool, [], ◌∷◌}
use ghost_source_code_readin.Base.Int.{ℤ}
use ghost_source_code_readin.Text.{Text, txt, concat}
use ghost_source_code_readin.Sql.Compare.{escape_name}

-- The names, as the context gives them, and the options that these functions read.
pub record TablePlan : Type 0 where
  pub database_name : Text
  pub original_table_name : Text
  pub ghost_table_name : Text
  pub old_table_name : Text
  pub changelog_table_name : Text
  pub alter_statement : Text
  pub table_engine : Text
  pub initially_drop_ghost_table : Bool
  pub initially_drop_old_table : Bool
  pub cut_over_lock_timeout_seconds : ℤ

abbrev pub atomic_cut_over_magic_hint : Text
atomic_cut_over_magic_hint = txt "ghost-cut-over-sentry"

-- `showTableStatus`
unfoldable pub table_status_query : TablePlan → (table : Text) → Text
unfolding concat
table_status_query p table = concat (
    txt "show /* gh-ost */ table status from "
    ∷ escape_name p.database_name
    ∷ txt " like '"
    ∷ table
    ∷ txt "'"
    ∷ [])

-- `CreateGhostTable`
unfoldable pub create_ghost_statement : TablePlan → Text
unfolding concat
create_ghost_statement p = concat (
    txt "create /* gh-ost */ table "
    ∷ escape_name p.database_name
    ∷ txt "."
    ∷ escape_name p.ghost_table_name
    ∷ txt " like "
    ∷ escape_name p.database_name
    ∷ txt "."
    ∷ escape_name p.original_table_name
    ∷ [])

-- `AlterGhost`
unfoldable pub alter_ghost_statement : TablePlan → Text
unfolding concat
alter_ghost_statement p = concat (
    txt "alter /* gh-ost */ table "
    ∷ escape_name p.database_name
    ∷ txt "."
    ∷ escape_name p.ghost_table_name
    ∷ txt " "
    ∷ p.alter_statement
    ∷ [])

-- `CreateChangelogTable`
unfoldable pub create_changelog_statement : TablePlan → Text
unfolding concat
create_changelog_statement p = concat (
    txt "create /* gh-ost */ table "
    ∷ escape_name p.database_name
    ∷ txt "."
    ∷ escape_name p.changelog_table_name
    ∷ txt " (\n\t\t\tid bigint auto_increment,\n\t\t\tlast_update timestamp not "
    ∷ txt "null DEFAULT CURRENT_TIMESTAMP ON UPDATE CURRENT_TIMESTAMP,\n\t\t\thi"
    ∷ txt "nt varchar(64) charset ascii not null,\n\t\t\tvalue varchar(4096) cha"
    ∷ txt "rset ascii not null,\n\t\t\tprimary key(id),\n\t\t\tunique key hint_u"
    ∷ txt "idx(hint)\n\t\t) auto_increment=256\n\t\t"
    ∷ [])

-- `dropTable`
unfoldable pub drop_statement : TablePlan → (table : Text) → Text
unfolding concat
drop_statement p table = concat (
    txt "drop /* gh-ost */ table if exists "
    ∷ escape_name p.database_name
    ∷ txt "."
    ∷ escape_name table
    ∷ [])

-- `WriteChangelog`
unfoldable pub write_changelog_statement : TablePlan → Text
unfolding concat
write_changelog_statement p = concat (
    txt "\n\t\t\tinsert /* gh-ost */ into "
    ∷ escape_name p.database_name
    ∷ txt "."
    ∷ escape_name p.changelog_table_name
    ∷ txt "\n\t\t\t\t(id, hint, value)\n\t\t\tvalues\n\t\t\t\t(NULLIF(?, 0), ?, "
    ∷ txt "?)\n\t\t\ton duplicate key update\n\t\t\t\tlast_update=NOW(),\n\t\t\t"
    ∷ txt "\tvalue=VALUES(value)\n\t\t"
    ∷ [])

-- `LockOriginalTable`
unfoldable pub lock_statement : TablePlan → Text
unfolding concat
lock_statement p = concat (
    txt "lock /* gh-ost */ tables "
    ∷ escape_name p.database_name
    ∷ txt "."
    ∷ escape_name p.original_table_name
    ∷ txt " write"
    ∷ [])

-- `SwapTablesQuickAndBumpy`
unfoldable pub alter_rename_statement : TablePlan → (old : Text) → (new : Text) → Text
unfolding concat
alter_rename_statement p old new = concat (
    txt "alter /* gh-ost */ table "
    ∷ escape_name p.database_name
    ∷ txt "."
    ∷ escape_name old
    ∷ txt " rename "
    ∷ escape_name new
    ∷ [])

-- `RenameTablesRollback`, one table
unfoldable pub rename_statement : TablePlan → (old : Text) → (new : Text) → Text
unfolding concat
rename_statement p old new = concat (
    txt "rename /* gh-ost */ table "
    ∷ escape_name p.database_name
    ∷ txt "."
    ∷ escape_name old
    ∷ txt " to "
    ∷ escape_name p.database_name
    ∷ txt "."
    ∷ escape_name new
    ∷ [])

-- `RenameTablesRollback` and `AtomicCutoverRename`, both tables
unfoldable pub rename_both_statement :
    TablePlan → (a : Text) → (b : Text) → (c : Text) → (d : Text) → Text
unfolding concat
rename_both_statement p a b c d = concat (
    txt "rename /* gh-ost */ table "
    ∷ escape_name p.database_name
    ∷ txt "."
    ∷ escape_name a
    ∷ txt " to "
    ∷ escape_name p.database_name
    ∷ txt "."
    ∷ escape_name b
    ∷ txt ", "
    ∷ escape_name p.database_name
    ∷ txt "."
    ∷ escape_name c
    ∷ txt " to "
    ∷ escape_name p.database_name
    ∷ txt "."
    ∷ escape_name d
    ∷ [])

-- `CreateAtomicCutOverSentryTable`
unfoldable pub create_sentry_statement : TablePlan → Text
unfolding concat
create_sentry_statement p = concat (
    txt "create /* gh-ost */ table "
    ∷ escape_name p.database_name
    ∷ txt "."
    ∷ escape_name p.old_table_name
    ∷ txt " (\n\t\t\tid int auto_increment primary key\n\t\t) engine="
    ∷ p.table_engine
    ∷ txt " comment='"
    ∷ atomic_cut_over_magic_hint
    ∷ txt "'\n\t\t"
    ∷ [])

-- `AtomicCutOverMagicLock`
unfoldable pub lock_both_statement : TablePlan → Text
unfolding concat
lock_both_statement p = concat (
    txt "lock /* gh-ost */ tables "
    ∷ escape_name p.database_name
    ∷ txt "."
    ∷ escape_name p.original_table_name
    ∷ txt " write, "
    ∷ escape_name p.database_name
    ∷ txt "."
    ∷ escape_name p.old_table_name
    ∷ txt " write"
    ∷ [])
