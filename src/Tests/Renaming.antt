-- ===== src/Tests/Renaming.antt =====
-- A two-step swap of go/logic/applier.go and its rollback, on a server that knows the statements.
use ghost_source_code_readin.Base.{
  List, Option, [], arith, false, if◌then◌else◌, none, refl, some, ℕ, ◌∷◌, ◌≡◌, ◌≢◌,
}
use ghost_source_code_readin.Base.Int.{pos}
use ghost_source_code_readin.Text.{Text, concat, text_eq, txt}
use ghost_source_code_readin.Text.Laws.{text_eq_iff}
use ghost_source_code_readin.Text.Unquote.{unquote}
use ghost_source_code_readin.Sql.Compare.{escape_name}
use ghost_source_code_readin.Sql.Value.{Value}
use ghost_source_code_readin.Logic.Applier.Tables.{
  rename_tables_rollback, swap_tables_quick_and_bumpy,
}
use ghost_source_code_readin.Logic.Applier.Tables.Statements.{
  TablePlan, alter_rename_statement, rename_both_statement, rename_statement,
}
use ghost_source_code_readin.Logic.Applier.Tables.Rollback.{
  RenameLaws, rename_table, swapped-rename_tables_rollback,
}

abbrev letter : ℕ → Text
letter n = n ∷ []

abbrev table_plan : TablePlan
table_plan = record {
  database_name = letter 120;
  original_table_name = letter 111;
  ghost_table_name = letter 103;
  old_table_name = letter 100;
  changelog_table_name = letter 99;
  alter_statement = [];
  table_engine = [];
  initially_drop_ghost_table = false;
  initially_drop_old_table = false;
  cut_over_lock_timeout_seconds = pos 3;
}

abbrev Catalog : Type 0
Catalog = Text → Option ℕ

abbrev catalog : Catalog
catalog n =
    if text_eq n (letter 111) then some 1 else if text_eq n (letter 103) then some 2 else none

-- The combined statement is refused, so that the rollback goes one by one.
unfoldable server : Text → List Value → Catalog → Option Text × Catalog
server q args c =
    if text_eq q (alter_rename_statement table_plan (letter 111) (letter 100))
    then (none, rename_table (letter 111) (letter 100) c)
    else if text_eq q (alter_rename_statement table_plan (letter 103) (letter 111))
    then (none, rename_table (letter 103) (letter 111) c)
    else if text_eq q (rename_statement table_plan (letter 111) (letter 103))
    then (none, rename_table (letter 111) (letter 103) c)
    else if text_eq q (rename_statement table_plan (letter 100) (letter 111))
    then (none, rename_table (letter 100) (letter 111) c)
    else (some [], c)

server_laws : RenameLaws server (λ c. c) table_plan
unfolding server alter_rename_statement rename_statement rename_both_statement text_eq txt concat
    escape_name unquote
server_laws = record {
  original_to_old = λ s. refl;
  ghost_to_original = λ s. refl;
  original_to_ghost = λ s. refl;
  old_to_original = λ s. refl;
  original_to_ghost_and_old_to_original = λ s. refl;
}

abbrev no_status : Text → Catalog → Option Text
no_status q c = none

abbrev swapped_tables : Catalog
swapped_tables = (swap_tables_quick_and_bumpy server no_status table_plan catalog).1

swapped_well : (swap_tables_quick_and_bumpy server no_status table_plan catalog).0 ≡ none
unfolding server alter_rename_statement rename_statement rename_both_statement text_eq txt concat
    escape_name unquote swap_tables_quick_and_bumpy
swapped_well = refl

rolled_back : (rename_tables_rollback server no_status table_plan swapped_tables).0 ≡ none
unfolding server alter_rename_statement rename_statement rename_both_statement text_eq txt concat
    escape_name unquote swap_tables_quick_and_bumpy rename_tables_rollback
rolled_back = refl

differ : (s t : Text) → text_eq s t ≡ false → s ≢ t
differ s t h = ground (arith, h, text_eq_iff s t)

original_and_ghost : letter 111 ≢ letter 103
unfolding text_eq
original_and_ghost = differ (letter 111) (letter 103) refl

original_and_old : letter 111 ≢ letter 100
unfolding text_eq
original_and_old = differ (letter 111) (letter 100) refl

ghost_and_old : letter 103 ≢ letter 100
unfolding text_eq
ghost_and_old = differ (letter 103) (letter 100) refl

old_is_free : catalog (letter 100) ≡ none
unfolding text_eq
old_is_free = refl

swapped-rename_tables_rollback_example :
    (rename_tables_rollback server no_status table_plan swapped_tables).1 (letter 103)
    ≡ catalog (letter 103)
swapped-rename_tables_rollback_example =
    swapped-rename_tables_rollback server (λ c. c) table_plan server_laws no_status catalog
      (letter 103) original_and_ghost original_and_old ghost_and_old old_is_free swapped_well
      rolled_back
