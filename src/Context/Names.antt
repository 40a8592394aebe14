-- ===== src/Context/Names.antt =====
-- go/base/context.go: the names of the tables that a migration makes. The time of the old table's name
-- is formatted by the package `fmt`, so its text is a parameter.
pub mod Safe
use ghost_source_code_readin.Base.{
  ℕ, ◌+◌, ◌-◌, Bool, List, ◌++◌, ltb, leb, length, take, if◌then◌else◌, Result, ok, err,
}
use ghost_source_code_readin.Text.{Text, txt, is_empty, concat}

abbrev pub max_table_name_length : ℕ
max_table_name_length = 64

-- `baseName[0:n]` panics where `n` is negative.
pub data NameError : Type 0 where
  slice_out_of_range : NameError

unfoldable pub table_name : Text → Text → Text
table_name base suffix = txt "_" ++ (base ++ (txt "_" ++ suffix))

-- `getSafeTableName`
unfoldable pub get_safe_table_name : Text → Text → Result NameError Text
unfolding table_name
get_safe_table_name base suffix =
    let name = table_name base suffix in
    if leb (length name) max_table_name_length
    then ok name
    else let extra = length name - max_table_name_length in
      if ltb (length base) extra
      then err slice_out_of_range
      else ok (table_name (take (length base - extra) base) suffix)

pub record TableNaming : Type 0 where
  pub original_table_name : Text
  pub force_tmp_table_name : Text
  pub timestamp_old_table : Bool

unfoldable pub base_name : TableNaming → Text
base_name c =
    if is_empty c.force_tmp_table_name then c.original_table_name else c.force_tmp_table_name

-- `GetGhostTableName`
unfoldable pub get_ghost_table_name : TableNaming → Result NameError Text
unfolding get_safe_table_name base_name
get_ghost_table_name c = get_safe_table_name (base_name c) (txt "gho")

-- `GetOldTableName`, at the start time's text.
unfoldable pub get_old_table_name : TableNaming → Text → Result NameError Text
unfolding get_safe_table_name base_name
get_old_table_name c timestamp =
    if c.timestamp_old_table
    then get_safe_table_name (base_name c) (timestamp ++ txt "_del")
    else get_safe_table_name (base_name c) (txt "del")

-- `GetChangelogTableName`
unfoldable pub get_changelog_table_name : TableNaming → Result NameError Text
unfolding get_safe_table_name base_name
get_changelog_table_name c = get_safe_table_name (base_name c) (txt "ghc")
