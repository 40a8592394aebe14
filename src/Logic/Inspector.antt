-- ===== src/Logic/Inspector.antt =====
-- go/logic/inspect.go: the columns and the unique keys that both tables share, and the grants.
pub mod Shared
pub mod Grants
use ghost_source_code_readin.Base.{
  ℕ, Bool, true, false, not, ◌&&◌, ◌||◌, Option, none, some, List, [], ◌∷◌, ◌++◌, map,
  if◌then◌else◌,
}
use ghost_source_code_readin.Base.Dict.{Dict, lookup}
use ghost_source_code_readin.Text.{Text, equal_fold}
use ghost_source_code_readin.Sql.Columns.{
  ColumnList, UniqueKey, names, new_column_list, equals_by_names,
}

-- The text at a key of a map, which is empty for a key that is not there.
abbrev text_at : Option Text → Text
text_at none = []
text_at (some t) = t

-- Whether one of the names is the text, up to case.
unfoldable pub any_fold : Text → List Text → Bool
any_fold name [] = false
any_fold name (n ∷ ns) = equal_fold name n || any_fold name ns

-- The loop over the ghost table's columns.
unfoldable pub in_ghost : Dict Text → Text → List Text → Bool
in_ghost renames name [] = false
in_ghost renames name (g ∷ gs) =
    if equal_fold name g
    then true
    else if equal_fold (text_at (lookup name renames)) g
    then true
    else in_ghost renames name gs

-- What the loops find for a column: it is in the ghost table, and neither dropped nor generated.
unfoldable pub is_shared_column :
    (dropped original_virtual ghost_names ghost_virtual : List Text) → Dict Text → Text → Bool
unfolding any_fold in_ghost
is_shared_column dropped original_virtual ghost_names ghost_virtual renames name =
    in_ghost renames name ghost_names
    && (not (any_fold name dropped)
        && (not (any_fold name original_virtual) && not (any_fold name ghost_virtual)))

abbrev keep_if : Bool → Text → List Text → List Text
keep_if true n ns = n ∷ ns
keep_if false n ns = ns

unfoldable pub filter_names : (Text → Bool) → List Text → List Text
filter_names test [] = []
filter_names test (n ∷ ns) = keep_if (test n) n (filter_names test ns)

abbrev renamed_or : Text → Option Text → Text
renamed_or name none = name
renamed_or name (some mapped) = mapped

-- The name of a shared column in the ghost table.
unfoldable pub mapped_name : Dict Text → Text → Text
mapped_name renames name = renamed_or name (lookup name renames)

-- `getSharedColumns`
unfoldable pub get_shared_columns :
    (dropped : List Text) (original ghost original_virtual ghost_virtual : ColumnList)
    → Dict Text
    → ColumnList × ColumnList
unfolding is_shared_column filter_names mapped_name
get_shared_columns dropped original ghost original_virtual ghost_virtual renames =
    let shared =
      filter_names
        (is_shared_column dropped (names original_virtual) (names ghost) (names ghost_virtual)
          renames)
        (names original) in
    (new_column_list shared, new_column_list (map (mapped_name renames) shared))

-- The inner loop of `getSharedUniqueKeys`: the key, once for every key of the ghost table that has the
-- same columns.
unfoldable pub matching_keys : UniqueKey → List UniqueKey → List UniqueKey
matching_keys k [] = []
matching_keys k (g ∷ gs) =
    let rest = matching_keys k gs in
    if equals_by_names k.key_columns g.key_columns then k ∷ rest else rest

-- `getSharedUniqueKeys`
unfoldable pub get_shared_unique_keys : List UniqueKey → List UniqueKey → List UniqueKey
unfolding matching_keys
get_shared_unique_keys [] ghost = []
get_shared_unique_keys (k ∷ ks) ghost = matching_keys k ghost ++ get_shared_unique_keys ks ghost
