-- ===== src/Logic/Inspector/Shared.antt =====
-- The shared columns are what the statements need.
use ghost_source_code_readin.Base.{
  ℕ, ◌+◌, ◌≡◌, ◌∙◌, sym, refl, Bool, true, false, Option, some, List, [], ◌∷◌, map, length,
  length-map, All, if◌then◌else◌,
}
use ghost_source_code_readin.Base.Dict.{Dict, lookup, insert, lookup-insert, is_some}
use ghost_source_code_readin.Text.{Text, text_eq}
use ghost_source_code_readin.Text.Laws.{text_eq_refl}
use ghost_source_code_readin.Sql.Value.{Column}
use ghost_source_code_readin.Sql.Columns.{
  ColumnList, new_column, new_columns, new_columns_map, columns_map_from, new_column_list, names,
  all_in, is_subset_of,
}
use ghost_source_code_readin.Logic.Inspector.{
  is_shared_column, filter_names, keep_if, mapped_name, get_shared_columns,
}

either_way :
    (b : Bool) (o : Option ℕ) (i : ℕ) → is_some o ≡ true → is_some (if b then some i else o) ≡ true
either_way true o i h = refl
either_way false o i h = h

insert-keeps :
    (k n : Text) (i : ℕ) (m : Dict ℕ)
    → is_some (lookup n m) ≡ true
    → is_some (lookup n (insert k i m)) ≡ true
insert-keeps k n i m h = rw (lookup-insert k n i m) (either_way (text_eq k n) (lookup n m) i h)

columns_map_from-keeps :
    (ns : List Text) (n : Text) (i : ℕ) (m : Dict ℕ)
    → is_some (lookup n m) ≡ true
    → is_some (lookup n (columns_map_from i (new_columns ns) m)) ≡ true
unfolding columns_map_from new_columns new_column
columns_map_from-keeps [] n i m h = h
columns_map_from-keeps (k ∷ ns) n i m h =
    columns_map_from-keeps ns n (i + 1) (insert k i m) (insert-keeps k n i m h)

insert-has : (k : Text) (i : ℕ) (m : Dict ℕ) → is_some (lookup k (insert k i m)) ≡ true
insert-has k i m = rw (lookup-insert k k i m, text_eq_refl k) refl

columns_map_from-has :
    (ns : List Text) (i : ℕ) (m : Dict ℕ)
    → All (λ n. is_some (lookup n (columns_map_from i (new_columns ns) m)) ≡ true) ns
unfolding columns_map_from new_columns new_column
columns_map_from-has [] i m = tt
columns_map_from-has (k ∷ ns) i m = (
  columns_map_from-keeps ns k (i + 1) (insert k i m) (insert-has k i m),
  columns_map_from-has ns (i + 1) (insert k i m),
)

all_in-keep_if :
    (b : Bool) (k : Text) (ns : List Text) (d : Dict ℕ)
    → is_some (lookup k d) ≡ true
    → all_in (new_columns ns) d ≡ true
    → all_in (new_columns (keep_if b k ns)) d ≡ true
unfolding all_in new_columns new_column
all_in-keep_if false k ns d h hs = hs
all_in-keep_if true k ns d h hs = rw h hs

all_in-filter_names :
    (test : Text → Bool) (ns : List Text) (d : Dict ℕ)
    → All (λ n. is_some (lookup n d) ≡ true) ns
    → all_in (new_columns (filter_names test ns)) d ≡ true
unfolding filter_names
all_in-filter_names test [] d h = unfold all_in new_columns in refl
all_in-filter_names test (k ∷ ns) d (h, hs) =
    all_in-keep_if (test k) k (filter_names test ns) d h (all_in-filter_names test ns d hs)

names-new_columns : (ns : List Text) → map (λ (c : Column). c.name) (new_columns ns) ≡ ns
unfolding new_columns new_column
names-new_columns [] = refl
names-new_columns (n ∷ ns) = rw (names-new_columns ns)

names-new_column_list : (ns : List Text) → names (new_column_list ns) ≡ ns
unfolding names new_column_list
names-new_column_list ns = names-new_columns ns

length-new_columns : (ns : List Text) → length (new_columns ns) ≡ length ns
unfolding new_columns
length-new_columns ns = length-map ns new_column

-- The shared columns of a table whose columns are made from names are a subset of its columns, and they
-- are as many as the columns of the ghost table that they are mapped to, whatever is renamed, dropped
-- and generated. The statements for events ask for both.
get_shared_columns-fits :
    (dropped ns : List Text) (ghost original_virtual ghost_virtual : ColumnList)
    (renames : Dict Text)
    → (is_subset_of
          (get_shared_columns dropped
            (new_column_list ns)
            ghost
            original_virtual
            ghost_virtual
            renames).0
          (new_column_list ns)
        ≡ true)
      × (length
            (get_shared_columns dropped
              (new_column_list ns)
              ghost
              original_virtual
              ghost_virtual
              renames).1.columns
          ≡ length
              (get_shared_columns dropped
                (new_column_list ns)
                ghost
                original_virtual
                ghost_virtual
                renames).0.columns)
unfolding get_shared_columns is_subset_of new_column_list new_columns_map names
get_shared_columns-fits dropped ns ghost original_virtual ghost_virtual renames =
    let test =
      is_shared_column dropped (names original_virtual) (names ghost) (names ghost_virtual)
        renames in
    let shared = filter_names test (names (new_column_list ns)) in
    (
      rw (names-new_columns ns) (all_in-filter_names test ns _ (columns_map_from-has ns 0 [])),
      length-new_columns (map (mapped_name renames) shared)
          ∙ length-map shared (mapped_name renames)
          ∙ sym (length-new_columns shared),
    )
