-- ===== src/Sql/Columns/Ordinals.antt =====
-- The map from names to ordinals, and the columns that a name selects.
use ghost_source_code_readin.Base.{
  ℕ, zero, suc, ◌+◌, ◌≡◌, refl, ◌≢◌, some, List, [], ◌∷◌, arith, All, get_elem?,
}
use ghost_source_code_readin.Base.Dict.{Dict, lookup, insert, lookup-insert}
use ghost_source_code_readin.Text.{Text}
use ghost_source_code_readin.Text.Laws.{text_eq_iff, text_eq_refl}
use ghost_source_code_readin.Sql.Columns.{
  new_column, new_columns, columns_map_from, new_columns_map, new_column_list,
}

-- No name occurs twice.
abbrev pub Distinct : List Text → Type 0
Distinct [] = Unit
Distinct (n ∷ ns) = All (λ m. n ≢ m) ns × Distinct ns

lookup-fresh :
    (k : Text) (ns : List Text) (i : ℕ) (m : Dict ℕ)
    → All (λ n. k ≢ n) ns
    → lookup k (columns_map_from i (new_columns ns) m) ≡ lookup k m
unfolding columns_map_from new_columns new_column
lookup-fresh k [] i m h = refl
lookup-fresh k (n ∷ ns) i m h =
    rw (lookup-fresh k ns (i + 1) (insert n i m) h.1, lookup-insert n k i m)
      (ground (arith, text_eq_iff n k, h.0))

lookup-columns_map_from :
    (ns : List Text) (j i : ℕ) (m : Dict ℕ) (n : Text)
    → Distinct ns
    → get_elem? ns j ≡ some n
    → lookup n (columns_map_from i (new_columns ns) m) ≡ some (i + j)
unfolding columns_map_from new_columns new_column
lookup-columns_map_from [] j i m n d h = cc
lookup-columns_map_from (k ∷ ns) zero i m n d h =
    let e : k ≡ n = cc in
    rw (← e) (
      rw (lookup-fresh k ns (i + 1) (insert k i m) d.0, lookup-insert k k i m, text_eq_refl k)
        (ground arith))
lookup-columns_map_from (k ∷ ns) (suc j) i m n d h =
    rw (lookup-columns_map_from ns j (i + 1) (insert k i m) n d.1 h) (ground arith)

-- In a list of columns made from names without repetitions, the ordinal of the name at a position is
-- that position.
pub new_column_list-ordinal :
    (ns : List Text) (j : ℕ) (n : Text)
    → Distinct ns
    → get_elem? ns j ≡ some n
    → lookup n (new_column_list ns).ordinals ≡ some j
unfolding new_column_list new_columns_map
new_column_list-ordinal ns j n d h = rw (lookup-columns_map_from ns j 0 [] n d h) (ground arith)
