-- ===== src/Sql/Compare/Meaning/Lexicographic.antt =====
-- A range comparison holds of a row exactly when the row's key stands in that order to the given
-- values, column by column from the left.
use ghost_source_code_readin.Base.{
  Bool, true, false, ◌&&◌, ◌||◌, ◌≡◌, refl, ap, ◌∙◌, List, [], ◌∷◌, ◌++◌, map, arith, All, ok,
}
use ghost_source_code_readin.Text.{Text}
use ghost_source_code_readin.Sql.Value.{Value}
use ghost_source_code_readin.Sql.Compare.{
  Sign, equals, build_range_comparison, strict_sign, includes_equals,
}
use ghost_source_code_readin.Sql.Compare.Meaning.{
  Cond, render, args_of, Comparison, eval, Part, columns_of, tokens_of, values_of, IsNamed, leaf_of,
  both_all, either_all, equal_key, item, items, last_item, range_cond,
}
use ghost_source_code_readin.Sql.Compare.Meaning.Render.{build_range-render}

module _ (holds : Comparison) (row : Text → Value) where
  pub key_equal : List Part → Bool
  key_equal [] = true
  key_equal (p ∷ ps) = holds equals (row p.column) p.arg && key_equal ps

  -- The first column that is not equal decides.
  pub key_before : Sign → List Part → Bool
  key_before sign [] = false
  key_before sign (p ∷ ps) =
      holds sign (row p.column) p.arg || (holds equals (row p.column) p.arg && key_before sign ps)

  pub key_compare : Sign → List Part → Bool
  key_compare sign ps = key_before (strict_sign sign) ps || (includes_equals sign && key_equal ps)

  any_holds : List Cond → Bool
  any_holds [] = false
  any_holds (c ∷ cs) = eval holds row c || any_holds cs

  eval-either_all :
      (c : Cond) (cs : List Cond) → eval holds row (either_all c cs) ≡ any_holds (c ∷ cs)
  unfolding eval either_all any_holds
  eval-either_all c [] = ground arith
  eval-either_all c (d ∷ ds) = ap (λ b. eval holds row c || b) (eval-either_all d ds)

  eval-both_all :
      (p : Part) (ps : List Part)
      → eval holds row (both_all (leaf_of equals p) (map (leaf_of equals) ps)) ≡ key_equal (p ∷ ps)
  unfolding eval both_all key_equal
  eval-both_all p [] = ground arith
  eval-both_all p (q ∷ qs) = ap (λ b. holds equals (row p.column) p.arg && b) (eval-both_all q qs)

  eval-equal_key :
      (p : Part) (ps : List Part) → eval holds row (equal_key p ps) ≡ key_equal (p ∷ ps)
  unfolding eval equal_key
  eval-equal_key p ps = eval-both_all p ps

  eval-item :
      (sign : Sign) (done : List Part) (p : Part)
      → eval holds row (item sign done p) ≡ (key_equal done && holds sign (row p.column) p.arg)
  unfolding eval item
  eval-item sign [] p = unfold key_equal in refl
  eval-item sign (q ∷ qs) p = ap (λ b. b && holds sign (row p.column) p.arg) (eval-equal_key q qs)

  key_equal-append : (ps qs : List Part) → key_equal (ps ++ qs) ≡ (key_equal ps && key_equal qs)
  unfolding key_equal
  key_equal-append [] qs = refl
  key_equal-append (p ∷ ps) qs = ground (arith, key_equal-append ps qs)

  any_holds-append : (cs ds : List Cond) → any_holds (cs ++ ds) ≡ (any_holds cs || any_holds ds)
  unfolding any_holds
  any_holds-append [] ds = refl
  any_holds-append (c ∷ cs) ds = ground (arith, any_holds-append cs ds)

  any_holds-items :
      (sign : Sign) (done ps : List Part)
      → any_holds (items sign done ps) ≡ (key_equal done && key_before sign ps)
  unfolding any_holds items key_before key_equal
  any_holds-items sign done [] = ground arith
  any_holds-items sign done (p ∷ ps) = ground (
    arith,
    eval-item sign done p,
    any_holds-items sign (done ++ p ∷ []) ps,
    key_equal-append done (p ∷ []),
  )

  any_holds-last_item :
      (b : Bool) (p : Part) (ps : List Part)
      → any_holds (last_item b p ps) ≡ (b && key_equal (p ∷ ps))
  unfolding any_holds
  any_holds-last_item true p ps = ground (arith, eval-equal_key p ps)
  any_holds-last_item false p ps = refl

  pub eval-range_cond :
      (sign : Sign) (p : Part) (ps : List Part)
      → eval holds row (range_cond (strict_sign sign) (includes_equals sign) p ps)
        ≡ key_compare sign (p ∷ ps)
  unfolding range_cond eval key_compare
  eval-range_cond sign p ps =
      let s = strict_sign sign in
      let close = last_item (includes_equals sign) p ps in
      eval-either_all (item s [] p) (items s (p ∷ []) ps ++ close)
      ∙ any_holds-append (items s [] (p ∷ ps)) close
      ∙ ap (λ b. b || any_holds close) (any_holds-items s [] (p ∷ ps))
      ∙ ap (λ b. (key_equal [] && key_before s (p ∷ ps)) || b)
          (any_holds-last_item (includes_equals sign) p ps)
      ∙ unfold key_equal in refl

-- For at least one key column, each with a name and a token, and any sign, `BuildRangeComparison`
-- succeeds, and what it returns is the text of a condition with the arguments that its placeholders
-- take from left to right. However the server compares single values, on every row the condition
-- holds exactly when the row's key stands to the given values in the order of the sign, column by
-- column from the left (and, for `<=` and `>=`, also when the keys are equal).
pub build_range_meaning :
    (sign : Sign) (p : Part) (ps : List Part)
    → All IsNamed (p ∷ ps)
    → (c : Cond) × (build_range_comparison
          (columns_of (p ∷ ps))
          (tokens_of (p ∷ ps))
          (values_of (p ∷ ps))
          sign
        ≡ ok (render c, args_of c))
      × ((holds : Comparison) (row : Text → Value)
          → eval holds row c ≡ key_compare holds row sign (p ∷ ps))
build_range_meaning sign p ps n = (
  range_cond (strict_sign sign) (includes_equals sign) p ps,
  build_range-render sign p ps n,
  λ holds row. eval-range_cond holds row sign p ps,
)
