-- ===== src/Logic/Applier/Range/Contiguous.antt =====
-- The chunks follow each other without a gap.
use ghost_source_code_readin.Base.{◌≡◌, ◌∙◌, refl, true, Option, none, some, List, Result, ok, err}
use ghost_source_code_readin.Base.Dict.{is_some}
use ghost_source_code_readin.Text.{Text}
use ghost_source_code_readin.Sql.Value.{Value}
use ghost_source_code_readin.Logic.Applier.Range.{
  CopyError, CopyPlan, CopyState, Rows, or_else, next_start, found_end,
  calculate_next_iteration_range_end_values,
}

module _ (query : Text → List Value → Result Text Rows) where
  found_end-min :
      (s : CopyState) (r : Result CopyError (Option (List Value)))
      → (found_end query s r).1.iteration_min ≡ s.iteration_min
  found_end-min s (err e) = refl
  found_end-min s (ok none) = refl
  found_end-min s (ok (some row)) = refl

  calculate-min :
      (p : CopyPlan) (s : CopyState)
      → (calculate_next_iteration_range_end_values query p s).1.iteration_min ≡ next_start s
  unfolding calculate_next_iteration_range_end_values
  calculate-min p s = found_end-min (record s { iteration_min = next_start s }) _

  found_end-max :
      (s : CopyState) (r : Result CopyError (Option (List Value)))
      → (found_end query s r).0 ≡ ok true
      → is_some (found_end query s r).1.iteration_max ≡ true
  found_end-max s (err e) h = cc
  found_end-max s (ok none) h = cc
  found_end-max s (ok (some row)) h = refl

  calculate-max :
      (p : CopyPlan) (s : CopyState)
      → (calculate_next_iteration_range_end_values query p s).0 ≡ ok true
      → is_some (calculate_next_iteration_range_end_values query p s).1.iteration_max ≡ true
  unfolding calculate_next_iteration_range_end_values
  calculate-max p s h = found_end-max (record s { iteration_min = next_start s }) _ h

  or_else-some : (a b : Option (List Value)) → is_some a ≡ true → or_else a b ≡ a
  or_else-some none b h = cc
  or_else-some (some v) b h = refl

  next_start-some :
      (s : CopyState) → is_some s.iteration_max ≡ true → next_start s ≡ s.iteration_max
  unfolding next_start
  next_start-some s h = or_else-some s.iteration_max s.range_min h

  -- When a call finds a further range, it has an end, and the next call, whatever it finds, begins its
  -- range at that end: the chunks of the copy leave no gap.
  pub calculate_next_iteration_range_end_values-contiguous :
      (p : CopyPlan) (s : CopyState)
      → (calculate_next_iteration_range_end_values query p s).0 ≡ ok true
      → (is_some (calculate_next_iteration_range_end_values query p s).1.iteration_max ≡ true)
        × ((calculate_next_iteration_range_end_values query p
              (calculate_next_iteration_range_end_values query p s).1).1.iteration_min
            ≡ (calculate_next_iteration_range_end_values query p s).1.iteration_max)
  calculate_next_iteration_range_end_values-contiguous p s h =
      let next = (calculate_next_iteration_range_end_values query p s).1 in
      (calculate-max p s h, calculate-min p next ∙ next_start-some next (calculate-max p s h))
