-- ===== src/Logic/RowCopy/Calls.antt =====
-- A call of `copyRowsFunc` of go/logic/migrator.go.
use ghost_source_code_readin.Base.{
  Bool, Option, Result, [], ap, err, false, if◌then◌else◌, none, ok, refl, some, suc, sym, true, ℕ,
  ◌++◌, ◌||◌, ◌∷◌, ◌≡◌, ◌⊎◌, inl, inr,
}
use mathlib.Core.Path.{subst}
use ghost_source_code_readin.Base.Int.{pos, ℤ}
use ghost_source_code_readin.Logic.Migrator.{retry_operation}
use ghost_source_code_readin.Logic.Migrator.Retry.{Leaves, retry_operation-Leaves}
use ghost_source_code_readin.Logic.RowCopy.{
  ChunkOps, RowCopyState, answered_insert, apply_copy_rows_func, copy_rows_func, find_range,
  finish_range, found_range, is_done, send_panic, terminate_row_iteration, with_range,
}

-- The copy is going on: nothing was sent, and no flag is set.
pub record Going {ℓ} {E S : Type ℓ} (s : RowCopyState E S) : Type ℓ where
  pub not_complete : s.row_copy_complete_flag ≡ false
  pub further_range : s.has_no_further_range ≡ false
  pub nothing_sent : s.row_copy_complete ≡ []

Going-applier {ℓ} :
    {E S : Type ℓ} {s : RowCopyState E S} {t : S} {n : ℤ}
    → Going s
    → Going (record s { applier = t; total_rows_copied = n })
Going-applier g = record {
  not_complete = g.not_complete;
  further_range = g.further_range;
  nothing_sent = g.nothing_sent;
}

Going-send_panic {ℓ} :
    {E S : Type ℓ} (p : Option (Option E)) (s : RowCopyState E S) → Going s → Going (send_panic p s)
Going-send_panic none s g = g
Going-send_panic (some e) s g = record {
  not_complete = g.not_complete;
  further_range = g.further_range;
  nothing_sent = g.nothing_sent;
}

pub or_true : (b : Bool) → (b || true) ≡ true
or_true true = refl
or_true false = refl

pub if-false {ℓ κ} :
    {A : Type ℓ} (P : A → Type κ) {b : Bool} (x y : A) → b ≡ false → P y → P (if b then x else y)
if-false P x y h p = subst (λ b. P (if b then x else y)) (sym h) p

both_false : (a b : Bool) → a ≡ false → b ≡ false → (a || b) ≡ false
both_false true b h k = h
both_false false b h k = k

pub Going-not_done {ℓ} : {E S : Type ℓ} (s : RowCopyState E S) → Going s → is_done s ≡ false
Going-not_done s g =
    both_false s.row_copy_complete_flag s.has_no_further_range g.not_complete g.further_range

module _ {ℓ} {E S : Type ℓ} where
  -- The end of the copy was sent, once, and there is no further range.
  pub record Copied (s : RowCopyState E S) : Type ℓ where
    pub no_further_range : s.has_no_further_range ≡ true
    pub end_sent : s.row_copy_complete ≡ none ∷ []

  -- What a call of `copyRowsFunc` leaves: an error, which was sent; or none, and the copy goes on or has
  -- ended.
  abbrev pub Left : Option E × RowCopyState E S → Type ℓ
  Left (some e, s) = s.row_copy_complete ≡ some e ∷ []
  Left (none, s) = Going s ⊎ Copied s

  insert-Leaves :
      (ops : ChunkOps E S) (s : RowCopyState E S) (a : Result E ℤ × S)
      → Going s
      → Leaves Going Going (answered_insert ops s a)
  insert-Leaves ops s (err e, t) g = Going-applier g
  insert-Leaves ops s (ok n, t) g = Going-applier g

  apply-Leaves :
      (ops : ChunkOps E S) (s : RowCopyState E S)
      → Going s
      → Leaves Going Going (apply_copy_rows_func ops s)
  unfolding apply_copy_rows_func
  apply-Leaves ops s g =
      if-false (Leaves Going Going) (none, s) (answered_insert ops s (ops.insert_range s.applier))
        g.not_complete (insert-Leaves ops s (ops.insert_range s.applier) g)

  copied_range-Left :
      (res : Option E) (p : Option (Option E)) (s : RowCopyState E S)
      → Leaves Going Going (res, s)
      → Left (finish_range res (send_panic p s))
  unfolding terminate_row_iteration
  copied_range-Left none p s g = inl (Going-send_panic p s g)
  copied_range-Left (some e) p s g =
      ap (λ q. q ++ some e ∷ []) (Going-send_panic p s g).nothing_sent

  with_range-Left :
      (ops : ChunkOps E S) (n : ℕ) (res : Option E) (b : Bool) (s : RowCopyState E S)
      → Going s
      → Left (with_range (pos (suc n)) ops res b s)
  unfolding terminate_row_iteration
  with_range-Left ops n (some e) b s g = ap (λ q. q ++ some e ∷ []) g.nothing_sent
  with_range-Left ops n none false s g =
      inr (record { no_further_range = refl; end_sent = ap (λ q. q ++ none ∷ []) g.nothing_sent })
  with_range-Left ops n none true s g =
      let tried = retry_operation (pos (suc n)) (apply_copy_rows_func ops) false s in
      copied_range-Left tried.result tried.panic_abort tried.state
        (retry_operation-Leaves Going Going (apply_copy_rows_func ops) n s (apply-Leaves ops) g)

  pub copy_rows_func-Left :
      (ops : ChunkOps E S) (n : ℕ) (s : RowCopyState E S)
      → Going s
      → Left (copy_rows_func (pos (suc n)) ops s)
  unfolding copy_rows_func find_range
  copy_rows_func-Left ops n s g =
      let r = retry_operation (pos (suc n)) (find_range ops) false (false, s.applier) in
      if-false Left (none, s) (found_range (pos (suc n)) ops s r) (Going-not_done s g)
        (with_range-Left ops n r.result r.state.0
          (send_panic r.panic_abort (record s { applier = r.state.1 }))
          (Going-send_panic r.panic_abort (record s { applier = r.state.1 }) (Going-applier g)))

  -- Once there is no further range, a call does nothing.
  pub copy_rows_func-done :
      (ops : ChunkOps E S) (n : ℤ) (s : RowCopyState E S)
      → s.has_no_further_range ≡ true
      → copy_rows_func n ops s ≡ (none, s)
  unfolding copy_rows_func
  copy_rows_func-done ops n s h = rw (h, or_true s.row_copy_complete_flag)
