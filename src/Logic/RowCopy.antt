-- ===== src/Logic/RowCopy.antt =====
-- go/logic/migrator.go, `iterateChunks`: the row copy, chunk by chunk, with the part of
-- `executeWriteFuncs` that runs its functions. What the applier does is an interface, which Applied
-- fills with the functions of `Applier.Range`.
pub mod Applied
pub mod Calls
pub mod Reports
use ghost_source_code_readin.Base.{
  not, ◌&&◌, Bool, List, Option, Result, [], err, false, if◌then◌else◌, none, ok, some, suc, true,
  zero, ℕ, ◌++◌, ◌||◌, ◌∷◌,
}
use ghost_source_code_readin.Base.Dict.{is_some}
use ghost_source_code_readin.Base.Int.{pos, wrap64, ℤ, ◌+ℤ◌}
use ghost_source_code_readin.Logic.Migrator.{Operation, Retried, retry_operation}

-- The calls of the applier, on its state: `CalculateNextIterationRangeEndValues`, the number of rows
-- that `ApplyIterationInsertQuery` gives, and the count of the iterations of the context.
pub record ChunkOps {ℓ κ} (E : Type ℓ) (S : Type κ) : Type (ℓ ⊔ κ) where
  pub calculate_range : S → Result E Bool × S
  pub insert_range : S → Result E ℤ × S
  pub count_iteration : S → S

-- The flags of the migrator and of `iterateChunks`, what is sent to `rowCopyComplete` and to
-- `PanicAbort`, and the state of the applier.
pub record RowCopyState {ℓ κ} (E : Type ℓ) (S : Type κ) : Type (ℓ ⊔ κ) where
  pub applier : S
  pub row_copy_complete_flag : Bool
  pub has_no_further_range : Bool
  pub row_copy_complete : List (Option E)
  pub panic_abort : List (Option E)
  pub total_rows_copied : ℤ

-- The row copy as two goroutines see it: `iterateChunks`, which has not returned, and has a function that
-- nobody took yet; and `executeWriteFuncs`, which runs a function, and may have returned its error.
pub record CopyLoop {ℓ κ} (E : Type ℓ) (S : Type κ) : Type (ℓ ⊔ κ) where
  pub copy : RowCopyState E S
  pub is_iterating : Bool
  pub is_offered : Bool
  pub is_running : Bool
  pub write_error : Option E

-- Whose turn it is: `iterateChunks`, `executeWriteFuncs` in two steps, or `consumeRowCopyComplete`.
pub data CopyMove : Type 0 where
  iterates takes runs marks : CopyMove

module _ {ℓ κ} {E : Type ℓ} {S : Type κ} where
  -- `terminateRowIteration`
  unfoldable pub terminate_row_iteration : Option E → RowCopyState E S → Option E × RowCopyState E S
  terminate_row_iteration e s = (e, record s { row_copy_complete = s.row_copy_complete ++ e ∷ [] })

  abbrev pub answered_range : Result E Bool × S → Option E × (Bool × S)
  answered_range (err e, s) = (some e, (false, s))
  answered_range (ok b, s) = (none, (b, s))

  -- The function that is tried again to find a range: it sets `hasFurtherRange`.
  unfoldable pub find_range : ChunkOps E S → Operation E (Bool × S)
  find_range ops s = answered_range (ops.calculate_range s.1)

  abbrev pub answered_insert :
      ChunkOps E S → RowCopyState E S → Result E ℤ × S → Option E × RowCopyState E S
  answered_insert ops s (err e, t) = (some e, record s { applier = t })
  answered_insert ops s (ok n, t) = (
    none,
    record s {
      applier = ops.count_iteration t;
      total_rows_copied = wrap64 (s.total_rows_copied +ℤ n);
    },
  )

  -- `applyCopyRowsFunc`
  unfoldable pub apply_copy_rows_func : ChunkOps E S → Operation E (RowCopyState E S)
  apply_copy_rows_func ops s =
      if s.row_copy_complete_flag
      then (none, s)
      else answered_insert ops s (ops.insert_range s.applier)

  abbrev pub send_panic : Option (Option E) → RowCopyState E S → RowCopyState E S
  send_panic none s = s
  send_panic (some e) s = record s { panic_abort = s.panic_abort ++ e ∷ [] }

  abbrev pub finish_range : Option E → RowCopyState E S → Option E × RowCopyState E S
  finish_range none s = (none, s)
  finish_range (some e) s = terminate_row_iteration (some e) s

  abbrev pub copied_range : Retried E (RowCopyState E S) → Option E × RowCopyState E S
  copied_range r = finish_range r.result (send_panic r.panic_abort r.state)

  abbrev pub with_range :
      ℤ → ChunkOps E S → Option E → Bool → RowCopyState E S → Option E × RowCopyState E S
  with_range n ops (some e) b s = terminate_row_iteration (some e) s
  with_range n ops none false s =
      terminate_row_iteration none (record s { has_no_further_range = true })
  with_range n ops none true s = copied_range (retry_operation n (apply_copy_rows_func ops) false s)

  abbrev pub found_range :
      ℤ → ChunkOps E S → RowCopyState E S → Retried E (Bool × S) → Option E × RowCopyState E S
  found_range n ops s r =
      with_range n ops r.result r.state.0
        (send_panic r.panic_abort (record s { applier = r.state.1 }))

  abbrev pub is_done : RowCopyState E S → Bool
  is_done s = s.row_copy_complete_flag || s.has_no_further_range

  -- `copyRowsFunc`
  unfoldable pub copy_rows_func : ℤ → ChunkOps E S → Operation E (RowCopyState E S)
  unfolding terminate_row_iteration find_range apply_copy_rows_func
  copy_rows_func n ops s =
      if is_done s
      then (none, s)
      else found_range n ops s (retry_operation n (find_range ops) false (false, s.applier))

  abbrev pub loop_at : Bool → RowCopyState E S → CopyLoop E S
  loop_at b s = record {
    copy = s;
    is_iterating = b;
    is_offered = false;
    is_running = false;
    write_error = none;
  }

  abbrev pub set_complete : RowCopyState E S → RowCopyState E S
  set_complete s = record s { row_copy_complete_flag = true }

  abbrev pub if_sent : List (Option E) → CopyLoop E S → CopyLoop E S
  if_sent [] l = l
  if_sent (e ∷ sent) l = record l { copy = set_complete l.copy }

  -- `iterateChunks` up to its loop, for whether nothing is to be migrated and whether the table has rows.
  unfoldable pub iterate_chunks : (noop has_rows : Bool) → RowCopyState E S → CopyLoop E S
  unfolding terminate_row_iteration
  iterate_chunks noop has_rows s =
      if noop
      then loop_at false (terminate_row_iteration none s).1
      else if has_rows
      then loop_at true s
      else loop_at false (terminate_row_iteration none s).1

  -- A round of the loop: it returns nil, or offers a function to `copyRowsQueue`, where it waits until the
  -- function is taken.
  unfoldable pub iterate_round : CopyLoop E S → CopyLoop E S
  iterate_round l =
      if l.is_iterating && not l.is_offered
      then (if is_done l.copy
          then record l { is_iterating = false }
          else record l { is_offered = true })
      else l

  -- `executeWriteFuncs` takes a function, if it has not returned and runs none.
  unfoldable pub take_copy_func : CopyLoop E S → CopyLoop E S
  take_copy_func l =
      if l.is_offered && (not l.is_running && not (is_some l.write_error))
      then record l { is_offered = false; is_running = true }
      else l

  abbrev pub ran_copy_func : CopyLoop E S → Option E × RowCopyState E S → CopyLoop E S
  ran_copy_func l (e, s) = record l { copy = s; is_running = false; write_error = e }

  -- It runs the function, and returns its error.
  unfoldable pub run_copy_func : ℤ → ChunkOps E S → CopyLoop E S → CopyLoop E S
  unfolding copy_rows_func
  run_copy_func n ops l = if l.is_running then ran_copy_func l (copy_rows_func n ops l.copy) else l

  -- `consumeRowCopyComplete`, once something is sent.
  unfoldable pub mark_row_copy_complete : CopyLoop E S → CopyLoop E S
  mark_row_copy_complete l = if_sent l.copy.row_copy_complete l

  unfoldable pub move_copy : ℤ → ChunkOps E S → CopyMove → CopyLoop E S → CopyLoop E S
  unfolding iterate_round take_copy_func run_copy_func mark_row_copy_complete
  move_copy n ops iterates l = iterate_round l
  move_copy n ops takes l = take_copy_func l
  move_copy n ops runs l = run_copy_func n ops l
  move_copy n ops marks l = mark_row_copy_complete l

  -- The goroutines, in any order.
  unfoldable pub run_copy : ℤ → ChunkOps E S → List CopyMove → CopyLoop E S → CopyLoop E S
  unfolding move_copy
  run_copy n ops [] l = l
  run_copy n ops (m ∷ moves) l = run_copy n ops moves (move_copy n ops m l)
