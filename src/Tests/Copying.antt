-- ===== src/Tests/Copying.antt =====
-- A row copy of go/logic/migrator.go, two keys at a time.
use ghost_source_code_readin.Base.{
  Bool, List, Result, [], err, false, if◌then◌else◌, length, ok, refl, true, ℕ, ◌++◌, ◌==◌, ◌∷◌,
  ◌≡◌,
}
use ghost_source_code_readin.Base.Int.{pos, ℤ}
use ghost_source_code_readin.Logic.Migrator.{attempts, retry_operation}
use ghost_source_code_readin.Logic.RowCopy.{
  ChunkOps, CopyMove, RowCopyState, apply_copy_rows_func, copy_rows_func, find_range,
  iterate_chunks, iterate_round, iterates, mark_row_copy_complete, marks, move_copy, run_copy,
  run_copy_func, runs, take_copy_func, takes, terminate_row_iteration,
}
use ghost_source_code_readin.Base.{suc}
use ghost_source_code_readin.Logic.Applier.Range.{CopyError, CopyState}
use ghost_source_code_readin.Logic.RowCopy.Applied.{applier_chunks}
use ghost_source_code_readin.Tests.Streaming.{answer, plan, start}

-- The keys that are copied, those of the range, and those behind it, and how often a call was made.
record Keys : Type 0 where
  done : List ℕ
  chunk : List ℕ
  behind : List ℕ
  calls : ℕ

abbrev take_two : List ℕ → List ℕ → ℕ → Result ℕ Bool × Keys
take_two d [] n = (ok false, record { done = d; chunk = []; behind = []; calls = n })
take_two d (k ∷ []) n = (ok true, record { done = d; chunk = k ∷ []; behind = []; calls = n })
take_two d (k ∷ j ∷ l) n = (ok true, record { done = d; chunk = k ∷ j ∷ []; behind = l; calls = n })

-- The insert fails at its first call.
abbrev insert_two : Keys → Result ℕ ℤ × Keys
insert_two s = if s.calls == 0 then (err 7, record s { calls = 1 }) else (
  ok (pos (length s.chunk)),
  record { done = s.done ++ s.chunk; chunk = []; behind = s.behind; calls = s.calls },
)

abbrev two_at_a_time : ChunkOps ℕ Keys
two_at_a_time = record {
  calculate_range = λ s. take_two s.done (s.chunk ++ s.behind) s.calls;
  insert_range = insert_two;
  count_iteration = λ s. s;
}

abbrev five_keys : RowCopyState ℕ Keys
five_keys = record {
  applier = record { done = []; chunk = []; behind = 1 ∷ 2 ∷ 3 ∷ 4 ∷ 5 ∷ []; calls = 0 };
  row_copy_complete_flag = false;
  has_no_further_range = false;
  row_copy_complete = [];
  panic_abort = [];
  total_rows_copied = pos 0;
}

-- A chunk is offered, taken and run; the next one is offered meanwhile.
abbrev a_chunk : List CopyMove
a_chunk = iterates ∷ takes ∷ iterates ∷ runs ∷ []

abbrev whole_copy : List CopyMove
whole_copy = a_chunk ++ (a_chunk ++ (a_chunk ++ (a_chunk ++ marks ∷ iterates ∷ [])))

-- The applier's own functions, on a database that counts what is inserted.
abbrev applied_chunks : ChunkOps CopyError (CopyState × ℕ)
applied_chunks =
    applier_chunks (λ db. answer) (λ db. ok db) (λ db seen. (ok tt, seen))
      (λ query args db. ok (suc db, pos 1)) plan

abbrev starting : RowCopyState CopyError (CopyState × ℕ)
starting = record {
  applier = (start, 0);
  row_copy_complete_flag = false;
  has_no_further_range = false;
  row_copy_complete = [];
  panic_abort = [];
  total_rows_copied = pos 0;
}

-- The run of the keys, computed.
five_keys_copied :
    (run_copy
      (pos 2)
      two_at_a_time
      whole_copy
      (iterate_chunks false true five_keys)).copy.applier.done
    ≡ 1 ∷ 2 ∷ 3 ∷ 4 ∷ 5 ∷ []
unfolding iterate_chunks run_copy move_copy iterate_round take_copy_func run_copy_func
    mark_row_copy_complete copy_rows_func find_range apply_copy_rows_func terminate_row_iteration
    retry_operation attempts
five_keys_copied = refl
