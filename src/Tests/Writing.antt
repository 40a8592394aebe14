-- ===== src/Tests/Writing.antt =====
-- Rounds of `executeWriteFuncs` of go/logic/migrator.go.
use ghost_source_code_readin.Base.{List, [], ◌∷◌, ◌++◌, false, ℕ, none, some, ◌≡◌}
use ghost_source_code_readin.Base.Int.{pos}
use ghost_source_code_readin.Logic.Migrator.{dml_event, write_func}
use ghost_source_code_readin.Logic.WriteFuncs.{Round, WriteOps, WriteQueues, execute_write_funcs}
use ghost_source_code_readin.Logic.WriteFuncs.Priority.{
  BringsEvent, elsewhere, execute_write_funcs-events_first,
}

-- The state is a list of what was done; copying a chunk adds its number.
abbrev writes : WriteOps ℕ ℕ ℕ ℕ (List ℕ)
writes = record {
  throttle = λ s. s;
  apply_dml_events = λ ds s. (none, s ++ ds);
  run_write_func = λ w s. (none, s ++ w ∷ []);
  copy_rows = λ c s. (none, s ++ c ∷ []);
  nice_sleep = λ s. s;
  sleep_second = λ s. s;
}

abbrev one_event : Round ℕ ℕ ℕ
one_event = record {
  finished_migrating = false;
  new_events = dml_event 1 ∷ [];
  new_copies = 50 ∷ [];
}

abbrev a_call : Round ℕ ℕ ℕ
a_call = record {
  finished_migrating = false;
  new_events = write_func (some 2) ∷ [];
  new_copies = [];
}

abbrev empty_queues : WriteQueues ℕ ℕ ℕ (List ℕ)
empty_queues = record { apply_events_queue = []; copy_rows_queue = []; state = [] }

one_event-BringsEvent : BringsEvent one_event
unfolding BringsEvent
one_event-BringsEvent h = absurd cc

a_call-BringsEvent : BringsEvent a_call
unfolding BringsEvent
a_call-BringsEvent h = absurd cc

execute_write_funcs-events_first_example :
    execute_write_funcs writes (pos 10) false (one_event ∷ a_call ∷ []) empty_queues
    ≡ execute_write_funcs
        (elsewhere writes (pos 10) (λ c s. (some c, s)) (λ s. s))
        (pos 10)
        false
        (one_event ∷ a_call ∷ [])
        empty_queues
execute_write_funcs-events_first_example =
    execute_write_funcs-events_first writes (pos 10) (λ c s. (some c, s)) (λ s. s) false
      (one_event ∷ a_call ∷ []) empty_queues (one_event-BringsEvent, (a_call-BringsEvent, tt))
