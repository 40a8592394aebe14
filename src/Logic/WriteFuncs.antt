-- ===== src/Logic/WriteFuncs.antt =====
-- go/logic/migrator.go, `executeWriteFuncs`: the loop that applies events and copies rows. What comes
-- into the two queues is a list of rounds. The nice ratio is a floating-point number, so the sleep that
-- it asks for is a function of the state.
pub mod Priority
use ghost_source_code_readin.Base.{
  Bool, List, Option, [], if◌then◌else◌, none, some, true, false, ◌++◌, ◌∷◌,
}
use ghost_source_code_readin.Base.Int.{ℤ}
use ghost_source_code_readin.Logic.Migrator.{ApplyEvent, Operation, on_apply_event_struct}

-- `applyEventsQueue`, `copyRowsQueue` and the rest of the state.
pub record WriteQueues {ℓ} (D W C : Type 0) (S : Type ℓ) : Type ℓ where
  pub apply_events_queue : List (ApplyEvent D W)
  pub copy_rows_queue : List C
  pub state : S

-- What other goroutines do before a round, and whether `finishedMigrating` is set when it begins.
pub record Round (D W C : Type 0) : Type 0 where
  pub finished_migrating : Bool
  pub new_events : List (ApplyEvent D W)
  pub new_copies : List C

-- The calls of the loop; `on_event` is given the event and the rest of the queue, and returns the rest.
pub record WriteOps {κ ℓ} (D W C : Type 0) (E : Type κ) (S : Type ℓ) : Type (κ ⊔ ℓ) where
  pub throttle : S → S
  pub apply_dml_events : List D → Operation E S
  pub run_write_func : W → Operation E S
  pub copy_rows : C → Operation E S
  pub nice_sleep : S → S
  pub sleep_second : S → S

module _ {κ ℓ} {D W C : Type 0} {E : Type κ} {S : Type ℓ} (ops : WriteOps D W C E S)
    (batch_size : ℤ) where
  -- What the loop returned, if it did, and the queues.
  abbrev pub Looped : Type (κ ⊔ ℓ)
  Looped = Option (Option E) × WriteQueues D W C S

  abbrev pub returned : Option E → Option (Option E)
  returned none = none
  returned (some e) = some (some e)

  abbrev pub after_event : List C → (Option E × S) × List (ApplyEvent D W) → Looped
  after_event copies ((r, s), events) =
      (returned r, record { apply_events_queue = events; copy_rows_queue = copies; state = s })

  abbrev pub after_copy : List (ApplyEvent D W) → List C → Option E × S → Looped
  after_copy events copies (none, s) = (
    none,
    record { apply_events_queue = events; copy_rows_queue = copies; state = ops.nice_sleep s },
  )
  after_copy events copies (some e, s) =
      (some (some e), record { apply_events_queue = events; copy_rows_queue = copies; state = s })

  -- The two `select` statements, on the queues.
  unfoldable pub select_write : List (ApplyEvent D W) → List C → S → Looped
  select_write (event ∷ events) copies s =
      after_event copies
        (on_apply_event_struct ops.apply_dml_events ops.run_write_func batch_size event events s)
  select_write [] (copy ∷ copies) s = after_copy [] copies (ops.copy_rows copy s)
  select_write [] [] s =
      (none, record { apply_events_queue = []; copy_rows_queue = []; state = ops.sleep_second s })

  -- A round of the loop.
  unfoldable pub write_round : Round D W C → WriteQueues D W C S → Looped
  unfolding select_write
  write_round r q =
      if r.finished_migrating
      then (some none, q)
      else select_write (q.apply_events_queue ++ r.new_events) (q.copy_rows_queue ++ r.new_copies)
          (ops.throttle q.state)

  abbrev pub next_round : Looped → (WriteQueues D W C S → Looped) → Looped
  next_round (some r, q) again = (some r, q)
  next_round (none, q) again = again q

  abbrev pub write_rounds : List (Round D W C) → WriteQueues D W C S → Looped
  write_rounds [] q = (none, q)
  write_rounds (r ∷ rounds) q = next_round (write_round r q) (write_rounds rounds)

  -- `executeWriteFuncs`, with `Noop`.
  unfoldable pub execute_write_funcs : Bool → List (Round D W C) → WriteQueues D W C S → Looped
  unfolding write_round
  execute_write_funcs true rounds q = (some none, q)
  execute_write_funcs false rounds q = write_rounds rounds q
