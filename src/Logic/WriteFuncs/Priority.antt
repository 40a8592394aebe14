-- ===== src/Logic/WriteFuncs/Priority.antt =====
-- Events before rows, in `executeWriteFuncs` of go/logic/migrator.go.
use ghost_source_code_readin.Base.{
  All, if◌then◌else◌, some, none, Bool, List, [], ap, false, refl, true, ◌++◌, ◌∙◌, ◌∷◌, ◌≡◌,
}
use ghost_source_code_readin.Base.Int.{ℤ}
use ghost_source_code_readin.Logic.Migrator.{ApplyEvent, Operation}
use ghost_source_code_readin.Logic.WriteFuncs.{
  Looped, Round, WriteOps, WriteQueues, execute_write_funcs, next_round, select_write, write_round,
  write_rounds,
}

-- An event comes in before the round.
unfoldable pub BringsEvent : {D W C : Type 0} → Round D W C → Type 0
BringsEvent r = ¬ (r.new_events ≡ [])

module _ {κ ℓ} {D W C : Type 0} {E : Type κ} {S : Type ℓ} (ops : WriteOps D W C E S)
    (batch_size : ℤ) (other : C → Operation E S) (sleep : S → S) where
  -- The same calls, but for what copying and idle sleep do.
  abbrev pub elsewhere : WriteOps D W C E S
  elsewhere = record ops { copy_rows = other; sleep_second = sleep }

  select_write-event :
      (events news : List (ApplyEvent D W)) (copies : List C) (s : S)
      → ¬ (news ≡ [])
      → select_write ops batch_size (events ++ news) copies s
        ≡ select_write elsewhere batch_size (events ++ news) copies s
  unfolding select_write
  select_write-event [] [] copies s h = absurd (h refl)
  select_write-event [] (event ∷ news) copies s h = refl
  select_write-event (event ∷ events) news copies s h = refl

  write_round-event :
      (r : Round D W C) (q : WriteQueues D W C S)
      → BringsEvent r
      → write_round ops batch_size r q ≡ write_round elsewhere batch_size r q
  unfolding write_round BringsEvent
  write_round-event r q h =
      ap (λ looped. if r.finished_migrating then (some none, q) else looped)
        (select_write-event q.apply_events_queue r.new_events (q.copy_rows_queue ++ r.new_copies)
          (ops.throttle q.state) h)

  next_round-same :
      (looped : Looped ops batch_size) (f g : WriteQueues D W C S → Looped ops batch_size)
      → ((q : WriteQueues D W C S) → f q ≡ g q)
      → next_round ops batch_size looped f ≡ next_round ops batch_size looped g
  next_round-same (some r, q) f g h = refl
  next_round-same (none, q) f g h = h q

  write_rounds-events :
      (rounds : List (Round D W C)) (q : WriteQueues D W C S)
      → All BringsEvent rounds
      → write_rounds ops batch_size rounds q ≡ write_rounds elsewhere batch_size rounds q
  write_rounds-events [] q h = refl
  write_rounds-events (r ∷ rounds) q (h, hs) =
      ap (λ looped. next_round ops batch_size looped (write_rounds ops batch_size rounds))
        (write_round-event r q h)
      ∙ next_round-same (write_round elsewhere batch_size r q) (write_rounds ops batch_size rounds)
          (write_rounds elsewhere batch_size rounds) (λ t. write_rounds-events rounds t hs)

  -- As long as an event comes in before each round, no rows are copied and there is no idle sleep: what
  -- the loop returns, the queues and the state are the same whatever copying rows and sleeping would do.
  pub execute_write_funcs-events_first :
      (noop : Bool) (rounds : List (Round D W C)) (q : WriteQueues D W C S)
      → All BringsEvent rounds
      → execute_write_funcs ops batch_size noop rounds q
        ≡ execute_write_funcs elsewhere batch_size noop rounds q
  unfolding execute_write_funcs
  execute_write_funcs-events_first true rounds q h = refl
  execute_write_funcs-events_first false rounds q h = write_rounds-events rounds q h
