-- ===== src/Logic/Migrator.antt =====
-- go/logic/migrator.go: operations that are tried again, and the queue of events to apply. An
-- operation takes the state of the world to an error or none and a new state.
pub mod Retry
pub mod Queue
use ghost_source_code_readin.Base.{
  ℕ, zero, suc, ◌+◌, ◌-◌, ◌^◌, Bool, true, false, not, Option, none, some, List, [], ◌∷◌, ◌++◌,
  length, ltb, if◌then◌else◌,
}
use ghost_source_code_readin.Base.Int.{ℤ, pos, negsuc, ltb_ℤ, ◌-ℤ◌, pos_part}
use ghost_source_code_readin.Base.Dict.{is_some}

module _ {ℓ κ} (E : Type ℓ) (S : Type κ) where
  -- `func() error`
  abbrev pub Operation : Type (ℓ ⊔ κ)
  Operation = S → Option E × S

-- How a loop of attempts ends: with one that succeeds, or with the last error.
pub data Attempts {ℓ κ} (E : Type ℓ) (S : Type κ) : Type (ℓ ⊔ κ) where
  succeeded : S → Attempts E S
  exhausted : Option E → S → Attempts E S

-- The error that is returned, the state, and what `PanicAbort` is sent, if anything.
pub record Retried {ℓ κ} (E : Type ℓ) (S : Type κ) : Type (ℓ ⊔ κ) where
  pub result : Option E
  pub state : S
  pub panic_abort : Option (Option E)

module _ {ℓ κ} {E : Type ℓ} {S : Type κ} where
  abbrev pub after_attempt : Option E × S → (Option E → S → Attempts E S) → Attempts E S
  after_attempt (none, s) again = succeeded s
  after_attempt (some e, s) again = again (some e) s

  -- The loop, with the number of attempts that are left.
  unfoldable pub attempts : ℕ → Operation E S → Option E → S → Attempts E S
  attempts zero op last s = exhausted last s
  attempts (suc n) op last s = after_attempt (op s) (λ e t. attempts n op e t)

  abbrev pub retried : Bool → Attempts E S → Retried E S
  retried not_fatal (succeeded s) = record { result = none; state = s; panic_abort = none }
  retried not_fatal (exhausted last s) = record {
    result = last;
    state = s;
    panic_abort = (if not_fatal then none else some last);
  }

  -- `retryOperation`, of `int(MaxRetries())` attempts.
  unfoldable pub retry_operation : ℤ → Operation E S → Bool → S → Retried E S
  unfolding attempts
  retry_operation max_retries op not_fatal s =
      retried not_fatal (attempts (pos_part max_retries) op none s)

-- `int64(math.Exp2(float64(i - 1)))`, for `i` below 64.
unfoldable pub backoff_step : ℕ → ℤ
backoff_step zero = pos 0
backoff_step (suc i) = pos (2 ^ i)

-- The interval before the attempt `i` of `retryOperationWithExponentialBackoff`, in seconds; there is
-- no sleep before the attempt 0.
unfoldable pub backoff_interval : ℤ → ℕ → ℤ
unfolding backoff_step
backoff_interval max_interval zero =
    if ltb_ℤ max_interval (backoff_step 0) then pos 0 else backoff_step 0
backoff_interval max_interval (suc i) =
    let before = backoff_interval max_interval i in
    if ltb_ℤ max_interval (backoff_step (suc i)) then before else backoff_step (suc i)

-- `applyEventStruct`: an event, or a function, of which `none` is nil.
pub data ApplyEvent {ℓ κ} (D : Type ℓ) (W : Type κ) : Type (ℓ ⊔ κ) where
  dml_event : D → ApplyEvent D W
  write_func : Option W → ApplyEvent D W

module _ {ℓ κ} {D : Type ℓ} {W : Type κ} where
  abbrev add_event :
      D
      → List D × Option (Option W) × List (ApplyEvent D W)
      → List D × Option (Option W) × List (ApplyEvent D W)
  add_event d (ds, other, rest) = (d ∷ ds, other, rest)

  -- The loop that takes more events from the queue, up to one that is no event.
  unfoldable pub take_batch :
      ℕ → List (ApplyEvent D W) → List D × Option (Option W) × List (ApplyEvent D W)
  take_batch zero queue = ([], none, queue)
  take_batch (suc n) [] = ([], none, [])
  take_batch (suc n) (dml_event d ∷ queue) = add_event d (take_batch n queue)
  take_batch (suc n) (write_func w ∷ queue) = ([], some w, queue)

  -- The number of events to take besides the first.
  unfoldable pub available_events : ℤ → List (ApplyEvent D W) → ℕ
  available_events batch_size queue =
      let room = batch_size -ℤ pos 1 in
      if ltb_ℤ room (pos (length queue)) then pos_part room else length queue

module _ {ℓ κ μ ν} {D : Type ℓ} {W : Type κ} {E : Type μ} {S : Type ν}
    -- `Applier.ApplyDMLEventQueries` and the call of a write function, each tried again.
    (apply_events : List D → Operation E S) (run : W → Operation E S) where
  -- `handleNonDMLEventStruct`, on its function; for `none` there is nothing to handle.
  unfoldable pub handle_non_dml : Option (Option W) → Operation E S
  handle_non_dml none s = (none, s)
  handle_non_dml (some none) s = (none, s)
  handle_non_dml (some (some w)) s = run w s

  abbrev then_handle : Option E × S → Option (Option W) → Option E × S
  then_handle (some e, s) other = (some e, s)
  then_handle (none, s) other = handle_non_dml other s

  abbrev apply_batch :
      D
      → List D × Option (Option W) × List (ApplyEvent D W)
      → S
      → (Option E × S) × List (ApplyEvent D W)
  apply_batch d (ds, other, rest) s = (then_handle (apply_events (d ∷ ds) s) other, rest)

  -- `onApplyEventStruct`: the error, the state, and the rest of the queue.
  unfoldable pub on_apply_event_struct :
      ℤ → ApplyEvent D W → List (ApplyEvent D W) → S → (Option E × S) × List (ApplyEvent D W)
  unfolding handle_non_dml take_batch available_events
  on_apply_event_struct batch_size (write_func w) queue s = (handle_non_dml (some w) s, queue)
  on_apply_event_struct batch_size (dml_event d) queue s =
      apply_batch d (take_batch (available_events batch_size queue) queue) s

  abbrev go_on :
      (Option E × S) × List (ApplyEvent D W)
      → (List (ApplyEvent D W) → S → Option E × S × List (ApplyEvent D W))
      → Option E × S × List (ApplyEvent D W)
  go_on ((some e, s), queue) rest = (some e, s, queue)
  go_on ((none, s), queue) rest = rest queue s

  -- The part of `executeWriteFuncs` that empties the queue of events, with fuel: it ends at an error,
  -- when no event is left, or when the fuel is used up.
  unfoldable pub drain_events :
      ℕ → ℤ → List (ApplyEvent D W) → S → Option E × S × List (ApplyEvent D W)
  unfolding on_apply_event_struct
  drain_events zero batch_size queue s = (none, s, queue)
  drain_events (suc n) batch_size [] s = (none, s, [])
  drain_events (suc n) batch_size (e ∷ queue) s =
      go_on (on_apply_event_struct batch_size e queue s) (λ q t. drain_events n batch_size q t)
