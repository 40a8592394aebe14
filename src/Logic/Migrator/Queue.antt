-- ===== src/Logic/Migrator/Queue.antt =====
-- The events and functions of the queue take effect once, in order, however they are batched.
use ghost_source_code_readin.Base.{
  ℕ, zero, suc, ◌+◌, ◌≤◌, ◌≡◌, ◌∙◌, refl, ap, Option, none, some, List, [], ◌∷◌, ◌++◌, map, length,
  arith, append_assoc, append-nil,
}
use ghost_source_code_readin.Base.Int.{ℤ, pos, ◌≤ℤ◌, ◌-ℤ◌, pos_part}
use ghost_source_code_readin.Logic.Migrator.{
  Operation, ApplyEvent, dml_event, write_func, take_batch, add_event, available_events,
  handle_non_dml, apply_batch, on_apply_event_struct, drain_events,
}

module _ {ℓ κ} {D : Type ℓ} {W : Type κ} where
  -- What the queue's entries do: an event is applied, a function is called, and nil does nothing.
  unfoldable pub effects : List (ApplyEvent D W) → List (ApplyEvent D W)
  effects [] = []
  effects (dml_event d ∷ q) = dml_event d ∷ effects q
  effects (write_func none ∷ q) = effects q
  effects (write_func (some w) ∷ q) = write_func (some w) ∷ effects q

  abbrev pub optional : Option (Option W) → List (ApplyEvent D W)
  optional none = []
  optional (some w) = write_func w ∷ []

  effects-call :
      (w : Option W) (q : List (ApplyEvent D W))
      → effects (write_func w ∷ []) ++ effects q ≡ effects (write_func w ∷ q)
  unfolding effects
  effects-call none q = refl
  effects-call (some w) q = refl

  abbrev pub batch_effects :
      List D × Option (Option W) × List (ApplyEvent D W) → List (ApplyEvent D W)
  batch_effects b = map dml_event b.0 ++ (effects (optional b.1) ++ effects b.2)

  add_event-effects :
      (d : D) (b : List D × Option (Option W) × List (ApplyEvent D W))
      → batch_effects (add_event d b) ≡ dml_event d ∷ batch_effects b
  add_event-effects d (ds, other, rest) = refl

  take_batch-effects :
      (n : ℕ) (q : List (ApplyEvent D W)) → batch_effects (take_batch n q) ≡ effects q
  unfolding take_batch effects
  take_batch-effects zero q = refl
  take_batch-effects (suc n) [] = refl
  take_batch-effects (suc n) (dml_event d ∷ q) =
      add_event-effects d (take_batch n q) ∙ ap (λ l. dml_event d ∷ l) (take_batch-effects n q)
  take_batch-effects (suc n) (write_func none ∷ q) = refl
  take_batch-effects (suc n) (write_func (some w) ∷ q) = refl

  add_event-rest :
      (d : D) (b : List D × Option (Option W) × List (ApplyEvent D W)) → (add_event d b).2 ≡ b.2
  add_event-rest d (ds, other, rest) = refl

  take_batch-rest : (n : ℕ) (q : List (ApplyEvent D W)) → length (take_batch n q).2 ≤ length q
  unfolding take_batch
  take_batch-rest zero q = omega arith
  take_batch-rest (suc n) [] = omega arith
  take_batch-rest (suc n) (dml_event d ∷ q) =
      rw (add_event-rest d (take_batch n q)) (omega (arith, take_batch-rest n q))
  take_batch-rest (suc n) (write_func w ∷ q) = omega arith

  add_event-size :
      (d : D) (b : List D × Option (Option W) × List (ApplyEvent D W))
      → length (add_event d b).0 ≡ length b.0 + 1
  add_event-size d (ds, other, rest) = omega arith

  take_batch-size : (n : ℕ) (q : List (ApplyEvent D W)) → length (take_batch n q).0 ≤ n
  unfolding take_batch
  take_batch-size zero q = omega arith
  take_batch-size (suc n) [] = omega arith
  take_batch-size (suc n) (dml_event d ∷ q) =
      omega (arith, add_event-size d (take_batch n q), take_batch-size n q)
  take_batch-size (suc n) (write_func w ∷ q) = omega arith

  available_events-room :
      (b : ℤ) (q : List (ApplyEvent D W)) → pos 1 ≤ℤ b → available_events b q + 1 ≤ pos_part b
  unfolding available_events ◌-ℤ◌
  available_events-room b q h = ground arith

  -- With a batch size of at least 1, a batch has at most as many events as the size, the first one
  -- included. It, what ended it, and what is left of the queue do what the queue does.
  take_batch-bounded :
      (b : ℤ) (q : List (ApplyEvent D W))
      → pos 1 ≤ℤ b
      → (length (take_batch (available_events b q) q).0 + 1 ≤ pos_part b)
        × (batch_effects (take_batch (available_events b q) q) ≡ effects q)
  take_batch-bounded b q h = (
    omega (arith, take_batch-size (available_events b q) q, available_events-room b q h),
    take_batch-effects (available_events b q) q,
  )

  -- A world that records what is done to it: nothing fails.
  unfoldable pub record_events {μ} : {E : Type μ} → List D → Operation E (List (ApplyEvent D W))
  record_events ds log = (none, log ++ map dml_event ds)

  unfoldable pub record_call {μ} : {E : Type μ} → W → Operation E (List (ApplyEvent D W))
  record_call w log = (none, log ++ write_func (some w) ∷ [])

module _ {ℓ κ μ} {D : Type ℓ} {W : Type κ} {E : Type μ} where
  handle-logs :
      (other : Option (Option W)) (log : List (ApplyEvent D W))
      → handle_non_dml (record_events {E = E}) record_call other log
        ≡ (none, log ++ effects (optional other))
  unfolding handle_non_dml effects record_call
  handle-logs none log = rw (append-nil log)
  handle-logs (some none) log = rw (append-nil log)
  handle-logs (some (some w)) log = refl

  apply_batch-logs :
      (d : D) (b : List D × Option (Option W) × List (ApplyEvent D W)) (log : List (ApplyEvent D W))
      → apply_batch (record_events {E = E}) record_call d b log
        ≡ ((none, (log ++ map dml_event (d ∷ b.0)) ++ effects (optional b.1)), b.2)
  unfolding record_events
  apply_batch-logs d (ds, other, rest) log = rw (handle-logs other (log ++ map dml_event (d ∷ ds)))

  -- In a world that records what is done to it, where nothing fails, emptying the queue does what the
  -- queue's entries do, each once and in order, at every batch size, as soon as the fuel is the length of
  -- the queue; nothing is left.
  pub drain_events-in_order :
      (n : ℕ) (b : ℤ) (q log : List (ApplyEvent D W))
      → length q ≤ n
      → drain_events (record_events {E = E}) record_call n b q log ≡ (none, log ++ effects q, [])
  unfolding drain_events on_apply_event_struct effects
  drain_events-in_order zero b [] log h = rw (append-nil log)
  drain_events-in_order zero b (e ∷ q) log h = absurd (omega arith)
  drain_events-in_order (suc n) b [] log h = rw (append-nil log)
  drain_events-in_order (suc n) b (write_func w ∷ q) log h = rw (
    handle-logs (some w) log,
    drain_events-in_order n b q (log ++ effects (write_func w ∷ [])) (omega arith),
    append_assoc log (effects (write_func w ∷ [])) (effects q),
    effects-call w q,
  )
  drain_events-in_order (suc n) b (dml_event d ∷ q) log h =
      let a = available_events b q in
      let batch = take_batch a q in
      rw (
        apply_batch-logs d batch log,
        drain_events-in_order n b batch.2
            ((log ++ map dml_event (d ∷ batch.0)) ++ effects (optional batch.1))
            (omega (arith, take_batch-rest a q)),
        append_assoc (log ++ map dml_event (d ∷ batch.0)) (effects (optional batch.1))
            (effects batch.2),
        append_assoc log (map dml_event (d ∷ batch.0))
            (effects (optional batch.1) ++ effects batch.2),
        take_batch-effects a q,
      )
