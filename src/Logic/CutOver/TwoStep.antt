-- ===== src/Logic/CutOver/TwoStep.antt =====
-- `cutOverTwoStep` of go/logic/migrator.go: what it has done when it returns.
use ghost_source_code_readin.Base.{
  ℕ, zero, suc, ◌<◌, ◌≡◌, ◌∙◌, sym, ap, refl, true, false, Option, none, some, arith,
}
use mathlib.Core.Path.{subst}
use ghost_source_code_readin.Base.Int.{pos}
use ghost_source_code_readin.Base.Dict.{is_some}
use ghost_source_code_readin.Logic.Migrator.{
  Attempts, Operation, after_attempt, attempts, retried, retry_operation,
}
use ghost_source_code_readin.Logic.Migrator.Retry.{error_of, state_after}
use ghost_source_code_readin.Logic.Operations.{continue_with-none, ◌>>>◌}
use ghost_source_code_readin.Logic.CutOver.{
  CutOverOps, CutOverState, cut_over_two_step, enter_critical, leave_critical, retried_op,
  return_retried, set_critical,
}

module _ {ℓ κ} {E : Type ℓ} {S : Type κ} where
  -- One of the first `n` attempts succeeds, after failures only, and leaves the state `t`.
  pub record Succeeds (n : ℕ) (op : Operation E S) (s t : S) : Type (ℓ ⊔ κ) where
    pub failures : ℕ
    pub few : failures < n
    pub failed : (i : ℕ) → i < failures → is_some (error_of op i s) ≡ true
    pub succeeded_then : is_some (error_of op failures s) ≡ false
    pub leaves : state_after op (suc failures) s ≡ t

  Succeeds-now :
      {n : ℕ} {op : Operation E S} {s : S} {t : S} → op s ≡ (none, t) → Succeeds (suc n) op s t
  unfolding state_after
  Succeeds-now e = record {
    failures = 0;
    few = omega arith;
    failed = λ i small. absurd (omega arith);
    succeeded_then = ap (λ r. is_some r.0) e;
    leaves = ap (λ r. r.1) e;
  }

  Succeeds-later :
      {n : ℕ} {op : Operation E S} {s t : S}
      → is_some (op s).0 ≡ true
      → Succeeds n op (op s).1 t
      → Succeeds (suc n) op s t
  unfolding state_after
  Succeeds-later {op} {s} first k = record {
    failures = suc k.failures;
    few = omega (arith, k.few);
    failed = failures_before;
    succeeded_then = k.succeeded_then;
    leaves = k.leaves;
  }
    where
      failures_before : (i : ℕ) → i < suc k.failures → is_some (error_of op i s) ≡ true
      failures_before zero small = first
      failures_before (suc i) small = k.failed i (omega arith)

module _ {ℓ κ} {E : Type ℓ} {Db : Type κ} (op : Operation E (CutOverState E Db)) where
  abbrev outcome : Attempts E (CutOverState E Db) → Option E × CutOverState E Db
  outcome a = return_retried (retried false a)

  -- An attempt, and what the attempts after it come to.
  attempt-Succeeds :
      (n : ℕ) (s t : CutOverState E Db) (r : Option E × CutOverState E Db)
      → op s ≡ r
      → ((e : E) (u : CutOverState E Db)
          → outcome (attempts n op (some e) u) ≡ (none, t)
          → Succeeds n op u t)
      → outcome (after_attempt r (λ e u. attempts n op e u)) ≡ (none, t)
      → Succeeds (suc n) op s t
  attempt-Succeeds n s t (none, u) e rest h = Succeeds-now (e ∙ h)
  attempt-Succeeds n s t (some x, u) e rest h =
      Succeeds-later (ap (λ r. is_some r.0) e)
        (subst (λ v. Succeeds n op v t) (sym (ap (λ r. r.1) e)) (rest x u h))

  attempts-Succeeds :
      (n : ℕ) (e : E) (s t : CutOverState E Db)
      → outcome (attempts n op (some e) s) ≡ (none, t)
      → Succeeds n op s t
  unfolding attempts
  attempts-Succeeds zero e s t h = absurd (cc (ap (λ r. r.0) h))
  attempts-Succeeds (suc n) e s t h =
      attempt-Succeeds n s t (op s) refl (λ x u. attempts-Succeeds n x u t) h

  pub retried_op-Succeeds :
      (n : ℕ) (s t : CutOverState E Db)
      → retried_op (pos (suc n)) op s ≡ (none, t)
      → Succeeds (suc n) op s t
  unfolding retried_op retry_operation attempts
  retried_op-Succeeds n s t h =
      attempt-Succeeds n s t (op s) refl (λ x u. attempts-Succeeds n x u t) h

-- The four operations have succeeded, one after the other, each within `n` attempts.
pub record IsSwapped {ℓ κ} {E : Type ℓ} {Db : Type κ} (n : ℕ) (ops : CutOverOps E Db)
    (s t : CutOverState E Db) : Type (ℓ ⊔ κ) where
  pub locked : CutOverState E Db
  pub processed : CutOverState E Db
  pub swapped : CutOverState E Db
  pub locks : Succeeds n ops.lock_original s locked
  pub Waits : Succeeds n ops.wait_for_events locked processed
  pub swaps : Succeeds n ops.swap_tables processed swapped
  pub unlocks : Succeeds n ops.unlock_original swapped t

module _ {ℓ κ} {E : Type ℓ} {Db : Type κ} (n : ℕ) (ops : CutOverOps E Db) where
  -- An operation that is tried again, and the rest after it.
  retried_first :
      (op rest : Operation E (CutOverState E Db)) (s t : CutOverState E Db)
      → (retried_op (pos (suc n)) op >>> rest) s ≡ (none, t)
      → (u : CutOverState E Db) × Succeeds (suc n) op s u × (rest u ≡ (none, t))
  retried_first op rest s t h =
      let r = retried_op (pos (suc n)) op s in
      let (done, later) = continue_with-none r rest h in
      (r.1, retried_op-Succeeds op n s r.1 (ap (λ e. (e, r.1)) done), later)

  leave_critical-none :
      (r : Option E × CutOverState E Db) (t : CutOverState E Db)
      → leave_critical r ≡ (none, t)
      → (r ≡ (none, r.1)) × (set_critical false r.1 ≡ t)
  leave_critical-none (none, s) t h = (refl, ap (λ r. r.1) h)
  leave_critical-none (some e, s) t h = absurd cc

  -- When it may try at least once, `cutOverTwoStep` returns nil only if the original table was locked,
  -- then the events up to the lock were processed, then the tables were swapped, and then they were
  -- unlocked, each within the allowed number of attempts, of which all before the last have failed; and
  -- the state it leaves is that of the last of them with `InCutOverCriticalSectionFlag` cleared.
  pub cut_over_two_step-IsSwapped :
      (s t : CutOverState E Db)
      → cut_over_two_step (pos (suc n)) ops s ≡ (none, t)
      → (u : CutOverState E Db) × IsSwapped (suc n) ops (enter_critical s) u
        × (set_critical false u ≡ t)
  unfolding cut_over_two_step
  cut_over_two_step-IsSwapped s t h =
      let run = retried_op (pos (suc n)) in
      let swap_then = run ops.swap_tables >>> run ops.unlock_original in
      let wait_then = run ops.wait_for_events >>> swap_then in
      let all = (run ops.lock_original >>> wait_then) (enter_critical s) in
      let (done, left) = leave_critical-none all t h in
      let (a, locks, after_lock) =
        retried_first ops.lock_original wait_then (enter_critical s) all.1 done in
      let (b, Waits, after_wait) = retried_first ops.wait_for_events swap_then a all.1 after_lock in
      let (c, swaps, after_swap) =
        retried_first ops.swap_tables (run ops.unlock_original) b all.1 after_wait in
      (
        all.1,
        record {
          locked = a;
          processed = b;
          swapped = c;
          locks = locks;
          Waits = Waits;
          swaps = swaps;
          unlocks = retried_op-Succeeds ops.unlock_original n c all.1 after_swap;
        },
        left,
      )
