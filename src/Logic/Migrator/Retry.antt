-- ===== src/Logic/Migrator/Retry.antt =====
-- Attempts and the intervals between them.
use ghost_source_code_readin.Base.{
  Bool, Option, arith, false, if◌then◌else◌, none, refl, some, suc, true, zero, ℕ, ◌<◌, ◌^◌, ◌∙◌,
  ◌≡◌, ◌≤◌,
}
use ghost_source_code_readin.Base.Int.{pos, ◌≤ℤ◌}
use ghost_source_code_readin.Base.Dict.{is_some}
use ghost_source_code_readin.Logic.Migrator.{
  Attempts, Operation, after_attempt, attempts, backoff_interval, backoff_step, exhausted, retried,
  retry_operation, succeeded,
}

module _ {ℓ κ} {E : Type ℓ} {S : Type κ} (op : Operation E S) where
  -- The state after some calls, and the error of the call that follows.
  unfoldable pub state_after : ℕ → S → S
  state_after zero s = s
  state_after (suc k) s = state_after k (op s).1

  abbrev pub error_of : ℕ → S → Option E
  error_of k s = (op (state_after k s)).0

  after_attempt-succeeded :
      (r : Option E × S) (again : Option E → S → Attempts E S)
      → is_some r.0 ≡ false
      → after_attempt r again ≡ succeeded r.1
  after_attempt-succeeded (none, s) again h = refl
  after_attempt-succeeded (some e, s) again h = cc

  after_attempt-failed :
      (r : Option E × S) (again : Option E → S → Attempts E S)
      → is_some r.0 ≡ true
      → after_attempt r again ≡ again r.0 r.1
  after_attempt-failed (none, s) again h = cc
  after_attempt-failed (some e, s) again h = refl

  attempts-first_success :
      (k n : ℕ) (last : Option E) (s : S)
      → k < n
      → ((i : ℕ) → i < k → is_some (error_of i s) ≡ true)
      → is_some (error_of k s) ≡ false
      → attempts n op last s ≡ succeeded (state_after (suc k) s)
  unfolding attempts state_after
  attempts-first_success k zero last s small before now = absurd (omega arith)
  attempts-first_success zero (suc n) last s small before now =
      after_attempt-succeeded (op s) (λ e t. attempts n op e t) now
  attempts-first_success (suc k) (suc n) last s small before now =
      after_attempt-failed (op s) (λ e t. attempts n op e t) (before 0 (omega arith))
      ∙ attempts-first_success k n (op s).0 (op s).1 (omega arith)
          (λ i h. before (suc i) (omega arith)) now

  attempts-all_fail :
      (n : ℕ) (last : Option E) (s : S)
      → ((i : ℕ) → i < suc n → is_some (error_of i s) ≡ true)
      → attempts (suc n) op last s ≡ exhausted (error_of n s) (state_after (suc n) s)
  unfolding attempts state_after
  attempts-all_fail zero last s h =
      after_attempt-failed (op s) (λ e t. exhausted e t) (h 0 (omega arith))
  attempts-all_fail (suc n) last s h =
      after_attempt-failed (op s) (λ e t. attempts (suc n) op e t) (h 0 (omega arith))
      ∙ attempts-all_fail n (op s).0 (op s).1 (λ i k. h (suc i) (omega arith))

  -- The call that is the first to succeed, within the number of attempts, is the last call: no error is
  -- returned, and nothing panics.
  pub retry_operation-first_success :
      (k n : ℕ) (not_fatal : Bool) (s : S)
      → k < n
      → ((i : ℕ) → i < k → is_some (error_of i s) ≡ true)
      → is_some (error_of k s) ≡ false
      → retry_operation (pos n) op not_fatal s
        ≡ record { result = none; state = state_after (suc k) s; panic_abort = none }
  unfolding retry_operation
  retry_operation-first_success k n not_fatal s small before now =
      rw (attempts-first_success k n none s small before now)

  -- When every attempt fails, of which there is at least one, the operation is called as often as there
  -- are attempts, the last error is returned, and the migration is aborted with it, unless the caller
  -- says that it is not fatal.
  retry_operation-all_fail :
      (n : ℕ) (not_fatal : Bool) (s : S)
      → ((i : ℕ) → i < suc n → is_some (error_of i s) ≡ true)
      → retry_operation (pos (suc n)) op not_fatal s ≡ record {
        result = error_of n s;
        state = state_after (suc n) s;
        panic_abort = (if not_fatal then none else some (error_of n s));
      }
  unfolding retry_operation
  retry_operation-all_fail n not_fatal s h = rw (attempts-all_fail n none s h)

pow_pos : (i : ℕ) → 1 ≤ 2 ^ i
pow_pos zero = omega arith
pow_pos (suc i) = omega (arith, pow_pos i)

-- With a maximal interval of a second or more, every wait between two attempts is from a second up to
-- that interval.
backoff_interval-bounds :
    (max i : ℕ)
    → 1 ≤ max
    → (pos 1 ≤ℤ backoff_interval (pos max) (suc i))
      × (backoff_interval (pos max) (suc i) ≤ℤ pos max)
unfolding backoff_interval backoff_step
backoff_interval-bounds max zero h = (ground arith, ground arith)
backoff_interval-bounds max (suc i) h =
    let (low, high) = backoff_interval-bounds max i h in ground (arith, pow_pos (suc i))

module _ {ℓ κ μ} {E : Type ℓ} {S : Type κ} (Before After : S → Type μ) where
  -- What an operation leaves: at an error what was there before, else what it is for.
  abbrev pub Leaves : Option E × S → Type μ
  Leaves (none, s) = After s
  Leaves (some e, s) = Before s

  abbrev result_of : Attempts E S → Option E × S
  result_of (succeeded s) = (none, s)
  result_of (exhausted last s) = (last, s)

  after_attempt-Leaves :
      (op : Operation E S) (n : ℕ) (r : Option E × S)
      → ((e : E) (t : S) → Before t → Leaves (result_of (attempts n op (some e) t)))
      → Leaves r
      → Leaves (result_of (after_attempt r (λ e t. attempts n op e t)))
  after_attempt-Leaves op n (none, s) rest h = h
  after_attempt-Leaves op n (some e, s) rest h = rest e s h

  attempts-Leaves :
      (op : Operation E S) (n : ℕ) (e : E) (s : S)
      → ((t : S) → Before t → Leaves (op t))
      → Before s
      → Leaves (result_of (attempts n op (some e) s))
  unfolding attempts
  attempts-Leaves op zero e s keeps h = h
  attempts-Leaves op (suc n) e s keeps h =
      after_attempt-Leaves op n (op s) (λ x t b. attempts-Leaves op n x t keeps b) (keeps s h)

  retried-result :
      (a : Attempts E S)
      → ((retried false a).result ≡ (result_of a).0) × ((retried false a).state ≡ (result_of a).1)
  retried-result (succeeded s) = (refl, refl)
  retried-result (exhausted last s) = (refl, refl)

  -- `retryOperation` leaves what each attempt leaves.
  pub retry_operation-Leaves :
      (op : Operation E S) (n : ℕ) (s : S)
      → ((t : S) → Before t → Leaves (op t))
      → Before s
      → Leaves (
        (retry_operation (pos (suc n)) op false s).result,
        (retry_operation (pos (suc n)) op false s).state,
      )
  unfolding retry_operation attempts
  retry_operation-Leaves op n s keeps h =
      let a = after_attempt (op s) (λ e t. attempts n op e t) in
      let (result, state) = retried-result a in
      rw (result, state)
        (after_attempt-Leaves op n (op s) (λ x t b. attempts-Leaves op n x t keeps b) (keeps s h))
