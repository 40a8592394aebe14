-- ===== src/Logic/CutOver/Challenge.antt =====
-- When `waitForEventsUpToLock` of go/logic/migrator.go returns nil.
use ghost_source_code_readin.Base.{
  All, Bool, Bool-cases, List, Option, [], ap, arith, false, inl, inr, map, none, refl, some, sym,
  true, ◌++◌, ◌↔◌, ◌∙◌, ◌∷◌, ◌≡◌,
}
use ghost_source_code_readin.Base.Int.{ℤ}
use ghost_source_code_readin.Text.{Text, text_eq}
use ghost_source_code_readin.Logic.CutOver.Await.{
  Arrival, after_write, await_challenge, challenge, state_processed, timed_out,
  wait_for_events_up_to_lock,
}

-- The states that come before the challenge are all other ones, and no timer ends before it.
pub record IsAnswered (c : Text) (arrivals : List Arrival) : Type 0 where
  pub before : List Text
  pub answer : Text
  pub after : List Arrival
  pub in_order : arrivals ≡ map state_processed before ++ state_processed answer ∷ after
  pub others : All (λ s. text_eq s c ≡ false) before
  pub answered : text_eq answer c ≡ true

IsAnswered-skip :
    {c : Text} {arrivals : List Arrival} (s : Text)
    → text_eq s c ≡ false
    → IsAnswered c arrivals
    → IsAnswered c (state_processed s ∷ arrivals)
IsAnswered-skip s other a = record {
  before = s ∷ a.before;
  answer = a.answer;
  after = a.after;
  in_order = ap (λ l. state_processed s ∷ l) a.in_order;
  others = (other, a.others);
  answered = a.answered;
}

await_challenge-IsAnswered :
    (c : Text) (arrivals : List Arrival)
    → await_challenge c arrivals ≡ some none
    → IsAnswered c arrivals
unfolding await_challenge
await_challenge-IsAnswered c [] h = absurd cc
await_challenge-IsAnswered c (timed_out ∷ arrivals) h = absurd cc
await_challenge-IsAnswered c (state_processed s ∷ arrivals) h = elim (Bool-cases (text_eq s c)) [
  | inl same ↦ record {
    before = [];
    answer = s;
    after = arrivals;
    in_order = refl;
    others = tt;
    answered = same;
  }
  | inr other ↦ IsAnswered-skip s other (await_challenge-IsAnswered c arrivals (ground (arith, h)))
]

IsAnswered-await_challenge :
    (c : Text) (before : List Text) (answer : Text) (after : List Arrival)
    → All (λ s. text_eq s c ≡ false) before
    → text_eq answer c ≡ true
    → await_challenge c (map state_processed before ++ state_processed answer ∷ after) ≡ some none
unfolding await_challenge
IsAnswered-await_challenge c [] answer after others same = ground arith
IsAnswered-await_challenge c (s ∷ before) answer after (other, others) same =
    ground (arith, IsAnswered-await_challenge c before answer after others same)

written_first :
    (now : ℤ) (write : Text → Option Text) (arrivals : List Arrival) (injected : Bool)
    → write (challenge now) ≡ none
    → wait_for_events_up_to_lock now write arrivals injected
      ≡ (await_challenge (challenge now) arrivals, true)
unfolding wait_for_events_up_to_lock
written_first now write arrivals injected written =
    ap (λ r. after_write r (await_challenge (challenge now) arrivals) injected) written

-- `waitForEventsUpToLock`, once its challenge is written, returns nil just if the challenge comes back
-- before the timer ends, behind any number of other states; then it has set
-- `AllEventsUpToLockProcessedInjectedFlag`.
pub wait_for_events_up_to_lock-IsAnswered :
    (now : ℤ) (write : Text → Option Text) (arrivals : List Arrival) (injected : Bool)
    → write (challenge now) ≡ none
    → (wait_for_events_up_to_lock now write arrivals injected ≡ (some none, true))
      ↔ IsAnswered (challenge now) arrivals
wait_for_events_up_to_lock-IsAnswered now write arrivals injected written = (
  λ h.
      await_challenge-IsAnswered (challenge now) arrivals
        (sym (ap (λ r. r.0) (written_first now write arrivals injected written)) ∙ ap (λ r. r.0) h),
  λ a.
      written_first now write arrivals injected written
      ∙ ap (λ r. (r, true))
          (ap (await_challenge (challenge now)) a.in_order
            ∙ IsAnswered-await_challenge (challenge now) a.before a.answer a.after a.others
                a.answered),
)
