-- ===== src/Logic/CutOver/Await.antt =====
-- go/logic/migrator.go, `waitForEventsUpToLock`: what arrives while the challenge is awaited is a
-- parameter: the state of an event of the changelog, or the end of the timer.
use ghost_source_code_readin.Base.{
  Bool, true, Option, none, some, List, [], ◌∷◌, ◌++◌, if◌then◌else◌,
}
use ghost_source_code_readin.Base.Int.{ℤ}
use ghost_source_code_readin.Text.{Text, txt, text_eq}
use ghost_source_code_readin.Text.Decimal.{itoa_int}

pub data Arrival : Type 0 where
  timed_out : Arrival
  state_processed : Text → Arrival

-- The challenge, with the time in nanoseconds at which it is made.
abbrev pub challenge : ℤ → Text
challenge now = txt "AllEventsUpToLockProcessed:" ++ itoa_int now

abbrev pub wait_timeout : Text
wait_timeout = txt "Timeout while waiting for events up to lock"

-- The loop: `none` while nothing that ends it has arrived, else the error, which is nil for the
-- challenge itself.
unfoldable pub await_challenge : Text → List Arrival → Option (Option Text)
await_challenge c [] = none
await_challenge c (timed_out ∷ arrivals) = some (some wait_timeout)
await_challenge c (state_processed s ∷ arrivals) =
    let rest = await_challenge c arrivals in if text_eq s c then some none else rest

abbrev pub after_write : Option Text → Option (Option Text) → Bool → Option (Option Text) × Bool
after_write (some e) awaited injected = (some (some e), injected)
after_write none awaited injected = (awaited, true)

-- What `waitForEventsUpToLock` returns, if it returns, and `AllEventsUpToLockProcessedInjectedFlag`;
-- `WriteChangelogState` gives its error or none.
unfoldable pub wait_for_events_up_to_lock :
    (now : ℤ)
    → (write_changelog_state : Text → Option Text) → List Arrival
    → Bool
    → Option (Option Text) × Bool
unfolding await_challenge
wait_for_events_up_to_lock now write_changelog_state arrivals injected =
    after_write (write_changelog_state (challenge now)) (await_challenge (challenge now) arrivals)
      injected
