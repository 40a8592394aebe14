-- ===== src/Logic/Changelog.antt =====
-- go/logic/migrator.go, `ReadChangelogState` and `onChangelogStateEvent`: what is made of a row that is
-- written to the changelog.
use ghost_source_code_readin.Base.{◌≡◌, refl, not, List, [], ◌∷◌, if◌then◌else◌}
use ghost_source_code_readin.Base.Int.{ℤ}
use ghost_source_code_readin.Text.{Text, txt, text_eq, split}
use ghost_source_code_readin.Logic.CutOver.Await.{challenge}

abbrev first_part : List Text → Text
first_part [] = []
first_part (p ∷ ps) = p

-- `ReadChangelogState`; a split has a part.
unfoldable pub read_changelog_state : Text → Text
unfolding split
read_changelog_state s = first_part (split s b':')

-- What the event leads to: a message to `ghostTableMigrated`, a function in the queue of events that
-- sends the text to `allEventsUpToLockProcessed`, an error, or nothing.
pub data ChangelogAction : Type 0 where
  not_a_state : ChangelogAction
  ghost_table_migrated : ChangelogAction
  enqueue_processed : Text → ChangelogAction
  unknown_changelog_state : Text → ChangelogAction

-- `onChangelogStateEvent`, for the texts of the columns `hint` and `value`.
unfoldable pub on_changelog_state_event : (hint value : Text) → ChangelogAction
unfolding read_changelog_state
on_changelog_state_event hint value =
    if not (text_eq hint (txt "state"))
    then not_a_state
    else if text_eq (read_changelog_state value) (txt "GhostTableMigrated")
    then ghost_table_migrated
    else if text_eq (read_changelog_state value) (txt "AllEventsUpToLockProcessed")
    then enqueue_processed value
    else unknown_changelog_state (read_changelog_state value)

-- Whenever `waitForEventsUpToLock` made its challenge, the event of the changelog that holds it puts a
-- function into the queue that sends that very text to the one who waits.
pub on_changelog_state_event-challenge :
    (now : ℤ)
    → on_changelog_state_event (txt "state") (challenge now) ≡ enqueue_processed (challenge now)
unfolding on_changelog_state_event read_changelog_state split txt text_eq
on_changelog_state_event-challenge now = refl
