-- ===== src/Logic/CutOver/Atomic/Invariant.antt =====
-- What the goroutines of the atomic cut-over rely on is so, in every interleaving.
use ghost_source_code_readin.Base.{
  ℕ, ◌≡◌, refl, Bool, true, false, Option, none, some, List, ◌∷◌, arith,
}
use ghost_source_code_readin.Text.{Text}
use ghost_source_code_readin.Logic.CutOver.Atomic.State.{
  Shared, MainPc, LockPc, RenamePc, System, init,
}
use ghost_source_code_readin.Logic.CutOver.Atomic.MagicLock.{
  LockCall, LockMove, begin_error_sent, lock_begin_failed, lock_begun, lock_call, lock_error_sent,
  lock_session_deferred, lock_session_sent, ok_received, sentry_created, table_locked_deferred,
  table_locked_sent, table_unlocked_deferred, table_unlocked_sent, tables_locked, tables_unlocked,
}
use ghost_source_code_readin.Logic.CutOver.Atomic.Rename.{
  RenameCall, RenameMove, known_to_have_failed, ok_given, rename_begin_failed, rename_begun,
  rename_call, rename_failed, rename_session_deferred, rename_session_sent, tables_renamed_deferred,
  tables_renamed_sent, were_renamed,
}
use ghost_source_code_readin.Logic.CutOver.Atomic.Main.{
  MainCall, MainMove, abort_sent, after_unlocked, events_failed, flag_cleared, last_ok_sent,
  lock_error_received, lock_session_received, lock_spawned, locked_received, main_call,
  no_attempt_left, ok_sent, rename_session_received, rename_spawned, renamed_received,
  unlocked_received, used_lock_not_found,
}
use ghost_source_code_readin.Logic.CutOver.Atomic.Steps.{
  Step, main_moves, lock_moves, rename_moves, stay, after, Reach,
}
use ghost_source_code_readin.Logic.CutOver.Atomic.Kept.{
  Kept, same, elsewhere, locked_now, unlocked_now, renamed_now, locked_told, unlocked_told,
  renamed_told,
}
use ghost_source_code_readin.Logic.CutOver.Atomic.Knowledge.{
  holds_nil, IsPrepared, IsComplete, OnNil, MainKnows, LockKnows, RenameKnows, Told, Inv,
  main-Later, lock-Later, rename-Later, holds_nil-append, holds_nil-rest, holds_nil-head,
}

module _ {s : Shared} (told : Told s) where
  open told use {by_locked, by_unlocked, by_renamed, by_start, before_rename}

  LockCall-Knows : {p q : LockPc} → LockCall p q → LockKnows q s.facts
  LockCall-Knows sentry_created = tt
  LockCall-Knows _ = tt

  LockMove-Kept :
      {t : Shared} {p q : LockPc}
      → LockMove s p t q
      → LockKnows p s.facts
      → Kept s t (LockKnows q t.facts)
  LockMove-Kept (lock_call c) k = same told (LockCall-Knows c)
  LockMove-Kept (lock_begun h) k = same told tt
  LockMove-Kept (lock_begin_failed e h) k = same told tt
  LockMove-Kept (begin_error_sent e h) k =
      locked_told told _ tt (holds_nil-append s.table_locked (some e) by_locked tt)
  LockMove-Kept (lock_session_sent id h) k = elsewhere told refl refl refl refl refl tt
  LockMove-Kept tables_locked k = locked_now told refl
  LockMove-Kept (table_locked_sent h) k =
      locked_told told _ tt (holds_nil-append s.table_locked none by_locked k)
  LockMove-Kept (lock_error_sent e h) k =
      locked_told told _ tt (holds_nil-append s.table_locked (some e) by_locked tt)
  LockMove-Kept (ok_received n h) k = elsewhere told refl refl refl refl refl tt
  LockMove-Kept tables_unlocked k = unlocked_now told refl
  LockMove-Kept (table_unlocked_sent r h) k =
      unlocked_told told _ tt (holds_nil-append s.table_unlocked r by_unlocked k)
  LockMove-Kept (lock_session_deferred r h) k = elsewhere told refl refl refl refl refl tt
  LockMove-Kept (table_locked_deferred r h) k =
      locked_told told _ tt (holds_nil-append s.table_locked (some _) by_locked tt)
  LockMove-Kept (table_unlocked_deferred r h) k =
      unlocked_told told _ tt (holds_nil-append s.table_unlocked (some _) by_unlocked tt)

  RenameCall-Knows :
      {p q : RenamePc} → RenameCall p q → RenameKnows p s.facts → RenameKnows q s.facts
  RenameCall-Knows (rename_failed e) k = (k, tt)
  RenameCall-Knows _ k = k

  RenameMove-Kept :
      {t : Shared} {p q : RenamePc}
      → RenameMove s p t q
      → RenameKnows p s.facts
      → Kept s t (RenameKnows q t.facts)
  RenameMove-Kept (rename_call c) k = same told (RenameCall-Knows c k)
  RenameMove-Kept (rename_begun h) k = same told (by_start h)
  RenameMove-Kept (rename_begin_failed e h) k = same told (by_start h)
  RenameMove-Kept (rename_session_sent id h) k = elsewhere told refl refl refl refl refl k
  RenameMove-Kept were_renamed k = renamed_now told (k, refl) k
  RenameMove-Kept (tables_renamed_sent r h) k =
      renamed_told told _ k.0 (holds_nil-append s.tables_renamed r by_renamed k.1)
  RenameMove-Kept (rename_session_deferred r h) k = elsewhere told refl refl refl refl refl k
  RenameMove-Kept (tables_renamed_deferred r h) k =
      renamed_told told _ k (holds_nil-append s.tables_renamed (some _) by_renamed tt)
  RenameMove-Kept (known_to_have_failed e) k = elsewhere told refl refl refl refl refl k
  RenameMove-Kept (ok_given h) k = elsewhere told refl refl refl refl refl k

  MainCall-Knows : {p q : MainPc} → MainCall s p q → MainKnows p s.facts → MainKnows q s.facts
  MainCall-Knows (no_attempt_left i j e) k = tt
  MainCall-Knows (used_lock_not_found i) k = tt
  MainCall-Knows _ k = k

  events_now :
      (i : Bool)
      → IsPrepared (record s.facts { events_processed = true })
      → Kept s
          (record s {
            all_events_up_to_lock_injected = i;
            table_rename_known_to_have_failed = false;
            rename_started = true;
            facts = record s.facts { events_processed = true };
          })
          (IsPrepared (record s.facts { events_processed = true }))
  events_now i p = record {
    here = p;
    later = record {
      locked = λ h. h;
      events_processed = λ h. refl;
      unlocked = λ h. h;
      renamed = λ h. h;
    };
    told = record {
      by_locked = by_locked;
      by_unlocked = by_unlocked;
      by_renamed = by_renamed;
      by_start = λ h. p;
      before_rename = λ h. p;
    };
  }

  unlocked-Knows :
      (r : Option Text) {rest : List (Option Text)}
      → s.table_unlocked ≡ r ∷ rest
      → IsPrepared s.facts
      → MainKnows (after_unlocked r) s.facts
  unlocked-Knows none e k = (k, holds_nil-head by_unlocked e)
  unlocked-Knows (some x) e k = tt

  renamed-Knows :
      (r : Option Text) {rest : List (Option Text)}
      → s.tables_renamed ≡ r ∷ rest
      → IsPrepared s.facts × (s.facts.unlocked ≡ true)
      → OnNil r (IsComplete s.facts)
  renamed-Knows none e (p, u) = (p, u, holds_nil-head by_renamed e)
  renamed-Knows (some x) e k = tt

  MainMove-Kept :
      {n : ℕ} {t : Shared} {p q : MainPc}
      → MainMove n s p t q
      → MainKnows p s.facts
      → Kept s t (MainKnows q t.facts)
  MainMove-Kept (main_call c) k = same told (MainCall-Knows c k)
  MainMove-Kept lock_spawned k = elsewhere told refl refl refl refl refl tt
  MainMove-Kept (lock_error_received e rest h) k =
      locked_told told rest tt (holds_nil-rest by_locked h)
  MainMove-Kept (locked_received rest h) k =
      locked_told told rest (holds_nil-head by_locked h) (holds_nil-rest by_locked h)
  MainMove-Kept (lock_session_received id rest h) k = elsewhere told refl refl refl refl refl k
  MainMove-Kept (events_failed i now write arrivals e injected h) k =
      elsewhere told refl refl refl refl refl tt
  MainMove-Kept (rename_spawned i now write arrivals injected h) k = events_now injected (k, refl)
  MainMove-Kept (rename_session_received i j rest h) k = elsewhere told refl refl refl refl refl k
  MainMove-Kept (ok_sent h) k = elsewhere told refl refl refl refl refl k
  MainMove-Kept (unlocked_received r rest h) k =
      unlocked_told told rest (unlocked-Knows r h k) (holds_nil-rest by_unlocked h)
  MainMove-Kept (renamed_received r rest h) k =
      renamed_told told rest (renamed-Knows r h k) (holds_nil-rest by_renamed h)
  MainMove-Kept (abort_sent e h) k = elsewhere told refl refl refl refl refl tt
  MainMove-Kept (last_ok_sent r h) k = elsewhere told refl refl refl refl refl k
  MainMove-Kept (flag_cleared r) k = elsewhere told refl refl refl refl refl k

step-Inv : {n : ℕ} {s t : System} → Inv s → Step n s t → Inv t
step-Inv {s} inv (main_moves mv) =
    let k = MainMove-Kept inv.told mv inv.main_knows in
    record {
      main_knows = k.here;
      lock_knows = lock-Later k.later s.lock inv.lock_knows;
      rename_knows = rename-Later k.later s.rename inv.rename_knows;
      told = k.told;
    }
step-Inv {s} inv (lock_moves mv) =
    let k = LockMove-Kept inv.told mv inv.lock_knows in
    record {
      main_knows = main-Later k.later s.main inv.main_knows;
      lock_knows = k.here;
      rename_knows = rename-Later k.later s.rename inv.rename_knows;
      told = k.told;
    }
step-Inv {s} inv (rename_moves mv) =
    let k = RenameMove-Kept inv.told mv inv.rename_knows in
    record {
      main_knows = main-Later k.later s.main inv.main_knows;
      lock_knows = lock-Later k.later s.lock inv.lock_knows;
      rename_knows = k.here;
      told = k.told;
    }

init-Inv : (i : Bool) → Inv (init i)
unfolding holds_nil
init-Inv i = record {
  main_knows = tt;
  lock_knows = tt;
  rename_knows = tt;
  told = record {
    by_locked = λ h. h;
    by_unlocked = λ h. h;
    by_renamed = λ h. h;
    by_start = λ h. ground arith;
    before_rename = λ h. ground arith;
  };
}

pub Reach-Inv : {n : ℕ} {i : Bool} {s : System} → Reach n i s → Inv s
Reach-Inv {i} stay = init-Inv i
Reach-Inv (after r st) = step-Inv (Reach-Inv r) st
