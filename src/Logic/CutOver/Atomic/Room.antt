-- ===== src/Logic/CutOver/Atomic/Room.antt =====
-- The capacities of the channels of the atomic cut-over are enough.
use ghost_source_code_readin.Base.{ℕ, ◌≤◌, ◌<◌, Bool, arith, length}
use ghost_source_code_readin.Logic.CutOver.Atomic.State.{
  LockPc, MainPc, RenamePc, Shared, System, aborting, defer_lock_session, defer_rename_session,
  defer_table_locked, defer_table_unlocked, defer_tables_renamed, leaving, rename_begin,
  rename_gives_ok, send_begin_error, send_lock_error, send_lock_session, send_rename_session,
  send_table_locked, send_table_unlocked, send_tables_renamed, sending_ok, starting,
}
use ghost_source_code_readin.Logic.CutOver.Atomic.MagicLock.{LockMove, tables_unlocked}
use ghost_source_code_readin.Logic.CutOver.Atomic.Rename.{RenameMove, were_renamed}
use ghost_source_code_readin.Logic.CutOver.Atomic.Steps.{
  Reach, Step, lock_moves, main_moves, rename_moves, stay, after,
}
use ghost_source_code_readin.Logic.CutOver.Atomic.Sent.{
  LockFits, OkFits, RenameFits, failure_ok, LockMove-Fits, LockMove-ok, MainMove-Fits, MainMove-ok,
  RenameMove-Fits, RenameMove-ok, sent_ok,
}

record Fits (s : System) : Type 0 where
  lock_fits : LockFits s.lock s.shared
  rename_fits : RenameFits s.rename s.shared
  ok_fits : OkFits s.main s.rename s.shared

LockMove-renames :
    {s t : Shared} {p q : LockPc} (r : RenamePc)
    → LockMove s p t q
    → RenameFits r s
    → RenameFits r t
LockMove-renames r tables_unlocked h = h
LockMove-renames r _ h = h

RenameMove-locks :
    {s t : Shared} {p q : RenamePc} (l : LockPc) → RenameMove s p t q → LockFits l s → LockFits l t
RenameMove-locks l were_renamed h = h
RenameMove-locks l _ h = h

step-Fits : {n : ℕ} {s t : System} → Fits s → Step n s t → Fits t
step-Fits {s} f (main_moves mv) =
    let (l, r) = MainMove-Fits s.lock s.rename mv f.lock_fits f.rename_fits in
    record { lock_fits = l; rename_fits = r; ok_fits = MainMove-ok s.rename mv f.ok_fits }
step-Fits {s} f (lock_moves mv) = record {
  lock_fits = LockMove-Fits mv f.lock_fits;
  rename_fits = LockMove-renames s.rename mv f.rename_fits;
  ok_fits = omega (arith, LockMove-ok mv, f.ok_fits);
}
step-Fits {s} f (rename_moves mv) = record {
  lock_fits = RenameMove-locks s.lock mv f.lock_fits;
  rename_fits = RenameMove-Fits mv f.rename_fits;
  ok_fits = RenameMove-ok s.main mv f.ok_fits;
}

Reach-Fits : {n : ℕ} {i : Bool} {s : System} → Reach n i s → Fits s
Reach-Fits stay = record {
  lock_fits = (omega arith, omega arith, omega arith);
  rename_fits = (omega arith, omega arith);
  ok_fits = omega arith;
}
Reach-Fits (after r st) = step-Fits (Reach-Fits r) st

-- Where a goroutine is about to send, the channel has room.
abbrev pub LockHasRoom : LockPc → Shared → Type 0
LockHasRoom (send_begin_error e) s = length s.table_locked < 2
LockHasRoom (send_lock_session i) s = length s.lock_original_session_ids < 2
LockHasRoom (send_lock_error e) s = length s.table_locked < 2
LockHasRoom send_table_locked s = length s.table_locked < 2
LockHasRoom (send_table_unlocked r) s = length s.table_unlocked < 2
LockHasRoom (defer_lock_session r) s = length s.lock_original_session_ids < 2
LockHasRoom (defer_table_locked r) s = length s.table_locked < 2
LockHasRoom (defer_table_unlocked r) s = length s.table_unlocked < 2
LockHasRoom _ s = Unit

abbrev pub RenameHasRoom : RenamePc → Shared → Type 0
RenameHasRoom (send_rename_session i) s = length s.rename_session_ids < 2
RenameHasRoom (send_tables_renamed r) s = length s.tables_renamed < 2
RenameHasRoom (defer_rename_session r) s = length s.rename_session_ids < 2
RenameHasRoom (defer_tables_renamed r) s = length s.tables_renamed < 2
RenameHasRoom rename_gives_ok s = s.ok_to_unlock_table < 4
RenameHasRoom _ s = Unit

abbrev pub MainHasRoom : MainPc → Shared → Type 0
MainHasRoom sending_ok s = s.ok_to_unlock_table < 4
MainHasRoom (aborting e) s = s.ok_to_unlock_table < 4
MainHasRoom (leaving r) s = s.ok_to_unlock_table < 4
MainHasRoom _ s = Unit

sent_ok-le : (p : MainPc) → sent_ok p ≤ 2
sent_ok-le starting = omega arith
sent_ok-le _ = omega arith

failure_ok-le : (p : RenamePc) → failure_ok p ≤ 1
failure_ok-le rename_begin = omega arith
failure_ok-le _ = omega arith

lock-HasRoom : (p : LockPc) (s : Shared) → LockFits p s → LockHasRoom p s
lock-HasRoom (send_begin_error e) s (x, y, z) = omega arith
lock-HasRoom (send_lock_session i) s (x, y, z) = omega arith
lock-HasRoom (send_lock_error e) s (x, y, z) = omega arith
lock-HasRoom send_table_locked s (x, y, z) = omega arith
lock-HasRoom (send_table_unlocked r) s (x, y, z) = omega arith
lock-HasRoom (defer_lock_session r) s (x, y, z) = omega arith
lock-HasRoom (defer_table_locked r) s (x, y, z) = omega arith
lock-HasRoom (defer_table_unlocked r) s (x, y, z) = omega arith
lock-HasRoom _ s h = tt

rename-HasRoom :
    (m : MainPc) (p : RenamePc) (s : Shared) → RenameFits p s → OkFits m p s → RenameHasRoom p s
rename-HasRoom m (send_rename_session i) s (x, y) h = omega arith
rename-HasRoom m (send_tables_renamed r) s (x, y) h = omega arith
rename-HasRoom m (defer_rename_session r) s (x, y) h = omega arith
rename-HasRoom m (defer_tables_renamed r) s (x, y) h = omega arith
rename-HasRoom m rename_gives_ok s f h = omega (arith, sent_ok-le m)
rename-HasRoom m _ s f h = tt

main-HasRoom : (p : MainPc) (r : RenamePc) (s : Shared) → OkFits p r s → MainHasRoom p s
main-HasRoom sending_ok r s h = omega (arith, failure_ok-le r)
main-HasRoom (aborting e) r s h = omega (arith, failure_ok-le r)
main-HasRoom (leaving e) r s h = omega (arith, failure_ok-le r)
main-HasRoom _ r s h = tt

-- No send of the cut-over ever blocks: in every reachable state, wherever a goroutine is about to send,
-- the channel holds fewer messages than its capacity.
pub sends-HasRoom :
    {n : ℕ} {i : Bool} {s : System}
    → Reach n i s
    → MainHasRoom s.main s.shared × LockHasRoom s.lock s.shared × RenameHasRoom s.rename s.shared
sends-HasRoom {s} r =
    let f = Reach-Fits r in
    (
      main-HasRoom s.main s.rename s.shared f.ok_fits,
      lock-HasRoom s.lock s.shared f.lock_fits,
      rename-HasRoom s.main s.rename s.shared f.rename_fits f.ok_fits,
    )
