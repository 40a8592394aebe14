-- ===== src/Logic/CutOver/Atomic/Sent.antt =====
-- How much the goroutines of the atomic cut-over can have sent on each channel.
use ghost_source_code_readin.Base.{
  ℕ, ◌+◌, ◌≤◌, ◌≡◌, refl, Option, none, some, List, [], ◌∷◌, ◌++◌, arith, length, ap,
}
use ghost_source_code_readin.Base.Int.{ℤ}
use ghost_source_code_readin.Text.{Text}
use ghost_source_code_readin.Logic.CutOver.Atomic.State.{
  LockPc, MainPc, RenamePc, Shared, await_ok, awaiting_renamed, awaiting_unlocked, clearing_flag,
  defer_lock_session, defer_rename_session, defer_table_locked, defer_table_unlocked,
  defer_tables_renamed, drop_sentry, dropping_sentry, leaving, lock_begin, lock_connection_id,
  lock_returned, lock_rollback, rename_begin, rename_connection_id, rename_done, rename_gives_ok,
  rename_returned, rename_rollback, rename_tables, returned, send_begin_error, send_lock_session,
  send_rename_session, send_table_unlocked, send_tables_renamed, set_rename_timeout, unlock_tables,
}
use ghost_source_code_readin.Logic.CutOver.Atomic.MagicLock.{
  LockCall, LockMove, begin_error_sent, connection_id_failed, lock_begin_failed, lock_call,
  lock_error_sent, lock_session_deferred, lock_session_sent, ok_received, table_locked_deferred,
  table_locked_sent, table_unlocked_deferred, table_unlocked_sent,
}
use ghost_source_code_readin.Logic.CutOver.Atomic.Rename.{
  RenameCall, RenameMove, rename_begin_failed, rename_call, rename_connection_id_failed,
  rename_session_deferred, rename_session_sent, rename_succeeded, rename_timeout_failed,
  tables_renamed_deferred, tables_renamed_sent,
}
use ghost_source_code_readin.Logic.CutOver.Atomic.Main.{
  MainCall, MainMove, after_unlocked, lock_error_received, lock_session_received, locked_received,
  main_call, rename_session_received, renamed_received, sentry_looked_for, unlocked_received,
  used_lock_not_found,
}

length-push : {A : Type 0} (q : List A) (a : A) → length (q ++ a ∷ []) ≡ length q + 1
length-push [] a = refl
length-push (b ∷ q) a = omega (arith, length-push q a)

-- How much each goroutine can have sent on each channel by the time it is where it is.
abbrev pub sent_locked : LockPc → ℕ
sent_locked await_ok = 1
sent_locked drop_sentry = 1
sent_locked unlock_tables = 1
sent_locked (send_table_unlocked r) = 1
sent_locked (defer_lock_session r) = 1
sent_locked (defer_table_locked r) = 1
sent_locked (defer_table_unlocked r) = 2
sent_locked (lock_rollback r) = 2
sent_locked (lock_returned r) = 2
sent_locked _ = 0

abbrev pub sent_sessions : LockPc → ℕ
sent_sessions lock_begin = 0
sent_sessions lock_connection_id = 0
sent_sessions (send_lock_session i) = 0
sent_sessions (send_begin_error e) = 0
sent_sessions (defer_table_locked r) = 2
sent_sessions (defer_table_unlocked r) = 2
sent_sessions (lock_rollback r) = 2
sent_sessions (lock_returned r) = 2
sent_sessions _ = 1

abbrev pub sent_unlocked : LockPc → ℕ
sent_unlocked (defer_lock_session r) = 1
sent_unlocked (defer_table_locked r) = 1
sent_unlocked (defer_table_unlocked r) = 1
sent_unlocked (lock_rollback r) = 2
sent_unlocked (lock_returned r) = 2
sent_unlocked _ = 0

abbrev pub sent_rename_sessions : RenamePc → ℕ
sent_rename_sessions rename_begin = 0
sent_rename_sessions rename_connection_id = 0
sent_rename_sessions (send_rename_session i) = 0
sent_rename_sessions set_rename_timeout = 1
sent_rename_sessions rename_tables = 1
sent_rename_sessions (send_tables_renamed r) = 1
sent_rename_sessions (rename_rollback r) = 1
sent_rename_sessions (defer_rename_session r) = 1
sent_rename_sessions _ = 2

abbrev pub sent_renamed : RenamePc → ℕ
sent_renamed (rename_rollback r) = 1
sent_renamed (defer_rename_session r) = 1
sent_renamed (defer_tables_renamed r) = 1
sent_renamed (rename_returned r) = 2
sent_renamed rename_gives_ok = 2
sent_renamed rename_done = 2
sent_renamed _ = 0

abbrev pub sent_ok : MainPc → ℕ
sent_ok awaiting_unlocked = 1
sent_ok awaiting_renamed = 1
sent_ok (leaving r) = 1
sent_ok (dropping_sentry r) = 2
sent_ok (clearing_flag r) = 2
sent_ok (returned r) = 2
sent_ok _ = 0

abbrev pub failure_ok : RenamePc → ℕ
failure_ok rename_done = 1
failure_ok _ = 0

abbrev pub LockFits : LockPc → Shared → Type 0
LockFits p s =
    (length s.table_locked ≤ sent_locked p)
    × (length s.lock_original_session_ids ≤ sent_sessions p)
    × (length s.table_unlocked ≤ sent_unlocked p)

abbrev pub RenameFits : RenamePc → Shared → Type 0
RenameFits p s =
    (length s.rename_session_ids ≤ sent_rename_sessions p)
    × (length s.tables_renamed ≤ sent_renamed p)

abbrev pub OkFits : MainPc → RenamePc → Shared → Type 0
OkFits m r s = s.ok_to_unlock_table ≤ sent_ok m + failure_ok r

LockCall-Fits : (s : Shared) {p q : LockPc} → LockCall p q → LockFits p s → LockFits q s
LockCall-Fits s (connection_id_failed e) (a, b, c) = (a, omega arith, c)
LockCall-Fits s _ h = h

-- What is left of a queue that a message is taken from.
length-taken : {A : Type 0} {q rest : List A} {a : A} → q ≡ a ∷ rest → length rest ≤ length q
length-taken e = omega (arith, ap length e)

length-push_error : (q : List (Option Text)) (r : Option Text) → length (q ++ r ∷ []) ≡ length q + 1
length-push_error = length-push

length-push_session : (q : List ℤ) (i : ℤ) → length (q ++ i ∷ []) ≡ length q + 1
length-push_session = length-push

ruleset queues = (arith, length-push_error, length-push_session)

pub LockMove-Fits : {s t : Shared} {p q : LockPc} → LockMove s p t q → LockFits p s → LockFits q t
LockMove-Fits {s} (lock_call c) h = LockCall-Fits s c h
LockMove-Fits (lock_begin_failed e b) h = h
LockMove-Fits (begin_error_sent e b) (x, y, z) = (omega queues, omega queues, omega queues)
LockMove-Fits (lock_session_sent i b) (x, y, z) = (x, omega queues, z)
LockMove-Fits (table_locked_sent b) (x, y, z) = (omega queues, y, z)
LockMove-Fits (lock_error_sent e b) (x, y, z) = (omega queues, y, omega arith)
LockMove-Fits (table_unlocked_sent r b) (x, y, z) = (x, y, omega queues)
LockMove-Fits (lock_session_deferred r b) (x, y, z) = (x, omega queues, z)
LockMove-Fits (table_locked_deferred r b) (x, y, z) = (omega queues, y, z)
LockMove-Fits (table_unlocked_deferred r b) (x, y, z) = (x, y, omega queues)
LockMove-Fits _ h = h

RenameCall-Fits : (s : Shared) {p q : RenamePc} → RenameCall p q → RenameFits p s → RenameFits q s
RenameCall-Fits s (rename_connection_id_failed e) (a, b) = (omega arith, omega arith)
RenameCall-Fits s (rename_timeout_failed e) (a, b) = (a, omega arith)
RenameCall-Fits s _ h = h

pub RenameMove-Fits :
    {s t : Shared} {p q : RenamePc} → RenameMove s p t q → RenameFits p s → RenameFits q t
RenameMove-Fits {s} (rename_call c) h = RenameCall-Fits s c h
RenameMove-Fits (rename_begin_failed e b) (x, y) = (omega arith, omega arith)
RenameMove-Fits (rename_session_sent i b) (x, y) = (omega queues, y)
RenameMove-Fits (tables_renamed_sent r b) (x, y) = (x, omega queues)
RenameMove-Fits (rename_session_deferred r b) (x, y) = (omega queues, y)
RenameMove-Fits (tables_renamed_deferred r b) (x, y) = (x, omega queues)
RenameMove-Fits _ h = h

-- Receiving makes room, and the other goroutines send on other channels.
pub MainMove-Fits :
    {n : ℕ} {s t : Shared} {p q : MainPc} (l : LockPc) (r : RenamePc)
    → MainMove n s p t q
    → LockFits l s
    → RenameFits r s
    → LockFits l t × RenameFits r t
MainMove-Fits l r (lock_error_received e rest b) (x, y, z) h =
    ((omega (arith, length-taken b), y, z), h)
MainMove-Fits l r (locked_received rest b) (x, y, z) h = ((omega (arith, length-taken b), y, z), h)
MainMove-Fits l r (lock_session_received i rest b) (x, y, z) h =
    ((x, omega (arith, length-taken b), z), h)
MainMove-Fits l r (unlocked_received e rest b) (x, y, z) h =
    ((x, y, omega (arith, length-taken b)), h)
MainMove-Fits l r (renamed_received e rest b) h (x, y) = (h, (x, omega (arith, length-taken b)))
MainMove-Fits l r (rename_session_received i j rest b) h (x, y) =
    (h, (omega (arith, length-taken b), y))
MainMove-Fits l r _ g h = (g, h)

MainCall-ok : {s : Shared} {p q : MainPc} → MainCall s p q → sent_ok p ≤ sent_ok q
MainCall-ok (sentry_looked_for r) = omega arith
MainCall-ok (used_lock_not_found i) = omega arith
MainCall-ok _ = omega arith

after_unlocked-ok : (r : Option Text) → sent_ok (after_unlocked r) ≡ 1
after_unlocked-ok none = refl
after_unlocked-ok (some e) = refl

pub MainMove-ok :
    {n : ℕ} {s t : Shared} {p q : MainPc} (r : RenamePc)
    → MainMove n s p t q
    → OkFits p r s
    → OkFits q r t
MainMove-ok r (main_call c) h = omega (arith, MainCall-ok c)
MainMove-ok r (unlocked_received e rest b) h = omega (arith, after_unlocked-ok e)
MainMove-ok r _ h = omega arith

pub RenameMove-ok :
    {s t : Shared} {p q : RenamePc} (m : MainPc) → RenameMove s p t q → OkFits m p s → OkFits m q t
RenameMove-ok m (rename_call rename_succeeded) h = omega arith
RenameMove-ok m (rename_call (rename_timeout_failed e)) h = h
RenameMove-ok m (rename_call c) h = h
RenameMove-ok m _ h = omega arith

pub LockMove-ok :
    {s t : Shared} {p q : LockPc} → LockMove s p t q → t.ok_to_unlock_table ≤ s.ok_to_unlock_table
LockMove-ok (ok_received n b) = omega arith
LockMove-ok _ = omega arith
