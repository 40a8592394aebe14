-- ===== src/Logic/CutOver/Atomic/MagicLock.antt =====
-- go/logic/applier.go, `AtomicCutOverMagicLock`: the moves of its goroutine. The server may carry out a
-- statement or refuse it, each time anew. A send Waits for room in its channel.
use ghost_source_code_readin.Base.{
  ℕ, suc, ◌<◌, ◌≡◌, true, Option, none, some, [], ◌∷◌, ◌++◌, length,
}
use ghost_source_code_readin.Base.Int.{ℤ, negsuc}
use ghost_source_code_readin.Text.{Text, txt}
use ghost_source_code_readin.Logic.CutOver.Atomic.State.{
  Shared, LockPc, lock_begin, lock_connection_id, send_lock_session, get_lock, set_lock_timeout,
  create_sentry, lock_tables, send_table_locked, await_ok, drop_sentry, unlock_tables,
  send_table_unlocked, send_begin_error, send_lock_error, defer_lock_session, defer_table_locked,
  defer_table_unlocked, lock_rollback, lock_returned, get_session_lock_name, unexpected_in_lock,
}

-- A statement of `AtomicCutOverMagicLock` that leaves what the goroutines share as it is.
pub data LockCall : LockPc → LockPc → Type 0 where
  connection_id_read : (id : ℤ) → LockCall lock_connection_id (send_lock_session id)
  connection_id_failed : (e : Text) → LockCall lock_connection_id (send_lock_error e)
  lock_granted : (id : ℤ) → LockCall (get_lock id) set_lock_timeout
  lock_refused :
      (id : ℤ)
      → LockCall
          (get_lock id)
          (send_lock_error (txt "Unable to acquire lock " ++ get_session_lock_name id))
  lock_timeout_set : LockCall set_lock_timeout create_sentry
  lock_timeout_failed : (e : Text) → LockCall set_lock_timeout (send_lock_error e)
  sentry_created : LockCall create_sentry lock_tables
  sentry_failed : (e : Text) → LockCall create_sentry (send_lock_error e)
  lock_tables_failed : (e : Text) → LockCall lock_tables (send_lock_error e)
  -- Dropping the sentry table may fail: the tables are unlocked all the same.
  sentry_dropped : Option Text → LockCall drop_sentry unlock_tables
  unlock_tables_failed : (e : Text) → LockCall unlock_tables (send_table_unlocked (some e))
  lock_rolled_back : (r : Option Text) → LockCall (lock_rollback r) (lock_returned r)

-- `AtomicCutOverMagicLock`
pub data LockMove (s : Shared) : LockPc → Shared → LockPc → Type 0 where
  lock_call : {p q : LockPc} → LockCall p q → LockMove s p s q
  lock_begun : s.lock_started ≡ true → LockMove s lock_begin s lock_connection_id
  lock_begin_failed :
      (e : Text) → s.lock_started ≡ true → LockMove s lock_begin s (send_begin_error e)
  begin_error_sent :
      (e : Text)
      → length s.table_locked < 2
      → LockMove s
          (send_begin_error e)
          (record s { table_locked = s.table_locked ++ some e ∷ [] })
          (lock_returned (some e))
  lock_session_sent :
      (id : ℤ)
      → length s.lock_original_session_ids < 2
      → LockMove s
          (send_lock_session id)
          (record s { lock_original_session_ids = s.lock_original_session_ids ++ id ∷ [] })
          (get_lock id)
  tables_locked :
      LockMove s lock_tables
        (record s { facts = record s.facts { locked = true } })
        send_table_locked
  table_locked_sent :
      length s.table_locked < 2
      → LockMove s send_table_locked
          (record s { table_locked = s.table_locked ++ none ∷ [] })
          await_ok
  lock_error_sent :
      (e : Text)
      → length s.table_locked < 2
      → LockMove s
          (send_lock_error e)
          (record s { table_locked = s.table_locked ++ some e ∷ [] })
          (defer_lock_session (some e))
  ok_received :
      (n : ℕ)
      → s.ok_to_unlock_table ≡ suc n
      → LockMove s await_ok (record s { ok_to_unlock_table = n }) drop_sentry
  tables_unlocked :
      LockMove s unlock_tables
        (record s { facts = record s.facts { unlocked = true } })
        (send_table_unlocked none)
  table_unlocked_sent :
      (r : Option Text)
      → length s.table_unlocked < 2
      → LockMove s
          (send_table_unlocked r)
          (record s { table_unlocked = s.table_unlocked ++ r ∷ [] })
          (defer_lock_session r)
  lock_session_deferred :
      (r : Option Text)
      → length s.lock_original_session_ids < 2
      → LockMove s
          (defer_lock_session r)
          (record s { lock_original_session_ids = s.lock_original_session_ids ++ negsuc 0 ∷ [] })
          (defer_table_locked r)
  table_locked_deferred :
      (r : Option Text)
      → length s.table_locked < 2
      → LockMove s
          (defer_table_locked r)
          (record s { table_locked = s.table_locked ++ some unexpected_in_lock ∷ [] })
          (defer_table_unlocked r)
  table_unlocked_deferred :
      (r : Option Text)
      → length s.table_unlocked < 2
      → LockMove s
          (defer_table_unlocked r)
          (record s { table_unlocked = s.table_unlocked ++ some unexpected_in_lock ∷ [] })
          (lock_rollback r)
