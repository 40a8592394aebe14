-- ===== src/Logic/CutOver/Atomic/Rename.antt =====
-- go/logic/applier.go, `AtomicCutoverRename`: the moves of its goroutine. The server may carry out a
-- statement or refuse it, each time anew.
use ghost_source_code_readin.Base.{◌+◌, ◌<◌, ◌≡◌, true, Option, none, some, [], ◌∷◌, ◌++◌, length}
use ghost_source_code_readin.Base.Int.{ℤ, negsuc}
use ghost_source_code_readin.Text.{Text}
use ghost_source_code_readin.Logic.CutOver.Atomic.State.{
  Shared, RenamePc, rename_begin, rename_connection_id, send_rename_session, set_rename_timeout,
  rename_tables, send_tables_renamed, rename_rollback, defer_rename_session, defer_tables_renamed,
  rename_returned, rename_gives_ok, rename_done, unexpected_in_rename,
}

-- A statement of `AtomicCutoverRename` that leaves what the goroutines share as it is, and its returns.
pub data RenameCall : RenamePc → RenamePc → Type 0 where
  rename_connection_id_read : (id : ℤ) → RenameCall rename_connection_id (send_rename_session id)
  rename_connection_id_failed :
      (e : Text) → RenameCall rename_connection_id (rename_rollback (some e))
  rename_timeout_set : RenameCall set_rename_timeout rename_tables
  rename_timeout_failed : (e : Text) → RenameCall set_rename_timeout (rename_rollback (some e))
  rename_failed : (e : Text) → RenameCall rename_tables (send_tables_renamed (some e))
  rename_rolled_back : (r : Option Text) → RenameCall (rename_rollback r) (defer_rename_session r)
  rename_succeeded : RenameCall (rename_returned none) rename_done

-- `AtomicCutoverRename`, and the goroutine that calls it.
pub data RenameMove (s : Shared) : RenamePc → Shared → RenamePc → Type 0 where
  rename_call : {p q : RenamePc} → RenameCall p q → RenameMove s p s q
  rename_begun : s.rename_started ≡ true → RenameMove s rename_begin s rename_connection_id
  -- The deferred function is not registered yet.
  rename_begin_failed :
      (e : Text) → s.rename_started ≡ true → RenameMove s rename_begin s (rename_returned (some e))
  rename_session_sent :
      (id : ℤ)
      → length s.rename_session_ids < 2
      → RenameMove s
          (send_rename_session id)
          (record s { rename_session_ids = s.rename_session_ids ++ id ∷ [] })
          set_rename_timeout
  were_renamed :
      RenameMove s rename_tables
        (record s { facts = record s.facts { renamed = true } })
        (send_tables_renamed none)
  tables_renamed_sent :
      (r : Option Text)
      → length s.tables_renamed < 2
      → RenameMove s
          (send_tables_renamed r)
          (record s { tables_renamed = s.tables_renamed ++ r ∷ [] })
          (rename_rollback r)
  rename_session_deferred :
      (r : Option Text)
      → length s.rename_session_ids < 2
      → RenameMove s
          (defer_rename_session r)
          (record s { rename_session_ids = s.rename_session_ids ++ negsuc 0 ∷ [] })
          (defer_tables_renamed r)
  tables_renamed_deferred :
      (r : Option Text)
      → length s.tables_renamed < 2
      → RenameMove s
          (defer_tables_renamed r)
          (record s { tables_renamed = s.tables_renamed ++ some unexpected_in_rename ∷ [] })
          (rename_returned r)
  known_to_have_failed :
      (e : Text)
      → RenameMove s
          (rename_returned (some e))
          (record s { table_rename_known_to_have_failed = true })
          rename_gives_ok
  ok_given :
      s.ok_to_unlock_table < 4
      → RenameMove s rename_gives_ok
          (record s { ok_to_unlock_table = s.ok_to_unlock_table + 1 })
          rename_done
