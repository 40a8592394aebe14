-- ===== src/Logic/Applier/Rewrite.antt =====
-- An update that changes the unique key.
use ghost_source_code_readin.Base.{◌≡◌, true, ok, [], ◌∷◌}
use ghost_source_code_readin.Binlog.{BinlogDmlEvent, update_dml}
use ghost_source_code_readin.Logic.Applier.{
  Plan, update_modifies_unique_key_columns, build_delete, build_insert, build_dml_event_query,
}

-- An update that changes a value of the unique key is applied as a delete of the old row and an insert
-- of the new one. The call leaves an insert in the event, so that a second call for the same event, as
-- in another attempt after a failed transaction, gives the insert alone.
pub build_dml_event_query-twice :
    (p : Plan) (e : BinlogDmlEvent)
    → e.dml ≡ update_dml
    → update_modifies_unique_key_columns p e ≡ ok true
    → ((build_dml_event_query p e).0 ≡ build_delete p e ∷ build_insert p e ∷ [])
      × ((build_dml_event_query p (build_dml_event_query p e).1).0 ≡ build_insert p e ∷ [])
unfolding build_dml_event_query build_insert
build_dml_event_query-twice p e kind modified = (simp (kind, modified), simp (kind, modified))
