-- ===== src/Logic/Streamer.antt =====
-- go/logic/streamer.go: the listeners to events. What a listener does is a name for its function; the
-- flag says whether it runs in a goroutine of its own.
pub mod Notify
use ghost_source_code_readin.Base.{
  Bool, true, false, not, List, [], ◌∷◌, ◌++◌, if◌then◌else◌, Result, ok, err,
}
use ghost_source_code_readin.Text.{Text, is_empty, text_eq, to_lower}
use ghost_source_code_readin.Binlog.{BinlogDmlEvent}

pub record BinlogEventListener {ℓ} (H : Type ℓ) : Type ℓ where
  pub async : Bool
  pub listener_database : Text
  pub listener_table : Text
  pub on_dml_event : H

pub data ListenerError : Type 0 where
  empty_database_name empty_table_name : ListenerError

module _ {ℓ} {H : Type ℓ} where
  -- `AddListener`
  unfoldable pub add_listener :
      Bool
      → (database table : Text) → H
      → List (BinlogEventListener H)
      → Result ListenerError (List (BinlogEventListener H))
  add_listener async database table h listeners =
      if is_empty database
      then err empty_database_name
      else if is_empty table
      then err empty_table_name
      else ok (
          listeners
          ++ record {
            async = async;
            listener_database = database;
            listener_table = table;
            on_dml_event = h;
          }
            ∷ [])

  -- The calls that `notifyListeners` makes for an event, in order.
  unfoldable pub notify_listeners : BinlogDmlEvent → List (BinlogEventListener H) → List (Bool × H)
  notify_listeners e [] = []
  notify_listeners e (l ∷ listeners) =
      let rest = notify_listeners e listeners in
      if not (text_eq (to_lower l.listener_database) (to_lower e.database_name))
      then rest
      else if not (text_eq (to_lower l.listener_table) (to_lower e.table_name))
      then rest
      else (l.async, l.on_dml_event) ∷ rest
