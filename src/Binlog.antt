-- ===== src/Binlog.antt =====
-- go/binlog/binlog_dml_event.go: a change of a row, read from the binary log.
pub mod Reader
use ghost_source_code_readin.Base.{Option, none, List, [], ◌∷◌, if◌then◌else◌}
use ghost_source_code_readin.Text.{Text, txt, text_eq, has_prefix, split, to_lower, trim_space}
use ghost_source_code_readin.Sql.Value.{Value}

pub data EventDml : Type 0 where
  not_dml insert_dml update_dml delete_dml : EventDml

abbrev first_part : List Text → Text
first_part [] = []
first_part (p ∷ ps) = p

-- `ToEventDML`
unfoldable pub to_event_dml : Text → EventDml
to_event_dml text =
    let description = trim_space (first_part (split text b' ')) in
    let word = to_lower description in
    if text_eq word (txt "insert")
    then insert_dml
    else if text_eq word (txt "update")
    then update_dml
    else if text_eq word (txt "delete")
    then delete_dml
    else if has_prefix description (txt "WriteRows")
    then insert_dml
    else if has_prefix description (txt "UpdateRows")
    then update_dml
    else if has_prefix description (txt "DeleteRows")
    then delete_dml
    else not_dml

-- The values are pointers, of which `none` is nil.
pub record BinlogDmlEvent : Type 0 where
  pub database_name : Text
  pub table_name : Text
  pub dml : EventDml
  pub where_column_values : Option (List Value)
  pub new_column_values : Option (List Value)

-- `NewBinlogDMLEvent`
unfoldable pub new_binlog_dml_event : Text → Text → EventDml → BinlogDmlEvent
new_binlog_dml_event database table kind = record {
  database_name = database;
  table_name = table;
  dml = kind;
  where_column_values = none;
  new_column_values = none;
}
