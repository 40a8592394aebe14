-- ===== src/Binlog/Reader.antt =====
-- go/binlog/gomysql_reader.go: from the events of the replication stream to entries. The stream itself
-- belongs to a package; an event is what the source reads of it.
pub mod Once
use ghost_source_code_readin.Base.{
  Bool, true, false, Option, none, some, List, [], ◌∷◌, map, if◌then◌else◌,
}
use ghost_source_code_readin.Base.Int.{ℤ}
use ghost_source_code_readin.Text.{Text}
use ghost_source_code_readin.Sql.Value.{Value}
use ghost_source_code_readin.Mysql.Coordinates.{BinlogCoordinates, smaller_than_or_equals}
use ghost_source_code_readin.Binlog.{
  BinlogDmlEvent, EventDml, insert_dml, update_dml, delete_dml, not_dml, to_event_dml,
  new_binlog_dml_event,
}

pub record BinlogEntry : Type 0 where
  pub coordinates : BinlogCoordinates
  pub entry_dml : BinlogDmlEvent

-- `GoMySQLReader`, without its connection.
pub record Reader : Type 0 where
  pub current_coordinates : BinlogCoordinates
  pub last_applied_rows_event_hint : BinlogCoordinates

-- An event of changed rows: the name of its type, its table and its rows.
pub record RowsEvent : Type 0 where
  pub event_type : Text
  pub schema : Text
  pub table : Text
  pub rows : List (List Value)

-- What ends the handling of an event early: an error, and the panic of `rows[i+1]` where an update has
-- an odd number of rows.
pub data ReadError : Type 0 where
  unknown_dml_type : Text → ReadError
  missing_row : ReadError

pub record Handled : Type 0 where
  pub error : Option ReadError
  pub sent : List BinlogEntry
  pub reader : Reader

unfoldable pub entry_of :
    BinlogCoordinates → RowsEvent → EventDml → (w n : Option (List Value)) → BinlogEntry
entry_of c e kind w n = record {
  coordinates = c;
  entry_dml = record (new_binlog_dml_event e.schema e.table kind) {
    where_column_values = w;
    new_column_values = n;
  };
}

abbrev send :
    BinlogEntry → Option ReadError × List BinlogEntry → Option ReadError × List BinlogEntry
send entry (e, entries) = (e, entry ∷ entries)

-- The rows of an update, two at a time.
unfoldable pub update_entries :
    BinlogCoordinates → RowsEvent → List (List Value) → Option ReadError × List BinlogEntry
unfolding entry_of
update_entries c e [] = (none, [])
update_entries c e (w ∷ []) = (some missing_row, [])
update_entries c e (w ∷ n ∷ rows) =
    send (entry_of c e update_dml (some w) (some n)) (update_entries c e rows)

-- The loop over the rows, by the kind of the event.
unfoldable pub row_entries :
    BinlogCoordinates → RowsEvent → EventDml → Option ReadError × List BinlogEntry
unfolding update_entries
row_entries c e insert_dml = (none, map (λ row. entry_of c e insert_dml none (some row)) e.rows)
row_entries c e delete_dml = (none, map (λ row. entry_of c e delete_dml (some row) none) e.rows)
row_entries c e update_dml = update_entries c e e.rows
row_entries c e not_dml = (some (unknown_dml_type e.event_type), [])

abbrev finish_rows : Reader → Option ReadError × List BinlogEntry → Handled
finish_rows r (some x, entries) = record { error = some x; sent = entries; reader = r }
finish_rows r (none, entries) = record {
  error = none;
  sent = entries;
  reader = record r { last_applied_rows_event_hint = r.current_coordinates };
}

-- `handleRowsEvent`
unfoldable pub handle_rows_event : Reader → RowsEvent → Handled
unfolding row_entries
handle_rows_event r e =
    if smaller_than_or_equals r.current_coordinates r.last_applied_rows_event_hint
    then record { error = none; sent = []; reader = r }
    else finish_rows r (row_entries r.current_coordinates e (to_event_dml e.event_type))

-- An event of the stream with its position: a change to the next file, changed rows, or another.
pub data StreamEvent : Type 0 where
  rotate_event : ℤ → Text → StreamEvent
  rows_event : ℤ → RowsEvent → StreamEvent
  other_event : ℤ → StreamEvent

abbrev at_position : Reader → ℤ → Reader
at_position r p = record r { current_coordinates = record r.current_coordinates { log_pos = p } }

-- The body of the loop of `StreamEvents`.
unfoldable pub on_stream_event : Reader → StreamEvent → Handled
unfolding handle_rows_event
on_stream_event r (rotate_event p file) = record {
  error = none;
  sent = [];
  reader = record r {
    current_coordinates = record r.current_coordinates { log_pos = p; log_file = file };
  };
}
on_stream_event r (rows_event p e) = handle_rows_event (at_position r p) e
on_stream_event r (other_event p) = record { error = none; sent = []; reader = at_position r p }
