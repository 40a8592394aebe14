-- ===== src/Binlog/Reader/Once.antt =====
-- The entries that an event sends, and that it sends them once.
use ghost_source_code_readin.Base.{
  ◌≡◌, refl, true, false, Option, none, some, List, [], ◌∷◌, map, arith,
}
use ghost_source_code_readin.Base.Int.{ℤ, pos, negsuc}
use ghost_source_code_readin.Text.Laws.{text_eq_refl}
use ghost_source_code_readin.Sql.Value.{Value}
use ghost_source_code_readin.Mysql.Coordinates.{BinlogCoordinates, int_eq, smaller_than_or_equals}
use ghost_source_code_readin.Binlog.{update_dml, to_event_dml}
use ghost_source_code_readin.Binlog.Reader.{
  BinlogEntry, Reader, RowsEvent, ReadError, entry_of, update_entries, row_entries, finish_rows,
  handle_rows_event,
}

positions_refl : (x : ℤ) → int_eq x x ≡ true
positions_refl (pos n) = ground arith
positions_refl (negsuc n) = ground arith

or_equals_refl : (c : BinlogCoordinates) → smaller_than_or_equals c c ≡ true
unfolding smaller_than_or_equals
or_equals_refl c = ground (arith, text_eq_refl c.log_file, positions_refl c.log_pos)

finished-hint :
    (r : Reader) (x : Option ReadError × List BinlogEntry)
    → (finish_rows r x).error ≡ none
    → smaller_than_or_equals
        (finish_rows r x).reader.current_coordinates
        (finish_rows r x).reader.last_applied_rows_event_hint
      ≡ true
finished-hint r (some e, entries) h = cc
finished-hint r (none, entries) h = or_equals_refl r.current_coordinates

handled-hint :
    (r : Reader) (e : RowsEvent)
    → (handle_rows_event r e).error ≡ none
    → smaller_than_or_equals
        (handle_rows_event r e).reader.current_coordinates
        (handle_rows_event r e).reader.last_applied_rows_event_hint
      ≡ true
unfolding handle_rows_event
handled-hint r e h =
    ground
      (arith, finished-hint r (row_entries r.current_coordinates e (to_event_dml e.event_type)))

handled_before :
    (s : Reader) (e : RowsEvent)
    → smaller_than_or_equals s.current_coordinates s.last_applied_rows_event_hint ≡ true
    → handle_rows_event s e ≡ record { error = none; sent = []; reader = s }
unfolding handle_rows_event
handled_before s e h = simp h

-- An event that was handled without an error is not sent again: handling it once more at the same
-- coordinates, as after a reconnection, sends nothing and changes nothing.
pub handle_rows_event-once :
    (r : Reader) (e : RowsEvent)
    → (handle_rows_event r e).error ≡ none
    → handle_rows_event (handle_rows_event r e).reader e
      ≡ record { error = none; sent = []; reader = (handle_rows_event r e).reader }
handle_rows_event-once r e h = handled_before (handle_rows_event r e).reader e (handled-hint r e h)

-- The rows of an update: the old row and the new one, for each row that it changes.
abbrev pub row_pairs : List (List Value × List Value) → List (List Value)
row_pairs [] = []
row_pairs ((w, n) ∷ ps) = w ∷ n ∷ row_pairs ps

update_entries-pairs :
    (c : BinlogCoordinates) (e : RowsEvent) (ps : List (List Value × List Value))
    → update_entries c e (row_pairs ps) ≡ (
      none,
      map (λ (p : List Value × List Value). entry_of c e update_dml (some p.0) (some p.1)) ps,
    )
unfolding update_entries
update_entries-pairs c e [] = refl
update_entries-pairs c e ((w, n) ∷ ps) = rw (update_entries-pairs c e ps)

-- An update event that was not handled before sends one entry for each row that it changes, in order,
-- with the old row and the new row, and is then marked as handled.
pub handle_rows_event-pairs :
    (r : Reader) (e : RowsEvent) (ps : List (List Value × List Value))
    → smaller_than_or_equals r.current_coordinates r.last_applied_rows_event_hint ≡ false
    → to_event_dml e.event_type ≡ update_dml
    → e.rows ≡ row_pairs ps
    → handle_rows_event r e ≡ record {
      error = none;
      sent =
          map
            (λ (p : List Value × List Value).
              entry_of r.current_coordinates e update_dml (some p.0) (some p.1))
            ps;
      reader = record r { last_applied_rows_event_hint = r.current_coordinates };
    }
unfolding handle_rows_event row_entries
handle_rows_event-pairs r e ps new kind rows =
    simp (new, kind, rows, update_entries-pairs r.current_coordinates e ps)
