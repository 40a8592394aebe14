-- ===== src/Mysql/Coordinates/Display.antt =====
-- Coordinates are read back from their display.
use ghost_source_code_readin.Base.{◌≡◌, ok}
use ghost_source_code_readin.Text.{txt}
use ghost_source_code_readin.Text.Laws.{Lacks, split_two_at}
use ghost_source_code_readin.Text.Decimal.{itoa_int}
use ghost_source_code_readin.Text.Decimal.RoundTrip.{InInt64, atoi-itoa_int}
use ghost_source_code_readin.Mysql.Coordinates.{
  BinlogCoordinates, binary_log, parse_binlog_coordinates, display_string,
}

-- Coordinates in a file whose name has no colon, at a position in the range of `int64`, are read back
-- from their display, as coordinates of the binary log.
parse-display :
    (c : BinlogCoordinates)
    → Lacks b':' c.log_file
    → InInt64 c.log_pos
    → parse_binlog_coordinates (display_string c) ≡ ok (record c { log_type = binary_log })
unfolding parse_binlog_coordinates display_string txt
parse-display c no_colon range =
    rw (split_two_at c.log_file (itoa_int c.log_pos) b':' no_colon, atoi-itoa_int c.log_pos range)
