-- ===== src/Mysql/Coordinates.antt =====
-- go/mysql/binlog.go: coordinates in the binary logs.
pub mod Order
pub mod Files
pub mod Display
use ghost_source_code_readin.Base.{
  ℕ, zero, suc, ◌+◌, ◌-◌, Bool, true, false, not, ◌&&◌, ◌||◌, Option, none, some, List, [], ◌∷◌,
  ◌++◌, String, length, ltb, leb, ◌==◌, if◌then◌else◌, Result, ok, err, ◌>>=◌,
}
use ghost_source_code_readin.Base.Int.{ℤ, pos, negsuc, ltb_ℤ, ◌+ℤ◌, ◌-ℤ◌, wrap64}
use ghost_source_code_readin.Text.{
  Text, txt, text_eq, text_lt, is_empty, split, split_two, join, repeat, last_part, set_last,
}
use ghost_source_code_readin.Text.Decimal.{itoa_int, atoi, is_digit}

pub data BinlogType : Type 0 where
  binary_log relay_log : BinlogType

pub record BinlogCoordinates : Type 0 where
  pub log_file : Text
  pub log_pos : ℤ
  pub log_type : BinlogType

-- `negative_repeat` is the panic of `strings.Repeat` at a negative count.
pub data CoordinatesError : Type 0 where
  no_colon invalid_pos zero_file_number negative_repeat : CoordinatesError

abbrev pub Parsed : Type 0 → Type 0
Parsed = Result CoordinatesError

abbrev with_pos : Text → Option ℤ → Parsed BinlogCoordinates
with_pos file none = err invalid_pos
with_pos file (some p) = ok (record { log_file = file; log_pos = p; log_type = binary_log })

abbrev parse_tokens : Text × Option Text → Parsed BinlogCoordinates
parse_tokens (file, none) = err no_colon
parse_tokens (file, some p) = with_pos file (atoi p)

-- `ParseBinlogCoordinates`
unfoldable pub parse_binlog_coordinates : Text → Parsed BinlogCoordinates
parse_binlog_coordinates s = parse_tokens (split_two s b':')

-- `DisplayString`
unfoldable pub display_string : BinlogCoordinates → Text
display_string c = c.log_file ++ (txt ":" ++ itoa_int c.log_pos)

abbrev pub int_eq : ℤ → ℤ → Bool
int_eq (pos a) (pos b) = a == b
int_eq (pos a) (negsuc b) = false
int_eq (negsuc a) (pos b) = false
int_eq (negsuc a) (negsuc b) = a == b

abbrev type_eq : BinlogType → BinlogType → Bool
type_eq binary_log binary_log = true
type_eq relay_log relay_log = true
type_eq _ _ = false

-- `Equals`; `none` is the nil pointer.
unfoldable pub equals : BinlogCoordinates → Option BinlogCoordinates → Bool
equals a none = false
equals a (some b) =
    text_eq a.log_file b.log_file && (int_eq a.log_pos b.log_pos && type_eq a.log_type b.log_type)

-- `IsEmpty`
unfoldable pub coordinates_is_empty : BinlogCoordinates → Bool
coordinates_is_empty c = is_empty c.log_file

-- `SmallerThan`
unfoldable pub smaller_than : BinlogCoordinates → BinlogCoordinates → Bool
smaller_than a b =
    if text_lt a.log_file b.log_file
    then true
    else if text_eq a.log_file b.log_file && ltb_ℤ a.log_pos b.log_pos
    then true
    else false

-- `SmallerThanOrEquals`
unfoldable pub smaller_than_or_equals : BinlogCoordinates → BinlogCoordinates → Bool
unfolding smaller_than
smaller_than_or_equals a b =
    if smaller_than a b then true else text_eq a.log_file b.log_file && int_eq a.log_pos b.log_pos

-- `FileSmallerThan`
unfoldable pub file_smaller_than : BinlogCoordinates → BinlogCoordinates → Bool
file_smaller_than a b = text_lt a.log_file b.log_file

abbrev number_and_length : Text → Option ℤ → ℤ × ℕ
number_and_length part none = (pos 0, 0)
number_and_length part (some n) = (n, length part)

-- `FileNumber`: the number behind the last dot, and its length in characters.
unfoldable pub file_number : BinlogCoordinates → ℤ × ℕ
file_number c = let part = last_part (split c.log_file b'.') in number_and_length part (atoi part)

-- `FileNumberDistance`
unfoldable pub file_number_distance : BinlogCoordinates → BinlogCoordinates → ℤ
unfolding file_number
file_number_distance a b = wrap64 ((file_number b).0 -ℤ (file_number a).0)

-- `strings.Repeat("0", numLen-len(s)) + s`
unfoldable pub pad_zeros : ℕ → Text → Parsed Text
pad_zeros len s =
    if ltb len (length s) then err negative_repeat else ok (repeat (len - length s) b'0' ++ s)

-- The file name with another number.
unfoldable pub with_number : BinlogCoordinates → ℕ → ℤ → Parsed BinlogCoordinates
unfolding pad_zeros
with_number c len number = do
  part ← pad_zeros len (itoa_int number)
  ok (record {
    log_file = join (set_last (split c.log_file b'.') part) (txt ".");
    log_pos = pos 0;
    log_type = c.log_type;
  })

-- `PreviousFileCoordinatesBy`
unfoldable pub previous_file_coordinates_by : BinlogCoordinates → ℤ → Parsed BinlogCoordinates
unfolding with_number file_number
previous_file_coordinates_by c offset =
    let (number, len) = file_number c in
    if int_eq number (pos 0)
    then err zero_file_number
    else with_number c len (wrap64 (number -ℤ offset))

-- `PreviousFileCoordinates`
unfoldable pub previous_file_coordinates : BinlogCoordinates → Parsed BinlogCoordinates
unfolding previous_file_coordinates_by
previous_file_coordinates c = previous_file_coordinates_by c (pos 1)

-- `NextFileCoordinates`
unfoldable pub next_file_coordinates : BinlogCoordinates → Parsed BinlogCoordinates
unfolding with_number file_number
next_file_coordinates c =
    let (number, len) = file_number c in with_number c len (wrap64 (number +ℤ pos 1))
