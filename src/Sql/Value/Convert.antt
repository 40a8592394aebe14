-- ===== src/Sql/Value/Convert.antt =====
-- The replication protocol delivers unsigned columns as signed numbers; `convertArg` restores them.
use ghost_source_code_readin.Base.{
  ℕ, ◌-◌, ◌^◌, ◌<◌, ◌≡◌, true, false, Option, none, some, arith, ltb, if◌then◌else◌,
}
use ghost_source_code_readin.Base.Int.{ℤ, pos, negsuc}
use ghost_source_code_readin.Text.Decimal.{read_number}
use ghost_source_code_readin.Text.Decimal.RoundTrip.{read_number-itoa}
use ghost_source_code_readin.Sql.Value.{
  Column, ColumnType, medium_int, Value, str, int8, int16, int32, int64, uint8, uint16, uint32,
  uint, Encodings, is_medium_int, convert_int32, unsigned, convert_arg,
}

-- A number of `w` bits, read as a signed one.
pub signed : ℕ → ℕ → ℤ
signed w v = if ltb v (2 ^ (w - 1)) then pos v else negsuc (2 ^ w - 1 - v)

-- The number that a converted value hands to the server, as a number or in decimal.
pub number_of : Value → Option ℕ
number_of (uint8 n) = some n
number_of (uint16 n) = some n
number_of (uint32 n) = some n
number_of (uint n) = some n
number_of (int32 (pos n)) = some n
number_of (str s) = read_number s
number_of v = none

-- The integer types of a column, with their widths and the Go types that carry them.
pub data IntegerType : Type 0 where
  tiny small medium regular big : IntegerType

unfoldable pub width : IntegerType → ℕ
width tiny = 8
width small = 16
width medium = 24
width regular = 32
width big = 64

pub carried : IntegerType → ℤ → Value
carried tiny = int8
carried small = int16
carried medium = int32
carried regular = int32
carried big = int64

-- The column's type is recorded as that of a `mediumint` exactly for a `mediumint`.
pub data Describes : IntegerType → ColumnType → Type 0 where
  describes_medium : Describes medium medium_int
  describes_tiny : (t : ColumnType) → Describes tiny t
  describes_small : (t : ColumnType) → Describes small t
  describes_regular : (t : ColumnType) → is_medium_int t ≡ false → Describes regular t
  describes_big : (t : ColumnType) → Describes big t

unsigned-signed_8 : (v : ℕ) → v < 2 ^ 8 → unsigned 8 (signed 8 v) ≡ v
unfolding unsigned signed
unsigned-signed_8 v h = ground arith

unsigned-signed_16 : (v : ℕ) → v < 2 ^ 16 → unsigned 16 (signed 16 v) ≡ v
unfolding unsigned signed
unsigned-signed_16 v h = ground arith

unsigned-signed_32 : (v : ℕ) → v < 2 ^ 32 → unsigned 32 (signed 32 v) ≡ v
unfolding unsigned signed
unsigned-signed_32 v h = ground arith

unsigned-signed_64 : (v : ℕ) → v < 2 ^ 64 → unsigned 64 (signed 64 v) ≡ v
unfolding unsigned signed
unsigned-signed_64 v h = ground arith

medium_restored : (v : ℕ) → v < 2 ^ 24 → number_of (convert_int32 true (signed 24 v)) ≡ some v
unfolding convert_int32 signed number_of
medium_restored v h = ground arith

-- For every unsigned integer column of the types tinyint to bigint, and every value that fits it: the
-- value, as the replication protocol delivers it (read as a signed number of the column's width), is
-- converted to the value itself.
pub convert_arg_restores :
    (e : Encodings) (c : Column) (i : IntegerType) (v : ℕ)
    → c.is_unsigned ≡ true
    → Describes i c.column_type
    → v < 2 ^ width i
    → number_of (convert_arg e c (carried i (signed (width i) v))) ≡ some v
unfolding convert_arg number_of carried signed width
convert_arg_restores e c i v u (describes_tiny t) h = rw (u, unsigned-signed_8 v h)
convert_arg_restores e c i v u (describes_small t) h = rw (u, unsigned-signed_16 v h)
convert_arg_restores e c i v u describes_medium h = rw u (medium_restored v h)
convert_arg_restores e c i v u (describes_regular t m) h =
    rw (u, m) (rw (unsigned-signed_32 v h, convert_int32))
convert_arg_restores e c i v u (describes_big t) h =
    rw (u, unsigned-signed_64 v h) (read_number-itoa v)
