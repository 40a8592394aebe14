-- ===== src/Sql/Value.antt =====
-- go/sql/types.go and encoding.go: the values of a row, a column, and `convertArg`.
pub mod Convert
use ghost_source_code_readin.Base.{
  ℕ, suc, ◌+◌, ◌-◌, ◌^◌, ◌%◌, Bool, true, false, Option, none, some, if◌then◌else◌,
}
use ghost_source_code_readin.Base.Int.{ℤ, pos, negsuc}
use ghost_source_code_readin.Text.{Text, txt, text_eq}
use ghost_source_code_readin.Text.Decimal.{itoa}

pub data ColumnType : Type 0 where
  unknown timestamp date_time enum medium_int json float : ColumnType

-- `ToTimezone` of the conversion, if there is one.
pub record Column : Type 0 where
  pub name : Text
  pub is_unsigned : Bool
  pub charset : Text
  pub column_type : ColumnType
  pub timezone_conversion : Option Text

-- An `interface{}` by its dynamic type. `opaque` stands for every type that the program only hands
-- on (floats, times, decimals).
pub data Value : Type 0 where
  null : Value
  str : Text → Value
  bytes : Text → Value
  int8 int16 int32 int64 int : ℤ → Value
  uint8 uint16 uint32 uint : ℕ → Value
  opaque : ℕ → Value

-- The decoders of golang.org/x/text, as functions from bytes to the decoded text.
pub record Encodings : Type 0 where
  pub windows1252 : Text → Text
  pub gbk : Text → Text

-- `uintW(i)`: the same bits, read as an unsigned number.
unfoldable pub unsigned : ℕ → ℤ → ℕ
unsigned w (pos n) = n % 2 ^ w
unsigned w (negsuc n) = (2 ^ w - suc (n % 2 ^ w)) % 2 ^ w

abbrev pub max_mediumint_unsigned : ℕ
max_mediumint_unsigned = 16777215

-- `uint32(maxMediumintUnsigned + i + 1)` for a negative `i`, in int32 arithmetic.
abbrev medium_from_negative : ℕ → ℕ
medium_from_negative n = (max_mediumint_unsigned + 2 ^ 32 - n) % 2 ^ 32

abbrev pub is_medium_int : ColumnType → Bool
is_medium_int medium_int = true
is_medium_int _ = false

convert_int32 : Bool → ℤ → Value
unfolding unsigned
convert_int32 true (pos n) = int32 (pos n)
convert_int32 true (negsuc n) = uint32 (medium_from_negative n)
convert_int32 false i = uint32 (unsigned 32 i)

convert_unsigned : ColumnType → Value → Value
unfolding unsigned convert_int32
convert_unsigned t (int8 i) = uint8 (unsigned 8 i)
convert_unsigned t (int16 i) = uint16 (unsigned 16 i)
convert_unsigned t (int32 i) = convert_int32 (is_medium_int t) i
convert_unsigned t (int64 i) = str (itoa (unsigned 64 i))
convert_unsigned t (int i) = uint (unsigned 64 i)
convert_unsigned t v = v

-- `charsetEncodingMap[charset]`
unfoldable pub charset_encoding : Encodings → Text → Option (Text → Text)
charset_encoding e charset =
    if text_eq charset (txt "latin1")
    then some e.windows1252
    else if text_eq charset (txt "gbk")
    then some e.gbk
    else none

abbrev decode_with : Option (Text → Text) → Text → Text
decode_with none s = s
decode_with (some decode) s = decode s

-- `convertArg`
unfoldable pub convert_arg : Encodings → Column → Value → Value
unfolding convert_unsigned charset_encoding
convert_arg e column (str s) = str (decode_with (charset_encoding e column.charset) s)
convert_arg e column v = if column.is_unsigned then convert_unsigned column.column_type v else v
