-- ===== src/Text/Unquote.antt =====
-- `strconv.Unquote`, for a text of ASCII bytes: raw strings in backquotes, and quoted strings with
-- their escapes. `\u` and `\U` are written out in UTF-8.
use ghost_source_code_readin.Base.{
  ℕ, zero, suc, ◌+◌, ◌-◌, ◌*◌, ◌/◌, ◌%◌, true, false, not, ◌&&◌, ◌||◌, Option, none, some, [], ◌∷◌,
  ◌++◌, ltb, leb, ◌==◌, if◌then◌else◌, length,
}
use ghost_source_code_readin.Text.{Text, contains_byte, is_empty}

abbrev hex_digit : ℕ → Option ℕ
hex_digit c =
    if leb b'0' c && leb c b'9'
    then some (c - b'0')
    else if leb b'a' c && leb c b'f'
    then some (c - b'a' + 10)
    else if leb b'A' c && leb c b'F'
    then some (c - b'A' + 10)
    else none

abbrev octal_digit : ℕ → Option ℕ
octal_digit c = if leb b'0' c && leb c b'7' then some (c - b'0') else none

-- `n` digits of the given base, and the text behind them.
read_escape : (ℕ → Option ℕ) → ℕ → ℕ → ℕ → Text → Option (ℕ × Text)
read_escape digit base zero v s = some (v, s)
read_escape digit base (suc n) v [] = none
read_escape digit base (suc n) v (c ∷ s) = elim (digit c) [
  | none ↦ none
  | some d ↦ read_escape digit base n (v * base + d) s
]

encode_rune : ℕ → Text
encode_rune r =
    if ltb r 0x80
    then r ∷ []
    else if ltb r 0x800
    then (0xC0 + r / 64) ∷ (0x80 + r % 64) ∷ []
    else if ltb r 0x10000
    then (0xE0 + r / 4096) ∷ (0x80 + r / 64 % 64) ∷ (0x80 + r % 64) ∷ []
    else (0xF0 + r / 262144) ∷ (0x80 + r / 4096 % 64) ∷ (0x80 + r / 64 % 64) ∷ (0x80 + r % 64) ∷ []

as_byte : Option (ℕ × Text) → Option (Text × Text)
as_byte none = none
as_byte (some (v, s)) = if ltb 255 v then none else some (v ∷ [], s)

as_rune : Option (ℕ × Text) → Option (Text × Text)
unfolding encode_rune
as_rune none = none
as_rune (some (v, s)) = if ltb 0x10FFFF v then none else some (encode_rune v, s)

-- What a backslash and `c` stand for, where `s` follows.
escaped : ℕ → ℕ → Text → Option (Text × Text)
unfolding read_escape as_byte as_rune
escaped quote c s =
    if c == b'a'
    then some (7 ∷ [], s)
    else if c == b'b'
    then some (8 ∷ [], s)
    else if c == b'f'
    then some (12 ∷ [], s)
    else if c == b'n'
    then some (10 ∷ [], s)
    else if c == b'r'
    then some (13 ∷ [], s)
    else if c == b't'
    then some (9 ∷ [], s)
    else if c == b'v'
    then some (11 ∷ [], s)
    else if c == b'x'
    then as_byte (read_escape hex_digit 16 2 0 s)
    else if c == b'u'
    then as_rune (read_escape hex_digit 16 4 0 s)
    else if c == b'U'
    then as_rune (read_escape hex_digit 16 8 0 s)
    else if leb b'0' c && leb c b'7'
    then as_byte (read_escape octal_digit 8 3 0 (c ∷ s))
    else if c == b'\\'
    then some (c ∷ [], s)
    else if (c == 39 || c == 34) && c == quote
    then some (c ∷ [], s)
    else none

-- `strconv.UnquoteChar`: the bytes of the first character, and the rest.
unquote_char : ℕ → Text → Option (Text × Text)
unfolding escaped
unquote_char quote [] = none
unquote_char quote (c ∷ []) = if c == quote || c == b'\\' then none else some (c ∷ [], [])
unquote_char quote (c ∷ d ∷ s) =
    if c == quote then none else if c == b'\\' then escaped quote d s else some (c ∷ [], d ∷ s)

-- The loop; a round takes a byte at least, so the length of the text is enough fuel.
unquote_loop : ℕ → ℕ → Text → Text → Option Text
unfolding unquote_char
unquote_loop zero quote s out = if is_empty s then some out else none
unquote_loop (suc f) quote [] out = some out
unquote_loop (suc f) quote (c ∷ s) out = elim (unquote_char quote (c ∷ s)) [
  | none ↦ none
  | some (bytes, rest) ↦ elim (quote == 39 && not (is_empty rest)) [
    | true ↦ none
    | false ↦ unquote_loop f quote rest (out ++ bytes)
  ]
]

-- The text without its last byte, and that byte.
cut_last : Text → Option (Text × ℕ)
cut_last [] = none
cut_last (c ∷ s) = elim (cut_last s) [ none ↦ some ([], c) | some (t, d) ↦ some (c ∷ t, d) ]

drop_returns : Text → Text
drop_returns [] = []
drop_returns (c ∷ s) = let rest = drop_returns s in if c == 13 then rest else c ∷ rest

inside : ℕ → Text → Option Text
unfolding unquote_loop drop_returns
inside quote s =
    if quote == 96
    then (if contains_byte 96 s then none else some (drop_returns s))
    else if quote == 34 || quote == 39
    then (if contains_byte 10 s then none else unquote_loop (length s) quote s [])
    else none

-- `strconv.Unquote(s)`; `none` is `ErrSyntax`.
unfoldable pub unquote : Text → Option Text
unfolding inside cut_last
unquote [] = none
unquote (quote ∷ s) = elim (cut_last s) [
  | none ↦ none
  | some (t, d) ↦ if d == quote then inside quote t else none
]
