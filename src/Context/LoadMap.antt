-- ===== src/Context/LoadMap.antt =====
-- go/base/load_map.go: status variables and their thresholds.
pub mod Parse
use ghost_source_code_readin.Base.{
  ℕ, Bool, true, false, Option, none, some, List, [], ◌∷◌, ◌++◌, map, if◌then◌else◌, Result, ok,
  err, ◌>>=◌,
}
use ghost_source_code_readin.Base.Int.{ℤ, pos}
use ghost_source_code_readin.Base.Dict.{Dict, insert}
use ghost_source_code_readin.Text.{Text, txt, is_empty, split, join}
use ghost_source_code_readin.Text.Decimal.{itoa_int, atoi}

abbrev pub LoadMap : Type 0
LoadMap = Dict ℤ

pub data LoadError : Type 0 where
  bad_condition no_variable bad_value : LoadError

abbrev with_value : Text → Option ℤ → Result LoadError (Text × ℤ)
with_value variable none = err bad_value
with_value variable (some n) = ok (variable, n)

abbrev condition_of_tokens : List Text → Result LoadError (Text × ℤ)
condition_of_tokens (variable ∷ value ∷ []) =
    if is_empty variable then err no_variable else with_value variable (atoi value)
condition_of_tokens _ = err bad_condition

-- One condition, `variable=threshold`.
unfoldable pub parse_condition : Text → Result LoadError (Text × ℤ)
parse_condition s = condition_of_tokens (split s b'=')

unfoldable pub parse_conditions : List Text → LoadMap → Result LoadError LoadMap
unfolding parse_condition
parse_conditions [] m = ok m
parse_conditions (s ∷ ss) m = do c ← parse_condition s; parse_conditions ss (insert c.0 c.1 m)

-- `ParseLoadMap`
unfoldable pub parse_load_map : Text → Result LoadError LoadMap
unfolding parse_conditions
parse_load_map list = if is_empty list then ok [] else parse_conditions (split list b',') []

abbrev pub condition_text : Text × ℤ → Text
condition_text (variable, n) = variable ++ (txt "=" ++ itoa_int n)

-- `String`, where `sort_strings` is the package's `sort.Strings`.
unfoldable pub load_map_string : (List Text → List Text) → LoadMap → Text
load_map_string sort_strings m = join (sort_strings (map condition_text m)) (txt ",")
