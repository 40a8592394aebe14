-- ===== src/Context/Validate.antt =====
-- go/base/utils.go: the check of a connection, on the server's answers to the queries.
pub mod Port
use ghost_source_code_readin.Base.{
  Bool, true, false, ◌&&◌, ◌||◌, List, [], ◌∷◌, if◌then◌else◌, Result, ok, err, ◌>>=◌,
}
use ghost_source_code_readin.Base.Int.{ℤ, pos, ltb_ℤ}
use ghost_source_code_readin.Text.{Text, is_empty, contains}
use ghost_source_code_readin.Mysql.Coordinates.{int_eq}

-- The loop of `StringContainsAll`.
unfoldable pub contains_all_from : Bool → Text → List Text → Bool
contains_all_from found s [] = found
contains_all_from found s (t ∷ ts) =
    let skipped = contains_all_from found s ts in
    let counted = contains_all_from true s ts in
    if is_empty t then skipped else if contains s t then counted else false

-- `StringContainsAll`
unfoldable pub string_contains_all : Text → List Text → Bool
unfolding contains_all_from
string_contains_all s substrings = contains_all_from false s substrings

-- What a server answers: its version, `extra_port` and `port`.
pub record Answers : Type 0 where
  pub version : Result Text Text
  pub extra_port : Result Text ℤ
  pub port_answer : Result Text ℤ

-- The errors: a query that failed, or a port that is not the connection's.
pub data ConnectionError : Type 0 where
  version_or_port_failed : Text → ConnectionError
  unexpected_port : ℤ → ConnectionError
  unexpected_ports : ℤ → ℤ → ConnectionError

-- An error of this query is swallowed, and leaves 0.
abbrev pub extra_or_zero : Result Text ℤ → ℤ
extra_or_zero (err e) = pos 0
extra_or_zero (ok p) = p

abbrev answered {ℓ} : {A : Type ℓ} → Result Text A → Result ConnectionError A
answered (err e) = err (version_or_port_failed e)
answered (ok a) = ok a

-- The port that the source writes over the one that it has read.
abbrev pub written_port : ℤ
written_port = pos 3307

unfoldable pub compare_ports : (port extra : ℤ) → Text → Result ConnectionError Text
compare_ports port extra version =
    if int_eq port written_port || (ltb_ℤ (pos 0) extra && int_eq port extra)
    then ok version
    else if int_eq extra (pos 0)
    then err (unexpected_port written_port)
    else err (unexpected_ports written_port extra)

-- `ValidateConnection`, of a connection to `port`; the server's port is not asked for in the cloud.
unfoldable pub validate_connection :
    (port : ℤ) (cloud : Bool) → Answers → Result ConnectionError Text
unfolding compare_ports
validate_connection port cloud a = do
  version ← answered a.version
  asked ← if cloud then ok port else answered a.port_answer
  compare_ports port (extra_or_zero a.extra_port) version
