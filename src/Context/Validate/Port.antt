-- ===== src/Context/Validate/Port.antt =====
-- The port that a connection may have.
use ghost_source_code_readin.Base.{◌≡◌, Bool, true, false, ok, err}
use ghost_source_code_readin.Base.Int.{ℤ, pos}
use ghost_source_code_readin.Text.{Text}
use ghost_source_code_readin.Mysql.Coordinates.{int_eq}
use ghost_source_code_readin.Context.Validate.{
  Answers, unexpected_port, compare_ports, validate_connection,
}

-- A connection to a port other than 3307 is refused although the server says that this is its port, and
-- has no other.
pub validate_connection-other_port :
    (port : ℤ) (cloud : Bool) (version : Text) (a : Answers)
    → int_eq port (pos 3307) ≡ false
    → a ≡ record { version = ok version; extra_port = ok (pos 0); port_answer = ok port }
    → validate_connection port cloud a ≡ err (unexpected_port (pos 3307))
unfolding validate_connection compare_ports
validate_connection-other_port port true version a other e = simp (e, other)
validate_connection-other_port port false version a other e = simp (e, other)
