-- ===== src/Tests/Context.antt =====
-- Runs of go/base at concrete inputs.
use ghost_source_code_readin.Base.{
  ◌+◌, ◌-◌, ◌≤◌, ◌≡◌, refl, [], ◌∷◌, false, ok, err, take, length, leb, arith, if◌then◌else◌,
}
use ghost_source_code_readin.Base.Int.{pos, negsuc}
use ghost_source_code_readin.Base.Dict.{lookup}
use ghost_source_code_readin.Text.{txt, text_eq}
use ghost_source_code_readin.Context.Names.{table_name, get_safe_table_name, max_table_name_length}
use ghost_source_code_readin.Context.Names.Safe.{get_safe_table_name-fits}
use ghost_source_code_readin.Context.Settings.{
  Settings, set_heartbeat_interval_milliseconds, set_max_lag_milliseconds_throttle_threshold,
  set_chunk_size, set_dml_batch_size, set_default_num_retries, set_cut_over_lock_timeout_seconds,
  set_exponential_backoff_max_interval,
}
use ghost_source_code_readin.Context.Settings.Bounds.{IsBounded, setters-IsBounded}
use ghost_source_code_readin.Context.LoadMap.{LoadMap, parse_load_map, load_map_string}
use ghost_source_code_readin.Context.Validate.{Answers, unexpected_port, validate_connection}
use ghost_source_code_readin.Context.Validate.Port.{validate_connection-other_port}
use ghost_source_code_readin.Context.LoadMap.Parse.{parse-load_map_string}

get_safe_table_name-fits_example :
    (get_safe_table_name (txt "events") (txt "gho")
      ≡ ok (table_name (take (62 - length (txt "gho")) (txt "events")) (txt "gho")))
    × (length (table_name (take (62 - length (txt "gho")) (txt "events")) (txt "gho"))
        ≤ max_table_name_length)
    × (length (table_name (take (62 - length (txt "gho")) (txt "events")) (txt "gho")) ≡ (
        if leb (length (txt "events") + length (txt "gho") + 2) 64
        then length (txt "events") + length (txt "gho") + 2
        else 64))
unfolding txt
get_safe_table_name-fits_example = get_safe_table_name-fits (txt "events") (txt "gho") (omega arith)

abbrev defaults : Settings
defaults = record {
  heartbeat_interval_milliseconds = pos 100;
  default_num_retries = pos 60;
  chunk_size = pos 1000;
  max_lag_milliseconds_throttle_threshold = pos 1500;
  cut_over_lock_timeout_seconds = pos 3;
  exponential_backoff_max_interval = pos 64;
  dml_batch_size = pos 10;
}

setters-IsBounded_example :
    IsBounded (set_heartbeat_interval_milliseconds (negsuc 4) defaults)
    × IsBounded (set_max_lag_milliseconds_throttle_threshold (negsuc 4) defaults)
    × IsBounded (set_chunk_size (negsuc 4) defaults)
    × IsBounded (set_dml_batch_size (negsuc 4) defaults)
    × IsBounded (set_default_num_retries (negsuc 4) defaults)
    × IsBounded (set_cut_over_lock_timeout_seconds (negsuc 4) defaults).1
    × IsBounded (set_exponential_backoff_max_interval (negsuc 4) defaults).1
setters-IsBounded_example = setters-IsBounded defaults (negsuc 4) (
  (omega arith, omega arith),
  (omega arith, omega arith),
  (omega arith, omega arith),
  omega arith,
  omega arith,
  (omega arith, omega arith),
  omega arith,
)

abbrev loads : LoadMap
loads = (97 ∷ [], pos 25) ∷ (98 ∷ [], pos 100) ∷ []

parse-load_map_string_example : parse_load_map (load_map_string (λ ts. ts) loads) ≡ ok loads
unfolding lookup text_eq
parse-load_map_string_example =
    parse-load_map_string (λ ts. ts) loads refl
      (
        (refl, (omega arith, tt), (omega arith, tt), omega arith),
        ((refl, (omega arith, tt), (omega arith, tt), omega arith), tt),
      )
      (refl, (refl, tt))

abbrev default_port_server : Answers
default_port_server = record {
  version = ok (53 ∷ []);
  extra_port = ok (pos 0);
  port_answer = ok (pos 3306);
}

validate_connection-other_port_example :
    validate_connection (pos 3306) false default_port_server ≡ err (unexpected_port (pos 3307))
validate_connection-other_port_example =
    validate_connection-other_port (pos 3306) false (53 ∷ []) default_port_server refl refl
