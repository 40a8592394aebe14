-- ===== src/Logic/Server.antt =====
-- go/logic/server.go, `applyServerCommand`: the commands of users. Sockets, the help's text and how a value
-- is printed are left out: what a command shows is a value. The ratio is a floating-point number, so its
-- parsing and its bounds are parameters.
pub mod Questions
use ghost_source_code_readin.Base.{
  Bool, true, false, not, ◌&&◌, ◌||◌, Option, none, some, List, [], ◌∷◌, ◌++◌, if◌then◌else◌,
  Result, ok, err,
}
use ghost_source_code_readin.Base.Int.{ℤ}
use ghost_source_code_readin.Text.{Text, txt, text_eq, is_empty, split_two, trim_space}
use ghost_source_code_readin.Text.Decimal.{atoi}
use ghost_source_code_readin.Text.Unquote.{unquote}
use ghost_source_code_readin.Mysql.Coordinates.{BinlogCoordinates}
use ghost_source_code_readin.Mysql.InstanceKey.{KeyError}
use ghost_source_code_readin.Mysql.InstanceKey.KeyMap.{
  InstanceKeyMap, read_comma_delimited_list, to_comma_delimited_list,
}
use ghost_source_code_readin.Context.Settings.{
  Settings, set_chunk_size, set_dml_batch_size, set_max_lag_milliseconds_throttle_threshold,
}
use ghost_source_code_readin.Context.LoadMap.{LoadMap, LoadError, parse_load_map}

-- What the commands read and write.
pub record Controls (F : Type 0) : Type 0 where
  pub settings : Settings
  pub nice_ratio : F
  pub max_load : LoadMap
  pub critical_load : LoadMap
  pub throttle_query : Text
  pub throttle_http : Text
  pub throttle_control_replica_keys : InstanceKeyMap
  pub throttle_commanded_by_user : Bool
  pub is_postponing_cut_over : Bool
  pub user_commanded_unpostpone : Bool
  pub user_panics : Bool

pub record ServerPlan : Type 0 where
  pub original_table_name : Text
  pub force_named_cut_over_command : Bool
  pub force_named_panic_command : Bool
  pub recent_binlog_coordinates : BinlogCoordinates

pub data Command : Type 0 where
  help_command sup_command status_command coordinates_command chunk_size_command : Command
  dml_batch_size_command max_lag_command lag_query_command nice_ratio_command : Command
  max_load_command critical_load_command throttle_query_command throttle_http_command : Command
  replicas_command throttle_command no_throttle_command unpostpone_command panic_command : Command
  unknown_command : Text → Command

pub data CommandError : Type 0 where
  hook_failed : Text → CommandError
  read_only deprecated not_a_number other_table table_not_named user_panic : CommandError
  load_error : LoadError → CommandError
  key_error : KeyError → CommandError
  unknown : Text → CommandError

pub data PrintRule : Type 0 where
  no_print_status heuristic_print_status force_print_status : PrintRule
  force_print_status_only force_print_status_and_hint : PrintRule

-- What is written to the user besides the status.
pub data Shown (F : Type 0) : Type 0 where
  nothing help throttle_hint unpostponed not_postponing : Shown F
  coordinates : BinlogCoordinates → Shown F
  number : ℤ → Shown F
  ratio : F → Shown F
  load : LoadMap → Shown F
  text : Text → Shown F

-- The names of the commands.
abbrev pub command_names : List (Text × Command)
command_names =
    (txt "help", help_command)
    ∷ (txt "sup", sup_command)
    ∷ (txt "info", status_command)
    ∷ (txt "status", status_command)
    ∷ (txt "coordinates", coordinates_command)
    ∷ (txt "chunk-size", chunk_size_command)
    ∷ (txt "dml-batch-size", dml_batch_size_command)
    ∷ (txt "max-lag-millis", max_lag_command)
    ∷ (txt "replication-lag-query", lag_query_command)
    ∷ (txt "nice-ratio", nice_ratio_command)
    ∷ (txt "max-load", max_load_command)
    ∷ (txt "critical-load", critical_load_command)
    ∷ (txt "throttle-query", throttle_query_command)
    ∷ (txt "throttle-http", throttle_http_command)
    ∷ (txt "throttle-control-replicas", replicas_command)
    ∷ (txt "throttle", throttle_command)
    ∷ (txt "pause", throttle_command)
    ∷ (txt "suspend", throttle_command)
    ∷ (txt "no-throttle", no_throttle_command)
    ∷ (txt "unthrottle", no_throttle_command)
    ∷ (txt "resume", no_throttle_command)
    ∷ (txt "continue", no_throttle_command)
    ∷ (txt "unpostpone", unpostpone_command)
    ∷ (txt "no-postpone", unpostpone_command)
    ∷ (txt "cut-over", unpostpone_command)
    ∷ (txt "panic", panic_command)
    ∷ []

unfoldable pub command_of : List (Text × Command) → Text → Command
command_of [] t = unknown_command t
command_of ((name, c) ∷ names) t = if text_eq t name then c else command_of names t

abbrev pub unquoted : Text → Option Text → Text
unquoted arg none = arg
unquoted arg (some u) = u

abbrev pub argument : Option Text → Text
argument none = []
argument (some a) = let arg = trim_space a in unquoted arg (unquote arg)

module _ {F : Type 0} (parse_ratio : Text → Option F) (bounded_ratio : F → F) (p : ServerPlan) where
  -- The rule by which the status is printed or an error, what is shown, and the controls.
  abbrev pub Reply : Type 0
  Reply = Result CommandError PrintRule × Shown F × Controls F

  abbrev pub answers : Shown F → Controls F → Reply
  answers shown c = (ok no_print_status, shown, c)

  abbrev pub sets : Controls F → Reply
  sets c = (ok force_print_status_and_hint, nothing, c)

  abbrev pub refuses : CommandError → Controls F → Reply
  refuses e c = (err e, nothing, c)

  abbrev pub set_number : Option ℤ → (ℤ → Settings → Settings) → Controls F → Reply
  set_number none set c = refuses not_a_number c
  set_number (some n) set c = sets (record c { settings = set n c.settings })

  abbrev pub set_ratio : Option F → Controls F → Reply
  set_ratio none c = refuses not_a_number c
  set_ratio (some r) c = sets (record c { nice_ratio = bounded_ratio r })

  abbrev pub set_load : Result LoadError LoadMap → (LoadMap → Controls F) → Controls F → Reply
  set_load (err e) set c = refuses (load_error e) c
  set_load (ok m) set c = sets (set m)

  abbrev pub set_replicas : InstanceKeyMap × Result KeyError (Unit {0}) → Controls F → Reply
  set_replicas (keys, err e) c = refuses (key_error e) c
  set_replicas (keys, ok done) c = (
    ok force_print_status_and_hint,
    text (to_comma_delimited_list keys),
    record c { throttle_control_replica_keys = keys },
  )

  -- The user named another table.
  abbrev pub names_other : Text → Bool
  names_other arg = not (is_empty arg) && not (text_eq arg p.original_table_name)

  abbrev pub unpostpone : Controls F → Reply
  unpostpone c =
      if c.is_postponing_cut_over
      then (
        ok force_print_status_and_hint,
        unpostponed,
        record c { user_commanded_unpostpone = true },
      )
      else answers not_postponing c

  -- The cases of `applyServerCommand`, for the argument.
  unfoldable pub apply_command : Command → Text → Controls F → Reply
  apply_command help_command arg c = answers help c
  apply_command sup_command arg c = (ok force_print_status_only, nothing, c)
  apply_command status_command arg c = sets c
  apply_command coordinates_command arg c =
      if text_eq arg (txt "?") || is_empty arg
      then answers (coordinates p.recent_binlog_coordinates) c
      else refuses read_only c
  apply_command chunk_size_command arg c =
      if text_eq arg (txt "?")
      then answers (number c.settings.chunk_size) c
      else set_number (atoi arg) set_chunk_size c
  apply_command dml_batch_size_command arg c =
      if text_eq arg (txt "?")
      then answers (number c.settings.dml_batch_size) c
      else set_number (atoi arg) set_dml_batch_size c
  apply_command max_lag_command arg c =
      if text_eq arg (txt "?")
      then answers (number c.settings.max_lag_milliseconds_throttle_threshold) c
      else set_number (atoi arg) set_max_lag_milliseconds_throttle_threshold c
  apply_command lag_query_command arg c = refuses deprecated c
  apply_command nice_ratio_command arg c =
      if text_eq arg (txt "?")
      then answers (ratio c.nice_ratio) c
      else set_ratio (parse_ratio arg) c
  apply_command max_load_command arg c =
      if text_eq arg (txt "?")
      then answers (load c.max_load) c
      else set_load (parse_load_map arg) (λ m. record c { max_load = m }) c
  apply_command critical_load_command arg c =
      if text_eq arg (txt "?")
      then answers (load c.critical_load) c
      else set_load (parse_load_map arg) (λ m. record c { critical_load = m }) c
  apply_command throttle_query_command arg c =
      if text_eq arg (txt "?")
      then answers (text c.throttle_query) c
      else (ok force_print_status_and_hint, throttle_hint, record c { throttle_query = arg })
  apply_command throttle_http_command arg c =
      if text_eq arg (txt "?")
      then answers (text c.throttle_http) c
      else (ok force_print_status_and_hint, throttle_hint, record c { throttle_http = arg })
  apply_command replicas_command arg c =
      if text_eq arg (txt "?")
      then answers (text (to_comma_delimited_list c.throttle_control_replica_keys)) c
      else set_replicas (read_comma_delimited_list arg []) c
  apply_command throttle_command arg c = if names_other arg then refuses other_table c else (
    ok force_print_status_and_hint,
    throttle_hint,
    record c { throttle_commanded_by_user = true },
  )
  apply_command no_throttle_command arg c =
      if names_other arg
      then refuses other_table c
      else sets (record c { throttle_commanded_by_user = false })
  apply_command unpostpone_command arg c =
      if is_empty arg && p.force_named_cut_over_command
      then refuses table_not_named c
      else if names_other arg
      then refuses other_table c
      else unpostpone c
  apply_command panic_command arg c =
      if is_empty arg && p.force_named_panic_command
      then refuses table_not_named c
      else if names_other arg
      then refuses other_table c
      else refuses user_panic (record c { user_panics = true })
  apply_command (unknown_command t) arg c = refuses (unknown t) c

  abbrev pub when_allowed : Option Text → Reply → Controls F → Reply
  when_allowed none r c = r
  when_allowed (some e) r c = refuses (hook_failed e) c

  -- `applyServerCommand`; the hook gives its error or none.
  unfoldable pub apply_server_command : (Text → Option Text) → Text → Controls F → Reply
  unfolding command_of apply_command
  apply_server_command on_interactive_command line c =
      let (before, after) = split_two line b'=' in
      let command = trim_space before in
      when_allowed (on_interactive_command command)
        (apply_command (command_of command_names command) (argument after) c) c
