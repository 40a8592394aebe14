-- ===== src/Tests/Commanding.antt =====
-- Commands of go/logic/server.go.
use ghost_source_code_readin.Base.{[], err, false, none, refl, true, ℕ, ◌∷◌, ◌≡◌, ◌⊎◌}
use ghost_source_code_readin.Base.Int.{pos}
use ghost_source_code_readin.Text.{Text, split_two, text_eq, trim_left, trim_right, trim_space, txt}
use ghost_source_code_readin.Text.Unquote.{unquote}
use ghost_source_code_readin.Mysql.Coordinates.{binary_log}
use ghost_source_code_readin.Logic.Server.{
  Controls, ServerPlan, apply_command, apply_server_command, argument, command_of, user_panic,
}
use ghost_source_code_readin.Logic.Server.Questions.{
  apply_server_command-question, apply_server_command-refused,
}

abbrev controls : Controls ℕ
controls = record {
  settings = record {
    heartbeat_interval_milliseconds = pos 100;
    default_num_retries = pos 60;
    chunk_size = pos 1000;
    max_lag_milliseconds_throttle_threshold = pos 1500;
    cut_over_lock_timeout_seconds = pos 3;
    exponential_backoff_max_interval = pos 64;
    dml_batch_size = pos 10;
  };
  nice_ratio = 0;
  max_load = [];
  critical_load = [];
  throttle_query = [];
  throttle_http = [];
  throttle_control_replica_keys = [];
  throttle_commanded_by_user = false;
  is_postponing_cut_over = true;
  user_commanded_unpostpone = false;
  user_panics = false;
}

abbrev users : Text
users = 117 ∷ []

abbrev server_plan : ServerPlan
server_plan = record {
  original_table_name = users;
  force_named_cut_over_command = false;
  force_named_panic_command = false;
  recent_binlog_coordinates = record { log_file = []; log_pos = pos 4; log_type = binary_log };
}

-- `panic = "?"`
abbrev panics : Text
panics = txt "panic = \"?\""

asked : argument (split_two panics b'=').1 ≡ txt "?"
unfolding split_two trim_space trim_left trim_right unquote txt
asked = refl

other_name : text_eq (txt "?") users ≡ false
unfolding text_eq txt
other_name = refl

apply_server_command-question_example :
    (apply_server_command (λ t. none) (λ r. r) server_plan (λ t. none) panics controls).2 ≡ controls
apply_server_command-question_example =
    apply_server_command-question (λ t. none) (λ r. r) server_plan (λ t. none) panics controls
      other_name asked

abbrev panic_now : Text
panic_now = txt "panic"

refused :
    (apply_server_command (λ t. none) (λ r. r) server_plan (λ t. none) panic_now controls).0
    ≡ err user_panic
unfolding split_two trim_space trim_left trim_right unquote txt text_eq apply_server_command
    apply_command command_of
refused = refl

apply_server_command-refused_example :
    ((apply_server_command (λ t. none) (λ r. r) server_plan (λ t. none) panic_now controls).2
      ≡ controls)
    ⊎ ((user_panic ≡ user_panic)
        × ((apply_server_command (λ t. none) (λ r. r) server_plan (λ t. none) panic_now controls).2
            ≡ record controls { user_panics = true }))
apply_server_command-refused_example =
    apply_server_command-refused (λ t. none) (λ r. r) server_plan (λ t. none) panic_now controls
      user_panic refused
