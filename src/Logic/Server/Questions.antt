-- ===== src/Logic/Server/Questions.antt =====
-- What the commands of go/logic/server.go leave alone.
use ghost_source_code_readin.Base.{
  Bool, Option, Result, [], ap, arith, err, false, if-all, if◌then◌else◌, inl, inr, none, ok, refl,
  some, true, ◌&&◌, ◌∙◌, ◌≡◌, ◌⊎◌,
}
use ghost_source_code_readin.Base.Int.{ℤ}
use ghost_source_code_readin.Text.{Text, is_empty, split_two, text_eq, trim_space, txt}
use ghost_source_code_readin.Text.Decimal.{atoi}
use ghost_source_code_readin.Mysql.InstanceKey.KeyMap.{InstanceKeyMap, read_comma_delimited_list}
use ghost_source_code_readin.Mysql.InstanceKey.{KeyError}
use ghost_source_code_readin.Context.Settings.{Settings}
use ghost_source_code_readin.Context.LoadMap.{LoadError, LoadMap, parse_load_map}
use ghost_source_code_readin.Logic.Server.{
  table_not_named, other_table, names_other, Command, CommandError, Controls, PrintRule, Reply,
  ServerPlan, Shown, apply_command, apply_server_command, argument, chunk_size_command,
  command_names, command_of, coordinates_command, critical_load_command, dml_batch_size_command,
  help_command, lag_query_command, max_lag_command, max_load_command, nice_ratio_command,
  no_throttle_command, panic_command, refuses, replicas_command, set_load, set_number, set_ratio,
  set_replicas, status_command, sup_command, throttle_command, throttle_http_command,
  throttle_query_command, unknown_command, unpostpone_command, user_panic, when_allowed,
}

-- An error leaves the controls as they are, unless the user wants a panic.
data Harmless {F : Type 0} (c : Controls F)
    : Result CommandError PrintRule × Shown F × Controls F → Type 0 where
  accepted : {rule : PrintRule} {shown : Shown F} {d : Controls F} → Harmless c (ok rule, shown, d)
  refused_same : {e : CommandError} {shown : Shown F} → Harmless c (err e, shown, c)
  panicked : {shown : Shown F} → Harmless c (err user_panic, shown, record c { user_panics = true })

module _ {F : Type 0} (parse_ratio : Text → Option F) (bounded_ratio : F → F) (p : ServerPlan) where
  apply_command-question :
      (command : Command) (c : Controls F)
      → text_eq (txt "?") p.original_table_name ≡ false
      → (apply_command parse_ratio bounded_ratio p command (txt "?") c).2 ≡ c
  unfolding apply_command text_eq txt
  apply_command-question throttle_command c h = simp (h)
  apply_command-question no_throttle_command c h = simp (h)
  apply_command-question unpostpone_command c h = simp (h)
  apply_command-question panic_command c h = simp (h)
  apply_command-question help_command c h = refl
  apply_command-question _ c h = refl

  when_allowed-keeps :
      (o : Option Text) (r : Reply parse_ratio bounded_ratio p) (c : Controls F)
      → r.2 ≡ c
      → (when_allowed parse_ratio bounded_ratio p o r c).2 ≡ c
  when_allowed-keeps none r c h = h
  when_allowed-keeps (some e) r c h = refl

  -- A command whose argument is a question mark changes nothing, whatever command it is, known or not,
  -- and whatever the hook does, if the table is not itself named by a question mark.
  pub apply_server_command-question :
      (hook : Text → Option Text) (line : Text) (c : Controls F)
      → text_eq (txt "?") p.original_table_name ≡ false
      → argument (split_two line b'=').1 ≡ txt "?"
      → (apply_server_command parse_ratio bounded_ratio p hook line c).2 ≡ c
  unfolding apply_server_command
  apply_server_command-question hook line c h asked =
      let command = command_of command_names (trim_space (split_two line b'=').0) in
      when_allowed-keeps (hook (trim_space (split_two line b'=').0))
        (apply_command parse_ratio bounded_ratio p command (argument (split_two line b'=').1) c) c
        (ap (λ a. (apply_command parse_ratio bounded_ratio p command a c).2) asked
          ∙ apply_command-question command c h)

  set_number-Harmless :
      (n : Option ℤ) (set : ℤ → Settings → Settings) (c : Controls F)
      → Harmless c (set_number parse_ratio bounded_ratio p n set c)
  set_number-Harmless none set c = refused_same
  set_number-Harmless (some n) set c = accepted

  set_ratio-Harmless :
      (r : Option F) (c : Controls F) → Harmless c (set_ratio parse_ratio bounded_ratio p r c)
  set_ratio-Harmless none c = refused_same
  set_ratio-Harmless (some r) c = accepted

  set_load-Harmless :
      (r : Result LoadError LoadMap) (set : LoadMap → Controls F) (c : Controls F)
      → Harmless c (set_load parse_ratio bounded_ratio p r set c)
  set_load-Harmless (err e) set c = refused_same
  set_load-Harmless (ok m) set c = accepted

  set_replicas-Harmless :
      (r : InstanceKeyMap × Result KeyError (Unit {0})) (c : Controls F)
      → Harmless c (set_replicas parse_ratio bounded_ratio p r c)
  set_replicas-Harmless (keys, err e) c = refused_same
  set_replicas-Harmless (keys, ok done) c = accepted

  named-Harmless :
      (forced : Bool) (arg : Text) (c : Controls F) {r : Reply parse_ratio bounded_ratio p}
      → Harmless c r
      → Harmless c (
          if is_empty arg && forced
          then refuses parse_ratio bounded_ratio p table_not_named c
          else if names_other parse_ratio bounded_ratio p arg
          then refuses parse_ratio bounded_ratio p other_table c
          else r)
  named-Harmless forced arg c h =
      if-all (Harmless c) (is_empty arg && forced) refused_same
        (if-all (Harmless c) (names_other parse_ratio bounded_ratio p arg) refused_same h)

  apply_command-Harmless :
      (command : Command) (arg : Text) (c : Controls F)
      → Harmless c (apply_command parse_ratio bounded_ratio p command arg c)
  unfolding apply_command
  apply_command-Harmless help_command arg c = accepted
  apply_command-Harmless sup_command arg c = accepted
  apply_command-Harmless status_command arg c = accepted
  apply_command-Harmless coordinates_command arg c = if-all (Harmless c) _ accepted refused_same
  apply_command-Harmless chunk_size_command arg c =
      if-all (Harmless c) _ accepted (set_number-Harmless (atoi arg) _ c)
  apply_command-Harmless dml_batch_size_command arg c =
      if-all (Harmless c) _ accepted (set_number-Harmless (atoi arg) _ c)
  apply_command-Harmless max_lag_command arg c =
      if-all (Harmless c) _ accepted (set_number-Harmless (atoi arg) _ c)
  apply_command-Harmless lag_query_command arg c = refused_same
  apply_command-Harmless nice_ratio_command arg c =
      if-all (Harmless c) _ accepted (set_ratio-Harmless (parse_ratio arg) c)
  apply_command-Harmless max_load_command arg c =
      if-all (Harmless c) _ accepted (set_load-Harmless (parse_load_map arg) _ c)
  apply_command-Harmless critical_load_command arg c =
      if-all (Harmless c) _ accepted (set_load-Harmless (parse_load_map arg) _ c)
  apply_command-Harmless throttle_query_command arg c = if-all (Harmless c) _ accepted accepted
  apply_command-Harmless throttle_http_command arg c = if-all (Harmless c) _ accepted accepted
  apply_command-Harmless replicas_command arg c =
      if-all (Harmless c) _ accepted (set_replicas-Harmless (read_comma_delimited_list arg []) c)
  apply_command-Harmless throttle_command arg c = if-all (Harmless c) _ refused_same accepted
  apply_command-Harmless no_throttle_command arg c = if-all (Harmless c) _ refused_same accepted
  apply_command-Harmless unpostpone_command arg c =
      named-Harmless p.force_named_cut_over_command arg c
        (if-all (Harmless c) c.is_postponing_cut_over accepted accepted)
  apply_command-Harmless panic_command arg c =
      named-Harmless p.force_named_panic_command arg c panicked
  apply_command-Harmless (unknown_command t) arg c = refused_same

  when_allowed-Harmless :
      (o : Option Text) (r : Reply parse_ratio bounded_ratio p) (c : Controls F)
      → Harmless c r
      → Harmless c (when_allowed parse_ratio bounded_ratio p o r c)
  when_allowed-Harmless none r c h = h
  when_allowed-Harmless (some e) r c h = refused_same

  refused-Harmless :
      (e : CommandError) (r : Reply parse_ratio bounded_ratio p) (c : Controls F)
      → Harmless c r
      → r.0 ≡ err e
      → (r.2 ≡ c) ⊎ ((e ≡ user_panic) × (r.2 ≡ record c { user_panics = true }))
  refused-Harmless e _ c accepted same = absurd cc
  refused-Harmless e _ c refused_same same = inl refl
  refused-Harmless e _ c panicked same = inr (ground (arith, same), refl)

  -- A command that is answered by an error changes nothing, unless it is the command to panic, which
  -- changes no more than to send the panic.
  pub apply_server_command-refused :
      (hook : Text → Option Text) (line : Text) (c : Controls F) (e : CommandError)
      → (apply_server_command parse_ratio bounded_ratio p hook line c).0 ≡ err e
      → ((apply_server_command parse_ratio bounded_ratio p hook line c).2 ≡ c)
        ⊎ ((e ≡ user_panic)
            × ((apply_server_command parse_ratio bounded_ratio p hook line c).2
                ≡ record c { user_panics = true }))
  unfolding apply_server_command
  apply_server_command-refused hook line c e same =
      let command = command_of command_names (trim_space (split_two line b'=').0) in
      let arg = argument (split_two line b'=').1 in
      refused-Harmless e _ c
        (when_allowed-Harmless (hook (trim_space (split_two line b'=').0)) _ c
          (apply_command-Harmless command arg c))
        same
