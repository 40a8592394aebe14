-- ===== src/Logic/Streamer/Notify.antt =====
-- A listener hears of its table.
use ghost_source_code_readin.Base.{
  ◌≡◌, ◌∙◌, ap, refl, false, ◌&&◌, List, [], ◌∷◌, ◌++◌, if◌then◌else◌, ok, arith,
}
use ghost_source_code_readin.Text.{is_empty, text_eq, to_lower}
use ghost_source_code_readin.Binlog.{BinlogDmlEvent}
use ghost_source_code_readin.Logic.Streamer.{BinlogEventListener, add_listener, notify_listeners}

module _ {ℓ} {H : Type ℓ} where
  notify_listeners-append :
      (e : BinlogDmlEvent) (ls ms : List (BinlogEventListener H))
      → notify_listeners e (ls ++ ms) ≡ notify_listeners e ls ++ notify_listeners e ms
  unfolding notify_listeners
  notify_listeners-append e [] ms = refl
  notify_listeners-append e (l ∷ ls) ms = ground (arith, notify_listeners-append e ls ms)

  last_call :
      (e : BinlogDmlEvent) (l : BinlogEventListener H)
      → notify_listeners e (l ∷ []) ≡ (
          if text_eq (to_lower l.listener_database) (to_lower e.database_name)
            && text_eq (to_lower l.listener_table) (to_lower e.table_name)
          then (l.async, l.on_dml_event) ∷ []
          else [])
  unfolding notify_listeners
  last_call e l = ground arith

  -- A listener that is added for a database and a table, neither of them empty, is called after all
  -- others for the events of that table, up to case, and for no other event; the calls of the others do
  -- not change.
  notify_listeners-add_listener :
      (e : BinlogDmlEvent) (l : BinlogEventListener H) (ls : List (BinlogEventListener H))
      → is_empty l.listener_database ≡ false
      → is_empty l.listener_table ≡ false
      → (add_listener l.async l.listener_database l.listener_table l.on_dml_event ls
          ≡ ok (ls ++ l ∷ []))
        × (notify_listeners e (ls ++ l ∷ [])
            ≡ notify_listeners e ls
              ++ (if text_eq (to_lower l.listener_database) (to_lower e.database_name)
                    && text_eq (to_lower l.listener_table) (to_lower e.table_name)
                  then (l.async, l.on_dml_event) ∷ []
                  else []))
  unfolding add_listener
  notify_listeners-add_listener e l ls d t = (
    simp (d, t),
    notify_listeners-append e ls (l ∷ []) ∙ ap (λ x. notify_listeners e ls ++ x) (last_call e l),
  )
