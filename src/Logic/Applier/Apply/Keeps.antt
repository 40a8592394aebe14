-- ===== src/Logic/Applier/Apply/Keeps.antt =====
-- The statements of events commit nothing.
use ghost_source_code_readin.Base.{
  ◌≡◌, ◌∙◌, refl, List, [], ◌∷◌, Option, none, some, Result, ok, err,
}
use ghost_source_code_readin.Base.Int.{ℤ, ◌+ℤ◌}
use ghost_source_code_readin.Text.{Text}
use ghost_source_code_readin.Sql.Value.{Value}
use ghost_source_code_readin.Binlog.{BinlogDmlEvent}
use ghost_source_code_readin.Logic.Applier.{ApplyError, DmlBuildResult, Plan, build_dml_event_query}
use ghost_source_code_readin.Logic.Applier.Apply.{
  Database, Session, and_then, exec_events, exec_in, exec_results, exec_statement, next_events,
}

module _ {ℓ} {Db : Type ℓ} (database : Database Db) where
  exec_in-keeps :
      (q : Text) (args : List Value) (seen : Option Db) (s : Session Db)
      → (exec_in database q args seen s).1.committed ≡ s.committed
  exec_in-keeps q args none s = refl
  exec_in-keeps q args (some seen) s = refl

  pub exec_statement-keeps :
      (q : Text) (args : List Value) (s : Session Db)
      → (exec_statement database q args s).1.committed ≡ s.committed
  unfolding exec_statement
  exec_statement-keeps q args s = exec_in-keeps q args s.transaction s

  and_then-keeps {κ μ} :
      {A : Type κ} {B : Type μ} (db : Db) (r : Result ApplyError A × Session Db)
      (rest : A → Session Db → Result ApplyError B × Session Db)
      → r.1.committed ≡ db
      → ((a : A) (u : Session Db) → u.committed ≡ db → (rest a u).1.committed ≡ db)
      → (and_then database r rest).1.committed ≡ db
  and_then-keeps db (err e, s) rest h k = h
  and_then-keeps db (ok a, s) rest h k = k a s h

  exec_results-keeps :
      (db : Db) (rs : List DmlBuildResult) (t : ℤ) (s : Session Db)
      → s.committed ≡ db
      → (exec_results database rs t s).1.committed ≡ db
  unfolding exec_results
  exec_results-keeps db [] t s h = h
  exec_results-keeps db (err e ∷ rs) t s h = h
  exec_results-keeps db (ok (q, args, delta) ∷ rs) t s h =
      and_then-keeps db (exec_statement database q args s)
        (λ done u. exec_results database rs (t +ℤ delta) u) (exec_statement-keeps q args s ∙ h)
        (λ done u k. exec_results-keeps db rs (t +ℤ delta) u k)

  next_events-keeps :
      (db : Db) (p : Plan) (es : List BinlogDmlEvent) (r : Result ApplyError ℤ × Session Db)
      → r.1.committed ≡ db
      → ((t : ℤ) (u : Session Db)
          → u.committed ≡ db
          → (exec_events database p es t u).0.1.committed ≡ db)
      → (next_events database r (λ t u. exec_events database p es t u) es).0.1.committed ≡ db
  next_events-keeps db p es (err e, s) h k = h
  next_events-keeps db p es (ok t, s) h k = k t s h

  pub exec_events-keeps :
      (db : Db) (p : Plan) (es : List BinlogDmlEvent) (t : ℤ) (s : Session Db)
      → s.committed ≡ db
      → (exec_events database p es t s).0.1.committed ≡ db
  unfolding exec_events
  exec_events-keeps db p [] t s h = h
  exec_events-keeps db p (e ∷ es) t s h =
      next_events-keeps db p es (exec_results database (build_dml_event_query p e).0 t s)
        (exec_results-keeps db (build_dml_event_query p e).0 t s h)
        (λ sum u k. exec_events-keeps db p es sum u k)
