-- ===== src/Logic/Applier/Apply.antt =====
-- go/logic/applier.go, `ApplyDMLEventQueries`: events applied in one transaction. The database is a
-- parameter: what it holds, and what a statement and a commit make of it.
pub mod Delta
pub mod Keeps
pub mod Atomic
use ghost_source_code_readin.Base.{
  ℕ, Bool, true, false, List, [], ◌∷◌, ◌++◌, length, if◌then◌else◌, Result, ok, err, Option, none,
  some,
}
use ghost_source_code_readin.Base.Int.{ℤ, pos, ◌+ℤ◌, wrap64}
use ghost_source_code_readin.Text.{Text, txt}
use ghost_source_code_readin.Sql.Value.{Value}
use ghost_source_code_readin.Binlog.{BinlogDmlEvent}
use ghost_source_code_readin.Logic.Applier.{
  Plan, ApplyError, execution_failed, DmlBuildResult, build_dml_event_query,
}

-- A database: what a transaction sees at its start of what is committed, what a statement makes of what
-- the transaction sees, failed or not, and what is committed after a commit, failed or not, of what was
-- committed and what the transaction sees.
pub record Database {ℓ} (Db : Type ℓ) : Type ℓ where
  pub begin : Db → Result Text Db
  pub exec : Text → List Value → Db → Result Text (Unit {0}) × Db
  pub commit : (committed seen : Db) → Result Text (Unit {0}) × Db

-- What is committed, and what the transaction sees that is open, if any.
pub record Session {ℓ} (Db : Type ℓ) : Type ℓ where
  pub committed : Db
  pub transaction : Option Db

-- The counters of the migration's context.
pub record Counters : Type 0 where
  pub total_dml_events_applied : ℤ
  pub rows_delta_estimate : ℤ
  pub count_table_rows : Bool

abbrev failing {ℓ} : {A : Type ℓ} → Result Text A → Result ApplyError A
failing (err e) = err (execution_failed e)
failing (ok a) = ok a

-- The statement that sets the session up.
unfoldable pub session_query : Bool → Text → Text
session_query skip_strict_mode zone =
    txt "SET SESSION time_zone = '"
    ++ (zone
        ++ (txt "', sql_mode = CONCAT(@@session.sql_mode, ',"
            ++ (txt ",NO_AUTO_VALUE_ON_ZERO"
                ++ ((if skip_strict_mode then [] else txt ",STRICT_ALL_TABLES") ++ txt "')"))))

-- The text of `sql.ErrTxDone`.
abbrev transaction_done : Text
transaction_done = txt "sql: transaction has already been committed or rolled back"

module _ {ℓ} {Db : Type ℓ} (database : Database Db) where
  -- `if err != nil { return err }`, and then the rest.
  abbrev pub and_then {κ μ} :
      {A : Type κ} {B : Type μ}
      → Result ApplyError A × Session Db
      → (A → Session Db → Result ApplyError B × Session Db)
      → Result ApplyError B × Session Db
  and_then (err e, s) rest = (err e, s)
  and_then (ok a, s) rest = rest a s

  abbrev begun : Session Db → Result Text Db → Result ApplyError (Unit {0}) × Session Db
  begun s (err e) = (err (execution_failed e), s)
  begun s (ok seen) = (ok tt, record s { transaction = some seen })

  -- `this.db.Begin()`
  unfoldable pub begin_transaction : Session Db → Result ApplyError (Unit {0}) × Session Db
  begin_transaction s = begun s (database.begin s.committed)

  abbrev executed :
      Session Db → Result Text (Unit {0}) × Db → Result ApplyError (Unit {0}) × Session Db
  executed s (r, seen) = (failing r, record s { transaction = some seen })

  -- `tx.Exec`
  abbrev exec_in :
      Text → List Value → Option Db → Session Db → Result ApplyError (Unit {0}) × Session Db
  exec_in query args none s = (err (execution_failed transaction_done), s)
  exec_in query args (some seen) s = executed s (database.exec query args seen)

  unfoldable pub exec_statement :
      Text → List Value → Session Db → Result ApplyError (Unit {0}) × Session Db
  exec_statement query args s = exec_in query args s.transaction s

  -- `tx.Rollback()`
  unfoldable pub rollback : Session Db → Session Db
  rollback s = record s { transaction = none }

  abbrev committed_as : Result Text (Unit {0}) × Db → Result ApplyError (Unit {0}) × Session Db
  committed_as (r, db) = (failing r, record { committed = db; transaction = none })

  abbrev commit_in : Option Db → Session Db → Result ApplyError (Unit {0}) × Session Db
  commit_in none s = (err (execution_failed transaction_done), s)
  commit_in (some seen) s = committed_as (database.commit s.committed seen)

  -- `tx.Commit()`
  unfoldable pub commit_transaction : Session Db → Result ApplyError (Unit {0}) × Session Db
  commit_transaction s = commit_in s.transaction s

  -- The loop over the statements of one event, with the sum of the rows that they add; the sum is exact,
  -- since a batch has at most a thousand events.
  unfoldable pub exec_results :
      List DmlBuildResult → ℤ → Session Db → Result ApplyError ℤ × Session Db
  unfolding exec_statement
  exec_results [] total s = (ok total, s)
  exec_results (err e ∷ rs) total s = (err e, s)
  exec_results (ok (query, args, delta) ∷ rs) total s =
      and_then (exec_statement query args s) (λ done t. exec_results rs (total +ℤ delta) t)

  abbrev put_first :
      BinlogDmlEvent
      → (Result ApplyError ℤ × Session Db) × List BinlogDmlEvent
      → (Result ApplyError ℤ × Session Db) × List BinlogDmlEvent
  put_first e (r, es) = (r, e ∷ es)

  abbrev pub next_events :
      Result ApplyError ℤ × Session Db
      → (ℤ → Session Db → (Result ApplyError ℤ × Session Db) × List BinlogDmlEvent)
      → List BinlogDmlEvent
      → (Result ApplyError ℤ × Session Db) × List BinlogDmlEvent
  next_events (err e, s) rest events = ((err e, s), events)
  next_events (ok total, s) rest events = rest total s

  -- The loop over the events: its result, and the events as it leaves them.
  unfoldable pub exec_events :
      Plan
      → List BinlogDmlEvent
      → ℤ
      → Session Db
      → (Result ApplyError ℤ × Session Db) × List BinlogDmlEvent
  unfolding exec_results
  exec_events p [] total s = ((ok total, s), [])
  exec_events p (e ∷ es) total s =
      let (results, left) = build_dml_event_query p e in
      put_first left
        (next_events (exec_results results total s) (λ sum t. exec_events p es sum t) es)

  -- The outcome of `ApplyDMLEventQueries`: an error or none, the session, the counters, and the events.
  pub record Outcome : Type ℓ where
    pub result : Result ApplyError (Unit {0})
    pub session : Session Db
    pub counters : Counters
    pub events : List BinlogDmlEvent

  abbrev count_events : Counters → ℕ → ℤ → Counters
  count_events c n total = record {
    total_dml_events_applied = wrap64 (c.total_dml_events_applied +ℤ pos n);
    rows_delta_estimate =
        (if c.count_table_rows
          then wrap64 (c.rows_delta_estimate +ℤ total)
          else c.rows_delta_estimate);
    count_table_rows = c.count_table_rows;
  }

  abbrev pub finish :
      Counters → ℕ → Result ApplyError ℤ × Session Db → List BinlogDmlEvent → Outcome
  finish c n (err e, s) events = record {
    result = err e;
    session = s;
    counters = c;
    events = events;
  }
  finish c n (ok total, s) events = record {
    result = ok tt;
    session = s;
    counters = count_events c n total;
    events = events;
  }

  -- An error before the commit rolls back; a failed commit does not.
  abbrev pub end_transaction : Result ApplyError ℤ × Session Db → Result ApplyError ℤ × Session Db
  end_transaction (err e, s) = (err e, rollback s)
  end_transaction (ok total, s) = and_then (commit_transaction s) (λ done t. (ok total, t))

  abbrev run_events :
      Plan
      → List BinlogDmlEvent
      → Result ApplyError (Unit {0}) × Session Db
      → (Result ApplyError ℤ × Session Db) × List BinlogDmlEvent
  run_events p es (err e, s) = ((err e, s), es)
  run_events p es (ok done, s) = exec_events p es (pos 0) s

  abbrev pub run_transaction :
      Plan
      → Text
      → List BinlogDmlEvent
      → Result ApplyError (Unit {0}) × Session Db
      → (Result ApplyError ℤ × Session Db) × List BinlogDmlEvent
  run_transaction p setting es (err e, s) = ((err e, s), es)
  run_transaction p setting es (ok done, s) =
      let (r, left) = run_events p es (exec_statement setting [] s) in (end_transaction r, left)

  -- `ApplyDMLEventQueries`
  unfoldable pub apply_dml_event_queries :
      Plan → Bool → Db → Counters → List BinlogDmlEvent → Outcome
  unfolding exec_events session_query begin_transaction rollback commit_transaction
  apply_dml_event_queries p skip_strict_mode db c es =
      let (r, left) =
        run_transaction p (session_query skip_strict_mode (txt "+00:00")) es
          (begin_transaction (record { committed = db; transaction = none })) in
      finish c (length es) r left
