-- ===== src/Logic/Applier/Apply/Atomic.antt =====
-- A batch of events is applied as a whole or not at all.
use ghost_source_code_readin.Base.{
  ◌≡◌, ◌∙◌, refl, sym, ℕ, Bool, List, [], length, if◌then◌else◌, Option, none, some, Result, ok,
  err, ◌⊎◌, inl, inr,
}
use mathlib.Core.Path.{subst}
use ghost_source_code_readin.Base.Int.{ℤ, pos, ◌+ℤ◌, wrap64, int_laws}
use ghost_source_code_readin.Text.{Text, txt}
use ghost_source_code_readin.Binlog.{BinlogDmlEvent}
use ghost_source_code_readin.Logic.Applier.{ApplyError, Plan}
use ghost_source_code_readin.Logic.Applier.Apply.{
  Counters, Database, Session, and_then, apply_dml_event_queries, begin_transaction, begun,
  commit_in, commit_transaction, committed_as, end_transaction, exec_statement, finish, rollback,
  run_events, run_transaction, session_query,
}
use ghost_source_code_readin.Logic.Applier.Apply.Delta.{exec_events-adds, sum_rows_added}
use ghost_source_code_readin.Logic.Applier.Apply.Keeps.{exec_events-keeps, exec_statement-keeps}

module _ {ℓ} {Db : Type ℓ} (database : Database Db) where
  -- Every statement was executed, in a transaction that had committed nothing, and then the commit
  -- failed, which left this committed.
  pub record CommitFailed (db : Db) (r : Result ApplyError ℤ × Session Db) (after : Db)
      : Type ℓ where
    pub total : ℤ
    pub seen : Db
    pub message : Text
    pub all_executed : r.0 ≡ ok total
    pub nothing_committed : r.1.committed ≡ db
    pub still_open : r.1.transaction ≡ some seen
    pub commit_fails : database.commit r.1.committed seen ≡ (err message, after)

  -- What an error leaves, of what the statements left.
  unfoldable pub Undone : Db → Result ApplyError ℤ × Session Db → Session Db → Type ℓ
  Undone db r s = (s.transaction ≡ none) × ((s.committed ≡ db) ⊎ CommitFailed db r s.committed)

  commit-Undone :
      (db : Db) (r : Result ApplyError ℤ × Session Db) (total : ℤ) (seen : Db) (x : ApplyError)
      (k : Result Text (Unit {0}) × Db)
      → r.0 ≡ ok total
      → r.1.committed ≡ db
      → r.1.transaction ≡ some seen
      → database.commit r.1.committed seen ≡ k
      → (and_then database (committed_as database k) (λ done t. (ok total, t))).0 ≡ err x
      → Undone db r (and_then database (committed_as database k) (λ done t. (ok total, t))).1
  unfolding Undone
  commit-Undone db r total seen x (ok done, after) same kept has_open k h = cc
  commit-Undone db r total seen x (err message, after) same kept has_open k h = (
    refl,
    inr (record {
      total = total;
      seen = seen;
      message = message;
      all_executed = same;
      nothing_committed = kept;
      still_open = has_open;
      commit_fails = k;
    }),
  )

  commit_in-Undone :
      (db : Db) (total : ℤ) (s : Session Db) (o : Option Db) (x : ApplyError)
      → s.committed ≡ db
      → s.transaction ≡ o
      → (and_then database (commit_in database o s) (λ done t. (ok total, t))).0 ≡ err x
      → Undone db
          (ok total, s)
          (and_then database (commit_in database o s) (λ done t. (ok total, t))).1
  unfolding Undone
  commit_in-Undone db total s none x kept closed h = (closed, inl kept)
  commit_in-Undone db total s (some seen) x kept has_open h =
      commit-Undone db (ok total, s) total seen x (database.commit s.committed seen) refl kept
        has_open refl h

  end_transaction-Undone :
      (db : Db) (r : Result ApplyError ℤ × Session Db) (x : ApplyError)
      → r.1.committed ≡ db
      → (end_transaction database r).0 ≡ err x
      → Undone db r (end_transaction database r).1
  unfolding Undone rollback commit_transaction
  end_transaction-Undone db (err e, s) x kept h = (refl, inl kept)
  end_transaction-Undone db (ok total, s) x kept h =
      commit_in-Undone db total s s.transaction x kept refl h

  run_events-keeps :
      (db : Db) (p : Plan) (es : List BinlogDmlEvent)
      (r : Result ApplyError (Unit {0}) × Session Db)
      → r.1.committed ≡ db
      → (run_events database p es r).0.1.committed ≡ db
  run_events-keeps db p es (err e, s) h = h
  run_events-keeps db p es (ok done, s) h = exec_events-keeps database db p es (pos 0) s h

  -- What the session is when the statements of the events are executed.
  abbrev pub statements_run :
      Plan → Text → List BinlogDmlEvent → Session Db → Result ApplyError ℤ × Session Db
  statements_run p setting es s =
      (run_events database p es (exec_statement database setting [] s)).0

  run_transaction-Undone :
      (db : Db) (p : Plan) (setting : Text) (es : List BinlogDmlEvent)
      (r : Result ApplyError (Unit {0}) × Session Db) (x : ApplyError)
      → r.1.committed ≡ db
      → ((e : ApplyError) → r.0 ≡ err e → r.1.transaction ≡ none)
      → (run_transaction database p setting es r).0.0 ≡ err x
      → Undone db (statements_run p setting es r.1) (run_transaction database p setting es r).0.1
  unfolding Undone
  run_transaction-Undone db p setting es (err e, s) x kept closed h = (closed e refl, inl kept)
  run_transaction-Undone db p setting es (ok done, s) x kept closed h =
      end_transaction-Undone db (statements_run p setting es s) x
        (run_events-keeps db p es (exec_statement database setting [] s)
          (exec_statement-keeps database setting [] s ∙ kept))
        h

  begun-committed :
      (s : Session Db) (r : Result Text Db) → (begun database s r).1.committed ≡ s.committed
  begun-committed s (err e) = refl
  begun-committed s (ok seen) = refl

  begun-closed :
      (s : Session Db) (r : Result Text Db) (e : ApplyError)
      → (begun database s r).0 ≡ err e
      → (begun database s r).1.transaction ≡ s.transaction
  begun-closed s (err m) e h = refl
  begun-closed s (ok seen) e h = cc

  abbrev pub session_of : Db → Session Db
  session_of db = record { committed = db; transaction = none }

  finish-err :
      (c : Counters) (n : ℕ) (r : Result ApplyError ℤ × Session Db) (es : List BinlogDmlEvent)
      (x : ApplyError)
      → (finish database c n r es).result ≡ err x
      → (r.0 ≡ err x)
        × ((finish database c n r es).session ≡ r.1)
        × ((finish database c n r es).counters ≡ c)
  finish-err c n (err e, s) es x h = (cc h, refl, refl)
  finish-err c n (ok total, s) es x h = cc

  -- When the call reports an error, the counters are as before, no transaction is open, and what is
  -- committed is as before, unless every statement of the batch was executed in the transaction, with
  -- nothing committed, and it is the commit that failed: then it is what the failed commit left.
  pub apply_dml_event_queries-all_or_nothing :
      (p : Plan) (skip : Bool) (db : Db) (c : Counters) (es : List BinlogDmlEvent) (x : ApplyError)
      → (apply_dml_event_queries database p skip db c es).result ≡ err x
      → ((apply_dml_event_queries database p skip db c es).counters ≡ c)
        × Undone db
            (statements_run p
              (session_query skip (txt "+00:00"))
              es
              (begin_transaction database (session_of db)).1)
            (apply_dml_event_queries database p skip db c es).session
  unfolding apply_dml_event_queries begin_transaction
  apply_dml_event_queries-all_or_nothing p skip db c es x h =
      let setting = session_query skip (txt "+00:00") in
      let start = begin_transaction database (session_of db) in
      let r = run_transaction database p setting es start in
      let (failed, same, counted) = finish-err c (length es) r.0 r.1 x h in
      (
        counted,
        subst (Undone db (statements_run p setting es start.1)) (sym same) (
            run_transaction-Undone db p setting es start x
              (begun-committed (session_of db) (database.begin db))
              (λ e k. begun-closed (session_of db) (database.begin db) e k) failed),
      )

  -- What a transaction that ends well has added.
  commit-total :
      (t : ℤ) (r : Result ApplyError (Unit {0}) × Session Db) (total : ℤ)
      → (and_then database r (λ done u. (ok t, u))).0 ≡ ok total
      → total ≡ t
  commit-total t (err e, s) total h = cc
  commit-total t (ok done, s) total h = cc

  end_transaction-adds :
      (sum : ℤ) (r : Result ApplyError ℤ × Session Db) (total : ℤ)
      → ((t : ℤ) → r.0 ≡ ok t → t ≡ sum)
      → (end_transaction database r).0 ≡ ok total
      → total ≡ sum
  end_transaction-adds sum (err e, s) total k h = cc
  end_transaction-adds sum (ok t, s) total k h =
      commit-total t (commit_transaction database s) total h ∙ k t refl

  run_events-adds :
      (p : Plan) (es : List BinlogDmlEvent) (r : Result ApplyError (Unit {0}) × Session Db) (t : ℤ)
      → (run_events database p es r).0.0 ≡ ok t
      → t ≡ pos 0 +ℤ sum_rows_added es
  run_events-adds p es (err e, s) t h = cc
  run_events-adds p es (ok done, s) t h = exec_events-adds database p es (pos 0) s t h

  run_transaction-adds :
      (p : Plan) (setting : Text) (es : List BinlogDmlEvent)
      (r : Result ApplyError (Unit {0}) × Session Db) (total : ℤ)
      → (run_transaction database p setting es r).0.0 ≡ ok total
      → total ≡ pos 0 +ℤ sum_rows_added es
  run_transaction-adds p setting es (err e, s) total h = cc
  run_transaction-adds p setting es (ok done, s) total h =
      end_transaction-adds (pos 0 +ℤ sum_rows_added es) (statements_run p setting es s) total
        (λ t k. run_events-adds p es (exec_statement database setting [] s) t k) h

  zero_add : (t : ℤ) → pos 0 +ℤ t ≡ t
  zero_add t = omega int_laws

  finish-ok :
      (c : Counters) (n : ℕ) (r : Result ApplyError ℤ × Session Db) (es : List BinlogDmlEvent)
      (total : ℤ)
      → ((t : ℤ) → r.0 ≡ ok t → t ≡ total)
      → (finish database c n r es).result ≡ ok tt
      → ((finish database c n r es).counters.total_dml_events_applied
          ≡ wrap64 (c.total_dml_events_applied +ℤ pos n))
        × ((finish database c n r es).counters.rows_delta_estimate ≡ (
            if c.count_table_rows
            then wrap64 (c.rows_delta_estimate +ℤ total)
            else c.rows_delta_estimate))
  finish-ok c n (err e, s) es total h k = cc
  finish-ok c n (ok t, s) es total h k = (refl, rw (h t refl) refl)

  -- When the call reports no error, the number of events is added to the counter of applied events and,
  -- where rows are counted, the inserts less the deletes to the estimate of the rows, an update that
  -- changes the unique key counting for nothing.
  pub apply_dml_event_queries-counts :
      (p : Plan) (skip : Bool) (db : Db) (c : Counters) (es : List BinlogDmlEvent)
      → (apply_dml_event_queries database p skip db c es).result ≡ ok tt
      → ((apply_dml_event_queries database p skip db c es).counters.total_dml_events_applied
          ≡ wrap64 (c.total_dml_events_applied +ℤ pos (length es)))
        × ((apply_dml_event_queries database p skip db c es).counters.rows_delta_estimate ≡ (
            if c.count_table_rows
            then wrap64 (c.rows_delta_estimate +ℤ sum_rows_added es)
            else c.rows_delta_estimate))
  unfolding apply_dml_event_queries
  apply_dml_event_queries-counts p skip db c es h =
      finish-ok c (length es) _ _ (sum_rows_added es)
        (λ t k.
          run_transaction-adds p (session_query skip (txt "+00:00")) es
            (begin_transaction database (session_of db)) t k
          ∙ zero_add (sum_rows_added es))
        h
