-- ===== src/Logic/Applier/Apply/Delta.antt =====
-- The rows that the statements of an event add to the ghost table.
use ghost_source_code_readin.Base.{
  ◌≡◌, ◌∙◌, refl, sym, ap, Bool, true, false, List, [], ◌∷◌, Result, ok, err, Option, none, some,
}
use ghost_source_code_readin.Base.Int.{ℤ, pos, negsuc, ◌+ℤ◌, int_laws}
use ghost_source_code_readin.Text.{Text}
use ghost_source_code_readin.Sql.Value.{Value}
use ghost_source_code_readin.Sql.Compare.{Build}
use ghost_source_code_readin.Binlog.{
  BinlogDmlEvent, EventDml, not_dml, insert_dml, update_dml, delete_dml,
}
use ghost_source_code_readin.Logic.Applier.{
  Plan, ApplyError, DmlBuildResult, update_results, results_of, built_as, built_update,
  build_delete, build_insert, delete_where, insert_new, update_where, build_update,
  build_dml_event_query, update_modifies_unique_key_columns,
}
use ghost_source_code_readin.Logic.Applier.Apply.{
  Database, Session, and_then, exec_events, exec_results, exec_statement, next_events,
}

-- The rows that an event adds to the table.
unfoldable pub rows_added : EventDml → ℤ
rows_added insert_dml = pos 1
rows_added delete_dml = negsuc 0
rows_added update_dml = pos 0
rows_added not_dml = pos 0

unfoldable pub sum_rows_added : List BinlogDmlEvent → ℤ
unfolding rows_added
sum_rows_added [] = pos 0
sum_rows_added (e ∷ es) = rows_added e.dml +ℤ sum_rows_added es

abbrev Adds : ℤ → DmlBuildResult → Type 0
Adds d (err e) = Unit
Adds d (ok (query, args, delta)) = delta ≡ d

built_as-Adds : (d : ℤ) (b : Build (Text × List Value)) → Adds d (built_as d b)
built_as-Adds d (err e) = tt
built_as-Adds d (ok (query, args)) = refl

built_update-Adds : (b : Build (Text × List Value × List Value)) → Adds (pos 0) (built_update b)
built_update-Adds (err e) = tt
built_update-Adds (ok (query, args, more)) = refl

delete_where-Adds :
    (p : Plan) (e : BinlogDmlEvent) (w : Option (List Value)) → Adds (negsuc 0) (delete_where p e w)
delete_where-Adds p e none = tt
delete_where-Adds p e (some w) = built_as-Adds (negsuc 0) _

insert_new-Adds :
    (p : Plan) (e : BinlogDmlEvent) (n : Option (List Value)) → Adds (pos 1) (insert_new p e n)
insert_new-Adds p e none = tt
insert_new-Adds p e (some n) = built_as-Adds (pos 1) _

update_where-Adds :
    (p : Plan) (e : BinlogDmlEvent) (w n : Option (List Value))
    → Adds (pos 0) (update_where p e w n)
update_where-Adds p e none n = tt
update_where-Adds p e (some w) none = tt
update_where-Adds p e (some w) (some n) = built_update-Adds _

build_delete-Adds : (p : Plan) (e : BinlogDmlEvent) → Adds (negsuc 0) (build_delete p e)
unfolding build_delete
build_delete-Adds p e = delete_where-Adds p e e.where_column_values

build_insert-Adds : (p : Plan) (e : BinlogDmlEvent) → Adds (pos 1) (build_insert p e)
unfolding build_insert
build_insert-Adds p e = insert_new-Adds p e e.new_column_values

build_update-Adds : (p : Plan) (e : BinlogDmlEvent) → Adds (pos 0) (build_update p e)
unfolding build_update
build_update-Adds p e = update_where-Adds p e e.where_column_values e.new_column_values

pub add_zero : (t : ℤ) → t +ℤ pos 0 ≡ t
add_zero t = omega int_laws

add_both : (t : ℤ) → t +ℤ negsuc 0 +ℤ pos 1 ≡ t +ℤ pos 0
add_both t = omega int_laws

pub add_assoc : (a b c : ℤ) → a +ℤ b +ℤ c ≡ a +ℤ (b +ℤ c)
add_assoc a b c = omega int_laws

module _ {ℓ} {Db : Type ℓ} (database : Database Db) where
  -- What comes after something that succeeded.
  and_then-ok {κ} :
      {A : Type κ} (r : Result ApplyError A × Session Db)
      (rest : A → Session Db → Result ApplyError ℤ × Session Db) (total : ℤ)
      → (and_then database r rest).0 ≡ ok total
      → (a : A) × (u : Session Db) × ((rest a u).0 ≡ ok total)
  and_then-ok (err e, s) rest total h = cc
  and_then-ok (ok a, s) rest total h = (a, s, h)

  -- After a statement that succeeded.
  exec_results-inverts :
      (r : DmlBuildResult) (rs : List DmlBuildResult) (t d : ℤ) (s : Session Db) (total : ℤ)
      → Adds d r
      → (exec_results database (r ∷ rs) t s).0 ≡ ok total
      → (u : Session Db) × ((exec_results database rs (t +ℤ d) u).0 ≡ ok total)
  unfolding exec_results
  exec_results-inverts (err e) rs t d s total a h = cc
  exec_results-inverts (ok (query, args, delta)) rs t d s total a h =
      let (done, u, k) =
        and_then-ok (exec_statement database query args s)
          (λ done v. exec_results database rs (t +ℤ delta) v) total h in
      (u, rw⁻¹ a k)

  exec_results-end :
      (t : ℤ) (s : Session Db) (total : ℤ) → (exec_results database [] t s).0 ≡ ok total → total ≡ t
  unfolding exec_results
  exec_results-end t s total h = cc

  exec_results-one :
      (r : DmlBuildResult) (t d : ℤ) (s : Session Db) (total : ℤ)
      → Adds d r
      → (exec_results database (r ∷ []) t s).0 ≡ ok total
      → total ≡ t +ℤ d
  exec_results-one r t d s total a h =
      let (u, k) = exec_results-inverts r [] t d s total a h in exec_results-end (t +ℤ d) u total k

  update_results-adds :
      (p : Plan) (e : BinlogDmlEvent) (m : Result ApplyError Bool) (t : ℤ) (s : Session Db)
      (total : ℤ)
      → (exec_results database (update_results p e m).0 t s).0 ≡ ok total
      → total ≡ t +ℤ pos 0
  update_results-adds p e (err x) t s total h = exec_results-one (err x) t (pos 0) s total tt h
  update_results-adds p e (ok false) t s total h =
      exec_results-one (build_update p e) t (pos 0) s total (build_update-Adds p e) h
  update_results-adds p e (ok true) t s total h =
      let (u, k) =
        exec_results-inverts (build_delete p e) (build_insert p e ∷ []) t (negsuc 0) s total
          (build_delete-Adds p e) h in
      exec_results-one (build_insert p e) (t +ℤ negsuc 0) (pos 1) u total (build_insert-Adds p e) k
      ∙ add_both t

  results_of-adds :
      (p : Plan) (e : BinlogDmlEvent) (kind : EventDml) (t : ℤ) (s : Session Db) (total : ℤ)
      → (exec_results database (results_of p e kind).0 t s).0 ≡ ok total
      → total ≡ t +ℤ rows_added kind
  unfolding rows_added
  results_of-adds p e not_dml t s total h = exec_results-one _ t (pos 0) s total tt h
  results_of-adds p e insert_dml t s total h =
      exec_results-one (build_insert p e) t (pos 1) s total (build_insert-Adds p e) h
  results_of-adds p e delete_dml t s total h =
      exec_results-one (build_delete p e) t (negsuc 0) s total (build_delete-Adds p e) h
  results_of-adds p e update_dml t s total h =
      update_results-adds p e (update_modifies_unique_key_columns p e) t s total h

  same_total : (t total : ℤ) → ◌≡◌ {A = Result ApplyError ℤ} (ok t) (ok total) → total ≡ t
  same_total t total h = cc

  after_event :
      (p : Plan) (es : List BinlogDmlEvent) (r : Result ApplyError ℤ × Session Db) (total : ℤ)
      → (next_events database r (λ t s. exec_events database p es t s) es).0.0 ≡ ok total
      → (t : ℤ) × (s : Session Db) × (r.0 ≡ ok t) × ((exec_events database p es t s).0.0 ≡ ok total)
  after_event p es (err e, s) total h = cc
  after_event p es (ok t, s) total h = (t, s, refl, h)

  pub exec_events-adds :
      (p : Plan) (es : List BinlogDmlEvent) (t : ℤ) (s : Session Db) (total : ℤ)
      → (exec_events database p es t s).0.0 ≡ ok total
      → total ≡ t +ℤ sum_rows_added es
  unfolding exec_events sum_rows_added build_dml_event_query
  exec_events-adds p [] t s total h = same_total t total h ∙ sym (add_zero t)
  exec_events-adds p (e ∷ es) t s total h =
      let (sum, u, one, rest) =
        after_event p es (exec_results database (results_of p e e.dml).0 t s) total h in
      exec_events-adds p es sum u total rest
      ∙ ap (λ x. x +ℤ sum_rows_added es) (results_of-adds p e e.dml t s sum one)
      ∙ add_assoc t (rows_added e.dml) (sum_rows_added es)
