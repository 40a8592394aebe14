-- ===== src/Logic/Applier/Tables/Rollback.antt =====
-- `SwapTablesQuickAndBumpy` and `RenameTablesRollback` of go/logic/applier.go undo each other, on a
-- server that renames tables as MySQL documents it.
use ghost_source_code_readin.Base.{
  List, Option, [], ap, arith, if◌then◌else◌, none, refl, some, ◌∙◌, ◌≡◌, ◌≢◌,
}
use ghost_source_code_readin.Text.{Text, text_eq}
use ghost_source_code_readin.Text.Laws.{text_eq_iff, text_eq_refl}
use ghost_source_code_readin.Sql.Value.{Value}
use ghost_source_code_readin.Logic.Migrator.{Operation}
use ghost_source_code_readin.Logic.Operations.{continue_with}
use ghost_source_code_readin.Logic.Applier.Tables.{
  TableError, and_then_too, exec_answer, execute, keep_error, rename_one_by_one,
  rename_tables_rollback, swap_tables_quick_and_bumpy,
}
use ghost_source_code_readin.Logic.Applier.Tables.Statements.{
  TablePlan, alter_rename_statement, rename_both_statement, rename_statement,
}

module _ {ℓ} {T : Type ℓ} where
  -- The tables by name, after one is renamed.
  abbrev pub rename_table : (old new : Text) → (Text → Option T) → Text → Option T
  rename_table old new c n = if text_eq n new then c old else if text_eq n old then none else c n

  renamed_twice-undone :
      (o g d : Text) (c : Text → Option T) (n : Text)
      → o ≢ g
      → o ≢ d
      → g ≢ d
      → c d ≡ none
      → rename_table d o (rename_table o g (rename_table g o (rename_table o d c))) n ≡ c n
  renamed_twice-undone o g d c n og od gd free = ground (
    arith,
    text_eq_iff n o,
    text_eq_iff n g,
    text_eq_iff n d,
    text_eq_iff o g,
    text_eq_iff o d,
    text_eq_iff g d,
    text_eq_iff d o,
    text_eq_iff g o,
    text_eq_iff d g,
    text_eq_refl o,
    text_eq_refl g,
    text_eq_refl d,
  )

module _ {ℓ} {Db T : Type ℓ} (exec : Text → List Value → Operation Text Db)
    (tables : Db → Text → Option T) (p : TablePlan) where
  -- A statement does what it says, or fails and changes no table.
  abbrev pub Answers : (Text → Option T) → (Text → Option T) → Option Text × Db → Type ℓ
  Answers before after (none, s) = tables s ≡ after
  Answers before after (some e, s) = tables s ≡ before

  -- How the server carries out the statements that rename tables.
  pub record RenameLaws : Type ℓ where
    pub original_to_old :
        (s : Db)
        → Answers
            (tables s)
            (rename_table p.original_table_name p.old_table_name (tables s))
            (exec (alter_rename_statement p p.original_table_name p.old_table_name) [] s)
    pub ghost_to_original :
        (s : Db)
        → Answers
            (tables s)
            (rename_table p.ghost_table_name p.original_table_name (tables s))
            (exec (alter_rename_statement p p.ghost_table_name p.original_table_name) [] s)
    pub original_to_ghost :
        (s : Db)
        → Answers
            (tables s)
            (rename_table p.original_table_name p.ghost_table_name (tables s))
            (exec (rename_statement p p.original_table_name p.ghost_table_name) [] s)
    pub old_to_original :
        (s : Db)
        → Answers
            (tables s)
            (rename_table p.old_table_name p.original_table_name (tables s))
            (exec (rename_statement p p.old_table_name p.original_table_name) [] s)
    pub original_to_ghost_and_old_to_original :
        (s : Db)
        → Answers
            (tables s)
            (rename_table p.old_table_name p.original_table_name
              (rename_table p.original_table_name p.ghost_table_name (tables s)))
            (exec
              (rename_both_statement p p.original_table_name p.ghost_table_name p.old_table_name
                p.original_table_name)
              []
              s)

  module _ (laws : RenameLaws) (table_comment : Text → Db → Option Text) where
    open laws use {
      original_to_old, ghost_to_original, original_to_ghost, old_to_original,
      original_to_ghost_and_old_to_original,
    }

    abbrev AnswersTo : (Text → Option T) → (Text → Option T) → Option TableError × Db → Type ℓ
    AnswersTo before after (none, s) = tables s ≡ after
    AnswersTo before after (some e, s) = tables s ≡ before

    execute-AnswersTo :
        (before after : Text → Option T) (r : Option Text × Db)
        → Answers before after r
        → AnswersTo before after (exec_answer exec table_comment p r)
    execute-AnswersTo before after (none, s) h = h
    execute-AnswersTo before after (some e, s) h = h

    done-tables :
        (before after : Text → Option T) (r : Option TableError × Db)
        → AnswersTo before after r
        → r.0 ≡ none
        → tables r.1 ≡ after
    done-tables before after (none, s) h e = h
    done-tables before after (some x, s) h e = absurd cc

    execute-tables :
        (query : Text) (after : Text → Option T) (s : Db)
        → Answers (tables s) after (exec query [] s)
        → (execute exec table_comment p query s).0 ≡ none
        → tables (execute exec table_comment p query s).1 ≡ after
    execute-tables query after s h =
        done-tables (tables s) after _ (execute-AnswersTo (tables s) after _ h)

    -- Two steps that both succeed.
    both-tables :
        (f k : (Text → Option T) → Text → Option T) (s : Db) (r : Option TableError × Db)
        (next : Operation TableError Db)
        → (r.0 ≡ none → tables r.1 ≡ f (tables s))
        → ((u : Db) → (next u).0 ≡ none → tables (next u).1 ≡ k (tables u))
        → (continue_with r next).0 ≡ none
        → tables (continue_with r next).1 ≡ k (f (tables s))
    both-tables f k s (some e, u) next first second h = absurd cc
    both-tables f k s (none, u) next first second h = second u h ∙ ap k (first refl)

    swap-tables :
        (s : Db)
        → (swap_tables_quick_and_bumpy exec table_comment p s).0 ≡ none
        → tables (swap_tables_quick_and_bumpy exec table_comment p s).1
          ≡ rename_table p.ghost_table_name p.original_table_name
              (rename_table p.original_table_name p.old_table_name (tables s))
    unfolding swap_tables_quick_and_bumpy
    swap-tables s h =
        both-tables (rename_table p.original_table_name p.old_table_name)
          (rename_table p.ghost_table_name p.original_table_name) s _ _
          (execute-tables _ _ s (original_to_old s))
          (λ u. execute-tables _ _ u (ghost_to_original u)) h

    -- Two steps of which both are made.
    too-tables :
        (f k : (Text → Option T) → Text → Option T) (s : Db) (r : Option TableError × Db)
        (next : Operation TableError Db)
        → (r.0 ≡ none → tables r.1 ≡ f (tables s))
        → ((u : Db) → (next u).0 ≡ none → tables (next u).1 ≡ k (tables u))
        → (and_then_too exec table_comment p r next).0 ≡ none
        → tables (and_then_too exec table_comment p r next).1 ≡ k (f (tables s))
    too-tables f k s (e, u) next first second h =
        let (none_before, none_now) = kept e (next u) h in
        same (next u) e ∙ (second u none_now ∙ ap k (first none_before))
      where
        kept :
            (e : Option TableError) (r : Option TableError × Db)
            → (keep_error exec table_comment p e r).0 ≡ none
            → (e ≡ none) × (r.0 ≡ none)
        kept e (none, t) h = (h, refl)
        kept e (some x, t) h = absurd cc

        same :
            (r : Option TableError × Db) (e : Option TableError)
            → tables (keep_error exec table_comment p e r).1 ≡ tables r.1
        same (x, t) e = refl

    rollback-tables :
        (s : Db) (r : Option TableError × Db)
        → AnswersTo
            (tables s)
            (rename_table p.old_table_name p.original_table_name
              (rename_table p.original_table_name p.ghost_table_name (tables s)))
            r
        → (rename_one_by_one exec table_comment p r).0 ≡ none
        → tables (rename_one_by_one exec table_comment p r).1
          ≡ rename_table p.old_table_name p.original_table_name
              (rename_table p.original_table_name p.ghost_table_name (tables s))
    rollback-tables s (none, u) a h = a
    rollback-tables s (some e, u) a h =
        too-tables (rename_table p.original_table_name p.ghost_table_name)
          (rename_table p.old_table_name p.original_table_name) u _ _
          (execute-tables _ _ u (original_to_ghost u))
          (λ t. execute-tables _ _ t (old_to_original t)) h
        ∙ ap
            (λ c.
              rename_table p.old_table_name p.original_table_name
                (rename_table p.original_table_name p.ghost_table_name c))
            a

    -- On a server that renames tables as documented, with three different names of which the old one is
    -- free: when the two-step swap returns nil, and then the rollback does, by one statement or one by
    -- one, every name has the table that it had.
    pub swapped-rename_tables_rollback :
        (s : Db) (n : Text)
        → p.original_table_name ≢ p.ghost_table_name
        → p.original_table_name ≢ p.old_table_name
        → p.ghost_table_name ≢ p.old_table_name
        → tables s p.old_table_name ≡ none
        → (swap_tables_quick_and_bumpy exec table_comment p s).0 ≡ none
        → (rename_tables_rollback exec table_comment p
            (swap_tables_quick_and_bumpy exec table_comment p s).1).0
          ≡ none
        → tables
            (rename_tables_rollback exec table_comment p
              (swap_tables_quick_and_bumpy exec table_comment p s).1).1
            n
          ≡ tables s n
    unfolding rename_tables_rollback
    swapped-rename_tables_rollback s n og od gd free swapped back =
        let t = (swap_tables_quick_and_bumpy exec table_comment p s).1 in
        ap (λ c. c n)
          (rollback-tables t _
              (execute-AnswersTo (tables t) _ _ (original_to_ghost_and_old_to_original t)) back
            ∙ ap
                (λ c.
                  rename_table p.old_table_name p.original_table_name
                    (rename_table p.original_table_name p.ghost_table_name c))
                (swap-tables s swapped))
        ∙ renamed_twice-undone p.original_table_name p.ghost_table_name p.old_table_name (tables s)
            n og od gd free
