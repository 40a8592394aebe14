-- ===== src/Logic/CutOver/Postpone.antt =====
-- `cutOver` of go/logic/migrator.go and the file that postpones it.
use ghost_source_code_readin.Base.{
  if-all, ℕ, zero, suc, ◌≡◌, ◌∙◌, refl, ap, Bool, true, false, Option, none, some, List, [], ◌∷◌,
  if◌then◌else◌,
}
use ghost_source_code_readin.Text.{is_empty}
use ghost_source_code_readin.Logic.CutOver.{
  still_waiting, as_returned, CutOverOps, CutOverPlan, CutOverState, begin_postponed, cut_over,
  cut_over_unpostponed, go_on_sleeping, postpone_round, set_postponing, sleep_while_postponed,
}

-- The file exists in each of `n` rounds.
abbrev pub rounds_of : ℕ → List Bool
rounds_of zero = []
rounds_of (suc n) = true ∷ rounds_of n

begin_postponed-failed {ℓ κ} :
    {E : Type ℓ} {Db : Type κ} (r : Option E × CutOverState E Db) (e : E)
    → r.0 ≡ some e
    → begin_postponed r ≡ ((true, some e), r.1)
begin_postponed-failed (none, s) e h = absurd cc
begin_postponed-failed (some x, s) e h = ap (λ o. ((true, o), s)) h

module _ {ℓ κ} {E : Type ℓ} {Db : Type κ} (p : CutOverPlan) (ops : CutOverOps E Db) where
  -- A postponement begins at this state: the hook succeeds, unless the cut-over is postponed already, and
  -- leaves the user's command as it is.
  pub record Undisturbed (s : CutOverState E Db) : Type (ℓ ⊔ κ) where
    pub no_command_yet : s.user_commanded_unpostpone ≡ false
    pub hook_succeeds : (ops.on_begin_postponed s).0 ≡ none
    pub no_command : (ops.on_begin_postponed s).1.user_commanded_unpostpone ≡ false

  -- The hook has run, if the cut-over was not postponed yet.
  abbrev announced : CutOverState E Db → CutOverState E Db
  announced s = if s.is_postponing_cut_over then s else (ops.on_begin_postponed s).1

  -- What a first round of postponement leaves.
  abbrev pub begun : CutOverState E Db → CutOverState E Db
  begun s = set_postponing true (announced s)

  begin_postponed-succeeds :
      (r : Option E × CutOverState E Db)
      → r.0 ≡ none
      → begin_postponed r ≡ ((true, none), set_postponing true r.1)
  begin_postponed-succeeds (none, s) h = refl
  begin_postponed-succeeds (some e, s) h = absurd cc

  postpone_round-cases :
      (s : CutOverState E Db)
      → is_empty p.postpone_cut_over_flag_file ≡ false
      → s.user_commanded_unpostpone ≡ false
      → postpone_round p ops true s ≡ (
          if s.is_postponing_cut_over
          then ((true, none), set_postponing true s)
          else begin_postponed (ops.on_begin_postponed s))
  unfolding postpone_round
  postpone_round-cases s file c = simp (file, c)

  postpone_round-begun :
      (s : CutOverState E Db)
      → is_empty p.postpone_cut_over_flag_file ≡ false
      → Undisturbed s
      → postpone_round p ops true s ≡ ((true, none), begun s)
  postpone_round-begun s file u =
      postpone_round-cases s file u.no_command_yet ∙ by_flag s.is_postponing_cut_over
    where
      by_flag :
          (b : Bool)
          → (if b
              then ((true, none), set_postponing true s)
              else begin_postponed (ops.on_begin_postponed s))
            ≡ ((true, none), set_postponing true (if b then s else (ops.on_begin_postponed s).1))
      by_flag true = refl
      by_flag false = begin_postponed-succeeds (ops.on_begin_postponed s) u.hook_succeeds

  -- Once it is postponed, further rounds change nothing.
  sleep-postponed :
      (n : ℕ) (s : CutOverState E Db)
      → is_empty p.postpone_cut_over_flag_file ≡ false
      → s.user_commanded_unpostpone ≡ false
      → sleep_while_postponed p ops (rounds_of n) (set_postponing true s)
        ≡ still_waiting (set_postponing true s)
  unfolding sleep_while_postponed
  sleep-postponed zero s file c = refl
  sleep-postponed (suc n) s file c =
      ap (λ q. go_on_sleeping q (λ t. sleep_while_postponed p ops (rounds_of n) t))
        (postpone_round-cases (set_postponing true s) file c)
      ∙ sleep-postponed n s file c

  begun-no_command :
      (s : CutOverState E Db) → Undisturbed s → (announced s).user_commanded_unpostpone ≡ false
  begun-no_command s u =
      if-all (λ (t : CutOverState E Db). t.user_commanded_unpostpone ≡ false)
        s.is_postponing_cut_over u.no_command_yet u.no_command

  sleep-begun :
      (n : ℕ) (s : CutOverState E Db)
      → is_empty p.postpone_cut_over_flag_file ≡ false
      → Undisturbed s
      → sleep_while_postponed p ops (rounds_of (suc n)) s ≡ still_waiting (begun s)
  unfolding sleep_while_postponed
  sleep-begun n s file u =
      ap (λ q. go_on_sleeping q (λ t. sleep_while_postponed p ops (rounds_of n) t))
        (postpone_round-begun s file u)
      ∙ sleep-postponed n (announced s) file (begun-no_command s u)

  -- While the file that postpones the cut-over exists, for however many rounds from the first on,
  -- `cutOver` does not return, and all that it has done is to throttle, to run the hook, if it was not
  -- postponed before, and to set the flag: nothing is locked, swapped, renamed or stopped. This is if the
  -- user does not command to go on, the hook succeeds and gives no such command, and something is to be
  -- migrated.
  pub cut_over-postponed :
      (unknown : E) (n : ℕ) (s : CutOverState E Db)
      → p.noop ≡ false
      → is_empty p.postpone_cut_over_flag_file ≡ false
      → Undisturbed (ops.throttle s).1
      → cut_over p ops unknown (rounds_of (suc n)) s ≡ still_waiting (begun (ops.throttle s).1)
  unfolding cut_over
  cut_over-postponed unknown n s run file u = simp (run, sleep-begun n (ops.throttle s).1 file u)

  failed_hook-round :
      (s : CutOverState E Db) (e : E)
      → is_empty p.postpone_cut_over_flag_file ≡ false
      → s.user_commanded_unpostpone ≡ false
      → s.is_postponing_cut_over ≡ false
      → (ops.on_begin_postponed s).0 ≡ some e
      → postpone_round p ops true s ≡ ((true, some e), (ops.on_begin_postponed s).1)
  failed_hook-round s e file c begun h =
      postpone_round-cases s file c
      ∙ (ap
            (λ b.
              if b
              then ((true, none), set_postponing true s)
              else begin_postponed (ops.on_begin_postponed s))
            begun
          ∙ begin_postponed-failed (ops.on_begin_postponed s) e h)

  -- When the hook that announces a postponement fails, its error is dropped and the cut-over goes on at
  -- once, although the file that postpones it exists, and whether or not it would exist later.
  pub cut_over-failed_hook :
      (unknown : E) (e : E) (later : List Bool) (s : CutOverState E Db)
      → p.noop ≡ false
      → is_empty p.postpone_cut_over_flag_file ≡ false
      → (ops.throttle s).1.user_commanded_unpostpone ≡ false
      → (ops.throttle s).1.is_postponing_cut_over ≡ false
      → (ops.on_begin_postponed (ops.throttle s).1).0 ≡ some e
      → cut_over p ops unknown (true ∷ later) s
        ≡ as_returned
            (cut_over_unpostponed p ops unknown (ops.on_begin_postponed (ops.throttle s).1).1)
  unfolding cut_over sleep_while_postponed
  cut_over-failed_hook unknown e later s run file c begun h =
      simp (run, failed_hook-round (ops.throttle s).1 e file c begun h)
