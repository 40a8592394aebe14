-- ===== src/Logic/CutOver/Atomic/Safety.antt =====
-- What the atomic cut-over has done when it returns, and when the tables are renamed.
use ghost_source_code_readin.Base.{ℕ, ◌≡◌, refl, Bool, true, false, Option, none, some, ◌∙◌, sym}
use mathlib.Core.Path.{subst}
use ghost_source_code_readin.Text.{Text}
use ghost_source_code_readin.Logic.CutOver.Atomic.State.{
  Shared, MainPc, LockPc, RenamePc, System, starting, returned,
}
use ghost_source_code_readin.Logic.CutOver.Atomic.MagicLock.{LockMove, tables_unlocked}
use ghost_source_code_readin.Logic.CutOver.Atomic.Rename.{RenameMove, were_renamed}
use ghost_source_code_readin.Logic.CutOver.Atomic.Main.{
  MainMove, MainCall, main_call, lock_spawned, flag_cleared, unlocked_received, after_unlocked,
  no_attempt_left,
}
use ghost_source_code_readin.Logic.CutOver.Atomic.Steps.{
  main_moves, lock_moves, rename_moves, stay, after, Reach,
}
use ghost_source_code_readin.Logic.CutOver.Atomic.Knowledge.{IsPrepared, IsComplete, MainKnows}
use ghost_source_code_readin.Logic.CutOver.Atomic.Invariant.{Reach-Inv}

-- In every interleaving, when `atomicCutOver` returns nil, the original table was locked, the events up to
-- the lock were processed, the tables were renamed, and they are unlocked.
pub atomic_cut_over-IsComplete :
    {n : ℕ} {i : Bool} {s : System}
    → Reach n i s
    → s.main ≡ returned none
    → IsComplete s.shared.facts
atomic_cut_over-IsComplete {s} r e =
    subst (λ p. MainKnows p s.shared.facts) e (Reach-Inv r).main_knows

-- In every state of every interleaving, however the attempt ends: if the tables have been renamed, then
-- the original table was locked, and the events up to the lock were processed.
pub renamed-IsPrepared :
    {n : ℕ} {i : Bool} {s : System}
    → Reach n i s
    → s.shared.facts.renamed ≡ true
    → IsPrepared s.shared.facts
renamed-IsPrepared r h = (Reach-Inv r).told.before_rename h

-- `atomicCutOver` is being executed.
abbrev pub is_running : MainPc → Bool
is_running starting = false
is_running (returned r) = false
is_running _ = true

LockMove-flag :
    {s t : Shared} {p q : LockPc}
    → LockMove s p t q
    → t.in_cut_over_critical_section ≡ s.in_cut_over_critical_section
LockMove-flag tables_unlocked = refl
LockMove-flag _ = refl

RenameMove-flag :
    {s t : Shared} {p q : RenamePc}
    → RenameMove s p t q
    → t.in_cut_over_critical_section ≡ s.in_cut_over_critical_section
RenameMove-flag were_renamed = refl
RenameMove-flag _ = refl

after_unlocked-running : (r : Option Text) → is_running (after_unlocked r) ≡ true
after_unlocked-running none = refl
after_unlocked-running (some e) = refl

MainCall-running : {s : Shared} {p q : MainPc} → MainCall s p q → is_running p ≡ is_running q
MainCall-running (no_attempt_left i j e) = refl
MainCall-running _ = refl

MainMove-flag :
    {n : ℕ} {s t : Shared} {p q : MainPc}
    → MainMove n s p t q
    → s.in_cut_over_critical_section ≡ is_running p
    → t.in_cut_over_critical_section ≡ is_running q
MainMove-flag (main_call c) h = h ∙ MainCall-running c
MainMove-flag lock_spawned h = refl
MainMove-flag (flag_cleared r) h = refl
MainMove-flag (unlocked_received r rest e) h = h ∙ sym (after_unlocked-running r)
MainMove-flag _ h = h

-- `InCutOverCriticalSectionFlag` is set exactly while `atomicCutOver` is being executed: it is cleared
-- on every way out.
pub in_critical_section-running :
    {n : ℕ} {i : Bool} {s : System}
    → Reach n i s
    → s.shared.in_cut_over_critical_section ≡ is_running s.main
in_critical_section-running stay = refl
in_critical_section-running (after r (main_moves mv)) =
    MainMove-flag mv (in_critical_section-running r)
in_critical_section-running (after r (lock_moves mv)) =
    LockMove-flag mv ∙ in_critical_section-running r
in_critical_section-running (after r (rename_moves mv)) =
    RenameMove-flag mv ∙ in_critical_section-running r
