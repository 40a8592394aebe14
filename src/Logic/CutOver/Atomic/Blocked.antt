-- ===== src/Logic/CutOver/Atomic/Blocked.antt =====
-- What becomes of the atomic cut-over when `AtomicCutoverRename` cannot begin its transaction: it returns
-- before its deferred function is registered, so nothing is sent to the one that Waits for its session.
use ghost_source_code_readin.Base.{
  ℕ, ◌≡◌, refl, Bool, true, false, some, List, [], ◌∷◌, arith, ◌∙◌, sym, ◌⊎◌, inl, inr,
}
use mathlib.Core.Path.{subst}
use ghost_source_code_readin.Base.Int.{ℤ}
use ghost_source_code_readin.Text.{Text}
use ghost_source_code_readin.Logic.CutOver.Atomic.State.{
  Shared, MainPc, LockPc, RenamePc, System, awaiting_rename_session, rename_begin, rename_returned,
  rename_gives_ok, rename_done,
}
use ghost_source_code_readin.Logic.CutOver.Atomic.MagicLock.{LockMove, tables_unlocked}
use ghost_source_code_readin.Logic.CutOver.Atomic.Rename.{
  RenameMove, RenameCall, rename_call, rename_succeeded, rename_begin_failed, known_to_have_failed,
  ok_given, were_renamed,
}
use ghost_source_code_readin.Logic.CutOver.Atomic.Main.{
  MainMove, MainCall, main_call, rename_spawned, rename_session_received, sentry_looked_for,
}
use ghost_source_code_readin.Logic.CutOver.Atomic.Steps.{
  Step, main_moves, lock_moves, rename_moves, Steps, stay, after, Reach,
}
use ghost_source_code_readin.Logic.CutOver.Atomic.Safety.{is_running, in_critical_section-running}

abbrev pub awaits_rename_session : MainPc → Bool
awaits_rename_session (awaiting_rename_session i) = true
awaits_rename_session _ = false

-- Before the goroutine of the rename begins, nothing was sent, and once it is started its session is
-- awaited.
abbrev IsFresh : RenamePc → Shared → MainPc → Type 0
IsFresh rename_begin s p =
    (s.rename_session_ids ≡ []) × (s.rename_started ≡ false ⊎ awaits_rename_session p ≡ true)
IsFresh _ s p = Unit

nothing_received : {q rest : List ℤ} {i : ℤ} {t : Type 0} → q ≡ [] → q ≡ i ∷ rest → t
nothing_received a b = absurd cc

MainCall-awaits : {s : Shared} {p q : MainPc} → MainCall s p q → awaits_rename_session p ≡ false
MainCall-awaits (sentry_looked_for r) = refl
MainCall-awaits _ = refl

MainMove-Fresh :
    {n : ℕ} {s t : Shared} {p q : MainPc}
    → MainMove n s p t q
    → (s.rename_session_ids ≡ []) × (s.rename_started ≡ false ⊎ awaits_rename_session p ≡ true)
    → (t.rename_session_ids ≡ []) × (t.rename_started ≡ false ⊎ awaits_rename_session q ≡ true)
MainMove-Fresh (rename_spawned i now write arrivals injected e) (a, h) = (a, inr refl)
MainMove-Fresh (rename_session_received i j rest e) (a, h) = nothing_received a e
MainMove-Fresh (main_call c) (a, inr b) = absurd (cc (MainCall-awaits c))
MainMove-Fresh (main_call c) (a, inl b) = (a, inl b)
MainMove-Fresh mv (a, inl b) = (a, inl b)
MainMove-Fresh mv (a, inr b) = absurd (ground arith)

main_steps-Fresh :
    {n : ℕ} {s t : Shared} {p q : MainPc} (r : RenamePc)
    → MainMove n s p t q
    → IsFresh r s p
    → IsFresh r t q
main_steps-Fresh rename_begin mv h = MainMove-Fresh mv h
main_steps-Fresh _ mv h = tt

LockMove-rename :
    {s t : Shared} {p q : LockPc}
    → LockMove s p t q
    → (t.rename_session_ids ≡ s.rename_session_ids) × (t.rename_started ≡ s.rename_started)
LockMove-rename tables_unlocked = (refl, refl)
LockMove-rename _ = (refl, refl)

lock_steps-Fresh :
    {s t : Shared} {p q : LockPc} (r : RenamePc) (m : MainPc)
    → LockMove s p t q
    → IsFresh r s m
    → IsFresh r t m
lock_steps-Fresh rename_begin m mv (a, h) =
    let (ids, started) = LockMove-rename mv in
    (ids ∙ a, subst (λ b. b ≡ false ⊎ awaits_rename_session m ≡ true) (sym started) h)
lock_steps-Fresh _ m mv h = tt

RenameCall-Fresh : {p q : RenamePc} (s : Shared) (m : MainPc) → RenameCall p q → IsFresh q s m
RenameCall-Fresh s m rename_succeeded = tt
RenameCall-Fresh s m _ = tt

rename_steps-Fresh :
    {s t : Shared} {p q : RenamePc} (m : MainPc) → RenameMove s p t q → IsFresh q t m
rename_steps-Fresh {s} m (rename_call c) = RenameCall-Fresh s m c
rename_steps-Fresh m were_renamed = tt
rename_steps-Fresh m _ = tt

Reach-Fresh : {n : ℕ} {i : Bool} {s : System} → Reach n i s → IsFresh s.rename s.shared s.main
Reach-Fresh stay = (refl, inl refl)
Reach-Fresh (after {t} r (main_moves mv)) = main_steps-Fresh t.rename mv (Reach-Fresh r)
Reach-Fresh (after {t} r (lock_moves mv)) = lock_steps-Fresh t.rename t.main mv (Reach-Fresh r)
Reach-Fresh (after {t} r (rename_moves mv)) = rename_steps-Fresh t.main mv

-- What is left of the goroutine sends no session.
abbrev pub is_silent : RenamePc → Bool
is_silent (rename_returned r) = true
is_silent rename_gives_ok = true
is_silent rename_done = true
is_silent _ = false

awaits-running : (p : MainPc) → awaits_rename_session p ≡ true → is_running p ≡ true
awaits-running (awaiting_rename_session i) h = refl
awaits-running p h = ground arith

record IsBlocked (s : System) : Type 0 where
  silent : is_silent s.rename ≡ true
  nothing_sent : s.shared.rename_session_ids ≡ []
  awaits : awaits_rename_session s.main ≡ true

MainMove-blocked :
    {n : ℕ} {s t : Shared} {p q : MainPc} {u : Type 0}
    → MainMove n s p t q
    → s.rename_session_ids ≡ []
    → awaits_rename_session p ≡ true
    → u
MainMove-blocked (rename_session_received i j rest e) a h = nothing_received a e
MainMove-blocked (main_call c) a h = absurd (cc (MainCall-awaits c))
MainMove-blocked mv a h = absurd (ground arith)

RenameMove-silent :
    {s t : Shared} {p q : RenamePc}
    → RenameMove s p t q
    → is_silent p ≡ true
    → (is_silent q ≡ true) × (t.rename_session_ids ≡ s.rename_session_ids)
RenameMove-silent (rename_call rename_succeeded) h = (refl, refl)
RenameMove-silent (known_to_have_failed e) h = (refl, refl)
RenameMove-silent (ok_given r) h = (refl, refl)
RenameMove-silent (rename_call c) h = absurd (ground arith)
RenameMove-silent mv h = absurd (ground arith)

step-IsBlocked : {n : ℕ} {s t : System} → IsBlocked s → Step n s t → IsBlocked t
step-IsBlocked b (main_moves mv) = MainMove-blocked mv b.nothing_sent b.awaits
step-IsBlocked b (lock_moves mv) = record {
  silent = b.silent;
  nothing_sent = (LockMove-rename mv).0 ∙ b.nothing_sent;
  awaits = b.awaits;
}
step-IsBlocked b (rename_moves mv) =
    let (q, ids) = RenameMove-silent mv b.silent in
    record { silent = q; nothing_sent = ids ∙ b.nothing_sent; awaits = b.awaits }

steps-IsBlocked : {n : ℕ} {s t : System} → IsBlocked s → Steps n s t → IsBlocked t
steps-IsBlocked b stay = b
steps-IsBlocked b (after r st) = step-IsBlocked (steps-IsBlocked b r) st

steps-append : {n : ℕ} {s t u : System} → Steps n s t → Steps n t u → Steps n s u
steps-append a stay = a
steps-append a (after b st) = after (steps-append a b) st

-- The goroutine of the rename at its first statement.
abbrev pub begins : Shared → MainPc → LockPc → System
begins s m l = record { shared = s; main = m; lock = l; rename = rename_begin }

abbrev pub has_failed : Text → Shared → MainPc → LockPc → System
has_failed e s m l = record { shared = s; main = m; lock = l; rename = rename_returned (some e) }

module _ {n : ℕ} {i : Bool} (s : Shared) (m : MainPc) (l : LockPc) where
  fails-IsBlocked :
      (e : Text)
      → Reach n i (begins s m l)
      → s.rename_started ≡ true
      → IsBlocked (has_failed e s m l)
  fails-IsBlocked e r h =
      let (ids, started) = Reach-Fresh r in
      record { silent = refl; nothing_sent = ids; awaits = ground (arith, started) }

  -- When `AtomicCutoverRename`, once it is started, cannot begin its transaction, `atomicCutOver` never
  -- gets further, whatever the goroutines do from then on: it goes on waiting for the session that
  -- renames, and `InCutOverCriticalSectionFlag` stays set.
  pub begin_failure-blocks :
      {u : System} (e : Text)
      → Reach n i (begins s m l)
      → s.rename_started ≡ true
      → Steps n (has_failed e s m l) u
      → (awaits_rename_session u.main ≡ true) × (u.shared.in_cut_over_critical_section ≡ true)
  begin_failure-blocks {u} e r h later =
      let b = steps-IsBlocked (fails-IsBlocked e r h) later in
      let reached = steps-append (after r (rename_moves (rename_begin_failed e h))) later in
      let flag = in_critical_section-running reached in
      (b.awaits, flag ∙ awaits-running u.main b.awaits)
