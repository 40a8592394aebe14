-- ===== src/Logic/CutOver/Atomic/Knowledge.antt =====
-- What each goroutine of the atomic cut-over may rely on, from where it is and from what it received.
use ghost_source_code_readin.Base.{
  ◌≡◌, refl, Bool, true, false, Option, none, some, List, [], ◌∷◌, ◌++◌, arith, ap, ◌∙◌,
}
use ghost_source_code_readin.Text.{Text}
use ghost_source_code_readin.Logic.CutOver.Atomic.State.{
  Shared, Facts, MainPc, LockPc, RenamePc, System, starting, awaiting_table_locked,
  awaiting_lock_session, awaiting_events, awaiting_rename_session, expecting_process,
  expecting_used_lock, sending_ok, awaiting_unlocked, awaiting_renamed, aborting, leaving,
  dropping_sentry, clearing_flag, returned, send_table_locked, send_table_unlocked, rename_begin,
  send_tables_renamed,
}

-- A channel of errors holds a nil.
unfoldable pub holds_nil : List (Option Text) → Bool
holds_nil [] = false
holds_nil (none ∷ q) = true
holds_nil (some e ∷ q) = holds_nil q

abbrev pub is_nil : Option Text → Bool
is_nil none = true
is_nil (some e) = false

-- The original table was locked, and then the events up to the lock were processed.
abbrev pub IsPrepared : Facts → Type 0
IsPrepared f = (f.locked ≡ true) × (f.events_processed ≡ true)

-- All that a cut-over does has been done.
abbrev pub IsComplete : Facts → Type 0
IsComplete f = IsPrepared f × (f.unlocked ≡ true) × (f.renamed ≡ true)

abbrev pub OnNil : Option Text → Type 0 → Type 0
OnNil none t = t
OnNil (some e) t = Unit

abbrev pub MainKnows : MainPc → Facts → Type 0
MainKnows starting f = Unit
MainKnows awaiting_table_locked f = Unit
MainKnows awaiting_lock_session f = f.locked ≡ true
MainKnows (awaiting_events i) f = f.locked ≡ true
MainKnows (awaiting_rename_session i) f = IsPrepared f
MainKnows (expecting_process i j n last) f = IsPrepared f
MainKnows (expecting_used_lock i) f = IsPrepared f
MainKnows sending_ok f = IsPrepared f
MainKnows awaiting_unlocked f = IsPrepared f
MainKnows awaiting_renamed f = IsPrepared f × (f.unlocked ≡ true)
MainKnows (aborting e) f = Unit
MainKnows (leaving r) f = OnNil r (IsComplete f)
MainKnows (dropping_sentry r) f = OnNil r (IsComplete f)
MainKnows (clearing_flag r) f = OnNil r (IsComplete f)
MainKnows (returned r) f = OnNil r (IsComplete f)

abbrev pub LockKnows : LockPc → Facts → Type 0
LockKnows send_table_locked f = f.locked ≡ true
LockKnows (send_table_unlocked r) f = OnNil r (f.unlocked ≡ true)
LockKnows _ f = Unit

abbrev pub RenameKnows : RenamePc → Facts → Type 0
RenameKnows rename_begin f = Unit
RenameKnows (send_tables_renamed r) f = IsPrepared f × OnNil r (f.renamed ≡ true)
RenameKnows _ f = IsPrepared f

-- What the messages tell, and what has been done before the tables were renamed.
pub record Told (s : Shared) : Type 0 where
  pub by_locked : holds_nil s.table_locked ≡ true → s.facts.locked ≡ true
  pub by_unlocked : holds_nil s.table_unlocked ≡ true → s.facts.unlocked ≡ true
  pub by_renamed : holds_nil s.tables_renamed ≡ true → s.facts.renamed ≡ true
  pub by_start : s.rename_started ≡ true → IsPrepared s.facts
  pub before_rename : s.facts.renamed ≡ true → IsPrepared s.facts

-- Facts only become true.
pub record Later (f g : Facts) : Type 0 where
  pub locked : f.locked ≡ true → g.locked ≡ true
  pub events_processed : f.events_processed ≡ true → g.events_processed ≡ true
  pub unlocked : f.unlocked ≡ true → g.unlocked ≡ true
  pub renamed : f.renamed ≡ true → g.renamed ≡ true

pub record Inv (s : System) : Type 0 where
  pub main_knows : MainKnows s.main s.shared.facts
  pub lock_knows : LockKnows s.lock s.shared.facts
  pub rename_knows : RenameKnows s.rename s.shared.facts
  pub told : Told s.shared

module _ {f g : Facts} (l : Later f g) where
  pub IsPrepared-Later : IsPrepared f → IsPrepared g
  IsPrepared-Later (a, b) = (l.locked a, l.events_processed b)

  OnNil-Later : {t u : Type 0} (r : Option Text) → (t → u) → OnNil r t → OnNil r u
  OnNil-Later none h x = h x
  OnNil-Later (some e) h x = tt

  IsComplete-Later : IsComplete f → IsComplete g
  IsComplete-Later (p, u, r) = (IsPrepared-Later p, l.unlocked u, l.renamed r)

  pub main-Later : (p : MainPc) → MainKnows p f → MainKnows p g
  main-Later starting h = tt
  main-Later awaiting_table_locked h = tt
  main-Later awaiting_lock_session h = l.locked h
  main-Later (awaiting_events i) h = l.locked h
  main-Later (awaiting_rename_session i) h = IsPrepared-Later h
  main-Later (expecting_process i j n last) h = IsPrepared-Later h
  main-Later (expecting_used_lock i) h = IsPrepared-Later h
  main-Later sending_ok h = IsPrepared-Later h
  main-Later awaiting_unlocked h = IsPrepared-Later h
  main-Later awaiting_renamed (p, u) = (IsPrepared-Later p, l.unlocked u)
  main-Later (aborting e) h = tt
  main-Later (leaving r) h = OnNil-Later r IsComplete-Later h
  main-Later (dropping_sentry r) h = OnNil-Later r IsComplete-Later h
  main-Later (clearing_flag r) h = OnNil-Later r IsComplete-Later h
  main-Later (returned r) h = OnNil-Later r IsComplete-Later h

  pub lock-Later : (p : LockPc) → LockKnows p f → LockKnows p g
  lock-Later send_table_locked h = l.locked h
  lock-Later (send_table_unlocked r) h = OnNil-Later r l.unlocked h
  lock-Later _ h = ground arith

  pub rename-Later : (p : RenamePc) → RenameKnows p f → RenameKnows p g
  rename-Later rename_begin h = tt
  rename-Later (send_tables_renamed r) (p, h) = (IsPrepared-Later p, OnNil-Later r l.renamed h)
  rename-Later _ h = ground arith

pub Later-same : {f : Facts} → Later f f
Later-same = record {
  locked = λ h. h;
  events_processed = λ h. h;
  unlocked = λ h. h;
  renamed = λ h. h;
}

-- A message at the end of a channel.
pub holds_nil-append :
    (q : List (Option Text)) (r : Option Text) {t : Type 0}
    → (holds_nil q ≡ true → t)
    → OnNil r t
    → holds_nil (q ++ r ∷ []) ≡ true
    → t
unfolding holds_nil
holds_nil-append [] none before now h = now
holds_nil-append [] (some e) before now h = before h
holds_nil-append (none ∷ q) r before now h = before refl
holds_nil-append (some e ∷ q) r before now h = holds_nil-append q r before now h

-- A message is taken from a channel.
pub holds_nil-rest :
    {q rest : List (Option Text)} {r : Option Text} {t : Type 0}
    → (holds_nil q ≡ true → t)
    → q ≡ r ∷ rest
    → holds_nil rest ≡ true
    → t
unfolding holds_nil
holds_nil-rest {rest} {r = none} before e h = before (ap holds_nil e)
holds_nil-rest {rest} {r = some x} before e h = before (ap holds_nil e ∙ h)

pub holds_nil-head :
    {q rest : List (Option Text)} {t : Type 0} → (holds_nil q ≡ true → t) → q ≡ none ∷ rest → t
unfolding holds_nil
holds_nil-head before e = before (ap holds_nil e)
