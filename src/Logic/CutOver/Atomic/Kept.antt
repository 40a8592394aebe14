-- ===== src/Logic/CutOver/Atomic/Kept.antt =====
-- What a move changes of the state that the goroutines share keeps what is told of it.
use ghost_source_code_readin.Base.{◌≡◌, refl, true, Option, List}
use ghost_source_code_readin.Text.{Text}
use ghost_source_code_readin.Logic.CutOver.Atomic.State.{Shared}
use ghost_source_code_readin.Logic.CutOver.Atomic.Knowledge.{
  holds_nil, IsPrepared, Told, Later, Later-same,
}

-- A move of the goroutine that is where `knows` says it is.
pub record Kept (s t : Shared) (knows : Type 0) : Type 0 where
  pub here : knows
  pub later : Later s.facts t.facts
  pub told : Told t

module _ {s : Shared} (told : Told s) where
  open told use {by_locked, by_unlocked, by_renamed, by_start, before_rename}

  pub same : {knows : Type 0} → knows → Kept s s knows
  same k = record { here = k; later = Later-same; told = told }

  -- New messages in a channel of errors.
  with_locked :
      (q : List (Option Text))
      → (holds_nil q ≡ true → s.facts.locked ≡ true)
      → Told (record s { table_locked = q })
  with_locked q h = record {
    by_locked = h;
    by_unlocked = by_unlocked;
    by_renamed = by_renamed;
    by_start = by_start;
    before_rename = before_rename;
  }

  with_unlocked :
      (q : List (Option Text))
      → (holds_nil q ≡ true → s.facts.unlocked ≡ true)
      → Told (record s { table_unlocked = q })
  with_unlocked q h = record {
    by_locked = by_locked;
    by_unlocked = h;
    by_renamed = by_renamed;
    by_start = by_start;
    before_rename = before_rename;
  }

  with_renamed :
      (q : List (Option Text))
      → (holds_nil q ≡ true → s.facts.renamed ≡ true)
      → Told (record s { tables_renamed = q })
  with_renamed q h = record {
    by_locked = by_locked;
    by_unlocked = by_unlocked;
    by_renamed = h;
    by_start = by_start;
    before_rename = before_rename;
  }

  -- What the rest of the state becomes does not matter.
  pub elsewhere :
      {t : Shared} {knows : Type 0}
      → t.facts ≡ s.facts
      → t.table_locked ≡ s.table_locked
      → t.table_unlocked ≡ s.table_unlocked
      → t.tables_renamed ≡ s.tables_renamed
      → t.rename_started ≡ s.rename_started
      → knows
      → Kept s t knows
  elsewhere f a b c d k = record {
    here = k;
    later = rw (f) Later-same;
    told = record {
      by_locked = rw (f, a) by_locked;
      by_unlocked = rw (f, b) by_unlocked;
      by_renamed = rw (f, c) by_renamed;
      by_start = rw (f, d) by_start;
      before_rename = rw (f) before_rename;
    };
  }

  -- A fact that becomes true.
  pub locked_now :
      {knows : Type 0}
      → knows
      → Kept s (record s { facts = record s.facts { locked = true } }) knows
  locked_now k = record {
    here = k;
    later = record {
      locked = λ h. refl;
      events_processed = λ h. h;
      unlocked = λ h. h;
      renamed = λ h. h;
    };
    told = record {
      by_locked = λ h. refl;
      by_unlocked = by_unlocked;
      by_renamed = by_renamed;
      by_start = λ h. (refl, (by_start h).1);
      before_rename = λ h. (refl, (before_rename h).1);
    };
  }

  pub unlocked_now :
      {knows : Type 0}
      → knows
      → Kept s (record s { facts = record s.facts { unlocked = true } }) knows
  unlocked_now k = record {
    here = k;
    later = record {
      locked = λ h. h;
      events_processed = λ h. h;
      unlocked = λ h. refl;
      renamed = λ h. h;
    };
    told = record {
      by_locked = by_locked;
      by_unlocked = λ h. refl;
      by_renamed = by_renamed;
      by_start = by_start;
      before_rename = before_rename;
    };
  }

  pub renamed_now :
      {knows : Type 0}
      → knows
      → IsPrepared s.facts
      → Kept s (record s { facts = record s.facts { renamed = true } }) knows
  renamed_now k p = record {
    here = k;
    later = record {
      locked = λ h. h;
      events_processed = λ h. h;
      unlocked = λ h. h;
      renamed = λ h. refl;
    };
    told = record {
      by_locked = by_locked;
      by_unlocked = by_unlocked;
      by_renamed = λ h. refl;
      by_start = by_start;
      before_rename = λ h. p;
    };
  }

  -- A message that is sent or received in a channel of errors.
  pub locked_told :
      {knows : Type 0}
      → (q : List (Option Text)) → knows
      → (holds_nil q ≡ true → s.facts.locked ≡ true)
      → Kept s (record s { table_locked = q }) knows
  locked_told q k h = record { here = k; later = Later-same; told = with_locked q h }

  pub unlocked_told :
      {knows : Type 0}
      → (q : List (Option Text)) → knows
      → (holds_nil q ≡ true → s.facts.unlocked ≡ true)
      → Kept s (record s { table_unlocked = q }) knows
  unlocked_told q k h = record { here = k; later = Later-same; told = with_unlocked q h }

  pub renamed_told :
      {knows : Type 0}
      → (q : List (Option Text)) → knows
      → (holds_nil q ≡ true → s.facts.renamed ≡ true)
      → Kept s (record s { tables_renamed = q }) knows
  renamed_told q k h = record { here = k; later = Later-same; told = with_renamed q h }
