-- ===== src/Logic/CutOver/Atomic/Steps.antt =====
-- The three goroutines of the atomic cut-over, interleaved in any order.
use ghost_source_code_readin.Base.{ℕ, Bool}
use ghost_source_code_readin.Logic.CutOver.Atomic.State.{
  Shared, MainPc, LockPc, RenamePc, System, init,
}
use ghost_source_code_readin.Logic.CutOver.Atomic.MagicLock.{LockMove}
use ghost_source_code_readin.Logic.CutOver.Atomic.Rename.{RenameMove}
use ghost_source_code_readin.Logic.CutOver.Atomic.Main.{MainMove}

pub data Step (max_retries : ℕ) (s : System) : System → Type 0 where
  main_moves :
      {t : Shared} {p : MainPc}
      → MainMove max_retries s.shared s.main t p
      → Step max_retries s (record s { shared = t; main = p })
  lock_moves :
      {t : Shared} {p : LockPc}
      → LockMove s.shared s.lock t p
      → Step max_retries s (record s { shared = t; lock = p })
  rename_moves :
      {t : Shared} {p : RenamePc}
      → RenameMove s.shared s.rename t p
      → Step max_retries s (record s { shared = t; rename = p })

pub data Steps (max_retries : ℕ) (s : System) : System → Type 0 where
  stay : Steps max_retries s s
  after : {t u : System} → Steps max_retries s t → Step max_retries t u → Steps max_retries s u

-- The states of a call of `atomicCutOver`.
abbrev pub Reach : ℕ → Bool → System → Type 0
Reach max_retries injected s = Steps max_retries (init injected) s
