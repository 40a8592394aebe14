-- ===== src/Logic/RowCopy/Reports.antt =====
-- What the row copy of go/logic/migrator.go reports.
use ghost_source_code_readin.Base.{[], false, none, some, true, ◌∷◌, ◌≡◌}
use ghost_source_code_readin.Logic.RowCopy.{CopyLoop}
use ghost_source_code_readin.Logic.RowCopy.Calls.{Copied, Going}

module _ {ℓ} {E S : Type ℓ} where
  -- What was reported so far: nothing, while the loop is not over; the end of the copy, once; or, once,
  -- the error that `executeWriteFuncs` returned, after which it runs nothing.
  pub data IsReported (l : CopyLoop E S) : Type ℓ where
    nothing_yet : Going l.copy → l.write_error ≡ none → l.is_iterating ≡ true → IsReported l
    all_copied : Copied l.copy → l.write_error ≡ none → IsReported l
    nothing_to_copy :
        l.copy.row_copy_complete ≡ none ∷ []
        → l.is_iterating ≡ false
        → l.is_offered ≡ false
        → l.is_running ≡ false
        → l.write_error ≡ none
        → IsReported l
    has_failed :
        (e : E)
        → l.copy.row_copy_complete ≡ some e ∷ []
        → l.write_error ≡ some e
        → l.is_running ≡ false
        → IsReported l
