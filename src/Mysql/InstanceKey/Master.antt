-- ===== src/Mysql/InstanceKey/Master.antt =====
-- go/mysql/utils.go, `GetMasterConnectionConfigSafe`: from a server to its master, and on, up to a
-- server that has none. The connection is known by its key. A server's answer to
-- `show slave status` is a parameter.
use ghost_source_code_readin.Base.{
  ℕ, zero, suc, ◌+◌, ◌<◌, ◌≤◌, ◌≡◌, ◌≢◌, refl, Bool, true, false, not, Bool-cases, inl, inr, Option,
  none, some, List, [], ◌∷◌, arith, if◌then◌else◌, Result, ok, err, ◌>>=◌,
}
use ghost_source_code_readin.Text.{Text, txt, text_eq, is_empty}
use ghost_source_code_readin.Mysql.InstanceKey.{InstanceKey, is_valid}
use ghost_source_code_readin.Mysql.InstanceKey.KeyMap.{
  InstanceKeyMap, has_key, add_key, has_key-add_key, key_eq_sound, key_eq_refl,
}

-- A row of `show slave status`.
pub record SlaveStatus : Type 0 where
  pub master_log_file : Text
  pub slave_io_running : Text
  pub slave_sql_running : Text
  pub master_key : InstanceKey

pub data MasterError : Type 0 where
  query_failed replication_broken master_master : MasterError

abbrev key_of_row : SlaveStatus → Result MasterError (Option InstanceKey)
key_of_row r =
    if is_empty r.master_log_file
    then ok none
    else if not (text_eq r.slave_io_running (txt "Yes"))
    then err replication_broken
    else if not (text_eq r.slave_sql_running (txt "Yes"))
    then err replication_broken
    else ok (some r.master_key)

-- What a row makes of the key that the rows before it gave.
abbrev or_before :
    Option InstanceKey
    → Result MasterError (Option InstanceKey)
    → Result MasterError (Option InstanceKey)
or_before before (err e) = err e
or_before before (ok none) = ok before
or_before before (ok (some m)) = ok (some m)

-- The callback on each of the rows: the last one that names a master counts, and an error ends it.
unfoldable pub key_of_rows :
    Option InstanceKey → List SlaveStatus → Result MasterError (Option InstanceKey)
key_of_rows before [] = ok before
key_of_rows before (r ∷ rows) = do key ← or_before before (key_of_row r); key_of_rows key rows

-- `GetMasterKeyFromSlaveStatus`, on the rows of the answer.
unfoldable pub master_key_of :
    Result MasterError (List SlaveStatus) → Result MasterError (Option InstanceKey)
unfolding key_of_rows
master_key_of answer = do rows ← answer; key_of_rows none rows

-- One call of the function: the result, or the arguments of the recursive call.
pub data Step : Type 0 where
  done : Result MasterError InstanceKey → Step
  again : InstanceKey → InstanceKeyMap → Step

module _ (slave_status : InstanceKey → Result MasterError (List SlaveStatus)) where
  abbrev follow :
      InstanceKey → InstanceKeyMap → Bool → Result MasterError (Option InstanceKey) → Step
  follow key visited allow (err e) = done (err e)
  follow key visited allow (ok none) = done (ok key)
  follow key visited allow (ok (some m)) =
      if not (is_valid m)
      then done (ok key)
      else if has_key m visited
      then (if allow then done (ok key) else done (err master_master))
      else again m (add_key m visited)

  unfoldable pub master_step : InstanceKey → InstanceKeyMap → Bool → Step
  master_step key visited allow = follow key visited allow (master_key_of (slave_status key))

  abbrev continue :
      Step
      → (InstanceKey → InstanceKeyMap → Option (Result MasterError InstanceKey))
      → Option (Result MasterError InstanceKey)
  continue (done r) rest = some r
  continue (again m seen) rest = rest m seen

  -- `GetMasterConnectionConfigSafe`, with fuel; `none` is out of fuel.
  unfoldable pub get_master :
      ℕ → InstanceKey → InstanceKeyMap → Bool → Option (Result MasterError InstanceKey)
  unfolding master_step
  get_master zero key visited allow = none
  get_master (suc fuel) key visited allow =
      continue (master_step key visited allow) (λ m seen. get_master fuel m seen allow)

-- How many of the servers are not among the visited ones.
unfoldable pub unvisited : List InstanceKey → InstanceKeyMap → ℕ
unvisited [] visited = 0
unvisited (s ∷ servers) visited =
    let rest = unvisited servers visited in if has_key s visited then rest else rest + 1

unvisited-grows :
    (servers visited : InstanceKeyMap) (m : InstanceKey)
    → unvisited servers (add_key m visited) ≤ unvisited servers visited
unfolding unvisited
unvisited-grows [] visited m = omega arith
unvisited-grows (s ∷ servers) visited m =
    ground (arith, unvisited-grows servers visited m, has_key-add_key s m visited)

-- A step to a server that was not visited leaves fewer.
unvisited-drops :
    (servers visited : InstanceKeyMap) (m : InstanceKey)
    → has_key m servers ≡ true
    → has_key m visited ≡ false
    → unvisited servers (add_key m visited) < unvisited servers visited
unfolding unvisited has_key
unvisited-drops [] visited m known new = cc
unvisited-drops (s ∷ servers) visited m known new = ground (
  arith,
  unvisited-drops servers visited m,
  unvisited-grows servers visited m,
  has_key-add_key s m visited,
  key_eq_sound s m,
  key_eq_refl m,
)

module _ (slave_status : InstanceKey → Result MasterError (List SlaveStatus)) where
  -- A call ends, or goes on to a server that was not visited.
  data Outcome (key : InstanceKey) (visited : InstanceKeyMap)
      (a : Result MasterError (Option InstanceKey)) : Step → Type 0 where
    ends : (r : Result MasterError InstanceKey) → Outcome key visited a (done r)
    goes_on :
        (m : InstanceKey)
        → a ≡ ok (some m)
        → has_key m visited ≡ false
        → Outcome key visited a (again m (add_key m visited))

  follow_outcome :
      (key : InstanceKey) (visited : InstanceKeyMap) (allow : Bool)
      (a : Result MasterError (Option InstanceKey))
      → Outcome key visited a (follow slave_status key visited allow a)
  follow_outcome key visited allow (err e) = ends (err e)
  follow_outcome key visited allow (ok none) = ends (ok key)
  follow_outcome key visited allow (ok (some m)) = elim (Bool-cases (is_valid m)) [
    | inr bad ↦ rw bad (ends (ok key))
    | inl good ↦ elim (Bool-cases (has_key m visited)) [
      | inl seen ↦ elim (Bool-cases allow) [
        | inl let_in ↦ rw (good, seen, let_in) (ends (ok key))
        | inr refused ↦ rw (good, seen, refused) (ends (err master_master))
      ]
      | inr new ↦ rw (good, new) (goes_on m refl new)
    ]
  ]

  continue-returns :
      (key : InstanceKey) (visited : InstanceKeyMap) (a : Result MasterError (Option InstanceKey))
      (s : Step) (rest : InstanceKey → InstanceKeyMap → Option (Result MasterError InstanceKey))
      → Outcome key visited a s
      → ((m : InstanceKey)
          → a ≡ ok (some m)
          → has_key m visited ≡ false
          → rest m (add_key m visited) ≢ none)
      → continue slave_status s rest ≢ none
  continue-returns key visited a (done r) rest o h = λ e. cc
  continue-returns key visited a (again _ _) rest (goes_on m e new) h = h m e new

  -- Where every server's master is one of finitely many servers, more fuel than there are servers that
  -- were not visited is enough: the search for the master returns, in a ring of masters too.
  pub get_master-returns :
      (servers : List InstanceKey)
      → ((k m : InstanceKey)
          → master_key_of (slave_status k) ≡ ok (some m)
          → has_key m servers ≡ true)
      → (fuel : ℕ) (key : InstanceKey) (visited : InstanceKeyMap) (allow : Bool)
      → unvisited servers visited < fuel
      → get_master slave_status fuel key visited allow ≢ none
  unfolding get_master master_step
  get_master-returns servers known zero key visited allow enough = absurd (omega arith)
  get_master-returns servers known (suc fuel) key visited allow enough =
      continue-returns key visited (master_key_of (slave_status key)) _ _
        (follow_outcome key visited allow (master_key_of (slave_status key)))
        (λ m e new.
          get_master-returns servers known fuel m (add_key m visited) allow
            (omega (arith, unvisited-drops servers visited m (known key m e) new)))
