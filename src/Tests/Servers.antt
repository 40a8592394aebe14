-- ===== src/Tests/Servers.antt =====
-- Runs of go/mysql at concrete inputs.
use ghost_source_code_readin.Base.{
  List, ◌≡◌, ◌≢◌, refl, [], ◌∷◌, true, false, none, some, ok, err, arith, Bool, Result,
}
use ghost_source_code_readin.Base.Int.{pos}
use ghost_source_code_readin.Text.{txt, text_eq}
use ghost_source_code_readin.Mysql.Coordinates.{
  BinlogCoordinates, negative_repeat, binary_log, relay_log, next_file_coordinates,
}
use ghost_source_code_readin.Mysql.Coordinates.Files.{at_file, next_file_coordinates-overflow}
use ghost_source_code_readin.Mysql.InstanceKey.{InstanceKey, key_eq}
use ghost_source_code_readin.Mysql.InstanceKey.KeyMap.{has_key}
use ghost_source_code_readin.Mysql.InstanceKey.Master.{
  SlaveStatus, MasterError, master_key_of, key_of_rows, get_master, get_master-returns, unvisited,
}
use ghost_source_code_readin.Text.Decimal.{itoa}

-- `bin.8` at 4, `bin.8` at 7 and `bin.9` at 4.
abbrev first : BinlogCoordinates
first = record { log_file = 98 ∷ 46 ∷ 56 ∷ []; log_pos = pos 4; log_type = binary_log }

abbrev second : BinlogCoordinates
second = record first { log_pos = pos 7 }

abbrev third : BinlogCoordinates
third = record { log_file = 98 ∷ 46 ∷ 57 ∷ []; log_pos = pos 4; log_type = relay_log }

abbrev key_a : InstanceKey
key_a = record { hostname = 97 ∷ []; port = pos 3306 }

abbrev key_b : InstanceKey
key_b = record { hostname = 98 ∷ []; port = pos 3307 }

abbrev replicates_from : InstanceKey → Result MasterError (List SlaveStatus)
replicates_from k = ok (
    record {
      master_log_file = 98 ∷ [];
      slave_io_running = txt "Yes";
      slave_sql_running = txt "Yes";
      master_key = k;
    }
    ∷ [])

abbrev other : Bool → InstanceKey
other true = key_b
other false = key_a

-- `a` replicates from `b`, and every other server from `a`.
abbrev ring : InstanceKey → Result MasterError (List SlaveStatus)
ring k = replicates_from (other (text_eq k.hostname (97 ∷ [])))

other_known : (b : Bool) (m : InstanceKey) → other b ≡ m → has_key m (key_a ∷ key_b ∷ []) ≡ true
unfolding has_key key_eq text_eq
other_known true m e = rw⁻¹ e refl
other_known false m e = rw⁻¹ e refl

replicates_from-key : (k m : InstanceKey) → master_key_of (replicates_from k) ≡ ok (some m) → k ≡ m
unfolding master_key_of key_of_rows text_eq txt
replicates_from-key k m h = cc

-- The master of every server of the ring is in the ring.
ring_known :
    (k m : InstanceKey)
    → master_key_of (ring k) ≡ ok (some m)
    → has_key m (key_a ∷ key_b ∷ []) ≡ true
ring_known k m h =
    let b = text_eq k.hostname (97 ∷ []) in other_known b m (replicates_from-key (other b) m h)

get_master-returns_example : get_master ring 3 key_a [] false ≢ none
unfolding unvisited has_key
get_master-returns_example =
    get_master-returns ring (key_a ∷ key_b ∷ []) ring_known 3 key_a [] false (omega arith)

next_file_coordinates-overflow_example :
    next_file_coordinates (at_file (98 ∷ []) 1 9 first) ≡ err negative_repeat
unfolding itoa
next_file_coordinates-overflow_example =
    next_file_coordinates-overflow (98 ∷ []) 1 9 first (omega arith) (omega arith) (omega arith)
