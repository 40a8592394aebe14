-- ===== src/Mysql/Coordinates/Order.antt =====
-- The order of coordinates.
use ghost_source_code_readin.Base.{◌≡◌, ◌⊎◌, true, false, not, arith}
use ghost_source_code_readin.Base.Int.{ℤ, pos, negsuc, ltb_ℤ}
use ghost_source_code_readin.Text.{text_eq}
use ghost_source_code_readin.Text.Laws.{text_eq_iff, text_lt_irrefl, text_lt_trans, text_lt_total}
use ghost_source_code_readin.Mysql.Coordinates.{
  BinlogCoordinates, int_eq, smaller_than, smaller_than_or_equals,
}

smaller_irrefl : (a : BinlogCoordinates) → smaller_than a a ≡ false
unfolding smaller_than
smaller_irrefl a = ground (arith, text_lt_irrefl a.log_file)

-- The same file on both sides: the positions decide.
smaller_trans :
    (a b c : BinlogCoordinates)
    → smaller_than a b ≡ true
    → smaller_than b c ≡ true
    → smaller_than a c ≡ true
unfolding smaller_than
smaller_trans a b c h k = ground (
  arith,
  text_lt_trans a.log_file b.log_file c.log_file,
  text_eq_iff a.log_file b.log_file,
  text_eq_iff b.log_file c.log_file,
  text_eq_iff a.log_file c.log_file,
)

positions_total : (x y : ℤ) → (ltb_ℤ x y ≡ true) ⊎ (int_eq x y ≡ true) ⊎ (ltb_ℤ y x ≡ true)
positions_total (pos x) (pos y) = ground arith
positions_total (pos x) (negsuc y) = ground arith
positions_total (negsuc x) (pos y) = ground arith
positions_total (negsuc x) (negsuc y) = ground arith

smaller_total :
    (a b : BinlogCoordinates) → (smaller_than_or_equals a b ≡ true) ⊎ (smaller_than b a ≡ true)
unfolding smaller_than_or_equals
smaller_total a b = ground (
  arith,
  text_lt_total a.log_file b.log_file,
  positions_total a.log_pos b.log_pos,
  text_eq_iff a.log_file b.log_file,
  text_eq_iff b.log_file a.log_file,
)

positions_equal : (x y : ℤ) → int_eq x y ≡ true → ltb_ℤ y x ≡ false
positions_equal (pos x) (pos y) h = ground arith
positions_equal (pos x) (negsuc y) h = ground arith
positions_equal (negsuc x) (pos y) h = ground arith
positions_equal (negsuc x) (negsuc y) h = ground arith

smaller_same_place :
    (a b : BinlogCoordinates)
    → text_eq a.log_file b.log_file ≡ true
    → int_eq a.log_pos b.log_pos ≡ true
    → smaller_than b a ≡ false
unfolding smaller_than
smaller_same_place a b h k = ground (
  arith,
  text_eq_iff a.log_file b.log_file,
  text_lt_irrefl a.log_file,
  positions_equal a.log_pos b.log_pos,
)

smaller_asym : (a b : BinlogCoordinates) → smaller_than a b ≡ true → smaller_than b a ≡ false
smaller_asym a b h = ground (arith, smaller_trans a b a, smaller_irrefl a)

or_equals_cases :
    (a b : BinlogCoordinates)
    → smaller_than_or_equals a b ≡ true
    → (smaller_than a b ≡ true)
      ⊎ (text_eq a.log_file b.log_file ≡ true) × (int_eq a.log_pos b.log_pos ≡ true)
unfolding smaller_than_or_equals
or_equals_cases a b h = ground arith

smaller_exclusive :
    (a b : BinlogCoordinates) → smaller_than_or_equals a b ≡ true → smaller_than b a ≡ false
smaller_exclusive a b h =
    ground (arith, or_equals_cases a b h, smaller_asym a b, smaller_same_place a b)

-- `SmallerThan` is a strict order: it is transitive, and never goes both ways.
smaller_than_order :
    (a b c : BinlogCoordinates)
    → smaller_than a b ≡ true
    → smaller_than b c ≡ true
    → (smaller_than a c ≡ true) × (smaller_than c a ≡ false) × (smaller_than a a ≡ false)
smaller_than_order a b c h k =
    let t = smaller_trans a b c h k in (t, smaller_asym a c t, smaller_irrefl a)

-- `SmallerThanOrEquals` holds exactly where the other side is not smaller, so that of any two
-- coordinates one is smaller than or equal to the other.
smaller_than_or_equals-not :
    (a b : BinlogCoordinates) → smaller_than_or_equals a b ≡ not (smaller_than b a)
smaller_than_or_equals-not a b = ground (arith, smaller_total a b, smaller_exclusive a b)
