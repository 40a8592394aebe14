-- ===== src/Mysql/Coordinates/Files.antt =====
-- The names of the next and the previous log file.
use ghost_source_code_readin.Base.{
  ℕ, zero, suc, ◌+◌, ◌-◌, ◌^◌, ◌≤◌, ◌<◌, ◌≡◌, refl, ap, ◌∙◌, [], ◌∷◌, ◌++◌, arith, length,
  length-append, ok, err, some, ◌≢◌, inl, ltb, true, false, All,
}
use ghost_source_code_readin.Base.Int.{pos, ◌+ℤ◌, ◌-ℤ◌, wrap64}
use ghost_source_code_readin.Text.{Text, txt, split, repeat}
use ghost_source_code_readin.Text.Laws.{
  split_append, join_snoc, join-split, last_part_snoc, set_last_snoc, split-ne-nil,
}
use ghost_source_code_readin.Text.Decimal.{itoa, itoa_int, read_digits, atoi}
use ghost_source_code_readin.Text.Decimal.RoundTrip.{
  IsDigit, IsDigit-Lacks, itoa-IsDigit, itoa-ne-nil, atoi_digits, read_digits-itoa,
}
use ghost_source_code_readin.Mysql.Coordinates.{
  BinlogCoordinates, negative_repeat, int_eq, file_number, pad_zeros, with_number,
  next_file_coordinates, previous_file_coordinates, previous_file_coordinates_by,
}

-- A number with leading zeros, in `w` characters where it fits.
pub padded : ℕ → ℕ → Text
padded w n = repeat (w - length (itoa n)) b'0' ++ itoa n

-- The coordinates at the start of the log file `base.n`.
pub at_file : Text → ℕ → ℕ → BinlogCoordinates → BinlogCoordinates
at_file base w n c = record c { log_file = base ++ (b'.' ∷ padded w n); log_pos = pos 0 }

length-repeat : (n c : ℕ) → length (repeat n c) ≡ n
unfolding repeat
length-repeat zero c = refl
length-repeat (suc n) c = ap suc (length-repeat n c)

length-padded : (w n : ℕ) → length (itoa n) ≤ w → length (padded w n) ≡ w
unfolding padded
length-padded w n h = omega (
  arith,
  length-append (repeat (w - length (itoa n)) b'0') (itoa n),
  length-repeat (w - length (itoa n)) b'0',
)

repeat-IsDigit : (k : ℕ) (s : Text) → All IsDigit s → All IsDigit (repeat k b'0' ++ s)
unfolding repeat
repeat-IsDigit zero s h = h
repeat-IsDigit (suc k) s h = ((omega arith, omega arith), repeat-IsDigit k s h)

padded-IsDigit : (w n : ℕ) → All IsDigit (padded w n)
unfolding padded
padded-IsDigit w n = repeat-IsDigit (w - length (itoa n)) (itoa n) (itoa-IsDigit n)

read_zeros : (k : ℕ) (s : Text) → read_digits (repeat k b'0' ++ s) 0 ≡ read_digits s 0
unfolding read_digits repeat
read_zeros zero s = refl
read_zeros (suc k) s = read_zeros k s

repeat-ne-nil : (k : ℕ) (s : Text) → s ≢ [] → repeat k b'0' ++ s ≢ []
unfolding repeat
repeat-ne-nil zero s h = h
repeat-ne-nil (suc k) s h = λ e. cc

atoi-padded : (w n : ℕ) → n < 2 ^ 63 → atoi (padded w n) ≡ some (pos n)
unfolding padded
atoi-padded w n h =
    let k = w - length (itoa n) in
    atoi_digits (repeat k b'0' ++ itoa n) n (repeat-ne-nil k (itoa n) (itoa-ne-nil n))
      (repeat-IsDigit k (itoa n) (itoa-IsDigit n)) (read_zeros k (itoa n) ∙ read_digits-itoa n) h

file_number-at_file :
    (base : Text) (w n : ℕ) (c : BinlogCoordinates)
    → n < 2 ^ 63
    → length (itoa n) ≤ w
    → file_number (at_file base w n c) ≡ (pos n, w)
unfolding file_number at_file
file_number-at_file base w n c h fits = rw (
  split_append base (padded w n) b'.'
      (IsDigit-Lacks b'.' (inl (omega arith)) _ (padded-IsDigit w n)),
  last_part_snoc (split base b'.') (padded w n),
  atoi-padded w n h,
  length-padded w n fits,
)

not_longer : (w n : ℕ) → n ≤ w → ltb w n ≡ false
not_longer w n h = ground arith

not_zero : (n : ℕ) → int_eq (pos (n + 1)) (pos 0) ≡ false
not_zero n = ground arith

with_number-at_file :
    (base : Text) (w n m : ℕ) (c : BinlogCoordinates)
    → length (itoa m) ≤ w
    → with_number (at_file base w n c) w (pos m) ≡ ok (at_file base w m c)
unfolding with_number at_file pad_zeros txt padded itoa_int repeat
with_number-at_file base w n m c fits =
    rw
      (
        not_longer w (length (itoa m)) fits,
        split_append base (padded w n) b'.'
            (IsDigit-Lacks b'.' (inl (omega arith)) _ (padded-IsDigit w n)),
        set_last_snoc (split base b'.') (padded w n) (padded w m),
        join_snoc (split base b'.') (padded w m) (b'.' ∷ []) (split-ne-nil base b'.'),
        join-split base b'.',
      )
      refl

wrap64_small : (n : ℕ) → n < 2 ^ 63 → wrap64 (pos n) ≡ pos n
unfolding wrap64
wrap64_small n h = ground arith

add_one : (n : ℕ) → pos n +ℤ pos 1 ≡ pos (n + 1)
unfolding ◌+ℤ◌
add_one n = ground arith

sub_one : (n : ℕ) → pos (n + 1) -ℤ pos 1 ≡ pos n
unfolding ◌-ℤ◌
sub_one n = ground arith

-- The file after `base.n` is `base.(n + 1)`, with the same number of characters, as long as the
-- number fits in the width of the name, and from there the file before is `base.n` again.
next-previous :
    (base : Text) (w n : ℕ) (c : BinlogCoordinates)
    → n + 1 < 2 ^ 63
    → length (itoa n) ≤ w
    → length (itoa (n + 1)) ≤ w
    → (next_file_coordinates (at_file base w n c) ≡ ok (at_file base w (n + 1) c))
      × (previous_file_coordinates (at_file base w (n + 1) c) ≡ ok (at_file base w n c))
unfolding next_file_coordinates previous_file_coordinates previous_file_coordinates_by
next-previous base w n c h fits fits' = (
  rw (file_number-at_file base w n c (omega arith) fits, add_one n, wrap64_small (n + 1) h)
      (with_number-at_file base w n (n + 1) c fits'),
  rw
      (
        file_number-at_file base w (n + 1) c h fits',
        not_zero n,
        sub_one n,
        wrap64_small n (omega arith),
      )
      (with_number-at_file base w (n + 1) n c fits),
)

too_long : (w n : ℕ) → w < n → ltb w n ≡ true
too_long w n h = ground arith

with_number-overflow :
    (w m : ℕ) (c : BinlogCoordinates)
    → w < length (itoa m)
    → with_number c w (pos m) ≡ err negative_repeat
unfolding with_number pad_zeros itoa_int
with_number-overflow w m c wide = rw (too_long w (length (itoa m)) wide)

-- Where the next number has more characters than the name of the file holds, as after 999 in three
-- characters, the name of the next file is not made: the code panics.
pub next_file_coordinates-overflow :
    (base : Text) (w n : ℕ) (c : BinlogCoordinates)
    → n + 1 < 2 ^ 63
    → length (itoa n) ≤ w
    → w < length (itoa (n + 1))
    → next_file_coordinates (at_file base w n c) ≡ err negative_repeat
unfolding next_file_coordinates
next_file_coordinates-overflow base w n c h fits wide =
    rw (file_number-at_file base w n c (omega arith) fits, add_one n, wrap64_small (n + 1) h)
      (with_number-overflow w (n + 1) (at_file base w n c) wide)
