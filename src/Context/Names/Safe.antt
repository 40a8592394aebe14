-- ===== src/Context/Names/Safe.antt =====
-- The names that a migration makes are short enough for MySQL.
use ghost_source_code_readin.Base.{
  if◌then◌else◌, ℕ, zero, suc, ◌+◌, ◌-◌, ◌≤◌, ◌≡◌, refl, ap, ◌∷◌, [], ok, leb, arith, length,
  length-append, length-take, take, Bool-cases, inl, inr, ltb, false,
}
use ghost_source_code_readin.Text.{Text, txt}
use ghost_source_code_readin.Context.Names.{table_name, get_safe_table_name, max_table_name_length}

length-table_name : (b s : Text) → length (table_name b s) ≡ length b + length s + 2
unfolding table_name txt
length-table_name b s = omega (arith, length-append b (b'_' ∷ s), length-append b s)

take-all : (n : ℕ) (s : Text) → length s ≤ n → take n s ≡ s
take-all zero [] h = refl
take-all zero (c ∷ s) h = absurd (omega arith)
take-all (suc n) [] h = refl
take-all (suc n) (c ∷ s) h = ap (λ t. c ∷ t) (take-all n s (omega arith))

over_by : (b s : ℕ) → s ≤ 62 → leb (b + s + 2) 64 ≡ false → b - (b + s + 2 - 64) ≡ 62 - s
over_by b s h over = ground arith

room_left : (b s : ℕ) → s ≤ 62 → ltb b (b + s + 2 - 64) ≡ false
room_left b s h = ground arith

length-take_le : (n : ℕ) (b : Text) → n ≤ length b → length (take n b) ≡ n
length-take_le zero b h = refl
length-take_le (suc n) [] h = absurd (omega arith)
length-take_le (suc n) (c ∷ b) h = ap suc (length-take_le n b (omega arith))

length-take_cases :
    (b s : Text)
    → length s ≤ 62
    → length (table_name (take (62 - length s) b) s)
      ≡ (if leb (length b + length s + 2) 64 then length b + length s + 2 else 64)
length-take_cases b s short = ground (
  arith,
  length-table_name (take (62 - length s) b) s,
  length-take_le (62 - length s) b,
  take-all (62 - length s) b,
)

-- With a suffix of up to 62 characters there is no panic: the base name is cut so that the name has at
-- most 64 characters, and no more than that: it has 64, or all of its characters.
pub get_safe_table_name-fits :
    (b s : Text)
    → length s ≤ 62
    → (get_safe_table_name b s ≡ ok (table_name (take (62 - length s) b) s))
      × (length (table_name (take (62 - length s) b) s) ≤ max_table_name_length)
      × (length (table_name (take (62 - length s) b) s)
          ≡ (if leb (length b + length s + 2) 64 then length b + length s + 2 else 64))
unfolding get_safe_table_name
get_safe_table_name-fits b s short = (
  elim (Bool-cases (leb (length b + length s + 2) 64)) [
    | inl fits ↦ rw (length-table_name b s, fits, take-all (62 - length s) b (ground arith))
    | inr over ↦ rw (
      length-table_name b s,
      over,
      room_left (length b) (length s) short,
      over_by (length b) (length s) short over,
    )
  ],
  omega (arith, length-table_name (take (62 - length s) b) s, length-take (62 - length s) b),
  length-take_cases b s short,
)
