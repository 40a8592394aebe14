-- ===== src/Sql/Compare/Placeholders.antt =====
-- A prepared statement has one placeholder for each of its arguments.
use ghost_source_code_readin.Base.{
  ℕ, ◌+◌, ◌≡◌, refl, Bool, true, false, List, [], ◌∷◌, ◌++◌, map, arith, All, All-append, ok,
  length, ◌==◌, if◌then◌else◌, length-append,
}
use ghost_source_code_readin.Text.{Text, txt}
use ghost_source_code_readin.Sql.Compare.{
  Sign, equals, sign_text, escape_name, comparison_text, build_range_comparison, strict_sign,
  includes_equals,
}
use ghost_source_code_readin.Sql.Value.{Value}
use ghost_source_code_readin.Sql.Compare.Meaning.{
  Cond, leaf, nested, both, both_upper, either, render, args_of, Part, columns_of, tokens_of,
  values_of, IsNamed, leaf_of, both_all, either_all, equal_key, item, items, last_item, range_cond,
}
use ghost_source_code_readin.Sql.Compare.Meaning.Render.{build_range-render}

-- The placeholders of a text.
unfoldable pub marks : Text → ℕ
marks [] = 0
marks (c ∷ s) = let rest = marks s in if c == b'?' then rest + 1 else rest

pub marks-append : (s t : Text) → marks (s ++ t) ≡ marks s + marks t
unfolding marks
marks-append [] t = omega arith
marks-append (c ∷ s) t = ground (arith, marks-append s t)

marks-sign_text : (s : Sign) → marks (sign_text s) ≡ 0
unfolding marks sign_text txt
marks-sign_text Sign.less = refl
marks-sign_text _ = refl

marks_literals :
    (marks (txt "(") ≡ 0)
    × (marks (txt ")") ≡ 0)
    × (marks (txt " and ") ≡ 0)
    × (marks (txt " AND ") ≡ 0)
    × (marks (txt " or ") ≡ 0)
unfolding marks txt
marks_literals = (refl, refl, refl, refl, refl)

-- The names have no question mark, and a token has one.
pub record IsMarked (p : Part) : Type 0 where
  pub column_plain : marks (escape_name p.column) ≡ 0
  pub token_marked : marks p.token ≡ 1

marks-comparison_text :
    (p : Part) (s : Sign) → IsMarked p → marks (comparison_text p.column p.token s) ≡ 1
unfolding comparison_text
marks-comparison_text p s m =
    simp marks-append
      (unfold marks txt in omega (arith, marks-sign_text s, m.column_plain, m.token_marked))

-- Every comparison of a condition has one placeholder.
abbrev Marked : Cond → Type 0
Marked (leaf c t a s) = IsMarked (record { column = c; token = t; arg = a })
Marked (nested c) = Marked c
Marked (both c d) = Marked c × Marked d
Marked (both_upper c d) = Marked c × Marked d
Marked (either c d) = Marked c × Marked d

pub marks-render : (c : Cond) → Marked c → marks (render c) ≡ length (args_of c)
unfolding render args_of
marks-render (leaf c t a s) m = marks-comparison_text _ s m
marks-render (nested c) m = simp marks-append (omega (arith, marks-render c m, marks_literals))
marks-render (both c d) m =
    simp marks-append
      (omega (arith, marks-render c m.0, marks-render d m.1, marks_literals, length-append {0}))
marks-render (both_upper c d) m =
    simp marks-append
      (omega (arith, marks-render c m.0, marks-render d m.1, marks_literals, length-append {0}))
marks-render (either c d) m =
    simp marks-append
      (omega (arith, marks-render c m.0, marks-render d m.1, marks_literals, length-append {0}))

Marked-both_all :
    (p : Part) (ps : List Part)
    → All IsMarked (p ∷ ps)
    → Marked (both_all (leaf_of equals p) (map (leaf_of equals) ps))
unfolding both_all
Marked-both_all p [] m = m.0
Marked-both_all p (q ∷ qs) m = (m.0, Marked-both_all q qs m.1)

Marked-equal_key : (p : Part) (ps : List Part) → All IsMarked (p ∷ ps) → Marked (equal_key p ps)
unfolding equal_key
Marked-equal_key p ps m = Marked-both_all p ps m

Marked-item :
    (sign : Sign) (done : List Part) (p : Part)
    → All IsMarked done
    → IsMarked p
    → Marked (item sign done p)
unfolding item
Marked-item sign [] p m n = n
Marked-item sign (q ∷ qs) p m n = (Marked-equal_key q qs m, n)

Marked-items :
    (sign : Sign) (done ps : List Part)
    → All IsMarked done
    → All IsMarked ps
    → All Marked (items sign done ps)
unfolding items
Marked-items sign done [] m n = tt
Marked-items sign done (p ∷ ps) m n = (
  Marked-item sign done p m n.0,
  Marked-items sign (done ++ p ∷ []) ps (All-append IsMarked done (p ∷ []) m (n.0, tt)) n.1,
)

Marked-either_all :
    (c : Cond) (cs : List Cond) → Marked c → All Marked cs → Marked (either_all c cs)
unfolding either_all
Marked-either_all c [] m n = m
Marked-either_all c (d ∷ ds) m n = (m, Marked-either_all d ds n.0 n.1)

Marked-last_item :
    (b : Bool) (p : Part) (ps : List Part) → All IsMarked (p ∷ ps) → All Marked (last_item b p ps)
Marked-last_item true p ps m = (Marked-equal_key p ps m, tt)
Marked-last_item false p ps m = tt

Marked-range_cond :
    (sign : Sign) (b : Bool) (p : Part) (ps : List Part)
    → All IsMarked (p ∷ ps)
    → Marked (range_cond sign b p ps)
unfolding range_cond
Marked-range_cond sign b p ps m = Marked-either_all _ _ (Marked-item sign [] p tt m.0) (
    All-append Marked (items sign (p ∷ []) ps) (last_item b p ps)
      (Marked-items sign (p ∷ []) ps (m.0, tt) m.1) (Marked-last_item b p ps m))

-- If every key column has a name and a token with one placeholder, and no escaped name has a
-- question mark, then the range comparison has as many placeholders as it has arguments.
range_placeholders :
    (sign : Sign) (p : Part) (ps : List Part)
    → All IsNamed (p ∷ ps)
    → All IsMarked (p ∷ ps)
    → (t : Text) × (exploded : List Value) × (build_range_comparison
          (columns_of (p ∷ ps))
          (tokens_of (p ∷ ps))
          (values_of (p ∷ ps))
          sign
        ≡ ok (t, exploded))
      × (marks t ≡ length exploded)
range_placeholders sign p ps n m = (
  render (range_cond (strict_sign sign) (includes_equals sign) p ps),
  args_of (range_cond (strict_sign sign) (includes_equals sign) p ps),
  build_range-render sign p ps n,
  marks-render _ (Marked-range_cond (strict_sign sign) (includes_equals sign) p ps m),
)

pub marks-equal_key :
    (p : Part) (ps : List Part)
    → All IsMarked (p ∷ ps)
    → marks (render (equal_key p ps)) ≡ length (args_of (equal_key p ps))
marks-equal_key p ps m = marks-render (equal_key p ps) (Marked-equal_key p ps m)
