-- ===== src/Sql/Compare/Meaning/Render.antt =====
-- The builder writes the text of the condition, and explodes the arguments that the text takes.
use mathlib.Core.List.{map-append}
use ghost_source_code_readin.Base.{
  ℕ, suc, Bool, true, false, ◌≡◌, refl, sym, ap, List, [], ◌∷◌, ◌++◌, map, append_assoc, append-nil,
  arith, All, All-append, ok, length, ◌==◌, ◌≢◌,
}
use ghost_source_code_readin.Text.{Text, txt, join, is_empty}
use ghost_source_code_readin.Sql.Value.{Value}
use ghost_source_code_readin.Sql.Compare.{
  Sign, equals, comparison_text, parens, build_value_comparison, equals_comparisons,
  build_equals_comparison, range_item, range_items, close_range, build_range_comparison,
  strict_sign, includes_equals,
}
use ghost_source_code_readin.Sql.Compare.Meaning.{
  Cond, nested, render, args_of, Part, columns_of, tokens_of, values_of, IsNamed, leaf_of, both_all,
  either_all, equal_key, item, items, last_item, range_cond,
}

is_empty_ne : (t : Text) → t ≢ [] → is_empty t ≡ false
is_empty_ne [] h = absurd (h refl)
is_empty_ne (c ∷ t) h = refl

named_comparison :
    (p : Part) (sign : Sign)
    → IsNamed p
    → build_value_comparison p.column p.token sign ≡ ok (comparison_text p.column p.token sign)
unfolding build_value_comparison
named_comparison p sign n =
    rw (is_empty_ne p.column n.column_given, is_empty_ne p.token n.token_given)

abbrev all_args : List Cond → List Value
all_args [] = []
all_args (c ∷ cs) = args_of c ++ all_args cs

render-both_all :
    (c : Cond) (cs : List Cond) → render (both_all c cs) ≡ join (map render (c ∷ cs)) (txt " and ")
unfolding render both_all join
render-both_all c [] = refl
render-both_all c (d ∷ ds) = ap (λ t. render c ++ (txt " and " ++ t)) (render-both_all d ds)

render-either_all :
    (c : Cond) (cs : List Cond) → render (either_all c cs) ≡ join (map render (c ∷ cs)) (txt " or ")
unfolding render either_all join
render-either_all c [] = refl
render-either_all c (d ∷ ds) = ap (λ t. render c ++ (txt " or " ++ t)) (render-either_all d ds)

args_of-either_all :
    (c : Cond) (cs : List Cond) → args_of (either_all c cs) ≡ args_of c ++ all_args cs
unfolding args_of either_all
args_of-either_all c [] = sym (append-nil (args_of c))
args_of-either_all c (d ∷ ds) = ap (λ t. args_of c ++ t) (args_of-either_all d ds)

args_of-both_all :
    (p : Part) (ps : List Part)
    → args_of (both_all (leaf_of equals p) (map (leaf_of equals) ps)) ≡ values_of (p ∷ ps)
unfolding args_of both_all
args_of-both_all p [] = refl
args_of-both_all p (q ∷ qs) = ap (λ t. p.arg ∷ t) (args_of-both_all q qs)

pub args_of-equal_key : (p : Part) (ps : List Part) → args_of (equal_key p ps) ≡ values_of (p ∷ ps)
unfolding equal_key args_of
args_of-equal_key p ps = args_of-both_all p ps

args_of-item :
    (sign : Sign) (done : List Part) (p : Part)
    → args_of (item sign done p) ≡ values_of done ++ p.arg ∷ []
unfolding item args_of
args_of-item sign [] p = refl
args_of-item sign (q ∷ qs) p = ap (λ t. t ++ p.arg ∷ []) (args_of-equal_key q qs)

equals_comparisons-render :
    (ps : List Part)
    → All IsNamed ps
    → equals_comparisons (columns_of ps) (tokens_of ps) ≡ ok (map render (map (leaf_of equals) ps))
unfolding equals_comparisons render
equals_comparisons-render [] n = refl
equals_comparisons-render (p ∷ ps) n =
    rw (named_comparison p equals n.0, equals_comparisons-render ps n.1)

length_columns_tokens : (ps : List Part) → (length (columns_of ps) == length (tokens_of ps)) ≡ true
length_columns_tokens [] = refl
length_columns_tokens (p ∷ ps) = ground (arith, length_columns_tokens ps)

length_columns_values : (ps : List Part) → (length (columns_of ps) == length (values_of ps)) ≡ true
length_columns_values [] = refl
length_columns_values (p ∷ ps) = ground (arith, length_columns_values ps)

positive_length : (n : ℕ) → (suc n == 0) ≡ false
positive_length n = ground arith

columns_snoc :
    (ps : List Part) (p : Part) → columns_of (ps ++ p ∷ []) ≡ columns_of ps ++ p.column ∷ []
columns_snoc ps p = map-append _ ps (p ∷ [])

tokens_snoc : (ps : List Part) (p : Part) → tokens_of (ps ++ p ∷ []) ≡ tokens_of ps ++ p.token ∷ []
tokens_snoc ps p = map-append _ ps (p ∷ [])

values_snoc : (ps : List Part) (p : Part) → values_of (ps ++ p ∷ []) ≡ values_of ps ++ p.arg ∷ []
values_snoc ps p = map-append _ ps (p ∷ [])

pub build_equals-render :
    (p : Part) (ps : List Part)
    → All IsNamed (p ∷ ps)
    → build_equals_comparison (columns_of (p ∷ ps)) (tokens_of (p ∷ ps))
      ≡ ok (render (equal_key p ps))
unfolding build_equals_comparison equal_key render
build_equals-render p ps n =
    rw
      (
        positive_length (length (columns_of ps)),
        length_columns_tokens (p ∷ ps),
        equals_comparisons-render (p ∷ ps) n,
      )
      (ap (λ t. ok (parens t)) (sym (render-both_all (leaf_of equals p) (map (leaf_of equals) ps))))

range_item-render :
    (sign : Sign) (done : List Part) (p : Part)
    → All IsNamed done
    → range_item (columns_of done) (tokens_of done) (comparison_text p.column p.token sign)
      ≡ ok (render (item sign done p))
unfolding range_item item render
range_item-render sign [] p n = refl
range_item-render sign (q ∷ qs) p n = rw (build_equals-render q qs n)

range_items-render :
    (sign : Sign) (done ps : List Part)
    → All IsNamed done
    → All IsNamed ps
    → range_items sign
        (columns_of done)
        (tokens_of done)
        (values_of done)
        (columns_of ps)
        (tokens_of ps)
        (values_of ps)
      ≡ ok (map render (items sign done ps), all_args (items sign done ps))
unfolding range_items items
range_items-render sign done [] n m = refl
range_items-render sign done (p ∷ ps) n m =
    rw
      (
        named_comparison p sign m.0,
        range_item-render sign done p n,
        ← columns_snoc done p,
        ← tokens_snoc done p,
        ← values_snoc done p,
        range_items-render sign (done ++ p ∷ []) ps (All-append IsNamed done (p ∷ []) n (m.0, tt))
            m.1,
        args_of-item sign done p,
        values_snoc done p,
      )
      refl

any_length : (p : Part) (ps : List Part) → (length (columns_of (p ∷ ps)) == 0) ≡ false
any_length p ps = positive_length (length (columns_of ps))

map-last_item :
    (b : Bool) (cs : List Cond) (p : Part) (ps : List Part)
    → map render (cs ++ last_item b p ps) ≡ map render cs ++ map render (last_item b p ps)
map-last_item b cs p ps = map-append render cs (last_item b p ps)

all_args-append : (cs ds : List Cond) → all_args (cs ++ ds) ≡ all_args cs ++ all_args ds
all_args-append [] ds = refl
all_args-append (c ∷ cs) ds = simp (all_args-append cs ds, append_assoc)

close-render :
    (b : Bool) (c : Cond) (cs : List Cond) (p : Part) (ps : List Part)
    → All IsNamed (p ∷ ps)
    → close_range b
        (columns_of (p ∷ ps))
        (tokens_of (p ∷ ps))
        (values_of (p ∷ ps))
        (map render (c ∷ cs), all_args (c ∷ cs))
      ≡ ok (
        render (nested (either_all c (cs ++ last_item b p ps))),
        args_of (nested (either_all c (cs ++ last_item b p ps))),
      )
unfolding close_range render args_of
close-render false c cs p ps n = rw (append-nil cs, render-either_all c cs, args_of-either_all c cs)
close-render true c cs p ps n =
    rw
      (
        build_equals-render p ps n,
        close_range,
        render-either_all c (cs ++ last_item true p ps),
        args_of-either_all c (cs ++ last_item true p ps),
        all_args-append cs (last_item true p ps),
        map-last_item true cs p ps,
        args_of-equal_key p ps,
        append-nil (values_of (p ∷ ps)),
        append_assoc (args_of c) (all_args cs) (values_of (p ∷ ps)),
      )
      refl

-- For at least one key column, each with a name and a token, the builder succeeds. It returns the
-- text of the range condition, and the arguments of its placeholders from left to right.
pub build_range-render :
    (sign : Sign) (p : Part) (ps : List Part)
    → All IsNamed (p ∷ ps)
    → build_range_comparison (columns_of (p ∷ ps)) (tokens_of (p ∷ ps)) (values_of (p ∷ ps)) sign
      ≡ ok (
        render (range_cond (strict_sign sign) (includes_equals sign) p ps),
        args_of (range_cond (strict_sign sign) (includes_equals sign) p ps),
      )
unfolding build_range_comparison range_cond
build_range-render sign p ps n =
    rw
      (
        any_length p ps,
        length_columns_tokens (p ∷ ps),
        length_columns_values (p ∷ ps),
        range_items-render (strict_sign sign) [] (p ∷ ps) tt n,
      )
      (close-render (includes_equals sign) (item (strict_sign sign) [] p)
        (items (strict_sign sign) (p ∷ []) ps) p ps n)
