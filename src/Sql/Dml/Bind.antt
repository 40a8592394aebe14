-- ===== src/Sql/Dml/Bind.antt =====
-- Arguments of the statements against their placeholders.
use mathlib.Core.Path.{ap₂}
use ghost_source_code_readin.Base.{
  ℕ, suc, ◌*◌, ◌≡◌, refl, ◌≢◌, Bool, true, false, Option, none, some, List, [], ◌∷◌, map, arith,
  All, ok, length, length-map, sym, ap, ◌∙◌,
}
use ghost_source_code_readin.Base.Dict.{Dict}
use ghost_source_code_readin.Text.{Text, txt, join}
use ghost_source_code_readin.Sql.Value.{Column, Value, null, Encodings}
use ghost_source_code_readin.Sql.Compare.{
  escape_name, convert_tz, prepared_token, is_json, column_token, set_token, build_prepared_values,
  build_equals_comparison, build_equals_prepared_comparison,
}
use ghost_source_code_readin.Sql.Compare.Meaning.{
  Part, columns_of, tokens_of, IsNamed, render, equal_key,
}
use ghost_source_code_readin.Sql.Compare.Meaning.Render.{build_equals-render, args_of-equal_key}
use ghost_source_code_readin.Sql.Compare.Placeholders.{
  marks, marks-append, IsMarked, marks-equal_key,
}
use ghost_source_code_readin.Sql.Dml.{column_args}

abbrev pub PlainName : Text → Type 0
PlainName n = marks (escape_name n) ≡ 0

abbrev pub PlainZone : Option Text → Type 0
PlainZone none = Unit
PlainZone (some zone) = marks zone ≡ 0

-- A column whose name is given, and whose name and time zone have no question mark.
pub record IsPlain (c : Column) : Type 0 where
  pub name_given : c.name ≢ []
  pub name_plain : PlainName c.name
  pub zone_plain : PlainZone c.timezone_conversion

marks-prepared_token : (z : Option Text) (b : Bool) → PlainZone z → marks (prepared_token z b) ≡ 1
unfolding marks convert_tz txt
marks-prepared_token none true h = refl
marks-prepared_token none false h = refl
marks-prepared_token (some zone) b h = simp marks-append (omega arith)

pub marks-column_token : (c : Column) → IsPlain c → marks (column_token c) ≡ 1
unfolding column_token
marks-column_token c p =
    marks-prepared_token c.timezone_conversion (is_json c.column_type) p.zone_plain

pub marks-set_token : (c : Column) → IsPlain c → marks (set_token c) ≡ 1
unfolding set_token
marks-set_token c p =
    simp marks-append (unfold marks txt in omega (arith, marks-column_token c p, p.name_plain))

marks_comma : marks (txt ", ") ≡ 0
unfolding marks txt
marks_comma = refl

-- A list of texts, each with `n` placeholders, in a comma separated list.
marks-join :
    (n : ℕ) (ts : List Text)
    → All (λ t. marks t ≡ n) ts
    → marks (join ts (txt ", ")) ≡ n * length ts
unfolding join
marks-join n [] h = unfold marks in omega arith
marks-join n (t ∷ []) h = omega (arith, h.0)
marks-join n (t ∷ u ∷ ts) h =
    simp marks-append (omega (arith, h.0, marks-join n (u ∷ ts) h.1, marks_comma))

All-map :
    {A : Type 0} (P : Text → Type 0) (Q : A → Type 0) (f : A → Text)
    → ((a : A) → Q a → P (f a))
    → (xs : List A) → All Q xs
    → All P (map f xs)
All-map P Q f g [] h = tt
All-map P Q f g (x ∷ xs) h = (g x h.0, All-map P Q f g xs h.1)

pub marks_tokens :
    (f : Column → Text) (n : ℕ)
    → ((c : Column) → IsPlain c → marks (f c) ≡ n)
    → (cs : List Column) → All IsPlain cs
    → marks (join (map f cs) (txt ", ")) ≡ n * length cs
marks_tokens f n each cs h =
    marks-join n (map f cs) (All-map (λ t. marks t ≡ n) IsPlain f each cs h)
    ∙ ap (λ k. n * k) (length-map cs f)

-- The parts of a prepared comparison by equality.
question_part : Column → Part
question_part c = record { column = c.name; token = txt "?"; arg = null }

question_parts : List Column → List Part
unfolding question_part
question_parts cs = map question_part cs

columns_of-question_parts :
    (cs : List Column) → columns_of (question_parts cs) ≡ map (λ (c : Column). c.name) cs
unfolding question_parts
columns_of-question_parts [] = refl
columns_of-question_parts (c ∷ cs) = ap (λ t. c.name ∷ t) (columns_of-question_parts cs)

tokens_of-question_parts :
    (cs : List Column)
    → tokens_of (question_parts cs)
      ≡ build_prepared_values (length (map (λ (c : Column). c.name) cs))
unfolding question_parts build_prepared_values
tokens_of-question_parts [] = refl
tokens_of-question_parts (c ∷ cs) = ap (λ t. txt "?" ∷ t) (tokens_of-question_parts cs)

parts-IsNamed : (cs : List Column) → All IsPlain cs → All IsNamed (question_parts cs)
unfolding question_parts txt
parts-IsNamed [] h = tt
parts-IsNamed (c ∷ cs) h =
    (record { column_given = h.0.name_given; token_given = λ e. cc }, parts-IsNamed cs h.1)

parts-IsMarked : (cs : List Column) → All IsPlain cs → All IsMarked (question_parts cs)
unfolding question_parts marks txt
parts-IsMarked [] h = tt
parts-IsMarked (c ∷ cs) h =
    (record { column_plain = h.0.name_plain; token_marked = refl }, parts-IsMarked cs h.1)

-- The comparison of the columns of a unique key with a placeholder each.
pub key_comparison :
    (c : Column) (cs : List Column)
    → All IsPlain (c ∷ cs)
    → (t : Text) × (build_equals_prepared_comparison (map (λ (k : Column). k.name) (c ∷ cs)) ≡ ok t)
      × (marks t ≡ length (c ∷ cs))
unfolding build_equals_prepared_comparison question_parts
key_comparison c cs h =
    let qs = question_parts cs in
    (
      render (equal_key (question_part c) qs),
      ap₂ build_equals_comparison (sym (columns_of-question_parts (c ∷ cs)))
            (sym (tokens_of-question_parts (c ∷ cs)))
          ∙ build_equals-render (question_part c) qs (parts-IsNamed (c ∷ cs) h),
      marks-equal_key (question_part c) qs (parts-IsMarked (c ∷ cs) h)
          ∙ ap length (args_of-equal_key (question_part c) qs)
          ∙ ap suc (length-map qs (λ (p : Part). p.arg) ∙ length-map cs question_part),
    )

pub length-column_args :
    (e : Encodings) (ordinals : Dict ℕ) (args : List Value) (cs : List Column)
    → length (column_args e ordinals args cs) ≡ length cs
unfolding column_args
length-column_args e ordinals args [] = refl
length-column_args e ordinals args (c ∷ cs) = ap suc (length-column_args e ordinals args cs)
