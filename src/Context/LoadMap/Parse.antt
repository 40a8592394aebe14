-- ===== src/Context/LoadMap/Parse.antt =====
-- Loads are read back from their text.
use ghost_source_code_readin.Base.{
  ◌≡◌, refl, ◌≢◌, List, [], ◌∷◌, ◌++◌, map, false, ok, inr, inl, none, arith, All, All-append,
  append_assoc, append-nil,
}
use ghost_source_code_readin.Base.Int.{ℤ}
use ghost_source_code_readin.Base.Dict.{insert, lookup}
use ghost_source_code_readin.Text.{Text, txt, join, is_empty}
use ghost_source_code_readin.Text.Laws.{Lacks, split_at_first, split_single, split-join}
use ghost_source_code_readin.Text.Decimal.{itoa_int}
use ghost_source_code_readin.Text.Decimal.RoundTrip.{InInt64, atoi-itoa_int, itoa_int-Lacks}
use ghost_source_code_readin.Context.LoadMap.{
  LoadMap, parse_condition, parse_conditions, parse_load_map, condition_text, load_map_string,
}

-- A variable's name that `--max-load` can hold, and a threshold in the range of `int64`.
abbrev pub IsCondition : Text × ℤ → Type 0
IsCondition (variable, n) =
    (is_empty variable ≡ false) × Lacks b'=' variable × Lacks b',' variable × InInt64 n

parse-condition_text : (c : Text × ℤ) → IsCondition c → parse_condition (condition_text c) ≡ ok c
unfolding parse_condition txt
parse-condition_text (variable, n) (named, no_equals, _, range) = rw (
  split_at_first variable (itoa_int n) b'=' no_equals,
  split_single (itoa_int n) b'=' (itoa_int-Lacks n b'=' (inr (omega arith)) (omega arith)),
  named,
  atoi-itoa_int n range,
)

-- No name twice, nor one of those in `seen`.
abbrev pub IsDistinct : LoadMap → LoadMap → Type 0
IsDistinct [] seen = Unit
IsDistinct (c ∷ m) seen = (lookup c.0 seen ≡ none) × IsDistinct m (seen ++ c ∷ [])

insert-new : (k : Text) (n : ℤ) (m : LoadMap) → lookup k m ≡ none → insert k n m ≡ m ++ (k, n) ∷ []
unfolding insert lookup
insert-new k n [] new = refl
insert-new k n ((j, w) ∷ m) new = ground (arith, insert-new k n m)

parse_conditions-texts :
    (m seen : LoadMap)
    → All IsCondition m
    → IsDistinct m seen
    → parse_conditions (map condition_text m) seen ≡ ok (seen ++ m)
unfolding parse_conditions
parse_conditions-texts [] seen h d = rw (append-nil seen)
parse_conditions-texts (c ∷ m) seen (h, hs) (new, d) = rw (
  parse-condition_text c h,
  insert-new c.0 c.1 seen new,
  parse_conditions-texts m (seen ++ c ∷ []) hs d,
  append_assoc seen (c ∷ []) m,
)

texts-Lacks : (m : LoadMap) → All IsCondition m → All (Lacks b',') (map condition_text m)
unfolding txt
texts-Lacks [] h = tt
texts-Lacks ((v, n) ∷ m) ((_, _, no_comma, _), hs) = (
  All-append (λ c. c ≢ b',') v _ no_comma
      (omega arith, itoa_int-Lacks n b',' (inl (omega arith)) (omega arith)),
  texts-Lacks m hs,
)

text_not_empty : (s t : Text) → is_empty s ≡ false → is_empty (s ++ t) ≡ false
text_not_empty [] t h = cc
text_not_empty (c ∷ s) t h = refl

join_not_empty :
    (p : Text) (ps : List Text) (sep : Text)
    → is_empty p ≡ false
    → is_empty (join (p ∷ ps) sep) ≡ false
unfolding join
join_not_empty p [] sep h = h
join_not_empty p (q ∷ ps) sep h = text_not_empty p _ h

-- A map of loads is read back from its text, where the names are distinct, are not empty, and have
-- neither `=` nor a comma, the thresholds are in the range of `int64`, and the map is in the order of
-- the sorted text.
pub parse-load_map_string :
    (sort_strings : List Text → List Text) (m : LoadMap)
    → sort_strings (map condition_text m) ≡ map condition_text m
    → All IsCondition m
    → IsDistinct m []
    → parse_load_map (load_map_string sort_strings m) ≡ ok m
unfolding parse_load_map load_map_string txt
parse-load_map_string sort_strings [] sorted h d = rw sorted (unfold join in refl)
parse-load_map_string sort_strings (c ∷ m) sorted h d =
    rw
      (
        sorted,
        join_not_empty (condition_text c) (map condition_text m) (b',' ∷ [])
            (text_not_empty c.0 _ h.0.0),
        split-join (condition_text c) (map condition_text m) b',' (texts-Lacks (c ∷ m) h),
      )
      (parse_conditions-texts (c ∷ m) [] h d)
