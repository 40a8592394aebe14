-- ===== src/Text/Laws.antt =====
-- Laws of the text functions: equality and order, and splitting against joining.
use ghost_source_code_readin.Base.{
  ℕ, ◌≡◌, ◌∙◌, refl, ap, append_assoc, List, ◌≢◌, ◌↔◌, ◌⊎◌, inl, inr, true, false, none, some, [],
  ◌∷◌, ◌++◌, arith, All,
}
use ghost_source_code_readin.Text.{
  Text, text_eq, text_lt, split_two, contains_byte, split, join, last_part, set_last, onto_first,
}

abbrev pub Lacks : ℕ → Text → Type 0
Lacks b = All (λ c. c ≢ b)

pub text_eq_sound : (s t : Text) → text_eq s t ≡ true → s ≡ t
unfolding text_eq
text_eq_sound [] [] h = refl
text_eq_sound [] (d ∷ t) h = cc
text_eq_sound (c ∷ s) [] h = cc
text_eq_sound (c ∷ s) (d ∷ t) h = ground (arith, text_eq_sound s t)

pub text_eq_refl : (s : Text) → text_eq s s ≡ true
unfolding text_eq
text_eq_refl [] = refl
text_eq_refl (c ∷ s) = ground (arith, text_eq_refl s)

pub text_eq_iff : (s t : Text) → (text_eq s t ≡ true) ↔ (s ≡ t)
text_eq_iff s t = (text_eq_sound s t, λ e. rw e (text_eq_refl t))

pub text_lt_irrefl : (s : Text) → text_lt s s ≡ false
unfolding text_lt
text_lt_irrefl [] = refl
text_lt_irrefl (c ∷ s) = ground (arith, text_lt_irrefl s)

pub text_lt_trans : (s t u : Text) → text_lt s t ≡ true → text_lt t u ≡ true → text_lt s u ≡ true
unfolding text_lt
text_lt_trans [] [] u h k = cc
text_lt_trans [] (d ∷ t) [] h k = cc
text_lt_trans [] (d ∷ t) (e ∷ u) h k = refl
text_lt_trans (c ∷ s) [] u h k = cc
text_lt_trans (c ∷ s) (d ∷ t) [] h k = cc
text_lt_trans (c ∷ s) (d ∷ t) (e ∷ u) h k = ground (arith, text_lt_trans s t u)

pub text_lt_total :
    (s t : Text) → (text_lt s t ≡ true) ⊎ (text_lt t s ≡ true) ⊎ (text_eq s t ≡ true)
unfolding text_lt text_eq
text_lt_total [] [] = inr (inr refl)
text_lt_total [] (d ∷ t) = inl refl
text_lt_total (c ∷ s) [] = inr (inl refl)
text_lt_total (c ∷ s) (d ∷ t) = ground (arith, text_lt_total s t)

pub split_two_at : (s t : Text) (sep : ℕ) → Lacks sep s → split_two (s ++ sep ∷ t) sep ≡ (s, some t)
unfolding split_two
split_two_at [] t sep h = ground arith
split_two_at (c ∷ s) t sep h = ground (arith, split_two_at s t sep h.1)

pub split_two-none : (s : Text) (sep : ℕ) → Lacks sep s → split_two s sep ≡ (s, none)
unfolding split_two
split_two-none [] sep h = refl
split_two-none (c ∷ s) sep h = ground (arith, split_two-none s sep h.1)

pub contains_byte-Lacks : (s : Text) (b : ℕ) → Lacks b s → contains_byte b s ≡ false
contains_byte-Lacks [] b h = refl
contains_byte-Lacks (c ∷ s) b h = ground (arith, contains_byte-Lacks s b h.1)

pub split-ne-nil : (s : Text) (sep : ℕ) → split s sep ≢ []
unfolding split
split-ne-nil [] sep = λ e. cc
split-ne-nil (c ∷ s) sep = ground (arith, split-ne-nil s sep)

pub split_single : (s : Text) (sep : ℕ) → Lacks sep s → split s sep ≡ s ∷ []
unfolding split
split_single [] sep h = refl
split_single (c ∷ s) sep h = ground (arith, split_single s sep h.1)

onto_first-append :
    (c : ℕ) (ps qs : List Text) → ps ≢ [] → onto_first c (ps ++ qs) ≡ onto_first c ps ++ qs
onto_first-append c [] qs h = absurd (h refl)
onto_first-append c (p ∷ ps) qs h = refl

-- The last part of a text behind a separator.
pub split_append :
    (s t : Text) (sep : ℕ) → Lacks sep t → split (s ++ sep ∷ t) sep ≡ split s sep ++ t ∷ []
unfolding split
split_append [] t sep h = ground (arith, split_single t sep h)
split_append (c ∷ s) t sep h =
    ground (
      arith,
      split_append s t sep h,
      onto_first-append c (split s sep) (t ∷ []) (split-ne-nil s sep),
    )

join-empty_part :
    (ps : List Text) (sep : ℕ) → ps ≢ [] → join ([] ∷ ps) (sep ∷ []) ≡ sep ∷ join ps (sep ∷ [])
unfolding join
join-empty_part [] sep h = absurd (h refl)
join-empty_part (p ∷ ps) sep h = refl

join-onto_first :
    (c : ℕ) (ps : List Text) (sep : ℕ)
    → ps ≢ []
    → join (onto_first c ps) (sep ∷ []) ≡ c ∷ join ps (sep ∷ [])
unfolding join
join-onto_first c [] sep h = absurd (h refl)
join-onto_first c (p ∷ []) sep h = refl
join-onto_first c (p ∷ q ∷ ps) sep h = refl

pub join-split : (s : Text) (sep : ℕ) → join (split s sep) (sep ∷ []) ≡ s
unfolding split
join-split [] sep = unfold join in refl
join-split (c ∷ s) sep = ground (
  arith,
  join-split s sep,
  join-empty_part (split s sep) sep (split-ne-nil s sep),
  join-onto_first c (split s sep) sep (split-ne-nil s sep),
)

pub join_snoc :
    (ps : List Text) (t sep : Text) → ps ≢ [] → join (ps ++ t ∷ []) sep ≡ join ps sep ++ (sep ++ t)
unfolding join
join_snoc [] t sep h = absurd (h refl)
join_snoc (p ∷ []) t sep h = refl
join_snoc (p ∷ q ∷ ps) t sep h = rw (join_snoc (q ∷ ps) t sep (λ e. cc)) (simp append_assoc)

pub last_part_snoc : (ps : List Text) (t : Text) → last_part (ps ++ t ∷ []) ≡ t
unfolding last_part
last_part_snoc [] t = refl
last_part_snoc (p ∷ []) t = refl
last_part_snoc (p ∷ q ∷ ps) t = last_part_snoc (q ∷ ps) t

pub set_last_snoc : (ps : List Text) (t u : Text) → set_last (ps ++ t ∷ []) u ≡ ps ++ u ∷ []
unfolding set_last
set_last_snoc [] t u = refl
set_last_snoc (p ∷ []) t u = refl
set_last_snoc (p ∷ q ∷ ps) t u = ap (λ l. p ∷ l) (set_last_snoc (q ∷ ps) t u)

-- A text that lacks the separator, behind which another begins.
pub split_at_first :
    (s t : Text) (sep : ℕ) → Lacks sep s → split (s ++ sep ∷ t) sep ≡ s ∷ split t sep
unfolding split
split_at_first [] t sep h = ground arith
split_at_first (c ∷ s) t sep h = ground (arith, split_at_first s t sep h.1)

pub split-join :
    (p : Text) (ps : List Text) (sep : ℕ)
    → All (Lacks sep) (p ∷ ps)
    → split (join (p ∷ ps) (sep ∷ [])) sep ≡ p ∷ ps
unfolding join
split-join p [] sep (h, _) = split_single p sep h
split-join p (q ∷ ps) sep (h, hs) =
    split_at_first p (join (q ∷ ps) (sep ∷ [])) sep h ∙ ap (λ l. p ∷ l) (split-join q ps sep hs)
