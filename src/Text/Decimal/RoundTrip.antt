-- ===== src/Text/Decimal/RoundTrip.antt =====
-- A number is read back from its decimal print, and the print holds digits only.
use ghost_source_code_readin.Base.{
  ℕ, zero, suc, ◌+◌, ◌/◌, ◌%◌, ◌^◌, ◌≤◌, ◌<◌, ◌≡◌, refl, sym, ◌≢◌, ◌∙◌, some, [], ◌∷◌, arith, ltb,
  All, Bool-cases, true, false, inl, inr, ◌⊎◌,
}
use ghost_source_code_readin.Base.Int.{ℤ, pos, negsuc}
use ghost_source_code_readin.Text.{Text}
use ghost_source_code_readin.Text.Laws.{Lacks}
use ghost_source_code_readin.Text.Decimal.{digits, itoa, itoa_int, read_digits, read_number, atoi}

abbrev pub IsDigit : ℕ → Type 0
IsDigit c = (b'0' ≤ c) × (c ≤ b'9')

-- Reading the last digit of `n` behind the digits before it gives `n`.
read_last : (n : ℕ) (out : Text) → read_digits ((b'0' + n % 10) ∷ out) (n / 10) ≡ read_digits out n
unfolding read_digits
read_last n out = ground arith

read_single : (n : ℕ) (out : Text) → n < 10 → read_digits ((b'0' + n) ∷ out) 0 ≡ read_digits out n
unfolding read_digits
read_single n out h = ground arith

digits_small : (f n : ℕ) (out : Text) → ltb n 10 ≡ true → digits (suc f) n out ≡ (b'0' + n) ∷ out
unfolding digits
digits_small f n out h = ground arith

digits_big :
    (f n : ℕ) (out : Text)
    → ltb n 10 ≡ false
    → digits (suc f) n out ≡ digits f (n / 10) ((b'0' + n % 10) ∷ out)
unfolding digits
digits_big f n out h = ground arith

pub read_digits-digits :
    (f n : ℕ) (out : Text) → n < f → read_digits (digits f n out) 0 ≡ read_digits out n
read_digits-digits zero n out h = absurd (omega arith)
read_digits-digits (suc f) n out h = elim (Bool-cases (ltb n 10)) [
  | inl small ↦ rw (digits_small f n out small) (read_single n out (ground arith))
  | inr big ↦
      rw (digits_big f n out big)
        (read_digits-digits f (n / 10) ((b'0' + n % 10) ∷ out) (ground arith) ∙ read_last n out)
]

digits-IsDigit : (f n : ℕ) (out : Text) → n < f → All IsDigit out → All IsDigit (digits f n out)
digits-IsDigit zero n out h a = absurd (omega arith)
digits-IsDigit (suc f) n out h a = elim (Bool-cases (ltb n 10)) [
  | inl small ↦ rw (digits_small f n out small) ((ground arith, ground arith), a)
  | inr big ↦
      rw (digits_big f n out big)
        (digits-IsDigit f (n / 10) _ (ground arith) ((omega arith, omega arith), a))
]

pub itoa-IsDigit : (n : ℕ) → All IsDigit (itoa n)
unfolding itoa
itoa-IsDigit n = digits-IsDigit (suc n) n [] (omega arith) tt

digits-ne-nil : (f n : ℕ) (out : Text) → out ≢ [] → digits f n out ≢ []
digits-ne-nil zero n out h = unfold digits in h
digits-ne-nil (suc f) n out h = elim (Bool-cases (ltb n 10)) [
  | inl small ↦ rw (digits_small f n out small) (λ e. cc)
  | inr big ↦ rw (digits_big f n out big) (digits-ne-nil f (n / 10) _ (λ e. cc))
]

pub itoa-ne-nil : (n : ℕ) → itoa n ≢ []
unfolding itoa
itoa-ne-nil n = elim (Bool-cases (ltb n 10)) [
  | inl small ↦ rw (digits_small n n [] small) (λ e. cc)
  | inr big ↦ rw (digits_big n n [] big) (digits-ne-nil n (n / 10) _ (λ e. cc))
]

read_number-digits : (s : Text) → s ≢ [] → read_number s ≡ read_digits s 0
unfolding read_number
read_number-digits [] h = absurd (h refl)
read_number-digits (c ∷ s) h = refl

pub read_number-itoa : (n : ℕ) → read_number (itoa n) ≡ some n
read_number-itoa n =
    rw (read_number-digits (itoa n) (itoa-ne-nil n))
      (unfold itoa read_digits in read_digits-digits (suc n) n [] (omega arith))

atoi_positive :
    (s : Text) (n : ℕ) → All IsDigit s → read_number s ≡ some n → n < 2 ^ 63 → atoi s ≡ some (pos n)
unfolding atoi read_number
atoi_positive [] n a r h = cc
atoi_positive (c ∷ s) n a r h = ground arith

-- Digits are read as the number that they spell.
pub atoi_digits :
    (s : Text) (n : ℕ)
    → s ≢ []
    → All IsDigit s
    → read_digits s 0 ≡ some n
    → n < 2 ^ 63
    → atoi s ≡ some (pos n)
atoi_digits s n e a r h = atoi_positive s n a (read_number-digits s e ∙ r) h

pub read_digits-itoa : (n : ℕ) → read_digits (itoa n) 0 ≡ some n
read_digits-itoa n = sym (read_number-digits (itoa n) (itoa-ne-nil n)) ∙ read_number-itoa n

pub atoi-itoa : (n : ℕ) → n < 2 ^ 63 → atoi (itoa n) ≡ some (pos n)
atoi-itoa n h = atoi_positive (itoa n) n (itoa-IsDigit n) (read_number-itoa n) h

abbrev pub InInt64 : ℤ → Type 0
InInt64 (pos n) = n < 2 ^ 63
InInt64 (negsuc n) = n < 2 ^ 63

-- Every int64 is read back from its decimal print.
pub atoi-itoa_int : (z : ℤ) → InInt64 z → atoi (itoa_int z) ≡ some z
unfolding itoa_int
atoi-itoa_int (pos n) h = atoi-itoa n h
atoi-itoa_int (negsuc n) h = unfold atoi in rw (read_number-itoa (n + 1)) (ground arith)

pub IsDigit-Lacks : (b : ℕ) → (b < b'0') ⊎ (b'9' < b) → (s : Text) → All IsDigit s → Lacks b s
IsDigit-Lacks b h [] a = tt
IsDigit-Lacks b h (c ∷ s) a = (λ e. ground arith, IsDigit-Lacks b h s a.1)

-- A byte below the digits or above them, other than the sign, is not in a number's text.
pub itoa_int-Lacks : (x : ℤ) (b : ℕ) → (b < b'0') ⊎ (b'9' < b) → b ≢ b'-' → Lacks b (itoa_int x)
unfolding itoa_int
itoa_int-Lacks (pos n) b out h = IsDigit-Lacks b out _ (itoa-IsDigit n)
itoa_int-Lacks (negsuc n) b out h = (λ e. h (sym e), IsDigit-Lacks b out _ (itoa-IsDigit (n + 1)))
