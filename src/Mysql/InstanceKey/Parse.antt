-- ===== src/Mysql/InstanceKey/Parse.antt =====
-- Keys are read back from their text, one by one and as a comma delimited list.
use ghost_source_code_readin.Base.{
  ◌≡◌, refl, ◌≢◌, ℕ, [], ◌∷◌, ◌++◌, map, true, false, ok, inl, arith, All, All-append, append_assoc,
  append-nil,
}
use ghost_source_code_readin.Text.{Text, txt, split, join, is_empty, contains_byte}
use ghost_source_code_readin.Text.Laws.{Lacks, split_two_at, split-join}
use ghost_source_code_readin.Text.Decimal.{itoa_int}
use ghost_source_code_readin.Text.Decimal.RoundTrip.{InInt64, itoa_int-Lacks, atoi-itoa_int}
use ghost_source_code_readin.Mysql.InstanceKey.{
  InstanceKey, new_raw_instance_key, parse_raw_instance_key_loose, string_code,
}
use ghost_source_code_readin.Mysql.InstanceKey.KeyMap.{
  InstanceKeyMap, has_key, add_key, read_tokens, read_comma_delimited_list, to_comma_delimited_list,
}

-- A key whose host name has no colon and whose port is an `int`.
abbrev pub IsPrintable : InstanceKey → Type 0
IsPrintable k = Lacks b':' k.hostname × InInt64 k.port

pub new_raw-string_code :
    (k : InstanceKey) → IsPrintable k → new_raw_instance_key (string_code k) ≡ ok k
unfolding new_raw_instance_key string_code txt
new_raw-string_code k (no_colon, range) =
    rw (split_two_at k.hostname (itoa_int k.port) b':' no_colon, atoi-itoa_int k.port range)

contains_byte_at : (s t : Text) (b : ℕ) → contains_byte b (s ++ b ∷ t) ≡ true
contains_byte_at [] t b = ground arith
contains_byte_at (c ∷ s) t b = ground (arith, contains_byte_at s t b)

code_has_colon : (k : InstanceKey) → contains_byte b':' (string_code k) ≡ true
unfolding string_code txt
code_has_colon k = contains_byte_at k.hostname (itoa_int k.port) b':'

-- A key whose host name has no colon and whose port is in the range of `int` is read back from its
-- text, by the parser that lets the port be left out.
parse-string_code :
    (k : InstanceKey) → IsPrintable k → parse_raw_instance_key_loose (string_code k) ≡ ok k
unfolding parse_raw_instance_key_loose
parse-string_code k h = rw (code_has_colon k) (new_raw-string_code k h)

abbrev pub IsDistinct : InstanceKeyMap → InstanceKeyMap → Type 0
IsDistinct [] seen = Unit
IsDistinct (k ∷ ks) seen = (has_key k seen ≡ false) × IsDistinct ks (seen ++ k ∷ [])

read_tokens-codes :
    (ks seen : InstanceKeyMap)
    → All IsPrintable ks
    → IsDistinct ks seen
    → read_tokens (map string_code ks) seen ≡ (seen ++ ks, ok tt)
unfolding read_tokens add_key
read_tokens-codes [] seen h d = rw (append-nil seen)
read_tokens-codes (k ∷ ks) seen (h, hs) (new, d) = rw (
  parse-string_code k h,
  new,
  read_tokens-codes ks (seen ++ k ∷ []) hs d,
  append_assoc seen (k ∷ []) ks,
)

string_code-Lacks : (k : InstanceKey) → Lacks b',' k.hostname → Lacks b',' (string_code k)
unfolding string_code txt
string_code-Lacks k h =
    All-append (λ c. c ≢ b',') k.hostname _ h
      (omega arith, itoa_int-Lacks k.port b',' (inl (omega arith)) (omega arith))

codes-Lacks :
    (ks : InstanceKeyMap)
    → All (λ k. Lacks b',' k.hostname) ks
    → All (Lacks b',') (map string_code ks)
codes-Lacks [] h = tt
codes-Lacks (k ∷ ks) (h, hs) = (string_code-Lacks k h, codes-Lacks ks hs)

not_empty_at : (s t : Text) (c : ℕ) → is_empty (s ++ c ∷ t) ≡ false
not_empty_at [] t c = refl
not_empty_at (d ∷ s) t c = refl

is_empty-append : (s t : Text) → is_empty s ≡ false → is_empty (s ++ t) ≡ false
is_empty-append [] t h = cc
is_empty-append (c ∷ s) t h = refl

is_empty-string_code : (k : InstanceKey) → is_empty (string_code k) ≡ false
unfolding string_code txt
is_empty-string_code k = not_empty_at k.hostname (itoa_int k.port) b':'

is_empty-list :
    (k : InstanceKey) (ks : InstanceKeyMap) → is_empty (to_comma_delimited_list (k ∷ ks)) ≡ false
unfolding to_comma_delimited_list join
is_empty-list k [] = is_empty-string_code k
is_empty-list k (j ∷ ks) = is_empty-append (string_code k) _ (is_empty-string_code k)

split-list :
    (k : InstanceKey) (ks : InstanceKeyMap)
    → All (λ j. Lacks b',' j.hostname) (k ∷ ks)
    → split (to_comma_delimited_list (k ∷ ks)) b',' ≡ map string_code (k ∷ ks)
unfolding to_comma_delimited_list txt
split-list k ks h = split-join (string_code k) (map string_code ks) b',' (codes-Lacks (k ∷ ks) h)

-- A map whose host names have neither a colon nor a comma and whose ports are in the range of `int`
-- is read back into an empty map from its comma delimited list, without an error. The keys of a map are
-- distinct.
read-to_comma_delimited_list :
    (m : InstanceKeyMap)
    → All IsPrintable m
    → All (λ k. Lacks b',' k.hostname) m
    → IsDistinct m []
    → read_comma_delimited_list (to_comma_delimited_list m) [] ≡ (m, ok tt)
unfolding read_comma_delimited_list
read-to_comma_delimited_list [] h no_comma d = unfold to_comma_delimited_list join in refl
read-to_comma_delimited_list (k ∷ ks) h no_comma d =
    rw (is_empty-list k ks, split-list k ks no_comma) (read_tokens-codes (k ∷ ks) [] h d)
