-- ===== src/Mysql/InstanceKey/KeyMap.antt =====
-- go/mysql/instance_key_map.go: a set of keys, as the list of the keys in the order in which a
-- range visits them.
use ghost_source_code_readin.Base.{
  ◌≡◌, arith, Bool, true, false, ◌||◌, List, [], ◌∷◌, ◌++◌, map, if◌then◌else◌, Result, ok, err,
}
use ghost_source_code_readin.Base.Int.{ℤ, pos, negsuc}
use ghost_source_code_readin.Text.{Text, txt, is_empty, split, join}
use ghost_source_code_readin.Text.Laws.{text_eq_iff, text_eq_refl}
use ghost_source_code_readin.Mysql.Coordinates.{int_eq}
use ghost_source_code_readin.Mysql.InstanceKey.{
  InstanceKey, KeyError, key_eq, parse_raw_instance_key_loose, string_code,
}

abbrev pub InstanceKeyMap : Type 0
InstanceKeyMap = List InstanceKey

-- `HasKey`
unfoldable pub has_key : InstanceKey → InstanceKeyMap → Bool
has_key k [] = false
has_key k (j ∷ m) = key_eq j k || has_key k m

-- `AddKey`
unfoldable pub add_key : InstanceKey → InstanceKeyMap → InstanceKeyMap
unfolding has_key
add_key k m = if has_key k m then m else m ++ k ∷ []

-- `AddKeys`
unfoldable pub add_keys : List InstanceKey → InstanceKeyMap → InstanceKeyMap
unfolding add_key
add_keys [] m = m
add_keys (k ∷ ks) m = add_keys ks (add_key k m)

-- `ToCommaDelimitedList`
unfoldable pub to_comma_delimited_list : InstanceKeyMap → Text
to_comma_delimited_list m = join (map string_code m) (txt ",")

abbrev Read : Type 0
Read = InstanceKeyMap × Result KeyError (Unit {0})

unfoldable pub read_token :
    Result KeyError InstanceKey → (InstanceKeyMap → Read) → InstanceKeyMap → Read
read_token (err e) rest m = (m, err e)
read_token (ok k) rest m = rest (add_key k m)

-- The loop over the tokens: the keys before a token that does not parse stay in the map.
unfoldable pub read_tokens : List Text → InstanceKeyMap → Read
unfolding read_token
read_tokens [] m = (m, ok tt)
read_tokens (t ∷ ts) m = read_token (parse_raw_instance_key_loose t) (λ n. read_tokens ts n) m

-- `ReadCommaDelimitedList`
unfoldable pub read_comma_delimited_list : Text → InstanceKeyMap → Read
unfolding read_tokens
read_comma_delimited_list s m = if is_empty s then (m, ok tt) else read_tokens (split s b',') m

int_eq_sound : (x y : ℤ) → int_eq x y ≡ true → x ≡ y
int_eq_sound (pos x) (pos y) h = ground arith
int_eq_sound (pos x) (negsuc y) h = cc
int_eq_sound (negsuc x) (pos y) h = cc
int_eq_sound (negsuc x) (negsuc y) h = ground arith

int_eq_refl : (x : ℤ) → int_eq x x ≡ true
int_eq_refl (pos x) = ground arith
int_eq_refl (negsuc x) = ground arith

pub key_eq_sound : (a b : InstanceKey) → key_eq a b ≡ true → a ≡ b
unfolding key_eq
key_eq_sound a b h = ground (arith, text_eq_iff a.hostname b.hostname, int_eq_sound a.port b.port)

pub key_eq_refl : (a : InstanceKey) → key_eq a a ≡ true
unfolding key_eq
key_eq_refl a = ground (arith, text_eq_refl a.hostname, int_eq_refl a.port)

pub has_key-snoc :
    (k j : InstanceKey) (m : InstanceKeyMap) → has_key k (m ++ j ∷ []) ≡ (has_key k m || key_eq j k)
unfolding has_key
has_key-snoc k j [] = ground arith
has_key-snoc k j (i ∷ m) = ground (arith, has_key-snoc k j m)

-- A key of the map after `AddKey` is the new key, or a key from before.
pub has_key-add_key :
    (k j : InstanceKey) (m : InstanceKeyMap) → has_key k (add_key j m) ≡ (key_eq j k || has_key k m)
unfolding add_key
has_key-add_key k j m = ground (arith, has_key-snoc k j m, key_eq_sound j k)
