-- ===== src/Mysql/InstanceKey.antt =====
-- go/mysql/instance_key.go: the host and the port of a server.
pub mod Detach
pub mod Parse
pub mod KeyMap
pub mod Master
use ghost_source_code_readin.Base.{
  ℕ, Bool, true, false, not, ◌&&◌, ◌||◌, Option, none, some, List, [], ◌∷◌, ◌++◌, if◌then◌else◌,
  Result, ok, err, drop, ltb, length,
}
use ghost_source_code_readin.Base.Int.{ℤ, pos, ltb_ℤ}
use ghost_source_code_readin.Text.{
  Text, txt, text_eq, text_lt, has_prefix, contains_byte, split_two,
}
use ghost_source_code_readin.Text.Decimal.{itoa_int, atoi}
use ghost_source_code_readin.Mysql.Coordinates.{int_eq}

abbrev default_instance_port : ℤ
default_instance_port = pos 3306

pub record InstanceKey : Type 0 where
  pub hostname : Text
  pub port : ℤ

pub data KeyError : Type 0 where
  no_port_part invalid_port : KeyError

abbrev with_port : Text → Option ℤ → Result KeyError InstanceKey
with_port host none = err invalid_port
with_port host (some p) = ok (record { hostname = host; port = p })

abbrev key_of_tokens : Text × Option Text → Result KeyError InstanceKey
key_of_tokens (host, none) = err no_port_part
key_of_tokens (host, some p) = with_port host (atoi p)

-- `NewRawInstanceKey`
unfoldable pub new_raw_instance_key : Text → Result KeyError InstanceKey
new_raw_instance_key host_port = key_of_tokens (split_two host_port b':')

-- `ParseRawInstanceKeyLoose`
unfoldable pub parse_raw_instance_key_loose : Text → Result KeyError InstanceKey
unfolding new_raw_instance_key
parse_raw_instance_key_loose host_port =
    if not (contains_byte b':' host_port)
    then ok (record { hostname = host_port; port = default_instance_port })
    else new_raw_instance_key host_port

-- `==` on the struct.
unfoldable pub key_eq : InstanceKey → InstanceKey → Bool
key_eq a b = text_eq a.hostname b.hostname && int_eq a.port b.port

-- `Equals`; `none` is the nil pointer.
unfoldable pub key_equals : InstanceKey → Option InstanceKey → Bool
unfolding key_eq
key_equals a none = false
key_equals a (some b) = key_eq a b

-- `SmallerThan`
unfoldable pub key_smaller_than : InstanceKey → InstanceKey → Bool
key_smaller_than a b =
    if text_lt a.hostname b.hostname
    then true
    else if text_eq a.hostname b.hostname && ltb_ℤ a.port b.port
    then true
    else false

-- `IsDetached`
unfoldable pub is_detached : InstanceKey → Bool
is_detached k = has_prefix k.hostname (txt "//")

-- `IsValid`
unfoldable pub is_valid : InstanceKey → Bool
unfolding is_detached
is_valid k =
    if text_eq k.hostname (txt "_")
    then false
    else if is_detached k
    then false
    else ltb 0 (length k.hostname) && ltb_ℤ (pos 0) k.port

-- `DetachedKey`
unfoldable pub detached_key : InstanceKey → InstanceKey
unfolding is_detached
detached_key k =
    if is_detached k then k else record { hostname = txt "//" ++ k.hostname; port = k.port }

-- `ReattachedKey`
unfoldable pub reattached_key : InstanceKey → InstanceKey
unfolding is_detached
reattached_key k =
    if not (is_detached k)
    then k
    else record { hostname = drop (length (txt "//")) k.hostname; port = k.port }

-- `StringCode`
unfoldable pub string_code : InstanceKey → Text
string_code k = k.hostname ++ (txt ":" ++ itoa_int k.port)
