-- ===== src/Prelude/Json.antt =====
-- The JSON values that requests and signed records hold, and canonical_json (common/canonical.py).
use Prim.Native.Nat.{ℕ, compare, Ordering}
use mathlib.Core.Option.{Option, none, some}
use mathlib.Core.Bool.{Bool, true, false}
use mathlib.Core.List.{List, [], ◌∷◌, ◌++◌, map}
use blockchain_io_t_a.Prelude.Tests.{ltb, nat_beq, if◌then◌else◌}
use blockchain_io_t_a.Prelude.Text.{Str, Bytes, codes, encode, decimal, to_hex}

-- `real` is a number that is no natural one and `compound` a nested list or dict, each by its
-- canonical text.
pub data Value : Type 0 where
  null : Value
  bool : Bool → Value
  num : ℕ → Value
  real : Str → Value
  str : Str → Value
  strs : List Str → Value
  compound : Str → Value

-- A dict with str keys.
abbrev pub Object : Type 0
Object = List (Str × Value)

-- `None` is the JSON null.
abbrev pub optional_str : Option Str → Value
optional_str none = null
optional_str (some s) = str s

-- The order of str, by code points; the order of bytes too.
unfoldable pub text_le : List ℕ → List ℕ → Bool
text_le [] ys = true
text_le (x ∷ xs) [] = false
text_le (x ∷ xs) (y ∷ ys) = elim (compare x y) [
  | Ordering.lt ↦ true
  | Ordering.eq ↦ text_le xs ys
  | Ordering.gt ↦ false
]

insert_key : Str × Value → Object → Object
unfolding text_le
insert_key e [] = e ∷ []
insert_key e (f ∷ d) = let rest = insert_key e d in if text_le e.0 f.0 then e ∷ f ∷ d else f ∷ rest

sort_keys : Object → Object
unfolding insert_key
sort_keys [] = []
sort_keys (e ∷ d) = insert_key e (sort_keys d)

escape_char : ℕ → Str
escape_char c =
    if nat_beq c 34
    then codes "\\\""
    else if nat_beq c 92
    then codes "\\\\"
    else if nat_beq c 10
    then codes "\\n"
    else if nat_beq c 13
    then codes "\\r"
    else if nat_beq c 9
    then codes "\\t"
    else if nat_beq c 12
    then codes "\\f"
    else if nat_beq c 8
    then codes "\\b"
    else if ltb c 32
    then codes "\\u00" ++ to_hex (c ∷ [])
    else c ∷ []

escape : Str → Str
unfolding escape_char
escape [] = []
escape (c ∷ s) = escape_char c ++ escape s

quoted : Str → Str
unfolding escape
quoted s = 34 ∷ escape s ++ 34 ∷ []

join_comma : List Str → Str
join_comma [] = []
join_comma (s ∷ []) = s
join_comma (s ∷ t ∷ r) = s ++ b',' ∷ join_comma (t ∷ r)

print_value : Value → Str
unfolding quoted join_comma
print_value null = codes "null"
print_value (bool true) = codes "true"
print_value (bool false) = codes "false"
print_value (num n) = decimal n
print_value (real s) = s
print_value (str s) = quoted s
print_value (strs l) = b'[' ∷ join_comma (map quoted l) ++ b']' ∷ []
print_value (compound s) = s

print_field : Str × Value → Str
unfolding print_value
print_field (k, v) = quoted k ++ b':' ∷ print_value v

-- `json.dumps(obj, sort_keys=True, separators=(",", ":"), ensure_ascii=False).encode("utf-8")`
unfoldable pub canonical_json : Object → Bytes
unfolding sort_keys print_field join_comma
canonical_json d = encode (b'{' ∷ join_comma (map print_field (sort_keys d)) ++ b'}' ∷ [])
