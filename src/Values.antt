-- ===== src/Values.antt =====
-- The values of a configuration mapping: a null, a text or a flag; and mappings of such values.
pub mod Laws
use irnmn.Prelude.{
  String, Bool, true, false, not, ◌==◌, differ, is_blank, List, [], ◌∷◌, Option, none, some,
  if◌then◌else◌,
}

pub data Value : Type 0 where
  null : Value
  text : String → Value
  boolean : Bool → Value

-- `a == b`
abbrev pub value_eq : Value → Value → Bool
value_eq null null = true
value_eq (text s) (text t) = s == t
value_eq (boolean a) (boolean b) = not (differ a b)
value_eq _ _ = false

-- `bool(value)`
abbrev pub is_truthy : Value → Bool
is_truthy null = false
is_truthy (text s) = not (is_blank s)
is_truthy (boolean b) = b

-- `str(value)`
abbrev pub to_text : Value → String
to_text null = "None"
to_text (text s) = s
to_text (boolean true) = "True"
to_text (boolean false) = "False"

-- `str(value or default)`
abbrev pub text_or : Value → String → String
text_or null default = default
text_or (text s) default = if is_blank s then default else s
text_or (boolean true) default = "True"
text_or (boolean false) default = default

-- A dict with text keys, in insertion order.
abbrev pub Dict : Type 0
Dict = List (String × Value)

-- `d.get(key)`
unfoldable pub get : String → Dict → Value
get key [] = null
get key ((k, v) ∷ d) = if k == key then v else get key d

-- `d[key] = value`
unfoldable pub put : String → Value → Dict → Dict
put key v [] = (key, v) ∷ []
put key v ((k, u) ∷ d) = if k == key then (k, v) ∷ d else (k, u) ∷ put key v d

-- `d.update(other)`
unfoldable pub update : Dict → Dict → Dict
unfolding put
update d [] = d
update d ((k, v) ∷ other) = update (put k v d) other
