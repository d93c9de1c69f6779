-- ===== src/Text.antt =====
-- Python's text methods over ASCII: `strip`, `lower`, `upper`, `replace`, and the MAC pattern that
-- powerops_ironic_node.py and tools/powerops_cli.py share.
pub mod Numbers
pub mod Shlex
pub mod Split
use Prim.Native.Char.{Char, code}
use Prim.Native.String.{String, count, compare}
use Prim.Native.Nat.{Ordering}
use text.Mathlib.Text.{starts_with}
use irnmn.Prelude.{
  ℕ, zero, suc, ◌-◌, Bool, true, false, ◌&&◌, ◌||◌, ◌==◌, List, [], ◌∷◌, leb, nat_eq, is_blank, ◌&◌,
  if◌then◌else◌,
}

-- ASCII white space, as `str.isspace` has it.
abbrev pub is_space : Char → Bool
is_space c = (leb 9 (code c) && leb (code c) 13) || (leb 28 (code c) && leb (code c) 32)

unfoldable pub lstrip : String → String
lstrip String.[] = ""
lstrip (String.◌∷◌ c s) = if is_space c then lstrip s else String.◌∷◌ c s

unfoldable pub rstrip : String → String
rstrip String.[] = ""
rstrip (String.◌∷◌ c s) =
    let rest = rstrip s in if is_space c && is_blank rest then "" else String.◌∷◌ c rest

unfoldable pub strip : String → String
unfolding lstrip rstrip
strip s = rstrip (lstrip s)

-- The letter at the same place of the second alphabet.
abbrev pub translate : String → String → Char → Char
translate String.[] _ c = c
translate (String.◌∷◌ a as') String.[] c = c
translate (String.◌∷◌ a from) (String.◌∷◌ b to) c =
    if nat_eq (code c) (code a) then b else translate from to c

abbrev pub map_text : (Char → Char) → String → String
map_text f String.[] = ""
map_text f (String.◌∷◌ c s) = String.◌∷◌ (f c) (map_text f s)

unfoldable pub lower : String → String
lower = map_text (translate "ABCDEFGHIJKLMNOPQRSTUVWXYZ" "abcdefghijklmnopqrstuvwxyz")

unfoldable pub upper : String → String
upper = map_text (translate "abcdefghijklmnopqrstuvwxyz" "ABCDEFGHIJKLMNOPQRSTUVWXYZ")

-- `s.replace(old, new)` for a text `old` that is not empty; `skip` characters of a match are left.
unfoldable pub replace_from : ℕ → String → String → String → String
replace_from skip old new String.[] = ""
replace_from (suc skip) old new (String.◌∷◌ c s) = replace_from skip old new s
replace_from zero old new (String.◌∷◌ c s) = elim (starts_with (String.◌∷◌ c s) old) [
  | true ↦ new & replace_from (count old - 1) old new s
  | false ↦ String.◌∷◌ c (replace_from 0 old new s)
]

unfoldable pub replace : String → String → String → String
unfolding replace_from
replace old new s = replace_from 0 old new s

abbrev pub is_hex : ℕ → Bool
is_hex c = (leb 48 c && leb c 57) || (leb 97 c && leb c 102) || (leb 65 c && leb c 70)

abbrev pub codes : String → List ℕ
codes String.[] = []
codes (String.◌∷◌ c s) = code c ∷ codes s

-- The end of the pattern, `$`, also matches before a final line feed.
abbrev pub at_end : List ℕ → Bool
at_end [] = true
at_end (c ∷ []) = nat_eq c 10
at_end _ = false

-- `n` pairs of digits with a colon each, and a last pair.
abbrev pub hex_pairs : ℕ → List ℕ → Bool
hex_pairs zero (a ∷ b ∷ rest) = is_hex a && is_hex b && at_end rest
hex_pairs (suc n) (a ∷ b ∷ c ∷ rest) = is_hex a && is_hex b && nat_eq c 58 && hex_pairs n rest
hex_pairs _ _ = false

-- `MAC.match(s)`: `^(?:[0-9a-f]{2}:){5}[0-9a-f]{2}$`, ignoring case
unfoldable pub is_mac : String → Bool
is_mac s = hex_pairs 5 (codes s)

-- `part in s`
abbrev pub contains : String → String → Bool
contains part String.[] = is_blank part
contains part (String.◌∷◌ c s) = starts_with (String.◌∷◌ c s) part || contains part s

-- `sorted` of texts, by code points.
abbrev pub insert_sorted : String → List String → List String
insert_sorted s [] = s ∷ []
insert_sorted s (t ∷ rest) = elim (compare s t) [
  | Ordering.gt ↦ t ∷ insert_sorted s rest
  | _ ↦ s ∷ t ∷ rest
]

unfoldable pub sorted : List String → List String
sorted [] = []
sorted (s ∷ rest) = insert_sorted s (sorted rest)

-- `s.endswith(part)`
abbrev pub ends_with : String → String → Bool
ends_with part String.[] = is_blank part
ends_with part (String.◌∷◌ c s) = String.◌∷◌ c s == part || ends_with part s
