-- ===== src/Cli/Inventory.antt =====
-- `_inventory_section` and `_compute_hosts` of tools/powerops_cli.py.
use Prim.Native.Char.{Char, code}
use Prim.Native.String.{String, count}
use text.Mathlib.Text.{starts_with}
use irnmn.Prelude.{
  ℕ, zero, suc, Bool, not, ◌&&◌, ◌||◌, is_blank, leb, nat_eq, List, [], ◌∷◌, map, select, ◌&◌,
  Option, none, some, if◌then◌else◌,
}
use irnmn.Text.{is_space, strip, lstrip}

unfoldable pub drop_text : ℕ → String → String
drop_text zero s = s
drop_text (suc n) String.[] = ""
drop_text (suc n) (String.◌∷◌ c s) = drop_text n s

-- `s.split(marker, 1)[1]`, where the marker, which is not empty, occurs in the text.
unfoldable pub split_after : String → String → Option String
unfolding drop_text
split_after marker String.[] = none
split_after marker (String.◌∷◌ c s) =
    let later = split_after marker s in
    if starts_with (String.◌∷◌ c s) marker
    then some (drop_text (count marker) (String.◌∷◌ c s))
    else later

-- `s.split("[", 1)[0]`
unfoldable pub until_bracket : String → String
until_bracket String.[] = ""
until_bracket (String.◌∷◌ c s) =
    let rest = until_bracket s in if nat_eq (code c) 91 then "" else String.◌∷◌ c rest

unfoldable pub inventory_section : String → String → Option String
unfolding split_after until_bracket
inventory_section inventory_text name = elim (split_after ("[" & name & "]") inventory_text) [
  | none ↦ none
  | some rest ↦ some (until_bracket rest)
]

-- A line boundary of `splitlines`; of the two of `\r\n` the second ends an empty line.
abbrev pub is_break : Char → Bool
is_break c = (leb 10 (code c) && leb (code c) 13) || (leb 28 (code c) && leb (code c) 30)

abbrev pub begin_line : Char → List String → List String
begin_line c [] = String.◌∷◌ c "" ∷ []
begin_line c (line ∷ lines) = String.◌∷◌ c line ∷ lines

unfoldable pub split_lines : String → List String
split_lines String.[] = []
split_lines (String.◌∷◌ c s) =
    let rest = split_lines s in if is_break c then "" ∷ rest else begin_line c rest

unfoldable pub first_word_of : String → String
first_word_of String.[] = ""
first_word_of (String.◌∷◌ c s) =
    let rest = first_word_of s in if is_space c then "" else String.◌∷◌ c rest

-- `line.split()[0]`
unfoldable pub first_word : String → String
unfolding first_word_of lstrip
first_word line = first_word_of (lstrip line)

unfoldable pub is_entry : String → Bool
unfolding strip lstrip
is_entry line = not (is_blank (strip line)) && not (starts_with (lstrip line) "#")

unfoldable pub hosts_of : String → List String
unfolding split_lines first_word is_entry
hosts_of section = map first_word (select is_entry (split_lines section))

unfoldable pub compute_hosts : String → Option (List String)
unfolding inventory_section hosts_of
compute_hosts inventory_text = elim (inventory_section inventory_text "compute") [
  | none ↦ none
  | some section ↦ some (hosts_of section)
]
