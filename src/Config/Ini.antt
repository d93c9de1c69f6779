-- ===== src/Config/Ini.antt =====
-- OverrideConfigParser of ansible/action_plugins/merge_configs.py. The lines of a source are the
-- calls that oslo.config's BaseParser makes for them.
pub mod Assigned
pub mod Merged
use irnmn.Prelude.{
  ℕ, zero, suc, ◌+◌, ◌*◌, String, Bool, true, false, not, ◌==◌, ◌&&◌, ◌++◌, is_blank, is_empty,
  List, [], ◌∷◌, ◌&◌, Option, none, some, if◌then◌else◌,
}
use Prim.Native.String.{count}

-- An ordered dict.
module _ {A : Type 0} where
  unfoldable pub find_in : String → List (String × A) → Option A
  find_in key [] = none
  find_in key ((k, a) ∷ rest) = if k == key then some a else find_in key rest

  unfoldable pub put_in : String → A → List (String × A) → List (String × A)
  put_in key a [] = (key, a) ∷ []
  put_in key a ((k, b) ∷ rest) = if k == key then (k, a) ∷ rest else (k, b) ∷ put_in key a rest

-- The values of a key, one for each assignment, each with its lines.
abbrev pub Section : Type 0
Section = List (String × List (List String))

abbrev pub Sections : Type 0
Sections = List (String × Section)

pub data Line : Type 0 where
  section_line : String → Line
  assignment_line : String → List String → Line

pub record Parser : Type 0 where
  pub cur_sections : Sections
  pub cur_section : Option String

abbrev pub orphan_section : String
orphan_section = "TEMPORARY_ORPHAN_VARIABLE_SECTION"

abbrev pub or_empty : {A : Type 0} → Option (List A) → List A
or_empty none = []
or_empty (some xs) = xs

-- A section that is missing, or empty, is a new one.
unfoldable pub new_section : String → Parser → Parser
unfolding find_in put_in
new_section section p = record {
  cur_sections =
      if is_empty (or_empty (find_in section p.cur_sections))
      then put_in section [] p.cur_sections
      else p.cur_sections;
  cur_section = some section;
}

-- An empty value has no lines.
abbrev pub lines_of : List String → List String
lines_of (value ∷ []) = if is_blank value then [] else value ∷ []
lines_of values = values

-- `self._cur_section` is the section of its name in `self._cur_sections`.
abbrev pub assign_to : String → String → List String → Sections → Sections
assign_to section key value sections =
    let values = or_empty (find_in section sections) in
    put_in section (put_in key (or_empty (find_in key values) ++ (lines_of value ∷ [])) values)
      sections

abbrev pub assign_in : Option String → String → List String → Parser → Parser
assign_in none key value p = record {
  cur_sections = assign_to orphan_section key value (new_section orphan_section p).cur_sections;
  cur_section = some orphan_section;
}
assign_in (some section) key value p = record {
  cur_sections = assign_to section key value p.cur_sections;
  cur_section = some section;
}

unfoldable pub assignment : String → List String → Parser → Parser
unfolding find_in put_in new_section
assignment key value p = assign_in p.cur_section key value p

unfoldable pub read_lines : List Line → Parser → Parser
unfolding new_section assignment
read_lines [] p = p
read_lines (section_line section ∷ lines) p = read_lines lines (new_section section p)
read_lines (assignment_line key value ∷ lines) p = read_lines lines (assignment key value p)

-- The values of a source replace those of the earlier ones.
unfoldable pub merge_section : Section → Section → Section
unfolding put_in
merge_section old [] = old
merge_section old ((key, values) ∷ rest) = merge_section (put_in key values old) rest

unfoldable pub merge_sections : Sections → Sections → Sections
unfolding merge_section find_in put_in
merge_sections old [] = old
merge_sections old ((section, values) ∷ rest) =
    merge_sections (put_in section (merge_section (or_empty (find_in section old)) values) old) rest

unfoldable pub parse : Sections → List Line → Sections
unfolding read_lines merge_sections
parse old lines =
    merge_sections old
      ((read_lines lines (record { cur_sections = []; cur_section = none })).cur_sections)

abbrev pub spaces : ℕ → String
spaces zero = ""
spaces (suc n) = " " & spaces n

abbrev pub write_more : String → List String → String
write_more indent [] = ""
write_more indent (value ∷ rest) = indent & value & "\n" & write_more indent rest

-- One value: further lines stand under the first one.
abbrev pub write_value : String → String → List String → String
write_value ws key [] = key & ws & "=\n"
write_value ws key (value ∷ rest) =
    key & ws & "=" & ws & value & "\n" & write_more (spaces (count key + count ws * 2 + 1)) rest

abbrev pub write_key_value : String → String → List (List String) → String
write_key_value ws key [] = ""
write_key_value ws key (v ∷ values) = write_value ws key v & write_key_value ws key values

abbrev pub write_section : String → Section → String
write_section ws [] = ""
write_section ws ((key, values) ∷ rest) = write_key_value ws key values & write_section ws rest

unfoldable pub write : String → Sections → String
write ws [] = ""
write ws ((section, values) ∷ rest) =
    (if section == orphan_section then "" else "[" & section & "]\n")
    & write_section ws values
    & "\n"
    & write ws rest
