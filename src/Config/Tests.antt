-- ===== src/Config/Tests.antt =====
-- Merges of small files.
use irnmn.Prelude.{String, ◌≡◌, refl, List, [], ◌∷◌, some}
use irnmn.Config.Nested.{plain, items, mapping, Fields, no_field, field}
use irnmn.Config.Ini.{Line, section_line, assignment_line, parse, write}
use irnmn.Config.Ini.Assigned.{value_at, assigned}
use irnmn.Config.Ini.Merged.{parse-value_at}

abbrev defaults : Fields String
defaults = field "debug" (plain "False") (
    field "pools" (items ("vms" ∷ [])) (
      field "database" (mapping (field "host" (plain "db") (field "port" (plain "3306") no_field)))
        no_field))

abbrev overrides : Fields String
overrides =
    field "pools" (items ("images" ∷ []))
      (field "database" (mapping (field "port" (plain "3307") no_field)) no_field)

abbrev base : List Line
base =
    section_line "DEFAULT"
    ∷ assignment_line "debug" ("False" ∷ [])
    ∷ assignment_line "driver" ("a" ∷ [])
    ∷ assignment_line "driver" ("b" ∷ "c" ∷ [])
    ∷ []

abbrev custom : List Line
custom = section_line "DEFAULT" ∷ assignment_line "debug" ("True" ∷ []) ∷ []

-- The last source's value, and both values of the other key; the second line of a value is indented.
written :
    write " " (parse (parse [] base) custom)
    ≡ "[DEFAULT]\ndebug = True\ndriver = a\ndriver = b\n         c\n\n"
unfolding write parse
written = refl

parse-value_at_example :
    value_at "DEFAULT" "debug" (parse (parse [] base) custom) ≡ some (("True" ∷ []) ∷ [])
unfolding assigned
parse-value_at_example = parse-value_at "DEFAULT" "debug" (parse [] base) custom
