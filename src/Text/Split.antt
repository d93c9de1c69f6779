-- ===== src/Text/Split.antt =====
-- `split`, `rsplit` and `partition` of a text at a character.
use Prim.Native.Char.{Char, code}
use Prim.Native.String.{String}
use irnmn.Prelude.{ℕ, Bool, true, false, nat_eq, List, [], ◌∷◌, Option, none, some, if◌then◌else◌}

abbrev pub push_front : Char → Option (String × String) → Option (String × String)
push_front c none = none
push_front c (some (before, after)) = some (String.◌∷◌ c before, after)

-- The texts before and after the first separator: `s.split(sep, 1)`, if the separator is there.
unfoldable pub split_first : ℕ → String → Option (String × String)
split_first sep String.[] = none
split_first sep (String.◌∷◌ c s) =
    let later = split_first sep s in
    if nat_eq (code c) sep then some ("", s) else push_front c later

abbrev pub last_or : Option (String × String) → Option (String × String) → Option (String × String)
last_or none here = here
last_or (some found) here = some found

-- The texts before and after the last separator: `s.rsplit(sep, 1)`, if the separator is there.
unfoldable pub split_last : ℕ → String → Option (String × String)
split_last sep String.[] = none
split_last sep (String.◌∷◌ c s) =
    let later = split_last sep s in
    if nat_eq (code c) sep then last_or (push_front c later) (some ("", s)) else push_front c later

abbrev pub begin_part : Char → List String → List String
begin_part c [] = String.◌∷◌ c "" ∷ []
begin_part c (part ∷ parts) = String.◌∷◌ c part ∷ parts

-- `s.split(sep)`
unfoldable pub split_all : ℕ → String → List String
split_all sep String.[] = "" ∷ []
split_all sep (String.◌∷◌ c s) =
    let rest = split_all sep s in if nat_eq (code c) sep then "" ∷ rest else begin_part c rest

-- `sep in s` for a character
unfoldable pub has_char : ℕ → String → Bool
has_char sep String.[] = false
has_char sep (String.◌∷◌ c s) =
    let rest = has_char sep s in if nat_eq (code c) sep then true else rest
