-- ===== src/Filters/Fluentd/Named.antt =====
-- The file names that customise_fluentd compares, read from the texts of the paths.
use Prim.Native.Char.{code}
use Prim.Native.String.{String}
use irnmn.Prelude.{
  ℕ, ◌≡◌, refl, Bool, true, false, not, ◌&&◌, ◌==◌, ap, ◌∙◌, nat_eq, any, map, List, [], ◌∷◌,
  Option, none, some, Bool-cases, inl, inr, arith, if◌then◌else◌,
}
use irnmn.Text.Split.{has_char, split_last, push_front, last_or}
use irnmn.Container.Compare.{member}
use irnmn.Filters.Fluentd.{after_slash, all_dots, root_of, basename, basename_no_ext, is_kept}

-- What follows the last slash of a path.
abbrev pub file_name : String → String
file_name String.[] = ""
file_name (String.◌∷◌ c path) =
    if has_char 47 path
    then file_name path
    else if nat_eq (code c) 47
    then path
    else String.◌∷◌ c path

-- What stands before the last dot of a name.
abbrev pub before_dot : String → String
before_dot String.[] = ""
before_dot (String.◌∷◌ c name) = if has_char 46 name then String.◌∷◌ c (before_dot name) else ""

abbrev pub only_dots : String → Bool
only_dots String.[] = true
only_dots (String.◌∷◌ c s) = nat_eq (code c) 46 && only_dots s

-- A name without its extension, which starts at the last dot, but not at one of the first dots.
abbrev pub stem : String → String
stem name = if has_char 46 name && not (only_dots (before_dot name)) then before_dot name else name

-- A customised path has the name of the path without its extension.
abbrev pub is_overridden : List String → String → Bool
is_overridden customised_paths path =
    any (λ other. file_name other == stem (file_name path)) customised_paths

-- The parts that `split_last` finds, for each text.
abbrev IsSplit : ℕ → String → Option (String × String) → Type 0
IsSplit sep s none = has_char sep s ≡ false
IsSplit sep s (some (before, after)) = has_char sep s ≡ true

split_last-IsSplit : (sep : ℕ) (s : String) → IsSplit sep s (split_last sep s)
unfolding split_last has_char
split_last-IsSplit sep String.[] = refl
split_last-IsSplit sep (String.◌∷◌ c s) = go (split_last sep s) (split_last-IsSplit sep s)
  where
    has_at : nat_eq (code c) sep ≡ true → has_char sep (String.◌∷◌ c s) ≡ true
    has_at here = ground (arith, here)

    has_after : nat_eq (code c) sep ≡ false → has_char sep (String.◌∷◌ c s) ≡ has_char sep s
    has_after other = ground (arith, other)

    go :
        (later : Option (String × String))
        → IsSplit sep s later
        → IsSplit sep (String.◌∷◌ c s) (
            if nat_eq (code c) sep
            then last_or (push_front c later) (some ("", s))
            else push_front c later)
    go none lacks = elim (Bool-cases (nat_eq (code c) sep)) [
      | inl here ↦ rw here (has_at here)
      | inr other ↦ rw other (has_after other ∙ lacks)
    ]
    go (some (before, after)) has = elim (Bool-cases (nat_eq (code c) sep)) [
      | inl here ↦ rw here (has_at here)
      | inr other ↦ rw other (has_after other ∙ has)
    ]

pub basename-named : (path : String) → basename path ≡ file_name path
unfolding basename split_last
basename-named String.[] = refl
basename-named (String.◌∷◌ c path) =
    go (split_last 47 path) (split_last-IsSplit 47 path) (basename-named path)
  where
    go :
        (later : Option (String × String))
        → IsSplit 47 path later
        → after_slash path later ≡ file_name path
        → after_slash (String.◌∷◌ c path) (
            if nat_eq (code c) 47
            then last_or (push_front c later) (some ("", path))
            else push_front c later)
          ≡ file_name (String.◌∷◌ c path)
    go none lacks e = elim (Bool-cases (nat_eq (code c) 47)) [
      | inl here ↦ rw (here, lacks) refl
      | inr other ↦ rw (other, lacks) refl
    ]
    go (some (before, after)) has e = elim (Bool-cases (nat_eq (code c) 47)) [
      | inl here ↦ rw (here, has) e
      | inr other ↦ rw (other, has) e
    ]

dots_same : (s : String) → all_dots s ≡ only_dots s
dots_same String.[] = refl
dots_same (String.◌∷◌ c s) = ap (λ b. nat_eq (code c) 46 && b) (dots_same s)

-- The first part of a split at the last dot.
abbrev IsBefore : String → Option (String × String) → Type 0
IsBefore name none = Unit
IsBefore name (some (before, after)) = before ≡ before_dot name

split_last-IsBefore : (name : String) → IsBefore name (split_last 46 name)
unfolding split_last
split_last-IsBefore String.[] = tt
split_last-IsBefore (String.◌∷◌ c name) =
    go (split_last 46 name) (split_last-IsSplit 46 name) (split_last-IsBefore name)
  where
    go :
        (later : Option (String × String))
        → IsSplit 46 name later
        → IsBefore name later
        → IsBefore (String.◌∷◌ c name) (
            if nat_eq (code c) 46
            then last_or (push_front c later) (some ("", name))
            else push_front c later)
    go none lacks e = elim (Bool-cases (nat_eq (code c) 46)) [
      | inl here ↦ rw (here, lacks) refl
      | inr other ↦ rw other tt
    ]
    go (some (before, after)) has e = elim (Bool-cases (nat_eq (code c) 46)) [
      | inl here ↦ rw (here, has) (ap (λ b. String.◌∷◌ c b) e)
      | inr other ↦ rw (other, has) (ap (λ b. String.◌∷◌ c b) e)
    ]

root-stem : (name : String) → root_of name (split_last 46 name) ≡ stem name
root-stem name = go (split_last 46 name) (split_last-IsSplit 46 name) (split_last-IsBefore name)
  where
    go :
        (found : Option (String × String))
        → IsSplit 46 name found
        → IsBefore name found
        → root_of name found ≡ stem name
    go none lacks e = rw lacks refl
    go (some (before, after)) has e = rw (has, e, dots_same (before_dot name)) (ground arith)

no_ext-stem : (path : String) → basename_no_ext path ≡ stem (file_name path)
unfolding basename_no_ext
no_ext-stem path = root-stem (basename path) ∙ ap stem (basename-named path)

member-names :
    (s : String) (paths : List String)
    → member s (map basename paths) ≡ any (λ other. file_name other == s) paths
member-names s [] = refl
member-names s (path ∷ rest) = rw (basename-named path, member-names s rest) refl

pub is_kept-named :
    (customised_paths : List String) (path : String)
    → is_kept customised_paths path ≡ not (is_overridden customised_paths path)
is_kept-named customised_paths path =
    ap not (rw (no_ext-stem path) (member-names (stem (file_name path)) customised_paths))
