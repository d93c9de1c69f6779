-- ===== src/Filters/Fluentd.antt =====
-- kolla_ansible/fluentd_filters.py.
pub mod Named
pub mod Chosen
use Prim.Native.Char.{code}
use Prim.Native.String.{String, compare}
use Prim.Native.Nat.{Ordering}
use irnmn.Prelude.{
  Bool, true, false, not, ◌&&◌, ◌++◌, nat_eq, select, map, List, [], ◌∷◌, Option, none, some,
  if◌then◌else◌,
}
use irnmn.Text.Split.{split_last}
use irnmn.Container.Compare.{member}

abbrev pub after_slash : String → Option (String × String) → String
after_slash path none = path
after_slash path (some (before, after)) = after

-- `os.path.basename`
unfoldable pub basename : String → String
unfolding split_last
basename path = after_slash path (split_last 47 path)

abbrev pub all_dots : String → Bool
all_dots String.[] = true
all_dots (String.◌∷◌ c s) = nat_eq (code c) 46 && all_dots s

-- `os.path.splitext(name)[0]`; no extension starts at one of the first dots.
abbrev pub root_of : String → Option (String × String) → String
root_of name none = name
root_of name (some (before, after)) = if all_dots before then name else before

unfoldable pub basename_no_ext : String → String
unfolding basename split_last
basename_no_ext path = root_of (basename path) (split_last 46 (basename path))

abbrev pub is_gt : Ordering → Bool
is_gt Ordering.gt = true
is_gt _ = false

-- The insertion of `sorted` by the basenames.
unfoldable pub insert_path : String → List String → List String
unfolding basename
insert_path path [] = path ∷ []
insert_path path (other ∷ rest) =
    if is_gt (compare (basename path) (basename other))
    then other ∷ insert_path path rest
    else path ∷ other ∷ rest

unfoldable pub sorted_paths : List String → List String
unfolding insert_path
sorted_paths [] = []
sorted_paths (path ∷ rest) = insert_path path (sorted_paths rest)

abbrev pub is_kept : List String → String → Bool
is_kept customised_paths path = not (member (basename_no_ext path) (map basename customised_paths))

-- `order` is the order in which the set of the paths is iterated.
unfoldable pub customise_fluentd :
    (List String → List String) → List String → List String → List String
unfolding basename basename_no_ext sorted_paths
customise_fluentd order default_paths customised_paths =
    sorted_paths (order (select (is_kept customised_paths) default_paths ++ customised_paths))
