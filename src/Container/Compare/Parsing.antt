-- ===== src/Container/Compare/Parsing.antt =====
-- The comparisons of kolla_container_worker.py that parse texts or may raise.
use irnmn.Prelude.{
  String, Bool, true, false, not, ◌&&◌, ◌==◌, length, nat_eq, all, is_empty, List, [], ◌∷◌, Option,
  none, some, if◌then◌else◌,
}
use irnmn.Text.Split.{split_first}
use irnmn.Text.Shlex.{shlex_split}
use irnmn.Values.{Value, text, value_eq}
use irnmn.Effect.{Result, ok, err, value_error, key_error, external}
use irnmn.Container.Params.{Params, ContainerInfo}

abbrev pub Labels : Type 0
Labels = List (String × String)

unfoldable pub find_label : String → Labels → Option String
find_label key [] = none
find_label key ((k, v) ∷ rest) = if k == key then some v else find_label key rest

-- `del labels[key]`, where the key is there
unfoldable pub delete_label : String → Labels → Labels
delete_label key [] = []
delete_label key ((k, v) ∷ rest) = if k == key then rest else (k, v) ∷ delete_label key rest

abbrev pub has_value : Option String → String → Bool
has_value none v = false
has_value (some u) v = u == v

-- `a == b` of two dicts, each of which has a key once.
abbrev pub same_labels : Labels → Labels → Bool
same_labels a b =
    nat_eq (length a) (length b) && all (λ entry. has_value (find_label entry.0 b) entry.1) a

-- The loop over the image's labels, with the current ones that are left.
unfoldable pub labels_differ : Labels → Labels → Labels → Result Bool
unfolding find_label delete_label
labels_differ new current [] = ok (not (same_labels new current))
labels_differ new current ((k, v) ∷ rest) = elim (find_label k new) [
  | some asked ↦ if v == asked then labels_differ new current rest else ok true
  | none ↦ elim (find_label k current) [
    | some _ ↦ labels_differ new (delete_label k current) rest
    | none ↦ err (key_error k)
  ]
]

abbrev pub begin_env : String × String → Option Labels → Option Labels
begin_env entry none = none
begin_env entry (some env) = some (entry ∷ env)

-- `current_env`; a text without `=` does not unpack.
unfoldable pub current_env : List String → Option Labels
unfolding split_first
current_env [] = some []
current_env (kv ∷ rest) = elim (split_first 61 kv) [
  | none ↦ none
  | some entry ↦ begin_env entry (current_env rest)
]

-- A later entry of the key replaces an earlier one.
abbrev pub last_value : String → Labels → Option String
last_value key [] = none
last_value key ((k, v) ∷ rest) = elim (last_value key rest) [
  | some later ↦ some later
  | none ↦ if k == key then some v else none
]

abbrev pub is_current : Option String → Value → Bool
is_current none v = false
is_current (some s) v = value_eq (text s) v

unfoldable pub compare_environment : Params → ContainerInfo → Result Bool
unfolding current_env
compare_environment params info =
    if is_empty params.environment then ok false else elim (current_env info.env) [
      | none ↦ err (value_error "not enough values to unpack (expected 2, got 1)")
      | some env ↦
          ok (not (all (λ entry. is_current (last_value entry.0 env) entry.1) params.environment))
    ]

abbrev pub same_texts : List String → List String → Bool
same_texts [] [] = true
same_texts (a ∷ as') (b ∷ bs) = a == b && same_texts as' bs
same_texts _ _ = false

abbrev pub command_differs : Option (List String) → ContainerInfo → Result Bool
command_differs none info = err (value_error "No closing quotation")
command_differs (some []) info = err (external "list index out of range")
command_differs (some (path ∷ args)) info =
    ok (not (path == info.path && same_texts args info.args))

unfoldable pub compare_command : Params → ContainerInfo → Result Bool
unfolding shlex_split
compare_command params info = elim params.command [
  | none ↦ ok false
  | some command ↦ command_differs (shlex_split command) info
]
