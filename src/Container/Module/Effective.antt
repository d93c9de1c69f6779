-- ===== src/Container/Module/Effective.antt =====
-- The value that an argument has after the merge.
use irnmn.Prelude.{
  String, ◌≡◌, refl, Bool, false, ◌||◌, ◌==◌, eq_iff, eq_refl, arith, ◌∙◌, [], ◌∷◌, ◌++◌, Option,
  none, some, if◌then◌else◌,
}
use irnmn.Container.Module.{
  Arg, no_arg, text_arg, number_arg, flag_arg, list_arg, dict_arg, Args, get_arg, put_arg,
  common_options_defaults, as_number, put_default, merge_missing, merge_arg, merge_args,
}

abbrev pub names : String → Args → Bool
names key [] = false
names key ((k, v) ∷ args) = k == key || names key args

-- The default of a common option, if it is one and its default is not None.
abbrev pub default_of : Option Arg → Option Arg
default_of none = none
default_of (some no_arg) = none
default_of (some v) = some v

-- The value of an argument: the task's own; or the common option's, which is read as a number where
-- the argument has a default; or the default.
abbrev pub effective : Arg → Option Arg → Option Arg → Option Arg
effective no_arg none common = common
effective no_arg (some default) (some v) = some (as_number v)
effective no_arg (some default) none = default_of (some default)
effective v default common = some v

get_arg-put_arg :
    (k j : String) (v : Arg) (args : Args)
    → get_arg j (put_arg k v args) ≡ (if k == j then some v else get_arg j args)
unfolding get_arg put_arg
get_arg-put_arg k j v [] = refl
get_arg-put_arg k j v ((i, u) ∷ args) =
    ground (arith, eq_iff k j, eq_iff i k, eq_iff i j, get_arg-put_arg k j v args)

put-same : (k : String) (v : Arg) (args : Args) → get_arg k (put_arg k v args) ≡ some v
put-same k v args = ground (arith, get_arg-put_arg k k v args, eq_refl k)

put-other :
    (k j : String) (v : Arg) (args : Args)
    → (k == j) ≡ false
    → get_arg j (put_arg k v args) ≡ get_arg j args
put-other k j v args other = ground (arith, get_arg-put_arg k j v args, other)

default-same :
    (k : String) (default : Arg) (args : Args)
    → get_arg k args ≡ none
    → get_arg k (put_default k (some default) args) ≡ default_of (some default)
default-same k no_arg args absent = absent
default-same k (text_arg s) args absent = put-same k (text_arg s) args
default-same k (number_arg n) args absent = put-same k (number_arg n) args
default-same k (flag_arg b) args absent = put-same k (flag_arg b) args
default-same k (list_arg items) args absent = put-same k (list_arg items) args
default-same k (dict_arg d) args absent = put-same k (dict_arg d) args

default-other :
    (k j : String) (default : Option Arg) (args : Args)
    → (k == j) ≡ false
    → get_arg j (put_default k default args) ≡ get_arg j args
default-other k j none args other = refl
default-other k j (some no_arg) args other = refl
default-other k j (some (text_arg s)) args other = put-other k j (text_arg s) args other
default-other k j (some (number_arg n)) args other = put-other k j (number_arg n) args other
default-other k j (some (flag_arg b)) args other = put-other k j (flag_arg b) args other
default-other k j (some (list_arg items)) args other = put-other k j (list_arg items) args other
default-other k j (some (dict_arg d)) args other = put-other k j (dict_arg d) args other

missing-same :
    (k : String) (default common : Option Arg) (args : Args)
    → get_arg k args ≡ common
    → get_arg k (merge_missing k default common args) ≡ effective no_arg default common
missing-same k none common args e = e
missing-same k (some default) (some v) args e = put-same k (as_number v) args
missing-same k (some default) none args e = default-same k default args e

missing-other :
    (k j : String) (default common : Option Arg) (args : Args)
    → (k == j) ≡ false
    → get_arg j (merge_missing k default common args) ≡ get_arg j args
missing-other k j none common args other = refl
missing-other k j (some default) (some v) args other = put-other k j (as_number v) args other
missing-other k j (some default) none args other = default-other k j (some default) args other

merge_arg-same :
    (k : String) (v : Arg) (args : Args)
    → get_arg k (merge_arg k v args)
      ≡ effective v (get_arg k common_options_defaults) (get_arg k args)
unfolding merge_arg
merge_arg-same k no_arg args =
    missing-same k (get_arg k common_options_defaults) (get_arg k args) args refl
merge_arg-same k (text_arg s) args = put-same k (text_arg s) args
merge_arg-same k (number_arg n) args = put-same k (number_arg n) args
merge_arg-same k (flag_arg b) args = put-same k (flag_arg b) args
merge_arg-same k (list_arg items) args = put-same k (list_arg items) args
merge_arg-same k (dict_arg d) args = put-same k (dict_arg d) args

merge_arg-other :
    (k j : String) (v : Arg) (args : Args)
    → (k == j) ≡ false
    → get_arg j (merge_arg k v args) ≡ get_arg j args
unfolding merge_arg
merge_arg-other k j no_arg args other =
    missing-other k j (get_arg k common_options_defaults) (get_arg k args) args other
merge_arg-other k j (text_arg s) args other = put-other k j (text_arg s) args other
merge_arg-other k j (number_arg n) args other = put-other k j (number_arg n) args other
merge_arg-other k j (flag_arg b) args other = put-other k j (flag_arg b) args other
merge_arg-other k j (list_arg items) args other = put-other k j (list_arg items) args other
merge_arg-other k j (dict_arg d) args other = put-other k j (dict_arg d) args other

merge_args-other :
    (j : String) (params args : Args)
    → names j params ≡ false
    → get_arg j (merge_args params args) ≡ get_arg j args
unfolding merge_args
merge_args-other j [] args absent = refl
merge_args-other j ((k, v) ∷ params) args absent =
    merge_args-other j params (merge_arg k v args) (ground (arith, absent))
    ∙ merge_arg-other k j v args (ground (arith, absent))

-- The merge gives an argument that the module has once its effective value: the task's own value;
-- if that is None, the common option, as a number where it is a text of digits and the argument has
-- an entry in the defaults; or else the default.
pub merge_args-effective :
    (key : String) (v : Arg) (before after common_options : Args)
    → names key before ≡ false
    → names key after ≡ false
    → get_arg key (merge_args (before ++ ((key, v) ∷ after)) common_options)
      ≡ effective v (get_arg key common_options_defaults) (get_arg key common_options)
unfolding merge_args
merge_args-effective key v [] after common_options first last =
    merge_args-other key after (merge_arg key v common_options) last
    ∙ merge_arg-same key v common_options
merge_args-effective key v ((k, u) ∷ before) after common_options first last =
    let here : get_arg key (merge_arg k u common_options) ≡ get_arg key common_options =
      merge_arg-other k key u common_options (ground (arith, first)) in
    let later =
      merge_args-effective key v before after (merge_arg k u common_options) (ground (arith, first))
        last in
    rw later (rw here refl)
