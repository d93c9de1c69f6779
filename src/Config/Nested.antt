-- ===== src/Config/Nested.antt =====
-- ansible/action_plugins/merge_yaml.py: update_nested_conf, and the loop over the sources. The items
-- of a list and the other values are not looked into: they are of any type. The documents are those
-- without aliases for lists and mappings: in the source one that an alias puts under two keys is one
-- object, which a merge changes under both keys, while here each stands under one key.
pub mod Overlay
use irnmn.Prelude.{
  String, Bool, true, false, ◌==◌, ◌++◌, List, [], ◌∷◌, ◌&◌, Option, none, some, if◌then◌else◌,
}
use irnmn.Effect.{Result, ok, err, module_failed, external}

mutual
  -- A value of a YAML document.
  pub data Conf (E : Type 0) : Type 0 where
    plain : E → Conf E
    items : List E → Conf E
    mapping : Fields E → Conf E

  -- The entries of a mapping.
  pub data Fields (E : Type 0) : Type 0 where
    no_field : Fields E
    field : String → Conf E → Fields E → Fields E

module _ {E : Type 0} where
  -- `conf.get(key)`
  unfoldable pub get_field : String → Fields E → Option (Conf E)
  get_field key no_field = none
  get_field key (field k v rest) = if k == key then some v else get_field key rest

  -- `conf[key] = value`
  unfoldable pub put_field : String → Conf E → Fields E → Fields E
  put_field key v no_field = field key v no_field
  put_field key v (field k u rest) =
      if k == key then field k v rest else field k u (put_field key v rest)

  abbrev pub put_result : String → Fields E → Result (Conf E) → Result (Fields E)
  put_result key conf (err e) = err e
  put_result key conf (ok v) = ok (put_field key v conf)

  abbrev pub as_mapping : Result (Fields E) → Result (Conf E)
  as_mapping (err e) = err e
  as_mapping (ok fields) = ok (mapping fields)

  abbrev pub and_next : Result (Fields E) → (Fields E → Result (Fields E)) → Result (Fields E)
  and_next (err e) next = err e
  and_next (ok fields) next = next fields

  -- A value that is no mapping, over what is there; a list that is extended stands under no other
  -- key.
  abbrev pub replace_value : Bool → String → Option (Conf E) → Conf E → Result (Conf E)
  replace_value true key (some (items old)) (items new) = ok (items (old ++ new))
  replace_value true key (some (items old)) v =
      err (module_failed ("Failure merging key `" & key & "`"))
  replace_value extend_lists key found v = ok v

  -- Only a mapping takes the entries of a mapping.
  abbrev pub not_a_mapping : Conf E → Fields E → Result (Conf E)
  not_a_mapping found no_field = ok found
  not_a_mapping found (field k v rest) = err (external "object does not support item assignment")

  unfoldable mutual
    unfolding get_field put_field

    pub merge_value : Bool → String → Option (Conf E) → Conf E → Result (Conf E)
    merge_value extend_lists key found (plain a) = replace_value extend_lists key found (plain a)
    merge_value extend_lists key found (items xs) = replace_value extend_lists key found (items xs)
    merge_value extend_lists key none (mapping update) =
        as_mapping (update_nested_conf extend_lists no_field update)
    merge_value extend_lists key (some (mapping conf)) (mapping update) =
        as_mapping (update_nested_conf extend_lists conf update)
    merge_value extend_lists key (some (plain a)) (mapping update) = not_a_mapping (plain a) update
    merge_value extend_lists key (some (items xs)) (mapping update) =
        not_a_mapping (items xs) update

    pub update_nested_conf : Bool → Fields E → Fields E → Result (Fields E)
    update_nested_conf extend_lists conf no_field = ok conf
    update_nested_conf extend_lists conf (field k v rest) =
        and_next (put_result k conf (merge_value extend_lists k (get_field k conf) v))
          (λ conf. update_nested_conf extend_lists conf rest)

  -- The loop over the sources that were read, each a mapping or empty.
  unfoldable pub merge_sources : Bool → Fields E → List (Fields E) → Result (Fields E)
  unfolding update_nested_conf
  merge_sources extend_lists output [] = ok output
  merge_sources extend_lists output (source ∷ sources) =
      and_next (update_nested_conf extend_lists output source)
        (λ output. merge_sources extend_lists output sources)
