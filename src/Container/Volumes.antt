-- ===== src/Container/Volumes.antt =====
-- `generate_volumes` and `generate_tmpfs` of kolla_container_worker.py.
use irnmn.Prelude.{String, not, ◌||◌, ◌==◌, ◌++◌, is_blank, List, [], ◌∷◌, select, if◌then◌else◌}
use irnmn.Text.Split.{split_all, has_char}
use irnmn.Effect.{Result, ok, err, external}

pub record Bind : Type 0 where
  pub bind : String
  pub mode : String

-- `vol_list` and `vol_dict`
pub record Volumes : Type 0 where
  pub vol_list : List String
  pub vol_dict : List (String × Bind)

-- `vol_dict.update({source: bind})`
unfoldable pub put_bind : String → Bind → List (String × Bind) → List (String × Bind)
put_bind source bind [] = (source, bind) ∷ []
put_bind source bind ((s, b) ∷ rest) =
    if s == source then (s, bind) ∷ rest else (s, b) ∷ put_bind source bind rest

abbrev pub add_bind : String → String → String → Volumes → Result Volumes
add_bind source target mode volumes = ok (record {
  vol_list = volumes.vol_list ++ (target ∷ []);
  vol_dict = put_bind source (record { bind = target; mode = mode }) volumes.vol_dict;
})

-- A volume by its parts at the colons; the mode may be left out where the second part is no mode of
-- an anonymous volume.
abbrev pub add_parts : List String → Volumes → Result Volumes
add_parts (source ∷ target ∷ []) volumes =
    if not (has_char 47 source) || has_char 47 target
    then add_bind source target "rw" volumes
    else err (external "list index out of range")
add_parts (source ∷ target ∷ mode ∷ rest) volumes = add_bind source target mode volumes
add_parts _ volumes = err (external "list index out of range")

unfoldable pub add_volume : String → Volumes → Result Volumes
unfolding put_bind split_all has_char
add_volume vol volumes =
    if is_blank vol
    then ok volumes
    else if not (has_char 58 vol)
    then ok (record { vol_list = volumes.vol_list ++ (vol ∷ []); vol_dict = volumes.vol_dict })
    else add_parts (split_all 58 vol) volumes

abbrev pub and_then : Result Volumes → (Volumes → Result Volumes) → Result Volumes
and_then (ok volumes) next = next volumes
and_then (err e) next = err e

unfoldable pub volumes_from_list : List String → Volumes → Result Volumes
unfolding add_volume
volumes_from_list [] volumes = ok volumes
volumes_from_list (vol ∷ rest) volumes =
    and_then (add_volume vol volumes) (λ volumes. volumes_from_list rest volumes)

-- Without volumes both results are `None`, which the callers read as empty ones.
unfoldable pub generate_volumes : List String → Result Volumes
unfolding volumes_from_list
generate_volumes volumes = volumes_from_list volumes (record { vol_list = []; vol_dict = [] })

-- The empty texts are left out.
abbrev pub generate_tmpfs : List String → List String
generate_tmpfs = select (λ t. not (is_blank t))
