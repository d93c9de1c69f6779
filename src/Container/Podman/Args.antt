-- ===== src/Container/Podman/Args.antt =====
-- The arguments that kolla_podman_worker.py gives to the engine.
use Prim.Native.Char.{code}
use Prim.Native.String.{String}
use irnmn.Prelude.{
  Bool, true, false, not, ◌||◌, ◌==◌, ◌++◌, is_blank, nat_eq, all, select, map, List, [], ◌∷◌, ◌&◌,
  Option, none, some, if◌then◌else◌,
}
use irnmn.Text.{strip}
use irnmn.Text.Split.{split_all, has_char}
use irnmn.Text.Shlex.{shlex_split}
use irnmn.Values.{to_text}
use irnmn.Effect.{Result, ok, err, value_error, module_failed}
use irnmn.Container.Params.{Params, Dimension, Ulimit, HealthItem, amount, test_words}
use irnmn.Container.Image.{parse_image}
use irnmn.Container.Volumes.{Bind, put_bind}
use irnmn.Container.Healthcheck
use irnmn.Container.Healthcheck.{Items}
use irnmn.Container.Dimensions.{dimension_map, is_supported}
use irnmn.Container.Docker.Create.{format_env_vars}
use irnmn.Container.Podman.Engine.{Mount, bind_mount, devpts_mount, ContainerArgs, ImageArgs}

-- `mounts` and `filtered_volumes`
pub record Split : Type 0 where
  pub mounts : List Mount
  pub volumes : List (String × Bind)

abbrev pub starts_with_slash : String → Bool
starts_with_slash String.[] = false
starts_with_slash (String.◌∷◌ c s) = nat_eq (code c) 47

-- A bind mount by its parts, `mode` being none of them or one.
abbrev pub bind_item : String → String → String → Mount
bind_item source target mode =
    bind_mount source target (mode == "ro") (if mode == "shared" then "shared" else "rprivate")

abbrev pub add_mount : Mount → Split → Split
add_mount mount split = record split { mounts = split.mounts ++ (mount ∷ []) }

abbrev pub add_named : String → String → String → Split → Split
add_named source target mode split =
    if source == "devpts" then add_mount (devpts_mount source target) split else record split {
      volumes = put_bind source (record { bind = target; mode = mode }) split.volumes;
    }

abbrev pub add_parts : Bool → List String → String → Split → Result Split
add_parts true (source ∷ target ∷ []) item split = ok (add_mount (bind_item source target "") split)
add_parts true (source ∷ target ∷ mode ∷ []) item split =
    ok (add_mount (bind_item source target mode) split)
add_parts false (source ∷ target ∷ []) item split = ok (add_named source target "rw" split)
add_parts false (source ∷ target ∷ mode ∷ []) item split = ok (add_named source target mode split)
add_parts is_bind parts item split = err (module_failed ("Wrong format of volume: " & item))

abbrev pub and_split : Result Split → (Split → Result Split) → Result Split
and_split (err e) next = err e
and_split (ok split) next = next split

-- The loop over the volumes that are not blank; a path is a bind, anything else a volume.
unfoldable pub parse_items : List String → Split → Result Split
unfolding split_all put_bind
parse_items [] split = ok split
parse_items (item ∷ rest) split =
    and_split (add_parts (starts_with_slash item) (split_all 58 item) item split)
      (λ split. parse_items rest split)

unfoldable pub parse_volumes : List String → Result Split
unfolding parse_items strip
parse_volumes volumes =
    parse_items (select (λ item. not (is_blank (strip item))) volumes)
      (record { mounts = []; volumes = [] })

-- Podman's default ulimits, which are left out.
abbrev pub is_default_ulimit : String → Bool
is_default_ulimit name = name == "RLIMIT_NOFILE" || name == "RLIMIT_NPROC"

abbrev pub set_ulimits : Option (List Ulimit) → Option (List Ulimit)
set_ulimits none = none
set_ulimits (some ulimits) = some (select (λ u. not (is_default_ulimit u.name)) ulimits)

-- `parse_dimensions`; the ulimits stand beside the other dimensions.
unfoldable pub parse_dimensions :
    List (String × Dimension)
    → Option (List Ulimit)
    → Result (List (String × Dimension) × Option (List Ulimit))
parse_dimensions dimensions ulimits =
    if all (λ entry. is_supported dimension_map entry.0 || entry.0 == "kernel_memory") dimensions
    then ok (dimensions, set_ulimits ulimits)
    else err (module_failed "Unsupported dimensions")

abbrev pub is_start_period : String × HealthItem → Bool
is_start_period entry = entry.0 == "start_period"

-- The start period under its new key, unless it is zero.
abbrev pub renamed : List (String × HealthItem) → Items
renamed [] = []
renamed ((key, amount n) ∷ rest) = if nat_eq n 0 then [] else ("StartPeriod", amount n) ∷ []
renamed ((key, test_words ws) ∷ rest) = ("StartPeriod", test_words ws) ∷ []

abbrev pub rename_items : Result (Option Items) → Result (Option Items)
rename_items (ok (some items)) = ok (
    some (
      select (λ entry. not (is_start_period entry)) items
      ++ renamed (select is_start_period items)))
rename_items r = r

unfoldable pub parse_healthcheck : Params → Result (Option Items)
unfolding Healthcheck.parse_healthcheck
parse_healthcheck params = rename_items (Healthcheck.parse_healthcheck params.healthcheck)

abbrev pub words_or_error : Option (List String) → Result (Option (List String))
words_or_error none = err (value_error "No closing quotation")
words_or_error (some words) = ok (some words)

-- The command in words, if there is one.
abbrev pub command_of : Option String → Result (Option (List String))
command_of none = ok none
command_of (some command) =
    if is_blank command then ok none else words_or_error (shlex_split command)

abbrev pub args_of :
    Params
    → Result (Option (List String))
    → Result Split
    → Result (Option Items)
    → Result (List (String × Dimension) × Option (List Ulimit))
    → Result ContainerArgs
args_of params (err e) split healthcheck dimensions = err e
args_of params (ok command) (err e) healthcheck dimensions = err e
args_of params (ok command) (ok split) (err e) dimensions = err e
args_of params (ok command) (ok split) (ok healthcheck) (err e) = err e
args_of params (ok command) (ok split) (ok healthcheck) (ok (dimensions, ulimits)) = ok (record {
  command = command;
  mounts = split.mounts;
  volumes = split.volumes;
  environment = map (λ entry. (entry.0, to_text entry.1)) (format_env_vars params);
  healthcheck = healthcheck;
  dimensions = dimensions;
  ulimits = ulimits;
  cap_add = if params.privileged then params.cap_add else params.cap_add ++ ("AUDIT_WRITE" ∷ []);
  stop_timeout = params.graceful_timeout;
  cgroupns = params.cgroupns_mode;
})

unfoldable pub prepare_container_args : Params → Result ContainerArgs
unfolding parse_volumes parse_healthcheck parse_dimensions format_env_vars shlex_split
prepare_container_args params =
    args_of params (command_of params.command) (parse_volumes params.volumes)
      (parse_healthcheck params) (parse_dimensions params.dimensions params.ulimits)

-- An option that is null or empty is not given.
abbrev pub if_truthy : Option String → Option String
if_truthy none = none
if_truthy (some s) = if is_blank s then none else some s

abbrev pub in_registry : Option String → String → Option String
in_registry none image = none
in_registry (some registry) image =
    if has_char 47 image then none else some (registry & "/" & image)

unfoldable pub prepare_image_args : Params → ImageArgs
unfolding parse_image has_char
prepare_image_args params =
    let (image, tag) = parse_image params.image in
    record {
      repository = image;
      tag = tag;
      tls_verify = params.tls_verify;
      username = if_truthy params.auth_username;
      image = in_registry (if_truthy params.auth_registry) image;
    }
