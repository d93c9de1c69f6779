-- ===== src/Container/Module.antt =====
-- `generate_module` and `main` of ansible/library/kolla_container.py. The
-- arguments have passed AnsibleModule's checks.
pub mod Effective
pub mod Outcome
use irnmn.Prelude.{
  ℕ, String, Bool, true, false, not, ◌||◌, ◌==◌, any, nat_eq, is_blank, is_empty, List, [], ◌∷◌,
  Option, none, some, if◌then◌else◌,
}
use irnmn.Text.Numbers.{parse}
use irnmn.Values.{Dict, update}
use irnmn.Effect.{
  Exception, Result, ok, err, Exec, pure, message, module_failed, external, ◌>>=◌, ◌>>◌,
}
use irnmn.Container.Params.{Params}
use irnmn.Container.Systemd.{SystemdHost, ContainerUnit, UnitParams, container_unit}
use irnmn.Container.Engine.{Docker, Output, Run}
use irnmn.Container.Podman.Engine.{Podman}
use irnmn.Container.Worker.{Worker, docker_worker, podman_worker}

-- The value of an argument, or None.
pub data Arg : Type 0 where
  no_arg : Arg
  text_arg : String → Arg
  number_arg : ℕ → Arg
  flag_arg : Bool → Arg
  list_arg : List String → Arg
  dict_arg : Dict → Arg

abbrev pub Args : Type 0
Args = List (String × Arg)

unfoldable pub get_arg : String → Args → Option Arg
get_arg key [] = none
get_arg key ((k, v) ∷ args) = if k == key then some v else get_arg key args

unfoldable pub put_arg : String → Arg → Args → Args
put_arg key v [] = (key, v) ∷ []
put_arg key v ((k, u) ∷ args) = if k == key then (k, v) ∷ args else (k, u) ∷ put_arg key v args

-- `args.pop(key, None)`
unfoldable pub pop_arg : String → Args → Args
pop_arg key [] = []
pop_arg key ((k, v) ∷ args) =
    let rest = pop_arg key args in if k == key then rest else (k, v) ∷ rest

-- `common_options_defaults`
abbrev pub common_options_defaults : Args
common_options_defaults =
    ("auth_email", no_arg)
    ∷ ("auth_password", no_arg)
    ∷ ("auth_registry", no_arg)
    ∷ ("auth_username", no_arg)
    ∷ ("environment", no_arg)
    ∷ ("restart_policy", no_arg)
    ∷ ("restart_retries", number_arg 10)
    ∷ ("api_version", text_arg "auto")
    ∷ ("graceful_timeout", number_arg 10)
    ∷ ("client_timeout", number_arg 120)
    ∷ ("container_engine", text_arg "docker")
    ∷ []

abbrev pub or_text : String → Option ℕ → Arg
or_text s none = text_arg s
or_text s (some n) = number_arg n

-- A text of digits becomes its number.
unfoldable pub as_number : Arg → Arg
unfolding parse
as_number (text_arg s) = or_text s (parse s)
as_number v = v

abbrev pub put_default : String → Option Arg → Args → Args
put_default key none new_args = new_args
put_default key (some no_arg) new_args = new_args
put_default key (some v) new_args = put_arg key v new_args

-- An argument that is None: a common option, or its default.
abbrev pub merge_missing : String → Option Arg → Option Arg → Args → Args
merge_missing key none common new_args = new_args
merge_missing key (some default) (some v) new_args = put_arg key (as_number v) new_args
merge_missing key (some default) none new_args = put_default key (some default) new_args

unfoldable pub merge_arg : String → Arg → Args → Args
unfolding get_arg put_arg as_number
merge_arg key no_arg new_args =
    merge_missing key (get_arg key common_options_defaults) (get_arg key new_args) new_args
merge_arg key v new_args = put_arg key v new_args

-- The loop over the module's arguments.
unfoldable pub merge_args : Args → Args → Args
unfolding merge_arg
merge_args [] new_args = new_args
merge_args ((key, v) ∷ params) new_args = merge_args params (merge_arg key v new_args)

abbrev pub is_falsy : Option Arg → Bool
is_falsy none = true
is_falsy (some no_arg) = true
is_falsy (some (text_arg s)) = is_blank s
is_falsy (some (number_arg n)) = nat_eq n 0
is_falsy (some (flag_arg b)) = not b
is_falsy (some (list_arg items)) = is_empty items
is_falsy (some (dict_arg d)) = is_empty d

-- `value or dict()`; another value has no method `update`, or is none that it takes.
abbrev pub dict_or_empty : Option Arg → Result Dict
dict_or_empty (some (dict_arg d)) = ok d
dict_or_empty v = if is_falsy v then ok [] else err (external "a mapping is required")

unfoldable pub drop_if_falsy : String → Args → Args
unfolding get_arg pop_arg
drop_if_falsy key args = if is_falsy (get_arg key args) then pop_arg key args else args

abbrev pub with_environment : Args → Result Dict → Result Dict → Result Args
with_environment new_args (err e) own = err e
with_environment new_args (ok common) (err e) = err e
with_environment new_args (ok common) (ok own) = ok (
    drop_if_falsy "ipc_mode" (
      drop_if_falsy "pid_mode"
        (put_arg "environment" (dict_arg (update common own)) (pop_arg "environment" new_args))))

-- The module's arguments, by the common options and the arguments of the task.
unfoldable pub generate_module : Args → Args → Result Args
unfolding merge_args drop_if_falsy update put_arg pop_arg get_arg
generate_module common_options params =
    let new_args = merge_args (pop_arg "environment" params) common_options in
    with_environment new_args (dict_or_empty (get_arg "environment" new_args))
      (dict_or_empty (get_arg "environment" params))

pub data Action : Type 0 where
  compare_container_action compare_image_action create_volume_action ensure_image_action : Action
  pull_image_action recreate_or_restart_action remove_container_action remove_image_action : Action
  remove_volume_action restart_container_action start_container_action stop_container_action :
      Action
  stop_and_remove_action : Action

-- How the module ends: with `changed`, the answer and the worker's `result`, which is an output or the
-- attributes of a volume; by a `fail_json` of the worker; or by that of `main`, which says that it
-- changed something.
pub data Exit : Type 0 where
  exited : Bool → Bool → Option Output → Option String → Exit
  stopped : String → Exit
  failed : String → Option Output → Option String → Exit

-- `bool(None)`
abbrev pub no_result : {W : Type 0} → Exec W (Unit {0}) → Exec W Bool
no_result m = m >> pure false

abbrev pub exit_of : {W : Type 0} → Result Bool × Run W → Exit × W
exit_of (ok answer, r) = (exited r.changed answer r.result r.volume, r.world)
exit_of (err (module_failed m), r) = (stopped m, r.world)
exit_of (err e, r) = (failed (message e) r.result r.volume, r.world)

-- `getattr(cw, action)()`
unfoldable pub perform : {W : Type 0} → Worker W → Action → Exec (Run W) Bool
perform worker compare_container_action = worker.compare_container
perform worker compare_image_action = worker.compare_image
perform worker create_volume_action = no_result worker.create_volume
perform worker ensure_image_action = no_result worker.ensure_image
perform worker pull_image_action = no_result worker.pull_image
perform worker recreate_or_restart_action = no_result worker.recreate_or_restart_container
perform worker remove_container_action = no_result worker.remove_container
perform worker remove_image_action = no_result worker.remove_image
perform worker remove_volume_action = no_result worker.remove_volume
perform worker restart_container_action = no_result worker.restart_container
perform worker start_container_action = no_result worker.start_container
perform worker stop_container_action = no_result worker.stop_container
perform worker stop_and_remove_action = no_result worker.stop_and_remove_container

abbrev pub fresh_run : {W : Type 0} → W → Run W
fresh_run w = record { changed = false; result = none; volume = none; world = w }

module _ {W : Type 0} (docker : Docker W) (podman : Podman W) (params : Params)
    (host : SystemdHost W) where
  unfoldable pub make_worker : String → ContainerUnit → Worker W
  unfolding docker_worker podman_worker
  make_worker engine u =
      if engine == "docker"
      then docker_worker docker params host u
      else podman_worker podman params host u

  abbrev pub run_with : String → Result ContainerUnit → Action → W → Exit × W
  run_with engine (err e) action w = (failed (message e) none none, w)
  run_with engine (ok u) action w = exit_of (perform (make_worker engine u) action (fresh_run w))

  -- `main`, once the arguments are there.
  unfoldable pub main : UnitParams → Action → W → Exit × W
  unfolding container_unit perform make_worker
  main unit_params action w =
      run_with unit_params.container_engine (container_unit unit_params) action w
