-- ===== src/Container/Docker/Create.antt =====
-- `create_container` of kolla_docker_worker.py and the options that it gives to the engine.
use irnmn.Prelude.{String, Bool, ◌||◌, ◌==◌, all, List, map, Option, if◌then◌else◌}
use irnmn.Text.{replace}
use irnmn.Values.{Value, null, text, Dict, put}
use irnmn.Effect.{Result, ok, err, Exec, pure, lift, module_failed, ◌>>=◌, ◌>>◌}
use irnmn.Container.Params.{Params, Dimension}
use irnmn.Container.Systemd.{SystemdHost, ContainerUnit}
use irnmn.Container.Systemd
use irnmn.Container.Volumes.{Volumes, generate_volumes, generate_tmpfs}
use irnmn.Container.Healthcheck.{Items, parse_healthcheck}
use irnmn.Container.Dimensions.{dimension_map, is_supported}
use irnmn.Container.Compare.{is_option}
use irnmn.Container.Engine.{CreateOptions, Docker, Run, call, set_changed, or_changed}
use irnmn.Container.Docker.Images.{create_container_volumes}

abbrev pub not_null : Value → Value
not_null null = text ""
not_null value = value

-- `_format_env_vars`, with `_inject_env_var`. The update of the parameter itself is not read again.
unfoldable pub format_env_vars : Params → Dict
unfolding put replace
format_env_vars params =
    map (λ entry. (entry.0, not_null entry.1))
      (put "KOLLA_SERVICE_NAME" (text (replace "_" "-" params.name)) params.environment)

-- `parse_dimensions`; the ulimits stand beside the other dimensions.
unfoldable pub parse_dimensions : List (String × Dimension) → Result (List (String × Dimension))
parse_dimensions dimensions =
    if all (λ entry. is_supported dimension_map entry.0 || entry.0 == "kernel_memory") dimensions
    then ok dimensions
    else err (module_failed "Unsupported dimensions")

abbrev pub options_of :
    Params
    → Result Volumes
    → Result (List (String × Dimension))
    → Result (Option Items)
    → Result CreateOptions
options_of params (err e) dimensions healthcheck = err e
options_of params (ok volumes) (err e) healthcheck = err e
options_of params (ok volumes) (ok dimensions) (err e) = err e
options_of params (ok volumes) (ok dimensions) (ok healthcheck) = ok (record {
  environment = format_env_vars params;
  volumes = volumes.vol_list;
  binds = volumes.vol_dict;
  tmpfs = generate_tmpfs params.tmpfs;
  dimensions = dimensions;
  ulimits = params.ulimits;
  cgroupns_mode = params.cgroupns_mode;
  healthcheck = healthcheck;
})

unfoldable pub build_container_options : Params → Result CreateOptions
unfolding format_env_vars parse_dimensions generate_volumes parse_healthcheck
build_container_options params =
    options_of params (generate_volumes params.volumes) (parse_dimensions params.dimensions)
      (parse_healthcheck params.healthcheck)

abbrev pub is_oneshot : Params → Bool
is_oneshot params = is_option params.restart_policy "oneshot"

module _ {W : Type 0} (docker : Docker W) (params : Params) (host : SystemdHost W)
    (u : ContainerUnit) where
  unfoldable pub create_container : Exec (Run W) (Unit {0})
  unfolding create_container_volumes build_container_options Systemd.create_unit_file
  create_container = do
    set_changed
    create_container_volumes docker params params.volumes
    options ← lift (build_container_options params)
    call (docker.create_container params options)
    if is_oneshot params
        then pure tt
        else (do created ← call (Systemd.create_unit_file host u); or_changed created)
