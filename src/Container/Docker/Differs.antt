-- ===== src/Container/Docker/Differs.antt =====
-- The comparisons of kolla_docker_worker.py that call the engine, and those that DockerWorker has of
-- its own or inherits and that call its methods.
pub mod Image
pub mod Same
pub mod Matches
use irnmn.Prelude.{
  ℕ, String, Bool, true, false, not, ◌&&◌, ◌||◌, ◌==◌, nat_eq, leb, ltb, List, [], ◌∷◌, Option,
  none, some, if◌then◌else◌,
}
use irnmn.Effect.{
  Exception, Result, ok, err, Exec, pure, raise, lift, api_error, external, ◌>>=◌, ◌>>◌,
}
use irnmn.Container.Params.{Params, ContainerInfo, ImageEntry}
use irnmn.Container.Systemd.{SystemdHost, ContainerUnit, check_unit_change}
use irnmn.Container.Volumes.{Volumes, generate_volumes}
use irnmn.Container.Healthcheck.{parse_healthcheck}
use irnmn.Container.Dimensions.{compare_dimensions}
use irnmn.Container.Compare.{
  compare_ipc_mode, compare_pid_mode, compare_cap_add, compare_security_opt, compare_cgroupns_mode,
  compare_privileged, compare_tmpfs, compare_volumes_from, volumes_differ, compare_container_state,
}
use irnmn.Container.Compare.Parsing.{Labels}
use irnmn.Container.Differs.{Comparisons, found_differs}
use irnmn.Container.Engine.{Docker, Run, call, set_changed, ◌or_else◌}
use irnmn.Container.Docker.Images.{check_image, check_container, get_container_info, is_found}

abbrev pub differs_in : Result Volumes → ContainerInfo → Result Bool
differs_in (err e) info = err e
differs_in (ok volumes) info = ok (volumes_differ volumes info)

unfoldable pub compare_volumes : Params → ContainerInfo → Result Bool
unfolding generate_volumes volumes_differ
compare_volumes params info = differs_in (generate_volumes params.volumes) info

abbrev pub same_pair : String × String → String × String → Bool
same_pair (a, b) (c, d) = a == c && b == d

-- Exit codes of the check: unchanged; changed, or an unstable container; an error.
abbrev pub exit_differs : ℕ → Result Bool
exit_differs code =
    if nat_eq code 0
    then ok false
    else if nat_eq code 1 || nat_eq code 137
    then ok true
    else err (external "Failed to compare container configuration")

-- A client error means that the container cannot be used for the check.
abbrev pub config_differs : {W : Type 0} → Result ℕ × W → Result Bool × W
config_differs (ok code, w) = (exit_differs code, w)
config_differs (err (api_error status m), w) =
    if leb 400 status && ltb status 500 then (ok true, w) else (err (api_error status m), w)
config_differs (err e, w) = (err e, w)

module _ {W : Type 0} (docker : Docker W) (params : Params) where
  abbrev pub image_differs : Option ImageEntry → ContainerInfo → Bool
  image_differs none info = true
  image_differs (some image) info =
      not (image.id == info.image_id)
      || not (
          same_pair (docker.parse_repository_tag info.config_image)
            (docker.parse_repository_tag params.image))

  unfoldable pub compare_image : ContainerInfo → Exec (Run W) Bool
  unfolding check_image
  compare_image info = do image ← check_image docker params; pure (image_differs image info)

  abbrev pub image_of_found : Option ContainerInfo → Exec (Run W) Bool
  image_of_found none = pure true
  image_of_found (some info) = compare_image info

  -- The action `compare_image`, which inspects the container itself.
  unfoldable pub compare_found_image : Exec (Run W) Bool
  unfolding get_container_info compare_image
  compare_found_image = get_container_info docker params >>= image_of_found

  abbrev pub labels_of : Option ImageEntry → Result Labels
  labels_of none = err (external "'NoneType' object has no attribute 'get'")
  labels_of (some image) = ok image.labels

  unfoldable pub comparisons : Comparisons (Run W)
  unfolding compare_cap_add compare_image compare_pid_mode compare_volumes compare_dimensions
      parse_healthcheck check_image
  comparisons = record {
    compare_cap_add = λ info. compare_cap_add params info;
    compare_image = λ info. compare_image info;
    image_labels = (do image ← check_image docker params; lift (labels_of image));
    compare_pid_mode = λ info. compare_pid_mode params info;
    compare_volumes = λ info. compare_volumes params info;
    compare_dimensions =
        λ info. compare_dimensions params.dimensions params.ulimits info.dimensions info.ulimits;
    parsed_healthcheck = parse_healthcheck params.healthcheck;
  }

  unfoldable pub check_container_differs : Exec (Run W) Bool
  unfolding get_container_info comparisons found_differs
  check_container_differs = get_container_info docker params >>= found_differs comparisons params

  unfoldable pub compare_config : Exec (Run W) Bool
  compare_config r = config_differs (call (docker.exec_compare_config params.name) r)

  module _ (host : SystemdHost W) (u : ContainerUnit) where
    unfoldable pub compare_container : Exec (Run W) Bool
    unfolding check_container_differs compare_config check_container
    compare_container = do
      container ← check_container docker params
      differs ←
          pure (not (is_found container))
          or_else check_container_differs
          or_else compare_config
          or_else call (check_unit_change host u "")
      if differs then (do set_changed; pure true) else λ r. (ok r.changed, r)
