-- ===== src/Container/Podman/Differs.antt =====
-- The comparisons of kolla_podman_worker.py that call the engine, and those that PodmanWorker has of
-- its own or inherits and that call its methods.
use irnmn.Prelude.{
  ℕ, Bool, true, false, not, ◌&&◌, ◌||◌, ◌==◌, nat_eq, leb, ltb, [], Option, none, some,
  if◌then◌else◌,
}
use irnmn.Effect.{Result, ok, err, Exec, pure, lift, api_error, external, ◌>>=◌, ◌>>◌}
use irnmn.Container.Params.{Params, ContainerInfo, ImageEntry}
use irnmn.Container.Systemd.{SystemdHost, ContainerUnit, check_unit_change}
use irnmn.Container.Compare.Parsing.{Labels}
use irnmn.Container.Differs.{Comparisons, found_differs}
use irnmn.Container.Engine.{Run, call, set_changed, ◌or_else◌}
use irnmn.Container.Docker.Images.{is_found}
use irnmn.Container.Podman.Engine.{Container, Podman}
use irnmn.Container.Podman.Args.{parse_healthcheck}
use irnmn.Container.Podman.Compare.{
  compare_cap_add, compare_pid_mode, parse_tag, compare_volumes, compare_dimensions,
}
use irnmn.Container.Podman.Images.{check_image, check_container, get_container_info}

abbrev pub exit_differs : ℕ → Result Bool
exit_differs code =
    if nat_eq code 0
    then ok false
    else if nat_eq code 1
    then ok true
    else err (external "Failed to compare container configuration")

-- A client error means that the container cannot be used for the check.
abbrev pub config_differs : {W : Type 0} → Result Bool × W → Result Bool × W
config_differs (err (api_error status m), w) =
    if leb 400 status && ltb status 500 then (ok true, w) else (err (api_error status m), w)
config_differs x = x

module _ {W : Type 0} (podman : Podman W) (params : Params) where
  abbrev pub image_differs : Option ImageEntry → ContainerInfo → Bool
  image_differs none info = true
  image_differs (some image) info =
      not (image.id == info.image_id) || not (parse_tag params.image == parse_tag info.config_image)

  unfoldable pub compare_image : ContainerInfo → Exec (Run W) Bool
  unfolding check_image parse_tag
  compare_image info = do image ← check_image podman params; pure (image_differs image info)

  abbrev pub image_of_found : Option ContainerInfo → Exec (Run W) Bool
  image_of_found none = pure true
  image_of_found (some info) = compare_image info

  -- The action `compare_image`, which looks the container up itself.
  unfoldable pub compare_found_image : Exec (Run W) Bool
  unfolding get_container_info compare_image
  compare_found_image = get_container_info podman params >>= image_of_found

  -- An image that is not there has no labels.
  abbrev pub image_labels : Option ImageEntry → Labels
  image_labels none = []
  image_labels (some image) = image.labels

  unfoldable pub comparisons : Comparisons (Run W)
  unfolding compare_cap_add compare_image compare_pid_mode compare_volumes compare_dimensions
      parse_healthcheck check_image
  comparisons = record {
    compare_cap_add = λ info. compare_cap_add params info;
    compare_image = λ info. compare_image info;
    image_labels = (do image ← check_image podman params; pure (image_labels image));
    compare_pid_mode = λ info. compare_pid_mode params info;
    compare_volumes = λ info. compare_volumes params info;
    compare_dimensions = λ info. compare_dimensions params info;
    parsed_healthcheck = parse_healthcheck params;
  }

  unfoldable pub check_container_differs : Exec (Run W) Bool
  unfolding get_container_info comparisons found_differs
  check_container_differs = get_container_info podman params >>= found_differs comparisons params

  abbrev pub exec_if_running : Container → Exec (Run W) Bool
  exec_if_running container =
      if container.status == "running"
      then (do code ← call (podman.exec_compare_config container.id); lift (exit_differs code))
      else pure true

  unfoldable pub compare_config : Exec (Run W) Bool
  compare_config r = config_differs (go r)
    where
      go : Exec (Run W) Bool
      go = do
        id ← call (podman.get_container params.name)
        container ← call (podman.reload id)
        exec_if_running container

  module _ (host : SystemdHost W) (u : ContainerUnit) where
    unfoldable pub compare_container : Exec (Run W) Bool
    unfolding check_container_differs compare_config check_container
    compare_container = do
      container ← check_container podman params
      differs ←
          pure (not (is_found container))
          or_else check_container_differs
          or_else compare_config
          or_else call (check_unit_change host u "")
      if differs then (do set_changed; pure true) else λ r. (ok r.changed, r)
