-- ===== src/Container/Podman.antt =====
-- `PodmanWorker` of ansible/module_utils/kolla_podman_worker.py: the actions on containers.
pub mod Engine
pub mod Args
pub mod Compare
pub mod Images
pub mod Differs
pub mod Found
pub mod Same
pub mod Caps
pub mod Matches
pub mod Started
use irnmn.Prelude.{
  ℕ, String, Bool, true, false, not, ◌||◌, ◌==◌, nat_eq, List, [], ◌∷◌, ◌&◌, Option, none, some,
  if◌then◌else◌,
}
use irnmn.Values.{text, value_eq, get}
use irnmn.Effect.{
  Result, ok, err, Exec, pure, raise, raise_if, run_if, lift, module_failed, api_error, external,
  ◌>>=◌, ◌>>◌,
}
use irnmn.Container.Params.{Params, ContainerInfo}
use irnmn.Container.Systemd.{SystemdHost, ContainerUnit}
use irnmn.Container.Systemd
use irnmn.Container.Engine.{Run, Output, call, set_changed, or_changed, set_result}
use irnmn.Container.Docker.Images.{is_found, handle_api}
use irnmn.Container.Docker.Create.{is_oneshot}
use irnmn.Container.Docker.{stop_timeout}
use irnmn.Container.Podman.Engine.{Container, Podman}
use irnmn.Container.Podman.Args.{prepare_container_args}
use irnmn.Container.Podman.Images.{
  check_image, check_container, get_container_info, ensure_image, create_container_volumes,
}
use irnmn.Container.Podman.Differs.{check_container_differs}

abbrev pub is_stopped : Container → Bool
is_stopped container = container.status == "exited" || container.status == "stopped"

-- `"\n".join(lines)`
unfoldable pub join_lines : List String → String
join_lines [] = ""
join_lines (line ∷ []) = line
join_lines (line ∷ next ∷ rest) = line & "\n" & join_lines (next ∷ rest)

module _ {W : Type 0} (podman : Podman W) (params : Params) (host : SystemdHost W)
    (u : ContainerUnit) where
  unfoldable pub create_container : Exec (Run W) (Unit {0})
  unfolding create_container_volumes prepare_container_args Systemd.create_unit_file
  create_container = do
    create_container_volumes podman params params.volumes
    args ← lift (prepare_container_args params)
    has_attrs ← call (podman.create_container params args)
    if has_attrs
        then (do created ← call (Systemd.create_unit_file host u); or_changed created)
        else raise (module_failed "Creation failed")

  abbrev pub stop_found : Option Container → Exec (Run W) (Unit {0})
  stop_found none =
      raise_if (not params.ignore_missing)
        (module_failed ("No such container: " & params.name & " to stop"))
  stop_found (some container) = if is_stopped container then pure tt else (do
    set_changed
    if is_oneshot params
        then call (podman.stop container.id (stop_timeout params))
        else (do call (Systemd.create_unit_file host u); call (Systemd.stop host u); pure tt))

  unfoldable pub stop_container : Exec (Run W) (Unit {0})
  unfolding check_container Systemd.create_unit_file Systemd.stop
  stop_container = check_container podman params >>= stop_found

  -- An error of the engine is raised again only if the container is still there.
  abbrev pub raise_if_there : ℕ → String → Exec (Run W) (Unit {0})
  raise_if_there status m = do
    container ← check_container podman params
    raise_if (is_found container) (api_error status m)

  abbrev pub remove_found : Option Container → Exec (Run W) (Unit {0})
  remove_found none = pure tt
  remove_found (some container) =
      λ r. handle_api (call (podman.remove_container container.id) r) raise_if_there

  unfoldable pub remove_container : Exec (Run W) (Unit {0})
  unfolding check_container Systemd.remove_unit_file
  remove_container = do
    removed ← call (Systemd.remove_unit_file host u)
    or_changed removed
    container ← check_container podman params
    remove_found container

  unfoldable pub stop_and_remove_container : Exec (Run W) (Unit {0})
  unfolding check_container stop_container remove_container
  stop_and_remove_container = do
    container ← check_container podman params
    if is_found container then (do stop_container; remove_container) else pure tt

  -- The container of the parameters, if there is one: another one is removed.
  abbrev pub remove_if_differs : Option Container → Exec (Run W) (Option Container)
  remove_if_differs none = pure none
  remove_if_differs (some container) = do
    differs ← check_container_differs podman params
    if differs
        then (do stop_container; remove_container; check_container podman params)
        else pure (some container)

  abbrev pub create_if_missing : Option Container → Exec (Run W) (Option Container)
  create_if_missing (some container) = pure (some container)
  create_if_missing none = do create_container; check_container podman params

  -- `fail_json(..., **self.check_container().attrs)`
  abbrev pub fail_with_container : Exec (Run W) (Unit {0})
  fail_with_container = do
    container ← check_container podman params
    if is_found container
        then raise (module_failed "Container timed out")
        else raise (external "'NoneType' object has no attribute 'attrs'")

  abbrev pub start_engine : Option Container → Exec (Run W) (Unit {0})
  start_engine none = raise (external "'NoneType' object has no attribute 'start'")
  start_engine (some container) = call (podman.start container.id)

  abbrev pub start_unless_up : Option Container → Exec (Run W) (Unit {0})
  start_unless_up none = raise (external "'NoneType' object has no attribute 'status'")
  start_unless_up (some container) = if container.status == "running" then pure tt else (do
    set_changed
    if is_oneshot params
        then (do found ← check_container podman params; start_engine found)
        else (do
          call (Systemd.create_unit_file host u)
          started ← call (Systemd.start host u)
          if started then pure tt else fail_with_container))

  abbrev pub wait_found : Option Container → Exec (Run W) (Unit {0})
  wait_found none = raise (external "'NoneType' object has no attribute 'wait'")
  wait_found (some container) = do
    rc ← call (podman.wait container.id)
    stdout ← call (podman.logs container.id true)
    stderr ← call (podman.logs container.id false)
    set_result
        (record { rc = rc; stdout = some (join_lines stdout); stderr = some (join_lines stderr) })
    run_if params.remove_on_exit (stop_container >> remove_container)
    raise_if (not (nat_eq rc 0)) (module_failed "Container exited with non-zero return code")

  -- A container that is not detached is waited for.
  unfoldable pub wait_for_exit : Exec (Run W) (Unit {0})
  unfolding join_lines check_container stop_container remove_container
  wait_for_exit = check_container podman params >>= wait_found

  unfoldable pub start_container : Exec (Run W) (Unit {0})
  unfolding ensure_image check_container check_container_differs stop_container remove_container
      create_container wait_for_exit Systemd.create_unit_file Systemd.start
  start_container = do
    ensure_image podman params
    container ← check_container podman params
    container ← remove_if_differs container
    container ← create_if_missing container
    start_unless_up container
    run_if (not params.detach) wait_for_exit

  abbrev pub restart_found : Option Container → Exec (Run W) (Unit {0})
  restart_found none = raise (module_failed ("No such container: " & params.name))
  restart_found (some container) = do
    set_changed
    call (Systemd.create_unit_file host u)
    restarted ← call (Systemd.restart host u)
    raise_if (not restarted) (module_failed "Container timed out")

  unfoldable pub restart_container : Exec (Run W) (Unit {0})
  unfolding check_container Systemd.create_unit_file Systemd.restart
  restart_container = check_container podman params >>= restart_found

  -- `environment.get('KOLLA_CONFIG_STRATEGY') == strategy`
  abbrev pub is_strategy : String → Bool
  is_strategy strategy = value_eq (get "KOLLA_CONFIG_STRATEGY" params.environment) (text strategy)

  -- The image is there, or pulled, before the container is stopped.
  unfoldable pub recreate : Exec (Run W) (Unit {0})
  unfolding ensure_image stop_container remove_container start_container
  recreate = do ensure_image podman params; stop_container; remove_container; start_container

  abbrev pub recreate_or_restart_found : Option ContainerInfo → Exec (Run W) (Unit {0})
  recreate_or_restart_found none = start_container
  recreate_or_restart_found (some info) = do
    differs ← (if is_strategy "COPY_ONCE" then pure true else check_container_differs podman params)
    if differs then recreate else run_if (is_strategy "COPY_ALWAYS") restart_container

  unfoldable pub recreate_or_restart_container : Exec (Run W) (Unit {0})
  unfolding get_container_info check_container_differs recreate restart_container start_container
      get
  recreate_or_restart_container = do
    info ← get_container_info podman params
    recreate_or_restart_found info
