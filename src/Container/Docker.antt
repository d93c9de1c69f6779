-- ===== src/Container/Docker.antt =====
-- The actions of `DockerWorker` of ansible/module_utils/kolla_docker_worker.py on containers.
pub mod Images
pub mod Differs
pub mod Create
pub mod Ordered
pub mod Started
use package.text.Mathlib.Text.{starts_with}
use irnmn.Prelude.{
  ℕ, String, Bool, true, false, not, ◌==◌, nat_eq, List, ◌&◌, Option, none, some, if◌then◌else◌,
}
use irnmn.Values.{text, value_eq, get}
use irnmn.Effect.{
  Result, ok, err, Exec, pure, raise, raise_if, run_if, module_failed, api_error, external, ◌>>=◌,
  ◌>>◌,
}
use irnmn.Container.Params.{Params, ContainerInfo, ContainerEntry}
use irnmn.Container.Systemd.{SystemdHost, ContainerUnit}
use irnmn.Container.Systemd
use irnmn.Container.Engine.{Docker, Run, Output, call, set_changed, or_changed, set_result}
use irnmn.Container.Docker.Images.{
  check_image, check_container, get_container_info, pull_image, is_found, handle_api,
}
use irnmn.Container.Docker.Differs.{check_container_differs}
use irnmn.Container.Docker.Create.{create_container, is_oneshot}

-- `graceful_timeout`, or 10 where it is 0
abbrev pub stop_timeout : Params → ℕ
stop_timeout params = if nat_eq params.graceful_timeout 0 then 10 else params.graceful_timeout

module _ {W : Type 0} (docker : Docker W) (params : Params) (host : SystemdHost W)
    (u : ContainerUnit) where
  -- `fail_json(..., **self.check_container())`
  abbrev pub fail_with_container : Exec (Run W) (Unit {0})
  fail_with_container = do
    container ← check_container docker params
    if is_found container
        then raise (module_failed "Container timed out")
        else raise (external "argument after ** must be a mapping, not NoneType")

  abbrev pub stop_found : Option ContainerEntry → Exec (Run W) (Unit {0})
  stop_found none =
      raise_if (not params.ignore_missing)
        (module_failed ("No such container: " & params.name & " to stop"))
  stop_found (some container) = if starts_with container.status "Exited " then pure tt else (do
    set_changed
    has_unit ← call (Systemd.check_unit_file host u)
    if has_unit
        then (do call (Systemd.stop host u); pure tt)
        else call (docker.stop params.name (stop_timeout params)))

  unfoldable pub stop_container : Exec (Run W) (Unit {0})
  unfolding check_container Systemd.check_unit_file Systemd.stop
  stop_container = check_container docker params >>= stop_found

  -- The container, and then its unit file, which create and stop may have left.
  abbrev pub remove_both : Exec (Run W) (Unit {0})
  remove_both = do
    call (docker.remove_container params.name)
    call (Systemd.remove_unit_file host u)
    pure tt

  -- An error of the engine is raised again only if the container is still there.
  abbrev pub raise_if_there : ℕ → String → Exec (Run W) (Unit {0})
  raise_if_there status m = do
    container ← check_container docker params
    raise_if (is_found container) (api_error status m)

  unfoldable pub remove_container : Exec (Run W) (Unit {0})
  unfolding check_container Systemd.remove_unit_file
  remove_container = do
    removed ← call (Systemd.remove_unit_file host u)
    or_changed removed
    container ← check_container docker params
    if is_found container
        then (do set_changed; λ r. handle_api (remove_both r) raise_if_there)
        else pure tt

  unfoldable pub stop_and_remove_container : Exec (Run W) (Unit {0})
  unfolding check_container stop_container remove_container
  stop_and_remove_container = do
    container ← check_container docker params
    if is_found container then (do stop_container; remove_container) else pure tt

  -- The container of the parameters, if there is one: another one is removed.
  abbrev pub remove_if_differs : Option ContainerEntry → Exec (Run W) (Option ContainerEntry)
  remove_if_differs none = pure none
  remove_if_differs (some container) = do
    differs ← check_container_differs docker params
    if differs
        then (do stop_container; remove_container; check_container docker params)
        else pure (some container)

  abbrev pub create_if_missing : Option ContainerEntry → Exec (Run W) (Option ContainerEntry)
  create_if_missing (some container) = pure (some container)
  create_if_missing none = do create_container docker params host u; check_container docker params

  abbrev pub start_unless_up : Option ContainerEntry → Exec (Run W) (Unit {0})
  start_unless_up none = raise (external "'NoneType' object is not subscriptable")
  start_unless_up (some container) = if starts_with container.status "Up " then pure tt else (do
    set_changed
    if is_oneshot params then call (docker.start params.name) else (do
      call (Systemd.create_unit_file host u)
      started ← call (Systemd.start host u)
      if started then pure tt else fail_with_container))

  -- A container that is not detached is waited for.
  unfoldable pub wait_for_exit : Exec (Run W) (Unit {0})
  unfolding stop_container remove_container
  wait_for_exit = do
    rc ← call (docker.wait params.name)
    set_result (record { rc = rc; stdout = none; stderr = none })
    stdout ← call (docker.logs params.name true)
    set_result (record { rc = rc; stdout = some stdout; stderr = none })
    stderr ← call (docker.logs params.name false)
    set_result (record { rc = rc; stdout = some stdout; stderr = some stderr })
    run_if params.remove_on_exit (stop_container >> remove_container)
    raise_if (not (nat_eq rc 0)) (module_failed "Container exited with non-zero return code")

  unfoldable pub start_container : Exec (Run W) (Unit {0})
  unfolding check_image pull_image check_container check_container_differs stop_container
      remove_container create_container wait_for_exit Systemd.create_unit_file Systemd.start
  start_container = do
    image ← check_image docker params
    run_if (not (is_found image)) (pull_image docker params)
    container ← check_container docker params
    container ← remove_if_differs container
    container ← create_if_missing container
    start_unless_up container
    run_if (not params.detach) wait_for_exit

  abbrev pub restart_found : Option ContainerInfo → Exec (Run W) (Unit {0})
  restart_found none = raise (module_failed ("No such container: " & params.name))
  restart_found (some info) = do
    set_changed
    if is_oneshot params
        then (do
          call (docker.stop params.name (stop_timeout params))
          call (docker.start params.name))
        else (do
          call (Systemd.create_unit_file host u)
          restarted ← call (Systemd.restart host u)
          if restarted then pure tt else fail_with_container)

  unfoldable pub restart_container : Exec (Run W) (Unit {0})
  unfolding get_container_info check_container Systemd.create_unit_file Systemd.restart
  restart_container = get_container_info docker params >>= restart_found

  -- `environment.get("KOLLA_CONFIG_STRATEGY") == strategy`
  abbrev pub is_strategy : String → Bool
  is_strategy strategy = value_eq (get "KOLLA_CONFIG_STRATEGY" params.environment) (text strategy)

  -- The image is there, or pulled, before the container is stopped.
  unfoldable pub recreate : Exec (Run W) (Unit {0})
  unfolding check_image pull_image stop_container remove_container start_container
  recreate = do
    image ← check_image docker params
    run_if (not (is_found image)) (pull_image docker params)
    stop_container
    remove_container
    start_container

  abbrev pub recreate_or_restart_found : Option ContainerEntry → Exec (Run W) (Unit {0})
  recreate_or_restart_found none = start_container
  recreate_or_restart_found (some container) = do
    differs ← (if is_strategy "COPY_ONCE" then pure true else check_container_differs docker params)
    if differs then recreate else run_if (is_strategy "COPY_ALWAYS") restart_container

  unfoldable pub recreate_or_restart_container : Exec (Run W) (Unit {0})
  unfolding check_container check_container_differs recreate restart_container start_container get
  recreate_or_restart_container = do
    set_changed
    container ← check_container docker params
    recreate_or_restart_found container
