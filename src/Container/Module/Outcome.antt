-- ===== src/Container/Module/Outcome.antt =====
-- What holds where the module exits, for either engine.
use irnmn.Prelude.{String, ◌≡◌, refl, Bool, true, false, ◌==◌, if◌then◌else◌}
use irnmn.Effect.{
  Exception, mapping_error, host_not_empty, power_timeout, unsupported_power_target,
  unsupported_instance_policy, host_return_not_safe, value_error, host_recovery_failure,
  reconciliation_error, filter_error, rotation_interval_too_long, module_failed, key_error,
  system_exit, external, api_error, Result, ok, err, pure,
}
use irnmn.Effect.Post.{Returns, Returns-follow}
use irnmn.Container.Params.{Params}
use irnmn.Container.Systemd.{SystemdHost, ContainerUnit, UnitParams, container_unit}
use irnmn.Container.Engine.{Docker, Run}
use irnmn.Container.Docker.Started as DockerStarted
use irnmn.Container.Podman.Engine.{Podman}
use irnmn.Container.Podman.Started as PodmanStarted
use irnmn.Container.Worker.{docker_worker, podman_worker}
use irnmn.Container.Worker.Contract.{
  Contract, DockerMatched, PodmanMatched, docker_worker-Contract, podman_worker-Contract,
}
use irnmn.Container.Module.{
  Exit, exited, stopped, failed, exit_of, Action, start_container_action, compare_container_action,
  perform, fresh_run, make_worker, run_with, main,
}

-- What holds of the answer and of the state of the world where the module exits with an answer.
abbrev pub Exits : {W : Type 0} → (Bool → W → Type 0) → Exit × W → Type 0
Exits Q (exited changed answer output volume, w) = Q answer w
Exits Q (stopped m, w) = Unit
Exits Q (failed m output volume, w) = Unit

exit_of-Exits :
    {W : Type 0} (Q : Bool → W → Type 0) (x : Result Bool × Run W)
    → Returns (λ answer r. Q answer r.world) x
    → Exits Q (exit_of x)
exit_of-Exits Q (ok answer, r) h = h
exit_of-Exits {W = W} Q (err e, r) h = go e
  where
    go : (e : Exception) → Exits Q (exit_of {W = W} (err e, r))
    go e = elim e as (λ k. Exits Q (exit_of {W = W} (err k, r))) [
      | mapping_error _ ↦ tt
      | host_not_empty _ ↦ tt
      | power_timeout _ ↦ tt
      | unsupported_power_target _ ↦ tt
      | unsupported_instance_policy _ ↦ tt
      | host_return_not_safe _ ↦ tt
      | value_error _ ↦ tt
      | host_recovery_failure _ ↦ tt
      | reconciliation_error _ ↦ tt
      | filter_error _ ↦ tt
      | rotation_interval_too_long _ ↦ tt
      | module_failed _ ↦ tt
      | key_error _ ↦ tt
      | external _ ↦ tt
      | api_error _ _ ↦ tt
      | system_exit _ ↦ tt
    ]

module _ {W : Type 0} (docker : Docker W) (podman : Podman W) (params : Params) where
  -- A container of the name, as the engine reports it in the run that starts in the state, matches the
  -- parameters; the engine is Docker, or else Podman.
  abbrev pub Matched : Bool → Run W → Type 0
  Matched true = DockerMatched docker params
  Matched false = PodmanMatched podman params

  module _ (host : SystemdHost W) where
    abbrev pub Started : Bool → ContainerUnit → W → Type 0
    Started true u w = DockerStarted.IsStarted docker params host u w
    Started false u w = PodmanStarted.IsStarted podman params host u w

    make_worker-Contract :
        (engine : String) (u : ContainerUnit)
        → Contract params
            (make_worker docker podman params host engine u)
            (Matched (engine == "docker"))
            (Started (engine == "docker") u)
    unfolding make_worker
    make_worker-Contract engine u = go (engine == "docker")
      where
        go :
            (is_docker : Bool)
            → Contract params
                (if is_docker
                  then docker_worker docker params host u
                  else podman_worker podman params host u)
                (Matched is_docker)
                (Started is_docker u)
        go true = docker_worker-Contract docker params host u
        go false = podman_worker-Contract podman params host u

    -- What the worker that the constructor's unit is made for returns holds where `main` exits.
    main-Exits :
        (Q : Bool → W → Type 0) (unit_params : UnitParams) (action : Action) (w : W)
        → ((u : ContainerUnit)
            → container_unit unit_params ≡ ok u
            → Returns
                (λ answer r. Q answer r.world)
                (perform
                  (make_worker docker podman params host unit_params.container_engine u)
                  action
                  (fresh_run w)))
        → Exits Q (main docker podman params host unit_params action w)
    unfolding main
    main-Exits Q unit_params action w performed = go (container_unit unit_params) performed
      where
        engine : String
        engine = unit_params.container_engine

        go :
            (made : Result ContainerUnit)
            → ((u : ContainerUnit)
                → made ≡ ok u
                → Returns
                    (λ answer r. Q answer r.world)
                    (perform (make_worker docker podman params host engine u) action (fresh_run w)))
            → Exits Q (run_with docker podman params host engine made action w)
        go (err e) performed = tt
        go (ok u) performed = exit_of-Exits Q _ (performed u refl)

-- Where the module exits after `start_container` of a detached container, the container of the engine
-- that was chosen is started, as a unit made of the module's parameters: where the module exits, it
-- was up when this run listed it last (Docker) or reported it last (Podman), and the run has only
-- compared it since, without finding a difference; or the engine's start of it was the last call; or
-- systemd was asked to start it and the last call saw its unit running.
pub main-Started :
    {W : Type 0} (docker : Docker W) (podman : Podman W) (params : Params) (host : SystemdHost W)
    (unit_params : UnitParams) (w : W)
    → params.detach ≡ true
    → Exits
        (λ _ w'.
          (u : ContainerUnit) × (container_unit unit_params ≡ ok u)
          × Started docker podman params host (unit_params.container_engine == "docker") u w')
        (main docker podman params host unit_params start_container_action w)
unfolding perform
main-Started {W = W} docker podman params host unit_params w detached =
    main-Exits docker podman params host Q unit_params start_container_action w (λ u made.
      let engine = unit_params.container_engine in
      let worker = make_worker docker podman params host engine u in
      let contract = make_worker-Contract docker podman params host engine u in
      Returns-follow (λ answer r. Q answer r.world) (λ _. pure false)
        (worker.start_container (fresh_run w)) (contract.starts detached (fresh_run w))
        (λ _ r started. (u, made, started)))
  where
    Q : Bool → W → Type 0
    Q _ w' =
        (u : ContainerUnit) × (container_unit unit_params ≡ ok u)
        × Started docker podman params host (unit_params.container_engine == "docker") u w'

-- Where the module exits after `compare_container` with the answer that nothing differs, a container
-- of the name that the chosen engine reports in this run, after the container was looked up, matches
-- the parameters, in the sense of the comparison of that engine's worker.
pub main-Matched :
    {W : Type 0} (docker : Docker W) (podman : Podman W) (params : Params) (host : SystemdHost W)
    (unit_params : UnitParams) (w : W)
    → Exits
        (λ answer _.
          answer ≡ false
          → Matched docker podman params (unit_params.container_engine == "docker") (fresh_run w))
        (main docker podman params host unit_params compare_container_action w)
unfolding perform
main-Matched docker podman params host unit_params w =
    main-Exits docker podman params host _ unit_params compare_container_action w (λ u made.
      let contract =
        make_worker-Contract docker podman params host unit_params.container_engine u in
      (contract.compares (fresh_run w)).at_it)
