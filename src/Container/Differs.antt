-- ===== src/Container/Differs.antt =====
-- `check_container_differs` of kolla_container_worker.py, with the comparisons that call methods which
-- the workers implement.
pub mod NoOnlyIf
pub mod SameLabels
pub mod Same
pub mod Command
pub mod Agrees
use irnmn.Prelude.{Bool, true, Option, none, some, if◌then◌else◌}
use irnmn.Effect.{Result, Exec, pure, lift, ◌>>=◌}
use irnmn.Container.Params.{Params, ContainerInfo}
use irnmn.Container.Healthcheck.{Items, differs_if_parsed}
use irnmn.Container.Compare.{
  compare_ipc_mode, compare_security_opt, compare_cgroupns_mode, compare_privileged, compare_tmpfs,
  compare_volumes_from, compare_container_state,
}
use irnmn.Container.Compare.Parsing.{Labels, labels_differ, compare_environment, compare_command}
use irnmn.Container.Engine.{◌or_else◌}

-- The methods of a worker that the comparisons call: those that a worker implements or overrides.
pub record Comparisons (W : Type 0) : Type 0 where
  pub compare_cap_add : ContainerInfo → Bool
  pub compare_image : ContainerInfo → Exec W Bool
  -- `check_image().get('Labels', dict())`
  pub image_labels : Exec W Labels
  pub compare_pid_mode : ContainerInfo → Bool
  pub compare_volumes : ContainerInfo → Result Bool
  pub compare_dimensions : ContainerInfo → Result Bool
  -- `parse_healthcheck` of the declared health check
  pub parsed_healthcheck : Result (Option Items)

module _ {W : Type 0} (own : Comparisons W) (params : Params) where
  unfoldable pub compare_labels : ContainerInfo → Exec W Bool
  unfolding labels_differ
  compare_labels info = do
    image_labels ← own.image_labels
    lift (labels_differ params.labels info.labels image_labels)

  unfoldable pub compare_healthcheck : ContainerInfo → Result Bool
  compare_healthcheck info = differs_if_parsed own.parsed_healthcheck info.healthcheck

  unfoldable pub info_differs : ContainerInfo → Exec W Bool
  unfolding compare_labels compare_security_opt compare_ipc_mode compare_privileged
      compare_cgroupns_mode compare_tmpfs compare_volumes_from compare_environment
      compare_container_state compare_command compare_healthcheck
  info_differs info =
      pure (own.compare_cap_add info)
      or_else pure (compare_security_opt params info)
      or_else own.compare_image info
      or_else pure (compare_ipc_mode params info)
      or_else compare_labels info
      or_else pure (compare_privileged params info)
      or_else pure (own.compare_pid_mode info)
      or_else pure (compare_cgroupns_mode params info)
      or_else pure (compare_tmpfs params info)
      or_else lift (own.compare_volumes info)
      or_else pure (compare_volumes_from params info)
      or_else lift (compare_environment params info)
      or_else pure (compare_container_state params info)
      or_else lift (own.compare_dimensions info)
      or_else lift (compare_command params info)
      or_else lift (compare_healthcheck info)

  -- A container that is not there differs.
  unfoldable pub found_differs : Option ContainerInfo → Exec W Bool
  unfolding info_differs
  found_differs none = pure true
  found_differs (some info) = info_differs info
