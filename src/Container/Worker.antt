-- ===== src/Container/Worker.antt =====
-- `ContainerWorker` of kolla_container_worker.py as an interface: the actions that the module can
-- ask of a worker. DockerWorker and PodmanWorker implement it.
pub mod Contract
use irnmn.Prelude.{Bool}
use irnmn.Effect.{Exec}
use irnmn.Container.Params.{Params}
use irnmn.Container.Systemd.{SystemdHost, ContainerUnit}
use irnmn.Container.Engine.{Docker, Run}
use irnmn.Container.Podman.Engine.{Podman}
use irnmn.Container.Docker as DockerActions
use irnmn.Container.Docker.Images as DockerImages
use irnmn.Container.Docker.Differs as DockerDiffers
use irnmn.Container.Podman as PodmanActions
use irnmn.Container.Podman.Images as PodmanImages
use irnmn.Container.Podman.Differs as PodmanDiffers

pub record Worker (W : Type 0) : Type 0 where
  pub compare_container : Exec (Run W) Bool
  pub compare_image : Exec (Run W) Bool
  pub create_volume : Exec (Run W) (Unit {0})
  pub ensure_image : Exec (Run W) (Unit {0})
  pub pull_image : Exec (Run W) (Unit {0})
  pub recreate_or_restart_container : Exec (Run W) (Unit {0})
  pub remove_container : Exec (Run W) (Unit {0})
  pub remove_image : Exec (Run W) (Unit {0})
  pub remove_volume : Exec (Run W) (Unit {0})
  pub restart_container : Exec (Run W) (Unit {0})
  pub start_container : Exec (Run W) (Unit {0})
  pub stop_container : Exec (Run W) (Unit {0})
  pub stop_and_remove_container : Exec (Run W) (Unit {0})

unfoldable pub docker_worker :
    {W : Type 0} → Docker W → Params → SystemdHost W → ContainerUnit → Worker W
unfolding DockerDiffers.compare_container DockerDiffers.compare_found_image
    DockerImages.create_volume DockerImages.ensure_image DockerImages.pull_image
    DockerActions.recreate_or_restart_container DockerActions.remove_container
    DockerImages.remove_image DockerImages.remove_volume DockerActions.restart_container
    DockerActions.start_container DockerActions.stop_container
    DockerActions.stop_and_remove_container
docker_worker docker params host u = record {
  compare_container = DockerDiffers.compare_container docker params host u;
  compare_image = DockerDiffers.compare_found_image docker params;
  create_volume = DockerImages.create_volume docker params params.name;
  ensure_image = DockerImages.ensure_image docker params;
  pull_image = DockerImages.pull_image docker params;
  recreate_or_restart_container = DockerActions.recreate_or_restart_container docker params host u;
  remove_container = DockerActions.remove_container docker params host u;
  remove_image = DockerImages.remove_image docker params;
  remove_volume = DockerImages.remove_volume docker params;
  restart_container = DockerActions.restart_container docker params host u;
  start_container = DockerActions.start_container docker params host u;
  stop_container = DockerActions.stop_container docker params host u;
  stop_and_remove_container = DockerActions.stop_and_remove_container docker params host u;
}

unfoldable pub podman_worker :
    {W : Type 0} → Podman W → Params → SystemdHost W → ContainerUnit → Worker W
unfolding PodmanDiffers.compare_container PodmanDiffers.compare_found_image
    PodmanImages.create_volume PodmanImages.ensure_image PodmanImages.pull_image
    PodmanActions.recreate_or_restart_container PodmanActions.remove_container
    PodmanImages.remove_image PodmanImages.remove_volume PodmanActions.restart_container
    PodmanActions.start_container PodmanActions.stop_container
    PodmanActions.stop_and_remove_container
podman_worker podman params host u = record {
  compare_container = PodmanDiffers.compare_container podman params host u;
  compare_image = PodmanDiffers.compare_found_image podman params;
  create_volume = PodmanImages.create_volume podman params params.name;
  ensure_image = PodmanImages.ensure_image podman params;
  pull_image = PodmanImages.pull_image podman params;
  recreate_or_restart_container = PodmanActions.recreate_or_restart_container podman params host u;
  remove_container = PodmanActions.remove_container podman params host u;
  remove_image = PodmanImages.remove_image podman params;
  remove_volume = PodmanImages.remove_volume podman params;
  restart_container = PodmanActions.restart_container podman params host u;
  start_container = PodmanActions.start_container podman params host u;
  stop_container = PodmanActions.stop_container podman params host u;
  stop_and_remove_container = PodmanActions.stop_and_remove_container podman params host u;
}
