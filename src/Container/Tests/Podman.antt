-- ===== src/Container/Tests/Podman.antt =====
-- The host with Podman as its engine, runs of the module on it, and the properties at these runs.
use irnmn.Prelude.{
  String, ◌≡◌, refl, true, false, map, ◌==◌, List, [], ◌∷◌, none, some, if◌then◌else◌,
}
use irnmn.Effect.{Result, ok, err, api_error}
use irnmn.Effect.Post.{Returns}
use irnmn.Container.Params.{Dimension, number, ContainerInfo, ImageEntry, ContainerEntry}
use irnmn.Container.Systemd.{UnitParams, ContainerUnit, container_unit}
use irnmn.Container.Engine.{Run}
use irnmn.Container.Podman.Engine.{Container, Podman}
use irnmn.Container.Podman.Compare.{podman_dimension_map}
use irnmn.Container.Podman.Differs.{check_container_differs}
use irnmn.Container.Podman.Matches.{Reported, Matches, podman_differs-Matches}
use irnmn.Container.Module.{
  exited, start_container_action, compare_container_action, remove_container_action, fresh_run,
  main,
}
use irnmn.Container.Module.Outcome.{Exits, Matched, Started, main-Started, main-Matched}
use irnmn.Container.Tests.Host.{
  Machine, machine, empty_machine, docker, host, params, inspected, run_on, wrote,
}

abbrev no_limits : List (String × Dimension)
no_limits = map (λ entry. (entry.1, number 0)) podman_dimension_map

abbrev podman_inspected : ContainerInfo
podman_inspected = record inspected {
  labels = ("maintainer", "kolla") ∷ [];
  volumes = [];
  dimensions = no_limits;
  pid_mode = "private";
  cap_add = "CAP_AUDIT_WRITE" ∷ [];
  binds =
      "/etc/kolla/nova-api:/var/lib/kolla/config_files:ro,rprivate,rbind"
      ∷ "kolla_logs:/var/log/kolla:rw,rprivate,nosuid,nodev,rbind" ∷ [];
}

abbrev reported : String → ContainerEntry → Container
reported id entry = record {
  id = id;
  name = "nova_api";
  status = if entry.status == "Created" then "created" else "running";
  attrs = podman_inspected;
}

abbrev reload_first : String → List ContainerEntry → Result Container
reload_first id [] = err (api_error 404 "no such container")
reload_first id (entry ∷ rest) = ok (reported id entry)

abbrev ids : List ContainerEntry → List String
ids [] = []
ids (entry ∷ rest) = "c1" ∷ ids rest

abbrev first_image : List ImageEntry → Result ImageEntry
first_image [] = err (api_error 404 "no such image")
first_image (image ∷ rest) = ok image

abbrev podman : Podman Machine
podman = record {
  get_image = λ name m. (first_image m.images, m);
  get_volume = λ name m. (ok tt, m);
  containers = λ m. (ok (ids m.containers), m);
  get_container = λ name m. (ok "c1", m);
  reload = λ id m. (reload_first id m.containers, m);
  exec_compare_config = λ id m. (ok 0, m);
  pull = λ args m. (ok none, m);
  create_container = λ params args m. (
    ok true,
    record m { containers = record { names = params.name ∷ []; status = "Created" } ∷ [] },
  );
  start = λ id m. wrote m;
  stop = λ id timeout m. wrote m;
  wait = λ id m. (ok 0, m);
  logs = λ id stdout m. (ok [], m);
  remove_container = λ id m. wrote (record m { containers = [] });
  create_volume = λ name m. wrote m;
  remove_volume = λ name m. wrote m;
  remove_image = λ image m. wrote m;
  same_attrs = λ a b. a.id == b.id;
}

abbrev unit_params : UnitParams
unit_params = record {
  name = "nova_api";
  container_engine = "podman";
  restart_policy = some "unless-stopped";
  client_timeout = none;
  restart_retries = none;
  graceful_timeout = 10;
}

podman_differs-Matches_example :
    Returns
      (λ answer _.
        answer ≡ false
        → (info : ContainerInfo) × (r' : Run Machine) × Reported podman params
            (run_on machine)
            info
            r'
          × Matches podman params info r')
      (check_container_differs podman params (run_on machine))
podman_differs-Matches_example = podman_differs-Matches podman params (run_on machine)

main-Started_example :
    Exits
      (λ _ m.
        (u : ContainerUnit) × (container_unit unit_params ≡ ok u)
        × Started docker podman params host false u m)
      (main docker podman params host unit_params start_container_action empty_machine)
main-Started_example = main-Started docker podman params host unit_params empty_machine refl

main-Matched_example :
    Exits
      (λ answer _. answer ≡ false → Matched docker podman params false (fresh_run machine))
      (main docker podman params host unit_params compare_container_action machine)
main-Matched_example = main-Matched docker podman params host unit_params machine

-- Flags that Podman adds, and final slashes, are no difference.
podman_matching :
    check_container_differs podman params (run_on machine) ≡ (ok false, run_on machine)
unfolding check_container_differs
podman_matching = refl

-- A container that is not there is created and its unit started.
podman_created :
    (main docker podman params host unit_params start_container_action empty_machine).0
    ≡ exited true false none none
unfolding main
podman_created = refl

-- With no unit file left, the module removes a container and says that nothing changed.
abbrev removed : Machine
removed = (main docker podman params host unit_params remove_container_action machine).1

remove_unchanged :
    ((main docker podman params host unit_params remove_container_action machine).0
      ≡ exited false false none none)
    × (removed.containers ≡ [])
unfolding main
remove_unchanged = (refl, refl)
