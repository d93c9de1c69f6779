-- ===== src/Container/Tests/Host.antt =====
-- A host with its files, its units and its container engine Docker.
use irnmn.Prelude.{
  ℕ, suc, ◌&◌, String, ◌≡◌, refl, true, false, ◌==◌, eq_refl, if◌then◌else◌, List, [], ◌∷◌, Option,
  none, some,
}
use irnmn.Values.{text}
use irnmn.Effect.{Result, ok, err, module_failed}
use irnmn.Container.Params.{Params, ContainerInfo, ImageEntry, ContainerEntry}
use irnmn.Container.Systemd.{
  UnitEntry, Method, start_unit, restart_unit, stop_unit, reload_unit, enable_unit_files,
  SystemdHost, ContainerUnit,
}
use irnmn.Container.Systemd.UnitFile.{KeepsFiles, is_some}
use irnmn.Container.Engine.{Docker, Run}

pub record Machine : Type 0 where
  pub files : String → Option String
  pub units : List UnitEntry
  pub images : List ImageEntry
  pub containers : List ContainerEntry
  pub volumes : List String
  pub writes : ℕ

abbrev pub unit : ContainerUnit
unit = record {
  name = "nova_api";
  service_name = "kolla-nova_api-container.service";
  engine = "docker";
  deps = "docker.service";
  graceful_timeout = 10;
  restart_policy = "always";
  restart_timeout = 12;
  restart_retries = 10;
  restart_duration = "0";
}

abbrev run_method : Method → Machine → Machine
run_method (start_unit name mode) m = record m {
  units = record { name = name; sub_state = "running" } ∷ [];
}
run_method (restart_unit name mode) m = record m {
  units = record { name = name; sub_state = "running" } ∷ [];
}
run_method (stop_unit name mode) m = record m {
  units = record { name = name; sub_state = "dead" } ∷ [];
}
run_method (reload_unit name mode) m = m
run_method (enable_unit_files files runtime force) m = m

abbrev read : Option String → Result String
read none = err (module_failed "No such file")
read (some content) = ok content

abbrev pub host : SystemdHost Machine
host = record {
  is_file = λ p m. (ok (is_some (m.files p)), m);
  read_file = λ p m. (read (m.files p), m);
  write_file = λ p c m. (ok tt, record m { files = λ q. if q == p then some c else m.files q });
  remove_file = λ p m. (ok tt, record m { files = λ q. if q == p then none else m.files q });
  call_manager = λ method m. (ok tt, run_method method m);
  list_units = λ m. (ok m.units, m);
  sleep = λ seconds m. m;
}

kept_by : (method : Method) (p : String) (m : Machine) → (run_method method m).files p ≡ m.files p
kept_by (start_unit name mode) p m = refl
kept_by (restart_unit name mode) p m = refl
kept_by (stop_unit name mode) p m = refl
kept_by (reload_unit name mode) p m = refl
kept_by (enable_unit_files files runtime force) p m = refl

pub keeps : KeepsFiles host
keeps = record {
  file = λ p m. m.files p;
  is_file-file = λ p m. refl;
  read_file-file = λ p c m here. rw here refl;
  write_file-file = λ p c m. rw (eq_refl p) refl;
  remove_file-file = λ p m. rw (eq_refl p) refl;
  call_manager-file = λ p method m. kept_by method p m;
}

abbrev pub machine : Machine
machine = record {
  files = λ p. none;
  units = [];
  images =
      record {
        id = "sha256:a1";
        repo_tags = "registry:4000/nova-api:2025.1" ∷ [];
        labels = ("maintainer", "kolla") ∷ [];
      }
      ∷ [];
  containers = record { names = "/nova_api" ∷ []; status = "Up 2 hours" } ∷ [];
  volumes = "kolla_logs" ∷ "nova_api" ∷ [];
  writes = 0;
}

abbrev pub params : Params
params = record {
  name = "nova_api";
  image = "registry:4000/nova-api:2025.1";
  ipc_mode = none;
  pid_mode = none;
  cgroupns_mode = some "private";
  cap_add = [];
  security_opt = [];
  privileged = false;
  labels = [];
  tmpfs = [];
  volumes =
      "/etc/kolla/nova-api/:/var/lib/kolla/config_files/:ro" ∷ "kolla_logs:/var/log/kolla/" ∷ [];
  volumes_from = [];
  environment = ("KOLLA_CONFIG_STRATEGY", text "COPY_ALWAYS") ∷ [];
  dimensions = [];
  ulimits = none;
  command = none;
  healthcheck = [];
  state = "running";
  restart_policy = some "unless-stopped";
  graceful_timeout = 10;
  detach = true;
  remove_on_exit = true;
  ignore_missing = false;
  tty = false;
  auth_username = none;
  auth_registry = none;
  tls_verify = false;
}

abbrev pub inspected : ContainerInfo
inspected = record {
  image_id = "sha256:a1";
  config_image = "registry:4000/nova-api:2025.1";
  labels = ("maintainer", "kolla") ∷ [];
  env = "KOLLA_CONFIG_STRATEGY=COPY_ALWAYS" ∷ "PATH=/usr/bin" ∷ [];
  volumes = "/var/log/kolla/" ∷ "/var/lib/kolla/config_files/" ∷ [];
  healthcheck = [];
  ipc_mode = "shareable";
  pid_mode = "";
  cgroupns_mode = "private";
  cap_add = [];
  security_opt = [];
  privileged = false;
  tmpfs = [];
  volumes_from = [];
  binds =
      "/etc/kolla/nova-api/:/var/lib/kolla/config_files/:ro" ∷ "kolla_logs:/var/log/kolla/:rw" ∷ [];
  dimensions = [];
  ulimits = [];
  status = "running";
  path = "dumb-init";
  args = "kolla_start" ∷ [];
}

abbrev pub wrote : Machine → Result (Unit {0}) × Machine
wrote m = (ok tt, record m { writes = suc m.writes })

abbrev pub docker : Docker Machine
docker = record {
  images = λ m. (ok m.images, m);
  image_ids = λ image m. (ok [], m);
  volumes = λ m. (ok m.volumes, m);
  containers = λ m. (ok m.containers, m);
  inspect_container = λ name m. (ok inspected, m);
  exec_compare_config = λ name m. (ok 0, m);
  login = λ params m. (ok tt, m);
  pull = λ image tag m. (ok (none ∷ some ("manifest for " & image & " not found") ∷ []), m);
  create_container = λ params options m. wrote (record m {
    containers = record { names = ("/" & params.name) ∷ []; status = "Created" } ∷ [];
  });
  start = λ name m. wrote m;
  stop = λ name timeout m. wrote m;
  wait = λ name m. (ok 0, m);
  logs = λ name stdout m. (ok "", m);
  remove_container = λ name m. wrote (record m { containers = [] });
  create_volume = λ name m. wrote (record m { volumes = name ∷ m.volumes });
  remove_volume = λ name m. wrote m;
  remove_image = λ name m. wrote m;
  parse_repository_tag = λ name. (name, "");
}

abbrev pub run_on : Machine → Run Machine
run_on m = record { changed = false; result = none; volume = none; world = m }

abbrev pub empty_machine : Machine
empty_machine = record machine { containers = []; units = [] }
