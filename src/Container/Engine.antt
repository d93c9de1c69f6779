-- ===== src/Container/Engine.antt =====
-- What DockerWorker uses of the Docker SDK, and the state that a worker keeps. The calls are
-- parameters: each may answer anything, raise, and change the world.
use irnmn.Prelude.{ℕ, String, Bool, true, ◌||◌, List, Option, none, some, if◌then◌else◌}
use irnmn.Effect.{Result, ok, Exec, pure, ◌>>=◌}
use irnmn.Values.{Value}
use irnmn.Container.Params.{Params, ContainerInfo, ImageEntry, ContainerEntry, Dimension, Ulimit}
use irnmn.Container.Volumes.{Bind}
use irnmn.Container.Healthcheck.{Items}

-- The options of `create_container`: those that the worker computes; the others are parameters as
-- they are.
pub record CreateOptions : Type 0 where
  pub environment : List (String × Value)
  pub volumes : List String
  pub binds : List (String × Bind)
  pub tmpfs : List String
  pub dimensions : List (String × Dimension)
  pub ulimits : Option (List Ulimit)
  pub cgroupns_mode : Option String
  pub healthcheck : Option Items

pub record Docker (W : Type 0) : Type 0 where
  pub images : Exec W (List ImageEntry)
  -- `images(name=..., quiet=True)`
  pub image_ids : String → Exec W (List String)
  -- The names of the volumes.
  pub volumes : Exec W (List String)
  pub containers : Exec W (List ContainerEntry)
  pub inspect_container : String → Exec W ContainerInfo
  -- `exec_create`, `exec_start` and `exec_inspect` of the configuration check: the exit code.
  pub exec_compare_config : String → Exec W ℕ
  pub login : Params → Exec W (Unit {0})
  -- The `error` of each status, if it has one.
  pub pull : String → String → Exec W (List (Option String))
  pub create_container : Params → CreateOptions → Exec W (Unit {0})
  pub start : String → Exec W (Unit {0})
  -- name and timeout
  pub stop : String → ℕ → Exec W (Unit {0})
  pub wait : String → Exec W ℕ
  -- The standard output, or the standard error.
  pub logs : String → Bool → Exec W String
  pub remove_container : String → Exec W (Unit {0})
  pub create_volume : String → Exec W (Unit {0})
  pub remove_volume : String → Exec W (Unit {0})
  pub remove_image : String → Exec W (Unit {0})
  -- `docker.utils.parse_repository_tag`
  pub parse_repository_tag : String → String × String

-- `self.result` of a container that was waited for.
pub record Output : Type 0 where
  pub rc : ℕ
  pub stdout : Option String
  pub stderr : Option String

-- A worker's `changed` and `result`, with the world; `volume` is the volume whose attributes
-- PodmanWorker has put into the result.
pub record Run (W : Type 0) : Type 0 where
  pub changed : Bool
  pub result : Option Output
  pub volume : Option String
  pub world : W

abbrev pub at_world : {W A : Type 0} → Run W → Result A × W → Result A × Run W
at_world r x = (x.0, record r { world = x.1 })

-- A call of the engine or of systemd by the worker.
abbrev pub call : {W A : Type 0} → Exec W A → Exec (Run W) A
call m r = at_world r (m r.world)

-- `self.changed = True`
abbrev pub set_changed : {W : Type 0} → Exec (Run W) (Unit {0})
set_changed r = (ok tt, record r { changed = true })

-- `self.changed |= flag`
abbrev pub or_changed : {W : Type 0} → Bool → Exec (Run W) (Unit {0})
or_changed flag r = (ok tt, record r { changed = r.changed || flag })

-- `self.changed = flag`
abbrev pub assign_changed : {W : Type 0} → Bool → Exec (Run W) (Unit {0})
assign_changed flag r = (ok tt, record r { changed = flag })

abbrev pub set_result : {W : Type 0} → Output → Exec (Run W) (Unit {0})
set_result output r = (ok tt, record r { result = some output })

-- `self.result = vol.attrs`, by the volume's name
abbrev pub set_volume : {W : Type 0} → String → Exec (Run W) (Unit {0})
set_volume name r = (ok tt, record r { result = none; volume = some name })

-- `a or b` of two calls
infixr 4 ◌or_else◌
abbrev pub ◌or_else◌ : {W : Type 0} → Exec W Bool → Exec W Bool → Exec W Bool
a or_else b = a >>= λ first. if first then pure true else b
