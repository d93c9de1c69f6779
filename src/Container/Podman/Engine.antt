-- ===== src/Container/Podman/Engine.antt =====
-- What PodmanWorker uses of podman-py. The calls are parameters: each may answer anything, raise, and
-- change the world.
use irnmn.Prelude.{ℕ, String, Bool, List, Option}
use irnmn.Effect.{Exec}
use irnmn.Container.Params.{Params, ContainerInfo, ImageEntry, Dimension, Ulimit}
use irnmn.Container.Volumes.{Bind}
use irnmn.Container.Healthcheck.{Items}

-- A container as `reload` reads it.
pub record Container : Type 0 where
  pub id : String
  pub name : String
  pub status : String
  pub attrs : ContainerInfo

-- An item of `mounts`: source and target; and of a bind, whether it is read-only, and its propagation.
pub data Mount : Type 0 where
  bind_mount : String → String → Bool → String → Mount
  devpts_mount : String → String → Mount

-- The arguments of `containers.create`: those that the worker computes; the others are parameters as
-- they are.
pub record ContainerArgs : Type 0 where
  pub command : Option (List String)
  pub mounts : List Mount
  pub volumes : List (String × Bind)
  pub environment : List (String × String)
  pub healthcheck : Option Items
  pub dimensions : List (String × Dimension)
  pub ulimits : Option (List Ulimit)
  pub cap_add : List String
  pub stop_timeout : ℕ
  pub cgroupns : Option String

-- The arguments of `images.pull`, with the user if one logs in.
pub record ImageArgs : Type 0 where
  pub repository : String
  pub tag : String
  pub tls_verify : Bool
  pub username : Option String
  pub image : Option String

pub record Podman (W : Type 0) : Type 0 where
  pub get_image : String → Exec W ImageEntry
  pub get_volume : String → Exec W (Unit {0})
  -- The ids of all containers.
  pub containers : Exec W (List String)
  -- `containers.get(name)`: the id.
  pub get_container : String → Exec W String
  pub reload : String → Exec W Container
  pub exec_compare_config : String → Exec W ℕ
  -- The image's attributes, or `none` where they are empty.
  pub pull : ImageArgs → Exec W (Option ImageEntry)
  -- Whether the new container has attributes.
  pub create_container : Params → ContainerArgs → Exec W Bool
  pub start : String → Exec W (Unit {0})
  -- id and timeout
  pub stop : String → ℕ → Exec W (Unit {0})
  pub wait : String → Exec W ℕ
  -- The lines of the standard output, or of the standard error.
  pub logs : String → Bool → Exec W (List String)
  pub remove_container : String → Exec W (Unit {0})
  pub create_volume : String → Exec W (Unit {0})
  pub remove_volume : String → Exec W (Unit {0})
  pub remove_image : ImageEntry → Exec W (Unit {0})
  -- Equality of the attributes.
  pub same_attrs : ImageEntry → ImageEntry → Bool
