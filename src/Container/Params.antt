-- ===== src/Container/Params.antt =====
-- What the workers read: the module's parameters, and what the engine reports of a container and of
-- an image.
use irnmn.Prelude.{ℕ, String, Bool, List, Option}
use irnmn.Values.{Value}

-- A value of the dimensions: a null, a number or a text.
pub data Dimension : Type 0 where
  no_value : Dimension
  number : ℕ → Dimension
  written : String → Dimension

pub record Ulimit : Type 0 where
  pub name : String
  pub soft : Option ℕ
  pub hard : Option ℕ

-- A value of the option `healthcheck`.
pub data HealthValue : Type 0 where
  nothing : HealthValue
  integer : ℕ → HealthValue
  word : String → HealthValue
  words : List String → HealthValue

-- A value of the engine's health check: a time or a count, or the words of the test.
pub data HealthItem : Type 0 where
  amount : ℕ → HealthItem
  test_words : List String → HealthItem

-- `module.params`, after `generate_module`. An option that may be null and reads like an empty one
-- is the empty one here.
pub record Params : Type 0 where
  pub name : String
  pub image : String
  pub ipc_mode : Option String
  pub pid_mode : Option String
  pub cgroupns_mode : Option String
  pub cap_add : List String
  pub security_opt : List String
  pub privileged : Bool
  pub labels : List (String × String)
  pub tmpfs : List String
  pub volumes : List String
  pub volumes_from : List String
  pub environment : List (String × Value)
  pub dimensions : List (String × Dimension)
  pub ulimits : Option (List Ulimit)
  pub command : Option String
  pub healthcheck : List (String × HealthValue)
  pub state : String
  pub restart_policy : Option String
  pub graceful_timeout : ℕ
  pub detach : Bool
  pub remove_on_exit : Bool
  pub ignore_missing : Bool
  pub tty : Bool
  pub auth_username : Option String
  pub auth_registry : Option String
  pub tls_verify : Bool

-- `inspect_container`, as the comparisons read it: an entry that is missing or falsy reads as the
-- empty one. `dimensions` are the entries of `HostConfig` by their engine's names.
pub record ContainerInfo : Type 0 where
  pub image_id : String
  pub config_image : String
  pub labels : List (String × String)
  pub env : List String
  pub volumes : List String
  pub healthcheck : List (String × HealthItem)
  pub ipc_mode : String
  pub pid_mode : String
  pub cgroupns_mode : String
  pub cap_add : List String
  pub security_opt : List String
  pub privileged : Bool
  pub tmpfs : List String
  pub volumes_from : List String
  pub binds : List String
  pub dimensions : List (String × Dimension)
  pub ulimits : List Ulimit
  pub status : String
  pub path : String
  pub args : List String

-- An entry of `images`.
pub record ImageEntry : Type 0 where
  pub id : String
  pub repo_tags : List String
  pub labels : List (String × String)

-- An entry of `containers`.
pub record ContainerEntry : Type 0 where
  pub names : List String
  pub status : String
