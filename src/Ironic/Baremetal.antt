-- ===== src/Ironic/Baremetal.antt =====
-- What the module uses of `connection.baremetal`. The calls are parameters: each may answer
-- anything, raise, and change the world. An attribute that a resource lacks reads as `None`.
use irnmn.Prelude.{ℕ, String, List}
use irnmn.Effect.{Exec}
use irnmn.Values.{Value, Dict}

pub record IronicNode : Type 0 where
  pub id : Value
  pub name : Value
  pub provision_state : Value
  pub driver : Value
  pub network_interface : Value
  pub driver_info : Dict
  pub extra : Dict

pub record IronicPort : Type 0 where
  pub address : String
  pub node_id : Value
  pub physical_network : Value

pub record Baremetal (W : Type 0) : Type 0 where
  pub nodes : Exec W (List IronicNode)
  pub ports : Exec W (List IronicPort)
  pub get_node : IronicNode → Exec W IronicNode
  -- name, driver, driver_info, network_interface, extra
  pub create_node : String → String → Dict → String → Dict → Exec W IronicNode
  -- the changed attributes, by name
  pub update_node : IronicNode → List (String × Value) → List (String × Dict) → Exec W IronicNode
  -- target and timeout
  pub set_node_provision_state : IronicNode → String → ℕ → Exec W IronicNode
  -- node_id, address, physical_network
  pub create_port : Value → String → Value → Exec W (Unit {0})
  pub update_port : IronicPort → Value → Exec W (Unit {0})
