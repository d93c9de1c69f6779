-- ===== src/PowerOps/Cloud.antt =====
-- What the power operations use of the OpenStack SDK and of `time.sleep`. The calls are
-- parameters: each may answer anything, raise, and change the world.
use irnmn.Prelude.{String, Bool, List}
use irnmn.Attr.{Attr, Flag}
use irnmn.Effect.{Exec}
use irnmn.PowerOps.Duration.{ℤ}

-- baremetal nodes
pub record Node : Type 0 where
  pub id : String
  pub name : Attr
  pub power_state : Attr
  pub target_power_state : Attr
  pub last_error : Attr

-- compute services
pub record Service : Type 0 where
  pub id : String
  pub host : Attr
  pub binary : Attr
  pub status : Attr
  pub state : Attr

-- compute servers; `ext_hypervisor_hostname` is `OS-EXT-SRV-ATTR:hypervisor_hostname`
pub record Server : Type 0 where
  pub id : String
  pub name : Attr
  pub status : Attr
  pub hypervisor_hostname : Attr
  pub ext_hypervisor_hostname : Attr

-- instance_ha segments and their hosts
pub record Segment : Type 0 where
  pub id : String

pub record SegmentHost : Type 0 where
  pub id : String
  pub name : Attr
  pub on_maintenance : Flag

-- network agents
pub record Agent : Type 0 where
  pub binary : Attr
  pub is_alive : Flag

-- `connection` and `sleep` of `PowerOperations.__init__`, over the states of the world.
pub record Cloud (W : Type 0) : Type 0 where
  pub nodes : Exec W (List Node)
  pub get_node : Node → Exec W Node
  pub set_node_power_state : Node → String → Exec W (Unit {0})
  -- `compute.services(host=host, binary="nova-compute")`
  pub nova_compute_services : String → Exec W (List Service)
  pub enable_service : Service → Exec W (Unit {0})
  pub disable_service : Service → String → Exec W (Unit {0})
  -- `compute.servers(all_projects=True, host=host)`
  pub servers : String → Exec W (List Server)
  pub live_migrate_server : Server → Exec W (Unit {0})
  pub stop_server : Server → Exec W (Unit {0})
  pub segments : Exec W (List Segment)
  pub hosts : Segment → Exec W (List SegmentHost)
  -- `instance_ha.update_host(item, segment, on_maintenance=...)`
  pub update_host : SegmentHost → Segment → Bool → Exec W (Unit {0})
  pub agents : String → Exec W (List Agent)
  pub sleep : ℤ → W → W
