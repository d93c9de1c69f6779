-- ===== src/PowerOps/Fake.antt =====
-- A cloud for the tests, as the fakes of plugins/mistral_power_actions/tests/test_operations.py:
-- a node whose next reads are scripted, one Nova service, scripted listings of the servers, one
-- Masakari record, and the network agents. Writes are recorded in `calls`.
use irnmn.Prelude.{String, true, List, [], ◌∷◌, ◌++◌, ◌&◌}
use irnmn.Attr.{Attr, missing, null, text, unset, flag}
use irnmn.Effect.{Exec, ok}
use irnmn.PowerOps.Cloud.{Node, Service, Server, SegmentHost, Agent, Cloud}

pub record World : Type 0 where
  pub node : Node
  pub next_nodes : List Node
  pub service : Service
  pub next_servers : List (List Server)
  pub masakari : SegmentHost
  pub found_agents : List Agent
  pub calls : List String

abbrev pub node_in : String → Attr → Node
node_in state pending = record {
  id = "node-1";
  name = text "compute-01";
  power_state = text state;
  target_power_state = pending;
  last_error = null;
}

abbrev pub server_in : String → Server
server_in state = record {
  id = "server-1";
  name = text "server-1";
  status = text state;
  hypervisor_hostname = text "compute-01";
  ext_hypervisor_hostname = missing;
}

abbrev pub calm : World
calm = record {
  node = node_in "power on" null;
  next_nodes = [];
  service = record {
    id = "service-1";
    host = text "compute-01";
    binary = text "nova-compute";
    status = text "enabled";
    state = text "up";
  };
  next_servers = [];
  masakari = record { id = "masakari-host-1"; name = text "compute-01"; on_maintenance = unset };
  found_agents = record { binary = text "ovn-controller"; is_alive = flag true } ∷ [];
  calls = [];
}

abbrev call : String → Exec World (Unit {0})
call what w = (ok tt, record w { calls = w.calls ++ what ∷ [] })

abbrev read_next : List Node → Exec World Node
read_next [] w = (ok w.node, w)
read_next (n ∷ later) w = (ok n, record w { node = n; next_nodes = later })

abbrev list_next : List (List Server) → Exec World (List Server)
list_next [] w = (ok [], w)
list_next (found ∷ later) w = (ok found, record w { next_servers = later })

abbrev pub fake : Cloud World
fake = record {
  nodes = λ w. (ok (w.node ∷ []), w);
  get_node = λ _ w. read_next w.next_nodes w;
  set_node_power_state = λ n target. call ("power " & target);
  nova_compute_services = λ _ w. (ok (w.service ∷ []), w);
  enable_service = λ _. call "enable";
  disable_service = λ _ reason. call ("disable: " & reason);
  servers = λ _ w. list_next w.next_servers w;
  live_migrate_server = λ s. call ("migrate " & s.id);
  stop_server = λ s. call ("stop " & s.id);
  segments = λ w. (ok (record { id = "segment-1" } ∷ []), w);
  hosts = λ _ w. (ok (w.masakari ∷ []), w);
  update_host = λ _ _ on. call "maintenance";
  agents = λ _ w. (ok w.found_agents, w);
  sleep = λ _ w. w;
}
