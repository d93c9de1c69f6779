-- ===== src/Ironic/Tests.antt =====
-- Runs of the reconciliation of a node against a store of nodes and ports.
use irnmn.Prelude.{ℕ, suc, ◌≡◌, refl, true, false, List, [], ◌∷◌}
use irnmn.Text.{strip, lower, is_mac, sorted}
use irnmn.Values.{null, text, Dict}
use irnmn.Effect.{ok, err, reconciliation_error}
use irnmn.Effect.Post.{Returns, FailsAt}
use irnmn.Prelude.{All}
use irnmn.Ironic.Baremetal.{IronicNode, IronicPort, Baremetal}
use irnmn.Ironic.Spec.{port, RawSpec, NodeSpec, normalize_spec}
use irnmn.Ironic.Ports.{extras, matches_of, preflight_port_ownership}
use irnmn.Ironic.Ports.Owned.{IsFreeOrOwned, preflight_port_ownership-Returns}
use irnmn.Ironic.Node.{reconcile_spec, reconcile_node}
use irnmn.Ironic.Node.CheckMode.{reconcile_node-check_mode}
use irnmn.Ironic.Node.Refused.{reconcile_spec-forbidden}

-- The nodes, the ports, and how many calls have written.
pub record Store : Type 0 where
  pub nodes : List IronicNode
  pub ports : List IronicPort
  pub writes : ℕ

abbrev wrote : Store → Store
wrote s = record { nodes = s.nodes; ports = s.ports; writes = suc s.writes }

abbrev enrolled : IronicNode
enrolled = record {
  id = text "u1";
  name = text "rack1";
  provision_state = text "enroll";
  driver = text "redfish";
  network_interface = text "noop";
  driver_info = [];
  extra = [];
}

abbrev deployed : IronicNode
deployed = record {
  id = text "u1";
  name = text "rack1";
  provision_state = text "active";
  driver = text "redfish";
  network_interface = text "noop";
  driver_info = [];
  extra = [];
}

-- A service that answers every write with an enrolled node.
abbrev service : Baremetal Store
service = record {
  nodes = λ s. (ok s.nodes, s);
  ports = λ s. (ok s.ports, s);
  get_node = λ node s. (ok node, s);
  create_node = λ name driver info interface extra s. (ok enrolled, wrote s);
  update_node = λ node plain dicts s. (ok node, wrote s);
  set_node_provision_state = λ node target timeout s. (ok node, wrote s);
  create_port = λ node_id address network s. (ok tt, wrote s);
  update_port = λ p network s. (ok tt, wrote s);
}

-- A service that refuses every write.
abbrev read_only : Baremetal Store
read_only = record {
  nodes = λ s. (ok s.nodes, s);
  ports = λ s. (ok s.ports, s);
  get_node = λ node s. (err (reconciliation_error "down"), s);
  create_node = λ name driver info interface extra s. (err (reconciliation_error "down"), s);
  update_node = λ node plain dicts s. (err (reconciliation_error "down"), s);
  set_node_provision_state = λ node target timeout s. (err (reconciliation_error "down"), s);
  create_port = λ node_id address network s. (err (reconciliation_error "down"), s);
  update_port = λ p network s. (err (reconciliation_error "down"), s);
}

abbrev ipmi_info : Dict
ipmi_info =
    ("ipmi_address", text "10.0.0.1")
    ∷ ("ipmi_username", text "admin")
    ∷ ("ipmi_password", text "pw")
    ∷ []

abbrev declared : RawSpec
declared = record {
  name = text " rack1 ";
  nova_hostname = text "compute1";
  driver = text "IPMI";
  network_interface = text "noop";
  desired_provision_state = text "manageable";
  driver_info = ipmi_info;
  ports = port (text "52:54:00:AA:BB:01") null ∷ [];
}

abbrev rack : NodeSpec
rack = record {
  name = "rack1";
  nova_hostname = "compute1";
  driver = "ipmi";
  driver_info = ipmi_info;
  ports = record { address = "52:54:00:aa:bb:01"; physical_network = null } ∷ [];
}

abbrev empty_store : Store
empty_store = record { nodes = []; ports = []; writes = 0 }

abbrev active_store : Store
active_store = record { nodes = deployed ∷ []; ports = []; writes = 0 }

abbrev owned_store : Store
owned_store = record {
  nodes = enrolled ∷ [];
  ports =
      record { address = "52:54:00:AA:BB:01"; node_id = text "u1"; physical_network = null } ∷ [];
  writes = 0;
}

-- A node that is not there is created, updated and managed; then its port is created.
absent_node_created : reconcile_node service declared false 300 empty_store ≡ (
  ok (record {
    changed = true;
    node = "rack1";
    node_uuid = text "u1";
    provision_state = text "enroll";
    ports_changed = 1;
    extra_ports = [];
  }),
  record { nodes = []; ports = []; writes = 4 },
)
unfolding reconcile_node normalize_spec strip lower is_mac extras sorted
absent_node_created = refl

reconcile_node-check_mode_example :
    reconcile_node read_only declared true 300 owned_store
    ≡ reconcile_node service declared true 300 owned_store
reconcile_node-check_mode_example =
    reconcile_node-check_mode service read_only declared 300 owned_store refl refl

reconcile_spec-forbidden_example :
    FailsAt active_store (reconcile_spec service false 300 rack active_store)
reconcile_spec-forbidden_example =
    reconcile_spec-forbidden service false 300 rack deployed (deployed ∷ []) active_store
      active_store refl refl refl

preflight_port_ownership-Returns_example :
    Returns
      (λ _ last.
        (last ≡ owned_store)
        × All (λ d. IsFreeOrOwned (text "u1") (matches_of d.address owned_store.ports)) rack.ports)
      (preflight_port_ownership service (text "u1") rack.ports owned_store)
preflight_port_ownership-Returns_example =
    preflight_port_ownership-Returns service (text "u1") rack.ports owned_store.ports owned_store
      owned_store refl
