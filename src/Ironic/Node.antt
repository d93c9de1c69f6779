-- ===== src/Ironic/Node.antt =====
-- `_reconcile_node` and `reconcile_node` of powerops_ironic_node.py.
pub mod CheckMode
pub mod Refused
pub mod Converges
use irnmn.Prelude.{
  ℕ, String, Bool, true, false, not, ◌&&◌, ◌||◌, ◌==◌, ltb, List, [], ◌∷◌, select, is_empty, length,
  any, ◌&◌, if◌then◌else◌,
}
use irnmn.Text.{lower, contains, replace}
use irnmn.Values.{Value, null, text, value_eq, is_truthy, to_text, Dict, get, put, update}
use irnmn.Effect.{
  Exception, Result, ok, err, Exec, pure, raise, raise_if, lift, reconciliation_error, message,
  ◌>>=◌, ◌>>◌,
}
use irnmn.Ironic.Baremetal.{IronicNode, Baremetal}
use irnmn.Ironic.Spec.{RawSpec, NodeSpec, normalize_spec}
use irnmn.Ironic.Ports.{PortsReply, reconcile_ports, preflight_port_ownership}

pub record NodeReply : Type 0 where
  pub changed : Bool
  pub node : String
  pub node_uuid : Value
  pub provision_state : Value
  pub ports_changed : ℕ
  pub extra_ports : List String

-- `_driver_info_differs`
unfoldable pub driver_info_differs : Dict → Dict → Bool
driver_info_differs current [] = false
driver_info_differs current ((key, desired) ∷ rest) =
    not (value_eq (get key current) desired) || driver_info_differs current rest

-- The changed attributes of `updates`: plain ones, and mappings.
unfoldable pub plain_updates : NodeSpec → IronicNode → List (String × Value)
plain_updates spec node =
    let network =
      (if value_eq node.network_interface (text "noop")
        then []
        else ("network_interface", text "noop") ∷ []) in
    if value_eq node.driver (text spec.driver)
    then network
    else ("driver", text spec.driver) ∷ network

unfoldable pub dict_updates : NodeSpec → IronicNode → List (String × Dict)
unfolding driver_info_differs update get put
dict_updates spec node =
    let extra =
      (if value_eq (get "nova_hostname" node.extra) (text spec.nova_hostname)
        then []
        else ("extra", put "nova_hostname" (text spec.nova_hostname) node.extra) ∷ []) in
    if driver_info_differs node.driver_info spec.driver_info
    then ("driver_info", update node.driver_info spec.driver_info) ∷ extra
    else extra

abbrev pub is_allowed_state : Value → Bool
is_allowed_state state = value_eq state (text "enroll") || value_eq state (text "manageable")

module _ {W : Type 0} (b : Baremetal W) (check_mode : Bool) (timeout : ℕ) where
  -- From the updates on, for a node in an allowed state.
  unfoldable pub update_node_if : NodeSpec → IronicNode → Exec W IronicNode
  unfolding plain_updates dict_updates
  update_node_if spec node =
      let plain = plain_updates spec node in
      let dicts = dict_updates spec node in
      if (is_empty plain && is_empty dicts) || check_mode
      then pure node
      else b.update_node node plain dicts

  unfoldable pub manage_if : Value → IronicNode → Exec W IronicNode
  manage_if state node =
      if not (value_eq state (text "enroll")) || check_mode
      then pure node
      else do managed ← b.set_node_provision_state node "manage" timeout; b.get_node managed

  unfoldable pub bring_up : NodeSpec → Bool → IronicNode → Exec W NodeReply
  unfolding update_node_if manage_if reconcile_ports
  bring_up spec created node = do
    raise_if (not (is_allowed_state node.provision_state)) (
        reconciliation_error (
          "Ironic Node "
          & spec.name
          & " is in forbidden provision state "
          & to_text node.provision_state))
    updated ← update_node_if spec node
    managed ← manage_if node.provision_state updated
    ports ← reconcile_ports b managed.id spec.ports check_mode
    pure (record {
      changed =
          created
          || not (is_empty (plain_updates spec node) && is_empty (dict_updates spec node))
          || value_eq node.provision_state (text "enroll")
          || ltb 0 ports.ports_changed;
      node = spec.name;
      node_uuid = managed.id;
      provision_state = managed.provision_state;
      ports_changed = ports.ports_changed;
      extra_ports = ports.extra_ports;
    })

  -- `_reconcile_node` by the nodes that bear the name.
  unfoldable pub reconcile_found : NodeSpec → List IronicNode → Exec W NodeReply
  unfolding preflight_port_ownership bring_up
  reconcile_found spec [] = do
    preflight_port_ownership b null spec.ports
    if check_mode
        then pure (record {
          changed = true;
          node = spec.name;
          node_uuid = null;
          provision_state = text "absent";
          ports_changed = length spec.ports;
          extra_ports = [];
        })
        else (do
          node ←
              b.create_node spec.name spec.driver spec.driver_info "noop"
                (("nova_hostname", text spec.nova_hostname) ∷ [])
          bring_up spec true node)
  reconcile_found spec (node ∷ []) = do
    preflight_port_ownership b node.id spec.ports
    bring_up spec false node
  reconcile_found spec _ =
      raise (reconciliation_error ("expected exactly one Ironic Node named " & spec.name))

  unfoldable pub reconcile_spec : NodeSpec → Exec W NodeReply
  unfolding reconcile_found
  reconcile_spec spec = do
    found ← b.nodes
    reconcile_found spec (select (λ node. value_eq node.name (text spec.name)) found)

-- `_secret_values`
unfoldable pub secret_values : Dict → List String
secret_values [] = []
secret_values ((key, value) ∷ rest) =
    if contains "password" (lower key) && is_truthy value
    then to_text value ∷ secret_values rest
    else secret_values rest

-- `_redact`
unfoldable pub redact : List String → String → String
redact [] s = s
redact (secret ∷ rest) s = redact rest (replace secret "***" s)

-- The handler: the exception is replaced by a ReconciliationError with the redacted message, which
-- is the exception itself where nothing was redacted.
abbrev pub redacted : {W A : Type 0} → List String → Result A × W → Result A × W
redacted secrets (ok a, w) = (ok a, w)
redacted secrets (err e, w) = (err (reconciliation_error (redact secrets (message e))), w)

unfoldable pub reconcile_node : {W : Type 0} → Baremetal W → RawSpec → Bool → ℕ → Exec W NodeReply
unfolding reconcile_spec
reconcile_node b raw check_mode timeout w =
    redacted (secret_values raw.driver_info)
      ((lift (normalize_spec raw) >>= reconcile_spec b check_mode timeout) w)
