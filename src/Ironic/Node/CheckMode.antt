-- ===== src/Ironic/Node/CheckMode.antt =====
-- In check mode the reconciliation of a node calls nothing that writes: each statement of the block
-- is replaced along its path.
use irnmn.Prelude.{
  ℕ, ◌+◌, ◌≡◌, refl, ◌&◌, Bool, true, false, not, ◌&&◌, ◌||◌, ltb, List, [], ◌∷◌, select, length,
  Bool-cases, inl, inr, is_empty,
}
use irnmn.Values.{Value, null, text, value_eq, to_text}
use irnmn.Effect.{pure, raise, lift, ◌>>=◌, ◌>>◌, raise_if, reconciliation_error}
use irnmn.Ironic.Baremetal.{IronicNode, IronicPort, Baremetal}
use irnmn.Ironic.Spec.{RawSpec, NodeSpec, Port, normalize_spec}
use irnmn.Ironic.Ports.{
  matches_of, extras, check_owners, reconcile_port, reconcile_each, reconcile_ports,
  preflight_port_ownership,
}
use irnmn.Ironic.Node.{
  is_allowed_state, plain_updates, dict_updates, update_node_if, manage_if, bring_up,
  reconcile_found, reconcile_spec, reconcile_node, redacted, secret_values,
}

module _ {W : Type 0} (b b' : Baremetal W) (same_nodes : b'.nodes ≡ b.nodes)
    (same_ports : b'.ports ≡ b.ports) where
  port-same :
      (node_id : Value) (desired : Port) (found : List IronicPort)
      → reconcile_port b' node_id true desired found ≡ reconcile_port b node_id true desired found
  unfolding reconcile_port
  port-same node_id desired [] = refl
  port-same node_id desired (p ∷ []) =
      elim (Bool-cases (value_eq p.physical_network desired.physical_network)) [
        | inl e ↦ rw e
        | inr e ↦ rw e
      ]
  port-same node_id desired (p ∷ q ∷ r) = refl

  each-same :
      (node_id : Value) (found : List IronicPort) (changed : ℕ) (desired : List Port)
      → reconcile_each b' node_id true found changed desired
        ≡ reconcile_each b node_id true found changed desired
  unfolding reconcile_each
  each-same node_id found changed [] i = pure changed
  each-same node_id found changed (d ∷ rest) i = do
    one ← port-same node_id d (matches_of d.address found) i
    each-same node_id found (changed + one) rest i

  ports-same :
      (node_id : Value) (desired : List Port)
      → reconcile_ports b' node_id desired true ≡ reconcile_ports b node_id desired true
  unfolding reconcile_ports
  ports-same node_id desired i = do
    found ← same_ports i
    changed ← each-same node_id found 0 desired i
    pure (record { ports_changed = changed; extra_ports = extras node_id found desired })

  preflight-same :
      (expected : Value) (desired : List Port)
      → preflight_port_ownership b' expected desired ≡ preflight_port_ownership b expected desired
  unfolding preflight_port_ownership
  preflight-same expected desired i = do found ← same_ports i; check_owners b expected found desired

  update-same :
      (timeout : ℕ) (spec : NodeSpec) (node : IronicNode)
      → update_node_if b' true timeout spec node ≡ update_node_if b true timeout spec node
  unfolding update_node_if
  update-same timeout spec node =
      elim (Bool-cases (is_empty (plain_updates spec node) && is_empty (dict_updates spec node))) [
        | inl e ↦ rw e
        | inr e ↦ rw e
      ]

  manage-same :
      (timeout : ℕ) (state : Value) (node : IronicNode)
      → manage_if b' true timeout state node ≡ manage_if b true timeout state node
  unfolding manage_if
  manage-same timeout state node = elim (Bool-cases (value_eq state (text "enroll"))) [
    | inl e ↦ rw e
    | inr e ↦ rw e
  ]

  bring_up-same :
      (timeout : ℕ) (spec : NodeSpec) (created : Bool) (node : IronicNode)
      → bring_up b' true timeout spec created node ≡ bring_up b true timeout spec created node
  unfolding bring_up
  bring_up-same timeout spec created node i = do
    raise_if (not (is_allowed_state node.provision_state)) (
        reconciliation_error (
          "Ironic Node "
          & spec.name
          & " is in forbidden provision state "
          & to_text node.provision_state))
    updated ← update-same timeout spec node i
    managed ← manage-same timeout node.provision_state updated i
    ports ← ports-same managed.id spec.ports i
    pure (record {
      changed =
          created
          || not (is_empty (plain_updates spec node) && is_empty (dict_updates spec node))
          || value_eq node.provision_state (text "enroll")
          || ltb 0 ports.ports_changed;
      node = spec.name;
      node_uuid = managed.id;
      provision_state = managed.provision_state;
      ports_changed = ports.ports_changed;
      extra_ports = ports.extra_ports;
    })

  found-same :
      (timeout : ℕ) (spec : NodeSpec) (found : List IronicNode)
      → reconcile_found b' true timeout spec found ≡ reconcile_found b true timeout spec found
  unfolding reconcile_found
  found-same timeout spec [] i = do
    preflight-same null spec.ports i
    pure (record {
      changed = true;
      node = spec.name;
      node_uuid = null;
      provision_state = text "absent";
      ports_changed = length spec.ports;
      extra_ports = [];
    })
  found-same timeout spec (node ∷ []) i = do
    preflight-same node.id spec.ports i
    bring_up-same timeout spec false node i
  found-same timeout spec (p ∷ q ∷ r) i =
      raise (reconciliation_error ("expected exactly one Ironic Node named " & spec.name))

  spec-same :
      (timeout : ℕ) (spec : NodeSpec)
      → reconcile_spec b' true timeout spec ≡ reconcile_spec b true timeout spec
  unfolding reconcile_spec
  spec-same timeout spec i = do
    found ← same_nodes i
    found-same timeout spec (select (λ node. value_eq node.name (text spec.name)) found) i

-- In check mode the outcome depends on the two listings only: it is the same whatever the calls
-- that create, update and fetch do, as they are not made.
pub reconcile_node-check_mode :
    {W : Type 0} (b b' : Baremetal W) (raw : RawSpec) (timeout : ℕ) (w : W)
    → b'.nodes ≡ b.nodes
    → b'.ports ≡ b.ports
    → reconcile_node b' raw true timeout w ≡ reconcile_node b raw true timeout w
unfolding reconcile_node
reconcile_node-check_mode b b' raw timeout w same_nodes same_ports i =
    redacted (secret_values raw.driver_info) (
      (lift (normalize_spec raw) >>= λ spec. spec-same b b' same_nodes same_ports timeout spec i) w)
