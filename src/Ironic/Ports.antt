-- ===== src/Ironic/Ports.antt =====
-- `reconcile_ports` and `_preflight_port_ownership` of powerops_ironic_node.py.
pub mod Owned
use irnmn.Prelude.{
  ℕ, ◌+◌, String, Bool, true, false, not, ◌&&◌, ◌==◌, List, [], ◌∷◌, map, select, ◌&◌,
  if◌then◌else◌,
}
use irnmn.Text.{lower, sorted}
use irnmn.Values.{Value, value_eq}
use irnmn.Effect.{Exec, pure, raise, raise_if, run_if, reconciliation_error, ◌>>=◌, ◌>>◌}
use irnmn.Ironic.Baremetal.{IronicPort, Baremetal}
use irnmn.Ironic.Spec.{Port, member}

pub record PortsReply : Type 0 where
  pub ports_changed : ℕ
  pub extra_ports : List String

-- The ports whose address is the desired one, ignoring case.
abbrev pub matches_of : String → List IronicPort → List IronicPort
matches_of address = select (λ port. lower port.address == address)

abbrev addresses_of : List Port → List String
addresses_of = map (λ p. p.address)

-- The node's ports that no declaration names.
unfoldable pub extras : Value → List IronicPort → List Port → List String
extras node_id found desired = sorted (
    map (λ port. lower port.address)
      (select
        (λ port.
          value_eq port.node_id node_id && not (member (lower port.address) (addresses_of desired)))
        found))

module _ {W : Type 0} (b : Baremetal W) where
  -- One desired port, with its matches; the count is 1 if it differs.
  unfoldable pub reconcile_port : Value → Bool → Port → List IronicPort → Exec W ℕ
  reconcile_port node_id check_mode desired [] = do
    run_if (not check_mode) (b.create_port node_id desired.address desired.physical_network)
    pure 1
  reconcile_port node_id check_mode desired (port ∷ []) = do
    raise_if (not (value_eq port.node_id node_id))
        (reconciliation_error ("port " & desired.address & " belongs to another Ironic Node"))
    run_if (not (value_eq port.physical_network desired.physical_network) && not check_mode)
        (b.update_port port desired.physical_network)
    pure (if value_eq port.physical_network desired.physical_network then 0 else 1)
  reconcile_port node_id check_mode desired _ =
      raise (reconciliation_error ("expected at most one Ironic Port with MAC " & desired.address))

  -- The loop over the desired ports, with the listing made before it.
  unfoldable pub reconcile_each : Value → Bool → List IronicPort → ℕ → List Port → Exec W ℕ
  unfolding reconcile_port
  reconcile_each node_id check_mode found changed [] = pure changed
  reconcile_each node_id check_mode found changed (desired ∷ rest) = do
    one ← reconcile_port node_id check_mode desired (matches_of desired.address found)
    reconcile_each node_id check_mode found (changed + one) rest

  unfoldable pub reconcile_ports : Value → List Port → Bool → Exec W PortsReply
  unfolding reconcile_each
  reconcile_ports node_id desired check_mode = do
    found ← b.ports
    changed ← reconcile_each node_id check_mode found 0 desired
    pure (record { ports_changed = changed; extra_ports = extras node_id found desired })

  -- One desired port of the preflight, with its matches.
  unfoldable pub check_owner : Value → Port → List IronicPort → Exec W (Unit {0})
  check_owner expected desired [] = pure tt
  check_owner expected desired (port ∷ []) =
      raise_if (not (value_eq port.node_id expected))
        (reconciliation_error ("port " & desired.address & " belongs to another Ironic Node"))
  check_owner expected desired _ =
      raise (reconciliation_error ("expected at most one Ironic Port with MAC " & desired.address))

  unfoldable pub check_owners : Value → List IronicPort → List Port → Exec W (Unit {0})
  unfolding check_owner
  check_owners expected found [] = pure tt
  check_owners expected found (desired ∷ rest) = do
    check_owner expected desired (matches_of desired.address found)
    check_owners expected found rest

  unfoldable pub preflight_port_ownership : Value → List Port → Exec W (Unit {0})
  unfolding check_owners
  preflight_port_ownership expected desired = do
    found ← b.ports
    check_owners expected found desired
