-- ===== src/Segment/Hosts.antt =====
-- The hosts of `reconcile_segment`: the loop over the desired hosts.
pub mod Settled
use irnmn.Prelude.{
  ℕ, ◌+◌, String, Bool, true, false, not, ◌&&◌, ◌==◌, is_empty, List, [], ◌∷◌, map, select, ◌&◌,
  Option, none, some, if◌then◌else◌,
}
use irnmn.Text.{sorted}
use irnmn.Values.{Value, text, boolean, value_eq, Dict}
use irnmn.Effect.{Exec, pure, raise, raise_if, run_if, reconciliation_error, ◌>>=◌, ◌>>◌}
use irnmn.Segment.Spec.{HostSpec, known}
use irnmn.Segment.InstanceHa.{Segment, SegmentHost, InstanceHa}

abbrev pub names_of : List SegmentHost → List String
names_of = map (λ h. h.name)

abbrev pub desired_names : List HostSpec → List String
desired_names = map (λ h. h.name)

-- `existing_by_name.get(name)`
unfoldable pub find_host : String → List SegmentHost → Option SegmentHost
find_host name [] = none
find_host name (h ∷ rest) = if h.name == name then some h else find_host name rest

-- A changed attribute, if it differs.
abbrev pub change : String → Value → Value → Dict → Dict
change key current desired updates =
    if value_eq current desired then updates else (key, desired) ∷ updates

unfoldable pub host_updates : HostSpec → SegmentHost → Dict
host_updates desired host = change "type" host.kind (text "COMPUTE") (
    change "control_attributes" host.control_attributes (text desired.control_attributes) (
      change "reserved" host.reserved (boolean desired.reserved)
        (change "on_maintenance" host.on_maintenance (boolean desired.on_maintenance) [])))

-- The names that no declaration has.
unfoldable pub extra_hosts : List SegmentHost → List HostSpec → List String
extra_hosts existing desired =
    sorted (select (λ name. not (known name (desired_names desired))) (names_of existing))

module _ {W : Type 0} (client : InstanceHa W) where
  -- The loop that fills `existing_by_name`, with the names it has.
  unfoldable pub index_hosts : List String → List SegmentHost → Exec W (Unit {0})
  index_hosts names [] = pure tt
  index_hosts names (h ∷ rest) = do
    raise_if (known h.name names)
        (reconciliation_error ("duplicate existing Masakari host " & h.name))
    index_hosts (h.name ∷ names) rest

  -- One desired host; the count is 1 if it differs.
  unfoldable pub reconcile_host : Segment → Bool → HostSpec → Option SegmentHost → Exec W ℕ
  unfolding host_updates
  reconcile_host segment check_mode desired none = do
    run_if (not check_mode) (client.create_host segment desired)
    pure 1
  reconcile_host segment check_mode desired (some host) = do
    run_if (not (is_empty (host_updates desired host)) && not check_mode)
        (client.update_host host segment.id (host_updates desired host))
    pure (if is_empty (host_updates desired host) then 0 else 1)

  unfoldable pub reconcile_hosts : Segment → Bool → List SegmentHost → ℕ → List HostSpec → Exec W ℕ
  unfolding reconcile_host find_host
  reconcile_hosts segment check_mode existing hosts_changed [] = pure hosts_changed
  reconcile_hosts segment check_mode existing hosts_changed (desired ∷ rest) = do
    one ← reconcile_host segment check_mode desired (find_host desired.name existing)
    reconcile_hosts segment check_mode existing (hosts_changed + one) rest
