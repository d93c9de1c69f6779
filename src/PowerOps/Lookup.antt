-- ===== src/PowerOps/Lookup.antt =====
-- The lookups of a host's resources, each of which wants exactly one match.
use irnmn.Prelude.{String, Bool, ◌&&◌, List, [], ◌∷◌, ◌++◌, map, select, ◌&◌}
use irnmn.Attr.{is_text}
use irnmn.Effect.{Exec, pure, raise, mapping_error, ◌>>=◌}
use irnmn.PowerOps.Cloud.{Node, Service, Segment, SegmentHost, Cloud}

unfoldable pub exactly_one : {W A : Type 0} → List A → String → Exec W A
exactly_one (x ∷ []) description = pure x
exactly_one _ description = raise (mapping_error ("expected exactly one " & description))

abbrev pub node_named : String → Node → Bool
node_named host node = is_text node.name host

abbrev pub runs_nova_compute : String → Service → Bool
runs_nova_compute host service = is_text service.host host && is_text service.binary "nova-compute"

abbrev pub masakari_named : String → SegmentHost → Bool
masakari_named host item = is_text item.name host

-- The ids that `resolve_host` returns.
pub record HostIds : Type 0 where
  pub host : String
  pub nova_service_id : String
  pub ironic_node_id : String
  pub masakari_segment_id : String
  pub masakari_host_id : String

module _ {W : Type 0} (cloud : Cloud W) where
  open cloud use {nodes, nova_compute_services, segments, hosts}

  unfoldable pub ironic_node : String → Exec W Node
  unfolding exactly_one
  ironic_node host = do
    found ← nodes
    exactly_one (select (node_named host) found) ("Ironic Node named " & host)

  unfoldable pub nova_service : String → Exec W Service
  unfolding exactly_one
  nova_service host = do
    found ← nova_compute_services host
    exactly_one (select (runs_nova_compute host) found) ("Nova nova-compute service for " & host)

  -- The two nested loops of `_masakari_host`.
  unfoldable pub masakari_matches : String → List Segment → Exec W (List (Segment × SegmentHost))
  masakari_matches host [] = pure []
  masakari_matches host (segment ∷ rest) = do
    items ← hosts segment
    later ← masakari_matches host rest
    pure (map (λ item. (segment, item)) (select (masakari_named host) items) ++ later)

  unfoldable pub masakari_host : String → Exec W (Segment × SegmentHost)
  unfolding exactly_one masakari_matches
  masakari_host host = do
    found ← segments
    matches ← masakari_matches host found
    exactly_one matches ("Masakari host named " & host)

  unfoldable pub resolve_host : String → Exec W HostIds
  unfolding nova_service ironic_node masakari_host
  resolve_host host = do
    nova ← nova_service host
    ironic ← ironic_node host
    found ← masakari_host host
    pure (record {
      host = host;
      nova_service_id = nova.id;
      ironic_node_id = ironic.id;
      masakari_segment_id = found.0.id;
      masakari_host_id = found.1.id;
    })
