-- ===== src/Segment/Reconcile.antt =====
-- `reconcile_segment` of powerops_masakari_segment.py.
pub mod CheckMode
pub mod Refused
use irnmn.Prelude.{
  ℕ, String, Bool, true, false, not, ◌&&◌, ◌||◌, ◌==◌, ltb, List, [], ◌∷◌, select, is_empty, length,
  ◌&◌, Option, none, some, if◌then◌else◌,
}
use irnmn.Values.{Value, null, text, value_eq, Dict}
use irnmn.Effect.{Exec, pure, raise, raise_if, run_if, lift, reconciliation_error, ◌>>=◌, ◌>>◌}
use irnmn.Segment.Spec.{RawSegment, SegmentSpec, normalize_segment_spec}
use irnmn.Segment.InstanceHa.{Segment, SegmentHost, InstanceHa}
use irnmn.Segment.Hosts.{change, extra_hosts, index_hosts, reconcile_hosts}

pub record SegmentReply : Type 0 where
  pub changed : Bool
  pub segment : String
  pub segment_uuid : Value
  pub hosts_changed : ℕ
  pub extra_hosts : List String

unfoldable pub segment_updates : SegmentSpec → Segment → Dict
segment_updates spec segment =
    change "recovery_method" segment.recovery_method (text spec.recovery_method)
      (change "description" segment.description (text spec.description) [])

-- `_value(segment, "uuid", _value(segment, "id"))`
abbrev pub uuid_of : Segment → Value
uuid_of segment = elim segment.uuid [ none ↦ segment.id | some uuid ↦ uuid ]

module _ {W : Type 0} (client : InstanceHa W) (check_mode : Bool) where
  unfoldable pub update_segment_if : SegmentSpec → Segment → Exec W Segment
  unfolding segment_updates
  update_segment_if spec segment =
      if is_empty (segment_updates spec segment) || check_mode
      then pure segment
      else client.update_segment segment (segment_updates spec segment)

  -- From the updates of the segment on.
  unfoldable pub settle_segment : SegmentSpec → Bool → Segment → Exec W SegmentReply
  unfolding update_segment_if index_hosts reconcile_hosts extra_hosts
  settle_segment spec created segment = do
    updated ← update_segment_if spec segment
    existing ← client.hosts updated
    index_hosts client [] existing
    hosts_changed ← reconcile_hosts client updated check_mode existing 0 spec.hosts
    pure (record {
      changed = created || not (is_empty (segment_updates spec segment)) || ltb 0 hosts_changed;
      segment = spec.name;
      segment_uuid = uuid_of updated;
      hosts_changed = hosts_changed;
      extra_hosts = extra_hosts existing spec.hosts;
    })

  -- The function from its checks of the segments that bear the name on.
  unfoldable pub reconcile_matches : SegmentSpec → List Segment → Exec W SegmentReply
  unfolding settle_segment
  reconcile_matches spec [] =
      if check_mode
      then pure (record {
        changed = true;
        segment = spec.name;
        segment_uuid = null;
        hosts_changed = length spec.hosts;
        extra_hosts = [];
      })
      else (do
        segment ← client.create_segment spec.name spec.recovery_method spec.description
        settle_segment spec true segment)
  reconcile_matches spec (segment ∷ []) = do
    raise_if (not (value_eq segment.service_type (text "COMPUTE")))
        (reconciliation_error "existing segment service_type is not COMPUTE")
    settle_segment spec false segment
  reconcile_matches spec _ =
      raise (reconciliation_error ("expected exactly one Masakari segment named " & spec.name))

  unfoldable pub reconcile_segment : RawSegment → Exec W SegmentReply
  unfolding reconcile_matches
  reconcile_segment raw = do
    spec ← lift (normalize_segment_spec raw)
    found ← client.segments
    reconcile_matches spec (select (λ segment. value_eq segment.name (text spec.name)) found)
