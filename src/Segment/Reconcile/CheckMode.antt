-- ===== src/Segment/Reconcile/CheckMode.antt =====
-- In check mode the reconciliation of a segment calls nothing that writes: each statement of the
-- block is replaced along its path.
use irnmn.Prelude.{
  ℕ, ◌+◌, String, ◌≡◌, refl, Bool, true, false, not, ◌||◌, ltb, List, [], ◌∷◌, select, is_empty,
  ◌&◌, Option, none, some, Bool-cases, inl, inr,
}
use irnmn.Values.{text, value_eq}
use irnmn.Effect.{pure, raise_if, lift, reconciliation_error, ◌>>=◌, ◌>>◌}
use irnmn.Segment.Spec.{RawSegment, HostSpec, SegmentSpec, known, normalize_segment_spec}
use irnmn.Segment.InstanceHa.{Segment, SegmentHost, InstanceHa}
use irnmn.Segment.Hosts.{
  find_host, host_updates, extra_hosts, index_hosts, reconcile_host, reconcile_hosts,
}
use irnmn.Segment.Reconcile.{
  segment_updates, uuid_of, update_segment_if, settle_segment, reconcile_matches, reconcile_segment,
}

module _ {W : Type 0} (c c' : InstanceHa W) (same_segments : c'.segments ≡ c.segments)
    (same_hosts : c'.hosts ≡ c.hosts) where
  host-same :
      (segment : Segment) (desired : HostSpec) (found : Option SegmentHost)
      → reconcile_host c' segment true desired found ≡ reconcile_host c segment true desired found
  unfolding reconcile_host
  host-same segment desired none = refl
  host-same segment desired (some host) = elim (Bool-cases (is_empty (host_updates desired host))) [
    | inl e ↦ rw e
    | inr e ↦ rw e
  ]

  hosts-same :
      (segment : Segment) (existing : List SegmentHost) (n : ℕ) (desired : List HostSpec)
      → reconcile_hosts c' segment true existing n desired
        ≡ reconcile_hosts c segment true existing n desired
  unfolding reconcile_hosts
  hosts-same segment existing n [] i = pure n
  hosts-same segment existing n (d ∷ rest) i = do
    one ← host-same segment d (find_host d.name existing) i
    hosts-same segment existing (n + one) rest i

  index-same :
      (names : List String) (hs : List SegmentHost)
      → index_hosts c' names hs ≡ index_hosts c names hs
  unfolding index_hosts
  index-same names [] i = pure tt
  index-same names (h ∷ rest) i = do
    raise_if (known h.name names)
        (reconciliation_error ("duplicate existing Masakari host " & h.name))
    index-same (h.name ∷ names) rest i

  update-same :
      (spec : SegmentSpec) (segment : Segment)
      → update_segment_if c' true spec segment ≡ update_segment_if c true spec segment
  unfolding update_segment_if
  update-same spec segment = elim (Bool-cases (is_empty (segment_updates spec segment))) [
    | inl e ↦ rw e
    | inr e ↦ rw e
  ]

  settle-same :
      (spec : SegmentSpec) (created : Bool) (segment : Segment)
      → settle_segment c' true spec created segment ≡ settle_segment c true spec created segment
  unfolding settle_segment
  settle-same spec created segment i = do
    updated ← update-same spec segment i
    existing ← same_hosts i updated
    index-same [] existing i
    hosts_changed ← hosts-same updated existing 0 spec.hosts i
    pure (record {
      changed = created || not (is_empty (segment_updates spec segment)) || ltb 0 hosts_changed;
      segment = spec.name;
      segment_uuid = uuid_of updated;
      hosts_changed = hosts_changed;
      extra_hosts = extra_hosts existing spec.hosts;
    })

  matches-same :
      (spec : SegmentSpec) (found : List Segment)
      → reconcile_matches c' true spec found ≡ reconcile_matches c true spec found
  unfolding reconcile_matches
  matches-same spec [] = refl
  matches-same spec (segment ∷ []) = λ i.
      (raise_if (not (value_eq segment.service_type (text "COMPUTE")))
          (reconciliation_error "existing segment service_type is not COMPUTE")
        >> settle-same spec false segment i)
  matches-same spec (p ∷ q ∷ r) = refl

-- In check mode the outcome depends on the two listings only: it is the same whatever the calls
-- that create and update do, as they are not made.
reconcile_segment-check_mode :
    {W : Type 0} (c c' : InstanceHa W) (raw : RawSegment) (w : W)
    → c'.segments ≡ c.segments
    → c'.hosts ≡ c.hosts
    → reconcile_segment c' true raw w ≡ reconcile_segment c true raw w
unfolding reconcile_segment
reconcile_segment-check_mode c c' raw w same_segments same_hosts i =
    (lift (normalize_segment_spec raw) >>= λ spec. same_segments i >>= λ found.
    matches-same c c' same_segments same_hosts spec
      (select (λ segment. value_eq segment.name (text spec.name)) found) i)
      w
