-- ===== src/Segment/Reconcile/Refused.antt =====
-- What the reconciliation of a segment refuses, and that it has then written nothing.
use irnmn.Prelude.{◌≡◌, refl, Bool, false, List, [], ◌∷◌, select}
use irnmn.Values.{text, value_eq}
use irnmn.Effect.{ok}
use irnmn.Effect.Post.{FailsAt}
use irnmn.Segment.Spec.{RawSegment, SegmentSpec, normalize_segment_spec}
use irnmn.Segment.InstanceHa.{Segment, InstanceHa}
use irnmn.Segment.Reconcile.{reconcile_matches, reconcile_segment}

-- A declared segment that exists once, with a service type other than COMPUTE, is refused in the
-- state that its listing left.
reconcile_segment-other_type :
    {W : Type 0} (client : InstanceHa W) (check_mode : Bool) (raw : RawSegment) (spec : SegmentSpec)
    (segment : Segment) (listed : List Segment) (w w' : W)
    → normalize_segment_spec raw ≡ ok spec
    → client.segments w ≡ (ok listed, w')
    → select (λ segment. value_eq segment.name (text spec.name)) listed ≡ segment ∷ []
    → value_eq segment.service_type (text "COMPUTE") ≡ false
    → FailsAt w' (reconcile_segment client check_mode raw w)
unfolding reconcile_segment reconcile_matches
reconcile_segment-other_type client check_mode raw spec segment listed w w' normal listing only
      other =
    rw (normal, listing, only, other) refl
