-- ===== src/Segment/Tests.antt =====
-- Runs of the reconciliation of a segment against a store of segments and hosts.
use irnmn.Prelude.{ℕ, suc, ◌≡◌, refl, true, false, List, [], ◌∷◌, some, none}
use irnmn.Text.{strip, lower, upper, sorted}
use irnmn.Values.{null, text, boolean}
use irnmn.Effect.{ok, err, reconciliation_error}
use irnmn.Effect.Post.{Gives}
use irnmn.Segment.InstanceHa.{Segment, SegmentHost, InstanceHa}
use irnmn.Segment.Spec.{host, RawSegment, HostSpec, SegmentSpec, normalize_segment_spec}
use irnmn.Segment.Spec.Normal.{IsSegment, normalize_segment_spec-Gives}
use irnmn.Segment.Reconcile.{reconcile_segment}

-- The segments, the hosts, and how many calls have written.
pub record Store : Type 0 where
  pub segments : List Segment
  pub hosts : List SegmentHost
  pub writes : ℕ

abbrev wrote : Store → Store
wrote s = record { segments = s.segments; hosts = s.hosts; writes = suc s.writes }

abbrev compute_segment : Segment
compute_segment = record {
  id = text "7";
  uuid = some (text "s1");
  name = text "rack";
  service_type = text "COMPUTE";
  recovery_method = text "auto";
  description = text "";
}

abbrev other_segment : Segment
other_segment = record {
  id = text "7";
  uuid = none;
  name = text "rack";
  service_type = text "STORAGE";
  recovery_method = text "auto";
  description = text "";
}

abbrev compute1 : SegmentHost
compute1 = record {
  name = "compute1";
  kind = text "COMPUTE";
  control_attributes = text "ipmi";
  reserved = boolean false;
  on_maintenance = boolean false;
}

abbrev service : InstanceHa Store
service = record {
  segments = λ s. (ok s.segments, s);
  hosts = λ segment s. (ok s.hosts, s);
  create_segment = λ name method description s. (ok compute_segment, wrote s);
  update_segment = λ segment updates s. (ok segment, wrote s);
  create_host = λ segment spec s. (ok tt, wrote s);
  update_host = λ h id updates s. (ok tt, wrote s);
}

-- A service that refuses every write.
abbrev read_only : InstanceHa Store
read_only = record {
  segments = λ s. (ok s.segments, s);
  hosts = λ segment s. (ok s.hosts, s);
  create_segment = λ name method description s. (err (reconciliation_error "down"), s);
  update_segment = λ segment updates s. (err (reconciliation_error "down"), s);
  create_host = λ segment spec s. (err (reconciliation_error "down"), s);
  update_host = λ h id updates s. (err (reconciliation_error "down"), s);
}

abbrev declared : RawSegment
declared = record {
  name = text "rack ";
  service_type = text "compute";
  recovery_method = text "auto";
  description = null;
  hosts =
      host (text "compute1") null (text "ipmi") (boolean false) null
      ∷ host (text "compute2") (text "COMPUTE") (text "ipmi") (boolean true) null
      ∷ [];
}

abbrev first_host : HostSpec
first_host = record {
  name = "compute1";
  control_attributes = "ipmi";
  reserved = false;
  on_maintenance = false;
}

abbrev rack : SegmentSpec
rack = record {
  name = "rack";
  recovery_method = "auto";
  description = "";
  hosts =
      first_host
      ∷ record {
        name = "compute2";
        control_attributes = "ipmi";
        reserved = true;
        on_maintenance = false;
      }
      ∷ [];
}

declared_is_rack : normalize_segment_spec declared ≡ ok rack
unfolding normalize_segment_spec strip lower upper
declared_is_rack = refl

abbrev one_host : Store
one_host = record { segments = compute_segment ∷ []; hosts = compute1 ∷ []; writes = 0 }

abbrev other_store : Store
other_store = record { segments = other_segment ∷ []; hosts = []; writes = 0 }

-- The second host is missing, and is created.
missing_host_created : reconcile_segment service false declared one_host ≡ (
  ok (record {
    changed = true;
    segment = "rack";
    segment_uuid = text "s1";
    hosts_changed = 1;
    extra_hosts = [];
  }),
  record { segments = compute_segment ∷ []; hosts = compute1 ∷ []; writes = 1 },
)
unfolding reconcile_segment normalize_segment_spec strip lower upper sorted
missing_host_created = refl

normalize_segment_spec-Gives_example : Gives IsSegment (normalize_segment_spec declared)
normalize_segment_spec-Gives_example = normalize_segment_spec-Gives declared
