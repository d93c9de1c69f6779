-- ===== src/Segment/InstanceHa.antt =====
-- What the module uses of `connection.instance_ha`. The calls are parameters: each may answer
-- anything, raise, and change the world. Masakari requires a host to have a name.
use irnmn.Prelude.{String, List, Option}
use irnmn.Effect.{Exec}
use irnmn.Values.{Value, Dict}
use irnmn.Segment.Spec.{HostSpec}

pub record Segment : Type 0 where
  pub id : Value
  pub uuid : Option Value
  pub name : Value
  pub service_type : Value
  pub recovery_method : Value
  pub description : Value

pub record SegmentHost : Type 0 where
  pub name : String
  pub kind : Value
  pub control_attributes : Value
  pub reserved : Value
  pub on_maintenance : Value

pub record InstanceHa (W : Type 0) : Type 0 where
  pub segments : Exec W (List Segment)
  pub hosts : Segment → Exec W (List SegmentHost)
  -- name, recovery_method, description
  pub create_segment : String → String → String → Exec W Segment
  -- the changed attributes, by name
  pub update_segment : Segment → Dict → Exec W Segment
  pub create_host : Segment → HostSpec → Exec W (Unit {0})
  -- the host, the segment's id, the changed attributes
  pub update_host : SegmentHost → Value → Dict → Exec W (Unit {0})
