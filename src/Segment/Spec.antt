-- ===== src/Segment/Spec.antt =====
-- `normalize_segment_spec` of powerops_masakari_segment.py: the validation of the declared segment.
pub mod Normal
use irnmn.Prelude.{
  String, Bool, true, false, not, ◌||◌, ◌==◌, is_blank, is_empty, List, [], ◌∷◌, any, ◌&◌,
  if◌then◌else◌,
}
use irnmn.Text.{strip, lower, upper}
use irnmn.Values.{Value, text_or, is_truthy}
use irnmn.Effect.{Result, ok, err, reconciliation_error}

-- An item of `hosts`: its name, type, control_attributes, reserved and on_maintenance.
pub data RawHost : Type 0 where
  not_mapping : RawHost
  host : Value → Value → Value → Value → Value → RawHost

-- The mapping that the playbook gives; its `segment` option is always a mapping.
pub record RawSegment : Type 0 where
  pub name : Value
  pub service_type : Value
  pub recovery_method : Value
  pub description : Value
  pub hosts : List RawHost

-- A desired host, whose type is COMPUTE.
pub record HostSpec : Type 0 where
  pub name : String
  pub control_attributes : String
  pub reserved : Bool
  pub on_maintenance : Bool

-- A desired segment, whose service type is COMPUTE.
pub record SegmentSpec : Type 0 where
  pub name : String
  pub recovery_method : String
  pub description : String
  pub hosts : List HostSpec

abbrev pub refuse {ℓ} : {A : Type ℓ} → String → Result A
refuse message = err (reconciliation_error message)

abbrev pub known : String → List String → Bool
known s names = any (λ t. t == s) names

abbrev pub host_before : HostSpec → Result (List HostSpec) → Result (List HostSpec)
host_before h (ok hs) = ok (h ∷ hs)
host_before h (err e) = err e

-- The loop over the hosts, with the names seen so far.
unfoldable pub normalize_hosts : List String → List RawHost → Result (List HostSpec)
normalize_hosts names [] = ok []
normalize_hosts names (not_mapping ∷ rest) = refuse "every segment host must be a mapping"
normalize_hosts names (host raw_name kind attributes reserved on_maintenance ∷ rest) =
    let name = strip (text_or raw_name "") in
    let control_attributes = strip (text_or attributes "") in
    let later = normalize_hosts (name ∷ names) rest in
    if is_blank name
    then refuse "segment host name is required"
    else if known name names
    then refuse ("duplicate desired Masakari host " & name)
    else if not (upper (text_or kind "COMPUTE") == "COMPUTE")
    then refuse "host type must be COMPUTE"
    else if is_blank control_attributes
    then refuse "host control_attributes are required"
    else host_before
        (record {
          name = name;
          control_attributes = control_attributes;
          reserved = is_truthy reserved;
          on_maintenance = is_truthy on_maintenance;
        })
        later

abbrev pub with_hosts : (List HostSpec → SegmentSpec) → Result (List HostSpec) → Result SegmentSpec
with_hosts f (ok []) = refuse "at least one segment host is required"
with_hosts f (ok (h ∷ hs)) = ok (f (h ∷ hs))
with_hosts f (err e) = err e

abbrev pub is_recovery_method : String → Bool
is_recovery_method s = s == "auto" || s == "reserved_host"

unfoldable pub normalize_segment_spec : RawSegment → Result SegmentSpec
unfolding normalize_hosts
normalize_segment_spec raw =
    let name = strip (text_or raw.name "") in
    let recovery_method = lower (text_or raw.recovery_method "") in
    if is_blank name
    then refuse "segment name is required"
    else if not (upper (text_or raw.service_type "") == "COMPUTE")
    then refuse "segment service_type must be COMPUTE"
    else if not (is_recovery_method recovery_method)
    then refuse "recovery_method must be auto or reserved_host"
    else with_hosts
        (λ hosts. record {
          name = name;
          recovery_method = recovery_method;
          description = text_or raw.description "";
          hosts = hosts;
        })
        (normalize_hosts [] raw.hosts)
