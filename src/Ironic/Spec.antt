-- ===== src/Ironic/Spec.antt =====
-- `normalize_spec` of powerops_ironic_node.py: the validation of the declared node.
pub mod Normal
use irnmn.Prelude.{
  String, Bool, true, false, not, ◌||◌, ◌==◌, is_blank, List, [], ◌∷◌, any, ◌&◌, Option, none, some,
  if◌then◌else◌,
}
use irnmn.Text.{strip, lower, is_mac}
use irnmn.Values.{Value, null, text, text_or, value_eq, is_truthy, Dict, get}
use irnmn.Effect.{Result, ok, err, reconciliation_error}

-- An item of `ports`.
pub data RawPort : Type 0 where
  not_mapping : RawPort
  port : Value → Value → RawPort

-- The mapping that the playbook gives; its `node` option is always a mapping.
pub record RawSpec : Type 0 where
  pub name : Value
  pub nova_hostname : Value
  pub driver : Value
  pub network_interface : Value
  pub desired_provision_state : Value
  pub driver_info : Dict
  pub ports : List RawPort

pub record Port : Type 0 where
  pub address : String
  pub physical_network : Value

pub record NodeSpec : Type 0 where
  pub name : String
  pub nova_hostname : String
  pub driver : String
  pub driver_info : Dict
  pub ports : List Port

abbrev pub fail {ℓ} : {A : Type ℓ} → String → Result A
fail message = err (reconciliation_error message)

-- `REQUIRED_DRIVER_INFO`
abbrev pub required_driver_info : String → Option (List String)
required_driver_info driver =
    if driver == "redfish"
    then some
        ("redfish_address" ∷ "redfish_system_id" ∷ "redfish_username" ∷ "redfish_password" ∷ [])
    else if driver == "ipmi"
    then some ("ipmi_address" ∷ "ipmi_username" ∷ "ipmi_password" ∷ [])
    else none

abbrev pub member : String → List String → Bool
member s seen = any (λ t. t == s) seen

-- The first required key that is missing.
unfoldable pub missing_key : Dict → List String → Option String
missing_key info [] = none
missing_key info (key ∷ rest) = if is_truthy (get key info) then missing_key info rest else some key

abbrev pub prepend : Port → Result (List Port) → Result (List Port)
prepend p (ok ps) = ok (p ∷ ps)
prepend p (err e) = err e

-- The loop over the ports, with the addresses seen so far.
unfoldable pub normalize_ports : List String → List RawPort → Result (List Port)
normalize_ports seen [] = ok []
normalize_ports seen (not_mapping ∷ rest) = fail "every port must be a mapping"
normalize_ports seen (port raw_address network ∷ rest) =
    let address = lower (text_or raw_address "") in
    let later = normalize_ports (address ∷ seen) rest in
    if not (is_mac address)
    then fail ("invalid port MAC: " & address)
    else if member address seen
    then fail ("duplicate desired port MAC: " & address)
    else prepend (record { address = address; physical_network = network }) later

abbrev pub is_driver : Option (List String) → Bool
is_driver none = false
is_driver (some keys) = true

abbrev pub keys_of : Option (List String) → List String
keys_of none = []
keys_of (some keys) = keys

abbrev pub complain : Option String → Result (Unit {0})
complain none = ok tt
complain (some key) = fail ("missing driver_info." & key)

abbrev pub with_ports : (List Port → NodeSpec) → Result (List Port) → Result NodeSpec
with_ports f (ok ps) = ok (f ps)
with_ports f (err e) = err e

abbrev pub after_keys : Result (Unit {0}) → Result NodeSpec → Result NodeSpec
after_keys (ok _) r = r
after_keys (err e) r = err e

unfoldable pub normalize_spec : RawSpec → Result NodeSpec
unfolding missing_key normalize_ports
normalize_spec spec =
    let name = strip (text_or spec.name "") in
    let nova_hostname = strip (text_or spec.nova_hostname "") in
    let driver = lower (strip (text_or spec.driver "")) in
    if is_blank name || is_blank nova_hostname
    then fail "name and nova_hostname are required"
    else if not (is_driver (required_driver_info driver))
    then fail "driver must be redfish or ipmi"
    else if not (value_eq spec.network_interface (text "noop"))
    then fail "network_interface must be noop"
    else if not (value_eq spec.desired_provision_state (text "manageable"))
    then fail "desired_provision_state must be manageable"
    else after_keys
        (complain (missing_key spec.driver_info (keys_of (required_driver_info driver))))
        (with_ports
          (λ ports. record {
            name = name;
            nova_hostname = nova_hostname;
            driver = driver;
            driver_info = spec.driver_info;
            ports = ports;
          })
          (normalize_ports [] spec.ports))
