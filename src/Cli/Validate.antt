-- ===== src/Cli/Validate.antt =====
-- `validate_config` of tools/powerops_cli.py.
pub mod Accepted
use irnmn.Prelude.{
  ℕ, String, Bool, true, false, not, ◌&&◌, ◌||◌, ◌==◌, List, [], ◌∷◌, ◌++◌, map, any, ◌&◌, Option,
  none, some, if◌then◌else◌,
}
use irnmn.Text.{lower, is_mac}
use irnmn.Values.{Value, null, text, text_or, to_text, value_eq, is_truthy, Dict, get}
use irnmn.Cli.Inventory.{compute_hosts}

-- A node of the configuration; its ports are given by their addresses.
pub record NodeEntry : Type 0 where
  pub name : Value
  pub nova_hostname : Value
  pub network_interface : Value
  pub desired_provision_state : Value
  pub driver : Value
  pub driver_info : Dict
  pub addresses : List Value

pub data RawNode : Type 0 where
  not_mapping : RawNode
  mapping : NodeEntry → RawNode

-- `powerops_ironic_nodes`
pub data RawNodes : Type 0 where
  not_list : RawNodes
  node_list : List RawNode → RawNodes

pub record Config : Type 0 where
  pub options : Dict
  pub powerops_ironic_nodes : RawNodes

-- The names, MAC addresses and Redfish systems of the nodes before.
pub record Seen : Type 0 where
  pub names : List String
  pub macs : List String
  pub systems : List (Value × Value)

abbrev pub among : String → List String → Bool
among s seen = any (λ t. t == s) seen

-- `errors.append(message)` under `if`
abbrev pub error_if : Bool → String → List String
error_if true message = message ∷ []
error_if false message = []

-- `REQUIRED_SERVICES`
abbrev pub required_services : List String
required_services = "enable_ironic" ∷ "enable_masakari" ∷ "enable_mistral" ∷ "enable_powerops" ∷ []

unfoldable pub service_errors : Dict → List String → List String
service_errors options [] = []
service_errors options (key ∷ rest) =
    error_if (not (value_eq (get key options) (text "yes"))) (key & " must be yes")
    ++ service_errors options rest

abbrev pub required_driver_fields : Value → Option (List String)
required_driver_fields driver =
    if value_eq driver (text "redfish")
    then some
        ("redfish_address" ∷ "redfish_system_id" ∷ "redfish_username" ∷ "redfish_password" ∷ [])
    else if value_eq driver (text "ipmi")
    then some ("ipmi_address" ∷ "ipmi_username" ∷ "ipmi_password" ∷ [])
    else none

unfoldable pub missing_errors : String → Dict → List String → List String
missing_errors name info [] = []
missing_errors name info (key ∷ rest) =
    error_if (not (is_truthy (get key info))) (name & ": missing driver_info." & key)
    ++ missing_errors name info rest

unfoldable pub driver_errors : String → Dict → Option (List String) → List String
unfolding missing_errors
driver_errors name info none = (name & ": driver must be redfish or ipmi") ∷ []
driver_errors name info (some required) = missing_errors name info required

abbrev pub name_of : NodeEntry → String
name_of node = text_or node.name "<unnamed>"

abbrev pub is_redfish : NodeEntry → Bool
is_redfish node = value_eq node.driver (text "redfish")

abbrev pub identity_of : NodeEntry → Value × Value
identity_of node =
    (get "redfish_address" node.driver_info, get "redfish_system_id" node.driver_info)

abbrev pub is_known_system : Value × Value → List (Value × Value) → Bool
is_known_system (address, id) systems = any (λ s. value_eq s.0 address && value_eq s.1 id) systems

abbrev pub mac_of : Value → String
mac_of address = lower (text_or address "")

-- The loop over the ports, with the MAC addresses seen so far.
unfoldable pub port_errors : String → List String → List Value → List String
port_errors name macs [] = []
port_errors name macs (address ∷ rest) =
    error_if (not (is_mac (mac_of address))) (name & ": invalid port MAC: " & mac_of address)
    ++ (error_if (among (mac_of address) macs) ("duplicate port MAC: " & mac_of address)
        ++ port_errors name (mac_of address ∷ macs) rest)

abbrev pub macs_after : List String → List Value → List String
macs_after macs [] = macs
macs_after macs (address ∷ rest) = macs_after (mac_of address ∷ macs) rest

-- What the later nodes are compared with.
abbrev pub see : NodeEntry → Seen → Seen
see node seen = record {
  names = name_of node ∷ seen.names;
  macs = macs_after seen.macs node.addresses;
  systems = (if is_redfish node then identity_of node ∷ seen.systems else seen.systems);
}

-- `node.get("nova_hostname") in computes`
abbrev pub is_compute : Value → List String → Bool
is_compute hostname computes = any (λ c. value_eq hostname (text c)) computes

unfoldable pub node_errors : List String → Seen → NodeEntry → List String
unfolding driver_errors port_errors get
node_errors computes seen node =
    error_if (among (name_of node) seen.names) ("duplicate node name: " & name_of node)
    ++ (error_if (not (is_compute node.nova_hostname computes))
          (name_of node & ": nova_hostname is absent from [compute]")
        ++ (error_if (not (value_eq node.network_interface (text "noop")))
              (name_of node & ": network_interface must be noop")
            ++ (error_if (not (value_eq node.desired_provision_state (text "manageable")))
                  (name_of node & ": desired_provision_state must be manageable")
                ++ (driver_errors (name_of node) node.driver_info
                      (required_driver_fields node.driver)
                    ++ (error_if
                          (is_redfish node && is_known_system (identity_of node) seen.systems)
                          ("duplicate Redfish system: "
                            & to_text ((identity_of node).0)
                            & " "
                            & to_text ((identity_of node).1))
                        ++ port_errors (name_of node) seen.macs node.addresses)))))

unfoldable pub nodes_errors : List String → Seen → List RawNode → List String
unfolding node_errors
nodes_errors computes seen [] = []
nodes_errors computes seen (not_mapping ∷ rest) =
    "every powerops_ironic_nodes item must be a mapping" ∷ nodes_errors computes seen rest
nodes_errors computes seen (mapping entry ∷ rest) =
    node_errors computes seen entry ++ nodes_errors computes (see entry seen) rest

abbrev pub inventory_errors : Option (List String) → List String
inventory_errors none = "inventory is missing [compute] section" ∷ []
inventory_errors (some computes) = []

-- `computes`, the empty set where the section is missing.
abbrev pub computes_of : Option (List String) → List String
computes_of none = []
computes_of (some computes) = computes

abbrev pub unseen : Seen
unseen = record { names = []; macs = []; systems = [] }

abbrev pub list_errors : List String → RawNodes → List String
list_errors computes not_list = "powerops_ironic_nodes must be a list" ∷ []
list_errors computes (node_list items) = nodes_errors computes unseen items

unfoldable pub validate_config : Config → String → List String
unfolding service_errors nodes_errors compute_hosts
validate_config config inventory_text =
    let computes = compute_hosts inventory_text in
    service_errors config.options required_services
    ++ (inventory_errors computes
        ++ list_errors (computes_of computes) config.powerops_ironic_nodes)
