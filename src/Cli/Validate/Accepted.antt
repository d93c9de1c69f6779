-- ===== src/Cli/Validate/Accepted.antt =====
-- What a configuration without errors satisfies.
use irnmn.Prelude.{
  String, ◌≡◌, refl, Bool, true, false, not, ◌&&◌, List, [], ◌∷◌, ◌++◌, Option, none, some, arith,
  All, any, ◌==◌, ◌⊎◌, inl, inr, Bool-cases, if◌then◌else◌,
}
use irnmn.Text.{lower, is_mac}
use irnmn.Values.{Value, text, text_or, value_eq, is_truthy, Dict, get}
use irnmn.Cli.Inventory.{compute_hosts}
use irnmn.Cli.Validate.{
  NodeEntry, RawNode, not_mapping, mapping, RawNodes, not_list, node_list, Config, Seen, error_if,
  required_services, service_errors, required_driver_fields, missing_errors, driver_errors, name_of,
  is_redfish, identity_of, is_known_system, mac_of, macs_after, port_errors, see, node_errors,
  nodes_errors, inventory_errors, computes_of, unseen, list_errors, validate_config,
}

-- No entry is the same as one before it, or as one of `before`.
abbrev pub AreNew : {A : Type 0} → (A → A → Bool) → List A → List A → Type 0
AreNew same before [] = Unit
AreNew same before (x ∷ rest) = All (λ y. same y x ≡ false) before × AreNew same (x ∷ before) rest

-- A value for each key.
abbrev pub HasKeys : Dict → List String → Type 0
HasKeys info keys = All (λ key. is_truthy (get key info) ≡ true) keys

-- One of the two drivers, with a value for each key that it requires.
abbrev pub IsDriven : NodeEntry → Type 0
IsDriven node =
    ((value_eq node.driver (text "redfish") ≡ true)
      × HasKeys node.driver_info
          ("redfish_address" ∷ "redfish_system_id" ∷ "redfish_username" ∷ "redfish_password" ∷ []))
    ⊎ ((value_eq node.driver (text "ipmi") ≡ true)
        × HasKeys node.driver_info ("ipmi_address" ∷ "ipmi_username" ∷ "ipmi_password" ∷ []))

abbrev pub IsAccepted : List String → NodeEntry → Type 0
IsAccepted computes node =
    (any (λ c. value_eq node.nova_hostname (text c)) computes ≡ true)
    × (value_eq node.network_interface (text "noop") ≡ true)
    × (value_eq node.desired_provision_state (text "manageable") ≡ true)
    × IsDriven node
    × All (λ address. is_mac (lower (text_or address "")) ≡ true) node.addresses

-- Every item is a mapping of such a node.
abbrev pub AreAccepted : List String → List RawNode → Type 0
AreAccepted computes [] = Unit
AreAccepted computes (not_mapping ∷ rest) = ⊥
AreAccepted computes (mapping node ∷ rest) = IsAccepted computes node × AreAccepted computes rest

-- What identifies the nodes: their names, addresses and Redfish systems.
abbrev pub names_of : List RawNode → List String
names_of [] = []
names_of (not_mapping ∷ rest) = names_of rest
names_of (mapping node ∷ rest) = text_or node.name "<unnamed>" ∷ names_of rest

abbrev pub lowered : List Value → List String
lowered [] = []
lowered (address ∷ rest) = lower (text_or address "") ∷ lowered rest

abbrev pub macs_of : List RawNode → List String
macs_of [] = []
macs_of (not_mapping ∷ rest) = macs_of rest
macs_of (mapping node ∷ rest) = lowered node.addresses ++ macs_of rest

abbrev pub systems_of : List RawNode → List (Value × Value)
systems_of [] = []
systems_of (not_mapping ∷ rest) = systems_of rest
systems_of (mapping node ∷ rest) =
    if value_eq node.driver (text "redfish")
    then (get "redfish_address" node.driver_info, get "redfish_system_id" node.driver_info)
      ∷ systems_of rest
    else systems_of rest

abbrev pub is_same_system : Value × Value → Value × Value → Bool
is_same_system (a, i) (b, j) = value_eq a b && value_eq i j

-- The items are nodes that are accepted one by one, and no two share a name, address or system.
abbrev pub ListAccepted : List String → RawNodes → Type 0
ListAccepted computes not_list = ⊥
ListAccepted computes (node_list items) =
    AreAccepted computes items
    × AreNew (λ s t. s == t) [] (names_of items)
    × AreNew (λ s t. s == t) [] (macs_of items)
    × AreNew is_same_system [] (systems_of items)

abbrev pub HasComputes : Option (List String) → Type 0
HasComputes none = ⊥
HasComputes (some computes) = Unit

append-nil : (xs ys : List String) → xs ++ ys ≡ [] → (xs ≡ []) × (ys ≡ [])
append-nil [] ys h = (refl, h)
append-nil (x ∷ xs) ys h = absurd (ground (arith, h))

error_if-nil : (test : Bool) (m : String) → error_if test m ≡ [] → test ≡ false
error_if-nil true m h = absurd (ground (arith, h))
error_if-nil false m h = refl

not-nil : (test : Bool) (m : String) → error_if (not test) m ≡ [] → test ≡ true
not-nil true m h = refl
not-nil false m h = absurd (ground (arith, h))

services-Enabled :
    (options : Dict) (keys : List String)
    → service_errors options keys ≡ []
    → All (λ key. value_eq (get key options) (text "yes") ≡ true) keys
unfolding service_errors
services-Enabled options [] h = tt
services-Enabled options (key ∷ rest) h =
    let (here, later) = append-nil _ (service_errors options rest) h in
    (not-nil _ _ here, services-Enabled options rest later)

missing-HasKeys :
    (name : String) (info : Dict) (keys : List String)
    → missing_errors name info keys ≡ []
    → HasKeys info keys
unfolding missing_errors
missing-HasKeys name info [] h = tt
missing-HasKeys name info (key ∷ rest) h =
    let (here, later) = append-nil _ (missing_errors name info rest) h in
    (not-nil _ _ here, missing-HasKeys name info rest later)

driver-IsDriven :
    (name : String) (node : NodeEntry)
    → driver_errors name node.driver_info (required_driver_fields node.driver) ≡ []
    → IsDriven node
unfolding driver_errors
driver-IsDriven name node h = elim (Bool-cases (value_eq node.driver (text "redfish"))) [
  | inl redfish ↦ inl (
    redfish,
    missing-HasKeys name node.driver_info
        ("redfish_address" ∷ "redfish_system_id" ∷ "redfish_username" ∷ "redfish_password" ∷ [])
        (rw redfish at h),
  )
  | inr other ↦ elim (Bool-cases (value_eq node.driver (text "ipmi"))) [
    | inl ipmi ↦ inr (
      ipmi,
      missing-HasKeys name node.driver_info
          ("ipmi_address" ∷ "ipmi_username" ∷ "ipmi_password" ∷ []) (rw (other, ipmi) at h),
    )
    | inr neither ↦ absurd (ground (arith, other, neither, h))
  ]
]

any-All :
    {A : Type 0} (test : A → Bool) (l : List A) → any test l ≡ false → All (λ x. test x ≡ false) l
any-All test [] h = tt
any-All test (x ∷ rest) h = elim (Bool-cases (test x)) [
  | inl found ↦ absurd (ground (arith, found, h))
  | inr differs ↦ (differs, any-All test rest (rw differs at h))
]

ports-Accepted :
    (name : String) (macs : List String) (addresses : List Value) (later : List String)
    → port_errors name macs addresses ≡ []
    → AreNew (λ s t. s == t) (macs_after macs addresses) later
    → All (λ address. is_mac (lower (text_or address "")) ≡ true) addresses
      × AreNew (λ s t. s == t) macs (lowered addresses ++ later)
unfolding port_errors
ports-Accepted name macs [] later h are = (tt, are)
ports-Accepted name macs (address ∷ rest) later h are =
    let (valid, h1) = append-nil _ _ h in
    let (fresh, h2) = append-nil _ (port_errors name (mac_of address ∷ macs) rest) h1 in
    let (good, new) = ports-Accepted name (mac_of address ∷ macs) rest later h2 are in
    ((not-nil _ _ valid, good), (any-All _ macs (error_if-nil _ _ fresh), new))

-- What the checks of the nodes after the ones seen give.
abbrev NodesAccepted : List String → Seen → List RawNode → Type 0
NodesAccepted computes seen items =
    AreAccepted computes items
    × AreNew (λ s t. s == t) seen.names (names_of items)
    × AreNew (λ s t. s == t) seen.macs (macs_of items)
    × AreNew is_same_system seen.systems (systems_of items)

systems-AreNew :
    (node : NodeEntry) (rest : List RawNode) (systems : List (Value × Value))
    → (is_redfish node && is_known_system (identity_of node) systems) ≡ false
    → AreNew is_same_system
        (if is_redfish node then identity_of node ∷ systems else systems)
        (systems_of rest)
    → AreNew is_same_system systems (systems_of (mapping node ∷ rest))
systems-AreNew node rest systems h are = elim (Bool-cases (is_redfish node)) [
  | inl redfish ↦ rw redfish (any-All _ systems (rw redfish at h), (rw redfish at are))
  | inr other ↦ rw other (rw other at are)
]

nodes-NodesAccepted :
    (computes : List String) (seen : Seen) (items : List RawNode)
    → nodes_errors computes seen items ≡ []
    → NodesAccepted computes seen items
unfolding nodes_errors node_errors
nodes-NodesAccepted computes seen [] h = (tt, tt, tt, tt)
nodes-NodesAccepted computes seen (not_mapping ∷ rest) h = absurd (ground (arith, h))
nodes-NodesAccepted computes seen (mapping node ∷ rest) h =
    let (here, later) = append-nil _ (nodes_errors computes (see node seen) rest) h in
    let (accepted, names, macs, systems) =
      nodes-NodesAccepted computes (see node seen) rest later in
    let (a, h1) = append-nil _ _ here in
    let (b, h2) = append-nil _ _ h1 in
    let (c, h3) = append-nil _ _ h2 in
    let (d, h4) = append-nil _ _ h3 in
    let (e, h5) = append-nil _ _ h4 in
    let (f, g) = append-nil _ _ h5 in
    let (valid, new_macs) =
      ports-Accepted (name_of node) seen.macs node.addresses (macs_of rest) g macs in
    (
      ((not-nil _ _ b, not-nil _ _ c, not-nil _ _ d, driver-IsDriven _ node e, valid), accepted),
      (any-All _ seen.names (error_if-nil _ _ a), names),
      new_macs,
      systems-AreNew node rest seen.systems (error_if-nil _ _ f) systems,
    )

list-ListAccepted :
    (computes : List String) (raw : RawNodes)
    → list_errors computes raw ≡ []
    → ListAccepted computes raw
list-ListAccepted computes not_list h = absurd (ground (arith, h))
list-ListAccepted computes (node_list items) h = nodes-NodesAccepted computes unseen items h

inventory-HasComputes :
    (found : Option (List String)) → inventory_errors found ≡ [] → HasComputes found
inventory-HasComputes none h = absurd (ground (arith, h))
inventory-HasComputes (some computes) h = tt

-- A configuration in which `validate_config` finds no error enables the required services, has an
-- inventory with a compute section and a list of nodes; each node is a mapping with a compute host
-- of the inventory, the `noop` interface, the `manageable` state, one of the two drivers with its
-- required keys, and addresses that, lower-cased, match the pattern of a MAC address, which admits a
-- final newline; and no two nodes have one name (`<unnamed>` where there is none), no two ports of
-- all nodes the same lower-cased address as a text, and no two Redfish nodes the same system.
pub validate_config-accepts :
    (config : Config) (inventory_text : String)
    → validate_config config inventory_text ≡ []
    → All
        (λ key. value_eq (get key config.options) (text "yes") ≡ true)
        ("enable_ironic" ∷ "enable_masakari" ∷ "enable_mistral" ∷ "enable_powerops" ∷ [])
      × HasComputes (compute_hosts inventory_text)
      × ListAccepted (computes_of (compute_hosts inventory_text)) config.powerops_ironic_nodes
unfolding validate_config
validate_config-accepts config inventory_text h =
    let (services, h1) = append-nil (service_errors config.options required_services) _ h in
    let (inventory, listed) = append-nil (inventory_errors (compute_hosts inventory_text)) _ h1 in
    (
      services-Enabled config.options required_services services,
      inventory-HasComputes _ inventory,
      list-ListAccepted _ config.powerops_ironic_nodes listed,
    )
