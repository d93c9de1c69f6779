-- ===== src/Cli/Tests.antt =====
-- Runs of the validation on an inventory of two compute hosts.
use irnmn.Prelude.{String, ◌≡◌, refl, true, List, [], ◌∷◌, ◌++◌, All, some}
use irnmn.Text.{strip, lower, is_mac}
use irnmn.Values.{null, text, value_eq, Dict, get}
use irnmn.Effect.{Exec, ok, err, reconciliation_error}
use irnmn.Effect.Post.{FailsAt}
use irnmn.Ironic.Spec.{normalize_spec}
use irnmn.Cli.Inventory.{compute_hosts}
use irnmn.Cli.Publish.{until_slash, publish_images}
use irnmn.Cli.Publish.Confirmed.{is_at, publish_images-Confirmed}
use irnmn.Cli.Validate.{NodeEntry, mapping, node_list, Config, computes_of, validate_config}
use irnmn.Cli.Validate.Accepted.{HasComputes, ListAccepted, validate_config-accepts}

abbrev inventory : String
inventory = "[control]\nc1\n\n[compute]\n# rack 1\nn1 ansible_host=10.0.0.1\n  n2\n[network]\nn3"

two_computes : compute_hosts inventory ≡ some ("n1" ∷ "n2" ∷ [])
unfolding compute_hosts
two_computes = refl

abbrev info : Dict
info =
    ("ipmi_address", text "10.0.0.1")
    ∷ ("ipmi_username", text "admin")
    ∷ ("ipmi_password", text "pw")
    ∷ []

abbrev options : Dict
options =
    ("enable_ironic", text "yes")
    ∷ ("enable_masakari", text "yes")
    ∷ ("enable_mistral", text "yes")
    ∷ ("enable_powerops", text "yes")
    ∷ []

abbrev named : NodeEntry
named = record {
  name = text "rack1";
  nova_hostname = text "n1";
  network_interface = text "noop";
  desired_provision_state = text "manageable";
  driver = text "ipmi";
  driver_info = info;
  addresses = text "52:54:00:AA:BB:01" ∷ [];
}

abbrev unnamed : NodeEntry
unnamed = record {
  name = null;
  nova_hostname = text "n2";
  network_interface = text "noop";
  desired_provision_state = text "manageable";
  driver = text "ipmi";
  driver_info = info;
  addresses = [];
}

abbrev config : Config
config = record {
  options = options;
  powerops_ironic_nodes = node_list (mapping named ∷ mapping unnamed ∷ []);
}

-- Two nodes without errors, of which the second has no name.
config_is_valid : validate_config config inventory ≡ []
unfolding validate_config lower is_mac
config_is_valid = refl

-- The module that reconciles the node refuses the second one.
unnamed_is_refused :
    normalize_spec (record {
      name = null;
      nova_hostname = text "n2";
      driver = text "ipmi";
      network_interface = text "noop";
      desired_provision_state = text "manageable";
      driver_info = info;
      ports = [];
    })
    ≡ err (reconciliation_error "name and nova_hostname are required")
unfolding normalize_spec strip
unnamed_is_refused = refl

duplicate_found :
    validate_config
      (record {
        options = options;
        powerops_ironic_nodes = node_list (mapping named ∷ mapping named ∷ []);
      })
      inventory
    ≡ "duplicate node name: rack1" ∷ "duplicate port MAC: 52:54:00:aa:bb:01" ∷ []
unfolding validate_config lower is_mac
duplicate_found = refl

validate_config-accepts_example :
    All
      (λ key. value_eq (get key options) (text "yes") ≡ true)
      ("enable_ironic" ∷ "enable_masakari" ∷ "enable_mistral" ∷ "enable_powerops" ∷ [])
    × HasComputes (compute_hosts inventory)
    × ListAccepted
        (computes_of (compute_hosts inventory))
        (node_list (mapping named ∷ mapping unnamed ∷ []))
validate_config-accepts_example = validate_config-accepts config inventory config_is_valid

abbrev base_images : Dict
base_images =
    ("mistral-api", text "quay.io/a")
    ∷ ("mistral-engine", text "quay.io/b")
    ∷ ("mistral-executor", text "quay.io/c")
    ∷ ("masakari-engine", text "quay.io/d")
    ∷ []

abbrev derived_images : Dict
derived_images =
    ("mistral-api", text "reg.local/a:1")
    ∷ ("mistral-engine", text "reg.local/b:1")
    ∷ ("mistral-executor", text "reg.local/c:1")
    ∷ ("masakari-engine", text "reg.local/d:1")
    ∷ []

-- A runner that keeps the images of the commands.
abbrev record_command : List String → Exec (List (List String)) (Unit {0})
record_command command log = (ok tt, log ++ (command ∷ []))

publish_images-Confirmed_example : FailsAt [] (
    publish_images record_command
      (some base_images)
      (some derived_images)
      "podman"
      "other.local"
      [])
unfolding is_at until_slash get
publish_images-Confirmed_example =
    publish_images-Confirmed record_command base_images derived_images "podman" "other.local" []
      refl
