-- ===== src/Ironic/Spec/Normal.antt =====
-- What `normalize_spec` of powerops_ironic_node.py guarantees of the specification that it returns.
use irnmn.Prelude.{String, ◌≡◌, true, false, is_blank, List, [], ◌∷◌, All, some}
use irnmn.Text.{is_mac}
use irnmn.Values.{text, value_eq, is_truthy, get}
use irnmn.Effect.{Result, ok, err}
use irnmn.Ironic.Spec.{RawSpec, Port, NodeSpec, required_driver_info, member}

-- Addresses that match the pattern of a MAC address, which admits a final newline, and none of which
-- is, as a text, among those seen before or comes twice.
abbrev pub AreFresh : List String → List Port → Type 0
AreFresh seen [] = Unit
AreFresh seen (p ∷ ps) =
    (is_mac p.address ≡ true) × (member p.address seen ≡ false) × AreFresh (p.address ∷ seen) ps

ports_of : Result (List Port) → List Port
ports_of (ok ps) = ps
ports_of (err e) = []

-- What the rest of the module may rely on in a specification.
pub record IsNormal (raw : RawSpec) (spec : NodeSpec) : Type 0 where
  pub named : is_blank spec.name ≡ false
  pub hosted : is_blank spec.nova_hostname ≡ false
  pub noop : value_eq raw.network_interface (text "noop") ≡ true
  pub manageable : value_eq raw.desired_provision_state (text "manageable") ≡ true
  pub driven :
      (keys : List String) × (required_driver_info spec.driver ≡ some keys)
      × All (λ key. is_truthy (get key spec.driver_info) ≡ true) keys
  pub fresh : AreFresh [] spec.ports

spec_of : NodeSpec → Result NodeSpec → NodeSpec
spec_of default (ok s) = s
spec_of default (err e) = default
