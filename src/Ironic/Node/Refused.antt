-- ===== src/Ironic/Node/Refused.antt =====
-- What the reconciliation of a node refuses, and that it has then written nothing.
use mathlib.Core.Path.{subst}
use irnmn.Prelude.{ℕ, ◌≡◌, refl, Bool, false, List, [], ◌∷◌, select, Bool-cases, inl, inr, ◌∙◌}
use irnmn.Values.{Value, text, value_eq}
use irnmn.Effect.{Result, ok, err, Exec, continue}
use irnmn.Effect.Post.{FailsAt, FailsAt-continue}
use irnmn.Ironic.Baremetal.{IronicNode, IronicPort, Baremetal}
use irnmn.Ironic.Spec.{NodeSpec, Port}
use irnmn.Ironic.Ports.{matches_of, check_owner, check_owners, preflight_port_ownership}
use irnmn.Ironic.Node.{is_allowed_state, bring_up, reconcile_found, reconcile_spec}

state-continue :
    {W A B : Type 0} (last : W) (f : A → Exec W B) (r : Result A) (w : W)
    → w ≡ last
    → ((a : A) → (f a w).1 ≡ last)
    → (continue r f w).1 ≡ last
state-continue last f (ok a) w here later = later a
state-continue last f (err e) w here later = here

module _ {W : Type 0} (b : Baremetal W) (check_mode : Bool) (timeout : ℕ) where
  bring_up_forbidden :
      (spec : NodeSpec) (created : Bool) (node : IronicNode) (w : W)
      → is_allowed_state node.provision_state ≡ false
      → FailsAt w (bring_up b check_mode timeout spec created node w)
  unfolding bring_up
  bring_up_forbidden spec created node w forbidden = rw forbidden refl

module _ {W : Type 0} (b : Baremetal W) (expected : Value) where
  check_owner-state :
      (desired : Port) (here : List IronicPort) (w : W)
      → (check_owner b expected desired here w).1 ≡ w
  unfolding check_owner
  check_owner-state desired [] w = refl
  check_owner-state desired (p ∷ []) w = elim (Bool-cases (value_eq p.node_id expected)) [
    | inl e ↦ rw e refl
    | inr e ↦ rw e refl
  ]
  check_owner-state desired (p ∷ q ∷ rest) w = refl

  check_owners-state :
      (found : List IronicPort) (desired : List Port) (w : W)
      → (check_owners b expected found desired w).1 ≡ w
  unfolding check_owners
  check_owners-state found [] w = refl
  check_owners-state found (d ∷ rest) w =
      state-continue w (λ _. check_owners b expected found rest)
        ((check_owner b expected d (matches_of d.address found) w).0) _
        (check_owner-state d (matches_of d.address found) w)
        (λ _. check_owners-state found rest _ ∙ check_owner-state d (matches_of d.address found) w)

  preflight-state :
      (desired : List Port) (w : W)
      → (preflight_port_ownership b expected desired w).1 ≡ (b.ports w).1
  unfolding preflight_port_ownership
  preflight-state desired w =
      state-continue _ (λ found. check_owners b expected found desired) ((b.ports w).0) _ refl
        (λ found. check_owners-state found desired _)

-- A declared node that is found once, in a state other than enroll and manageable, is refused, in
-- check mode and out of it: the call raises, in the state in which the two listings left the world.
pub reconcile_spec-forbidden :
    {W : Type 0} (b : Baremetal W) (check_mode : Bool) (timeout : ℕ) (spec : NodeSpec)
    (node : IronicNode) (listed : List IronicNode) (w w' : W)
    → b.nodes w ≡ (ok listed, w')
    → select (λ node. value_eq node.name (text spec.name)) listed ≡ node ∷ []
    → is_allowed_state node.provision_state ≡ false
    → FailsAt ((b.ports w').1) (reconcile_spec b check_mode timeout spec w)
unfolding reconcile_spec reconcile_found
reconcile_spec-forbidden b check_mode timeout spec node listed w w' listing only forbidden =
    rw (listing, only)
      (FailsAt-continue _ (λ _. bring_up b check_mode timeout spec false node)
        ((preflight_port_ownership b node.id spec.ports w').0) _
        (preflight-state b node.id spec.ports w')
        (λ _.
          subst
            (λ last. FailsAt last (
              bring_up b check_mode timeout spec false node
                ((preflight_port_ownership b node.id spec.ports w').1)))
            (preflight-state b node.id spec.ports w')
            (bring_up_forbidden b check_mode timeout spec false node _ forbidden)))
