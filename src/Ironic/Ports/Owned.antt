-- ===== src/Ironic/Ports/Owned.antt =====
-- The preflight of the ports: what it has checked when it returns, and that it changes nothing.
use irnmn.Prelude.{◌≡◌, refl, true, List, [], ◌∷◌, All, Bool-cases, inl, inr, ◌∙◌}
use irnmn.Values.{Value, value_eq}
use irnmn.Effect.{ok}
use irnmn.Effect.Post.{Returns, Returns-map, Returns-follow}
use irnmn.Ironic.Baremetal.{IronicPort, Baremetal}
use irnmn.Ironic.Spec.{Port}
use irnmn.Ironic.Ports.{matches_of, check_owner, check_owners, preflight_port_ownership}

-- At most one port, and it is the node's.
abbrev pub IsFreeOrOwned : Value → List IronicPort → Type 0
IsFreeOrOwned expected [] = Unit
IsFreeOrOwned expected (port ∷ []) = value_eq port.node_id expected ≡ true
IsFreeOrOwned expected (p ∷ q ∷ rest) = ⊥

module _ {W : Type 0} (b : Baremetal W) (expected : Value) where
  owner :
      (desired : Port) (here : List IronicPort) (w : W)
      → Returns
          (λ _ w'. (w' ≡ w) × IsFreeOrOwned expected here)
          (check_owner b expected desired here w)
  unfolding check_owner
  owner desired [] w = (refl, tt)
  owner desired (p ∷ []) w = elim (Bool-cases (value_eq p.node_id expected)) [
    | inl e ↦ rw e (refl, refl)
    | inr e ↦ rw e tt
  ]
  owner desired (p ∷ q ∷ rest) w = tt

  owners :
      (found : List IronicPort) (desired : List Port) (w : W)
      → Returns
          (λ _ w'.
            (w' ≡ w) × All (λ d. IsFreeOrOwned expected (matches_of d.address found)) desired)
          (check_owners b expected found desired w)
  unfolding check_owners
  owners found [] w = (refl, tt)
  owners found (d ∷ rest) w =
      Returns-follow {P = λ _ w'. (w' ≡ w) × IsFreeOrOwned expected (matches_of d.address found)} _
        _ _ (owner d (matches_of d.address found) w)
        (λ _ w' (same, free).
          Returns-map
            (λ _ w''.
              (w'' ≡ w') × All (λ d. IsFreeOrOwned expected (matches_of d.address found)) rest)
            _ _ (λ _ _ (same', later). (same' ∙ same, (free, later))) (owners found rest w'))

-- After a preflight that returned, on the listing it read, each desired address is free or belongs
-- to the expected node alone; nothing was called after that listing.
pub preflight_port_ownership-Returns :
    {W : Type 0} (b : Baremetal W) (expected : Value) (desired : List Port)
    (found : List IronicPort) (w w' : W)
    → b.ports w ≡ (ok found, w')
    → Returns
        (λ _ last.
          (last ≡ w') × All (λ d. IsFreeOrOwned expected (matches_of d.address found)) desired)
        (preflight_port_ownership b expected desired w)
unfolding preflight_port_ownership
preflight_port_ownership-Returns b expected desired found w w' listing =
    rw listing (owners b expected found desired w')
