-- ===== src/PowerOps/Power/Requests.antt =====
-- What `request_power` of operations.py may write: nothing, or one request that overrides none.
use irnmn.Prelude.{String, Bool, true, false, ◌≡◌, ◌≢◌, ◌⊎◌, ◌&◌, eq_iff, arith}
use irnmn.Attr.{is_text, truthy}
use irnmn.Effect.{ok, err, unsupported_power_target}
use irnmn.PowerOps.Cloud.{Node, Cloud}
use irnmn.PowerOps.Lookup.{ironic_node}
use irnmn.PowerOps.Power.{effective_target, is_power_target, request_for, request_power}

-- A soft request never asks for a hard power-off or a hard reboot.
effective_target_soft :
    (target : String)
    → (effective_target target true ≢ "power off") × (effective_target target true ≢ "rebooting")
unfolding effective_target
effective_target_soft target = (
  λ e. ground (
    arith,
    eq_iff target "power off",
    eq_iff "soft power off" "power off",
    eq_iff "soft rebooting" "power off",
  ),
  λ e. ground (
    arith,
    eq_iff target "rebooting",
    eq_iff "soft power off" "rebooting",
    eq_iff "soft rebooting" "rebooting",
  ),
)

module _ {W : Type 0} (cloud : Cloud W) (host target : String) (soft : Bool) (node : Node)
    (w : W) where
  request_for_writes :
      ((request_for cloud host target soft node w).1 ≡ w)
      ⊎ ((truthy node.target_power_state ≡ false)
          × (is_text node.power_state target ≡ false)
          × ((request_for cloud host target soft node w).1
              ≡ (cloud.set_node_power_state node (effective_target target soft) w).1))
  unfolding request_for
  request_for_writes = ground arith

  -- Once the target is known and the host's node is found, `request_power` leaves the world as
  -- the listing left it, or sends the effective target once; it sends only where the node is not
  -- in the target state and has no pending target, so no pending target is ever overridden.
  pub request_power_writes :
      (w₀ : W)
      → is_power_target target ≡ true
      → ironic_node cloud host w₀ ≡ (ok node, w)
      → ((request_power cloud host target soft w₀).1 ≡ w)
        ⊎ ((truthy node.target_power_state ≡ false)
            × (is_text node.power_state target ≡ false)
            × ((request_power cloud host target soft w₀).1
                ≡ (cloud.set_node_power_state node (effective_target target soft) w).1))
  unfolding request_power
  request_power_writes w₀ known found = rw (known, found) request_for_writes

-- An unknown power target is refused before any call of a service.
pub request_power_unknown :
    {W : Type 0} (cloud : Cloud W) (host target : String) (soft : Bool) (w : W)
    → is_power_target target ≡ false
    → request_power cloud host target soft w
      ≡ (err (unsupported_power_target ("unsupported power target: " & target)), w)
unfolding request_power
request_power_unknown cloud host target soft w h = rw h
