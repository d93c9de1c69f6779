-- ===== src/Fence/Writes.antt =====
-- What the fencing task writes: at most one power-off request, and never over another target.
use irnmn.Prelude.{◌≡◌, ◌⊎◌, false, arith}
use irnmn.Attr.{is_text, truthy}
use irnmn.PowerOps.Cloud.{Node, Cloud}
use irnmn.Fence.{Options, request_off}

-- Before it polls, the fencing task leaves the world alone, or sends one request: to power the node
-- off, where the node is not off and has no pending target. With any other pending target and the
-- node not off it fails and sends nothing.
pub request_off_writes :
    {W : Type 0} (cloud : Cloud W) (options : Options) (node : Node) (w : W)
    → ((request_off cloud options node w).1 ≡ w)
      ⊎ ((truthy node.target_power_state ≡ false)
          × (is_text node.power_state "power off" ≡ false)
          × ((request_off cloud options node w).1
              ≡ (cloud.set_node_power_state node "power off" w).1))
unfolding request_off
request_off_writes cloud options node w = ground arith
