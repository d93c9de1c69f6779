-- ===== src/Fence/Tests.antt =====
-- Runs of the fencing task on the fake cloud, and its theorems at these inputs.
use irnmn.Prelude.{◌≡◌, ◌⊎◌, refl, false, [], ◌∷◌, arith}
use irnmn.Attr.{null, text, is_text, truthy}
use irnmn.Effect.{ok}
use irnmn.Effect.Post.{Returns}
use irnmn.Effect.Polling.{poll}
use irnmn.PowerOps.Cloud.{Node}
use irnmn.PowerOps.Observe.{Streak}
use irnmn.PowerOps.Fake.{World, fake, calm, node_in}
use irnmn.Fence.{Options, fence_attempts, fence_verdict, request_off, execute}
use irnmn.Fence.Confirmed.{ShowsNode, execute-Returns}
use irnmn.Fence.Writes.{request_off_writes}

abbrev defaults : Options
defaults = record { power_timeout = 180; poll_interval = 5; stable_off_observations = 3 }

-- On, then off for good.
abbrev failing : World
failing = record calm {
  next_nodes =
      node_in "power on" (text "power off")
      ∷ node_in "power off" null
      ∷ node_in "power off" null
      ∷ node_in "power off" null
      ∷ [];
}

execute_run : execute fake defaults "compute-01" failing ≡ (
  ok (record {
    host = "compute-01";
    node_uuid = "node-1";
    power_state = "power off";
    stable_observations = 3;
  }),
  record failing {
    node = node_in "power off" null;
    next_nodes = [];
    calls = "power power off" ∷ [];
  },
)
unfolding execute poll fence_attempts fence_verdict
execute_run = refl

execute-Returns_example :
    Returns
      (λ reply w'. (n : Node) × Streak fake "power off" n 3 w' × ShowsNode 3 n reply)
      (execute fake defaults "compute-01" failing)
execute-Returns_example = execute-Returns fake defaults "compute-01" failing (omega arith)

request_off_writes_example :
    ((request_off fake defaults (node_in "power on" null) calm).1 ≡ calm)
    ⊎ ((truthy (node_in "power on" null).target_power_state ≡ false)
        × (is_text (node_in "power on" null).power_state "power off" ≡ false)
        × ((request_off fake defaults (node_in "power on" null) calm).1
            ≡ (fake.set_node_power_state (node_in "power on" null) "power off" calm).1))
request_off_writes_example = request_off_writes fake defaults (node_in "power on" null) calm
