-- ===== src/Fence.antt =====
-- The fencing task of plugins/masakari_ironic_fence, `class IronicFenceTask` in
-- src/masakari_ironic_fence/task.py.
pub mod Confirmed
pub mod Writes
mod Tests
use irnmn.Prelude.{
  ℕ, ◌+◌, String, Bool, not, max, ◌&&◌, List, [], ◌∷◌, select, leb, nat_eq, ◌&◌, if◌then◌else◌,
}
use irnmn.Attr.{null, get_attr, is_text, truthy}
use irnmn.Effect.{
  Exec, Result, ok, err, pure, raise, lift, raise_if, run_if, host_recovery_failure, external,
  ◌>>=◌, ◌>>◌,
}
use irnmn.Effect.Polling.{Round, done, again, poll}
use irnmn.PowerOps.Cloud.{Node, Cloud}
use irnmn.PowerOps.Duration.{pos, ceil_div}
use irnmn.PowerOps.Lookup.{node_named}
use irnmn.PowerOps.Observe.{watch_round}

-- The options of `[powerops_ironic]` in config.py.
pub record Options : Type 0 where
  pub power_timeout : ℕ
  pub poll_interval : ℕ
  pub stable_off_observations : ℕ

pub record FenceReply : Type 0 where
  pub host : String
  pub node_uuid : String
  pub power_state : String
  pub stable_observations : ℕ

-- `_fail`
abbrev pub fail {ℓ} : {A : Type ℓ} → String → Result A
fail message = err (host_recovery_failure ("Ironic fencing failed: " & message))

-- `pending and pending != "power off" and current != "power off"`
abbrev pub conflicts : Node → Bool
conflicts node =
    truthy (get_attr node.target_power_state null)
    && not (is_text (get_attr node.target_power_state null) "power off")
    && not (is_text (get_attr node.power_state null) "power off")

-- `attempts`; a poll interval of 0 raises ZeroDivisionError.
unfoldable pub fence_attempts : Options → Result ℕ
fence_attempts options =
    if nat_eq options.poll_interval 0
    then err (external "float division by zero")
    else ok (max 1 (ceil_div options.power_timeout options.poll_interval + 1))

-- What a snapshot of the node means to the loop of `execute`.
unfoldable pub fence_verdict : String → ℕ → Node → ℕ → Result (Round ℕ FenceReply)
fence_verdict host needed node stable =
    let stable' = if is_text (get_attr node.power_state null) "power off" then stable + 1 else 0 in
    if truthy node.last_error
    then fail "BMC reported an error"
    else if conflicts node
    then fail "Ironic Node has a conflicting power target"
    else if leb needed stable'
    then ok (
        done (record {
          host = host;
          node_uuid = node.id;
          power_state = "power off";
          stable_observations = stable';
        }))
    else ok (again stable')

module _ {W : Type 0} (cloud : Cloud W) (options : Options) where
  open cloud use {nodes, set_node_power_state, sleep}

  abbrev only_node : String → List Node → Result Node
  only_node host (node ∷ []) = ok node
  only_node host _ = fail ("expected exactly one Ironic Node named " & host)

  unfoldable pub exact_node : String → Exec W Node
  exact_node host = do found ← nodes; lift (only_node host (select (node_named host) found))

  -- The conflict test and the power-off request of `execute`.
  unfoldable pub request_off : Node → Exec W (Unit {0})
  request_off node = do
    raise_if (conflicts node) (
        host_recovery_failure
          ("Ironic fencing failed: " & "Ironic Node has a conflicting power target"))
    run_if
        (not (is_text (get_attr node.power_state null) "power off")
          && not (is_text (get_attr node.target_power_state null) "power off"))
        (set_node_power_state node "power off")

  unfoldable pub fence_round : String → Node × ℕ → Exec W (Round (Node × ℕ) FenceReply)
  unfolding watch_round
  fence_round host = watch_round cloud (fence_verdict host options.stable_off_observations)

  unfoldable pub execute : String → Exec W FenceReply
  unfolding exact_node request_off fence_round
  execute host = do
    node ← exact_node host
    request_off node
    rounds ← lift (fence_attempts options)
    poll (sleep (pos options.poll_interval)) (fence_round host)
        (host_recovery_failure
          ("Ironic fencing failed: " & "physical power off was not confirmed before timeout"))
        rounds (node, 0)

  -- `revert` only logs: the power stays as it is.
  unfoldable pub revert : String → Exec W (Unit {0})
  revert host = pure tt
